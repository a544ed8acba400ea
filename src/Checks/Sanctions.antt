-- ===== src/Checks/Sanctions.antt =====
-- sanctions.go: `Load` and `Run`. Files, the version table, bufio's lines, the functions of strings
-- and the hexadecimal form of an address are parameters.
use compliance_gateway.Common.{
  ℕ, ◌≡◌, ◌↔◌, refl, inl, inr, String, Bool, true, false, ◌||◌, Option, none, some, List, [], ◌∷◌,
  length, ◌==◌, if◌then◌else◌, Any, first, later, arith, Bool-cases, Result, ok, err, ◌>>=◌, or_err,
}
use compliance_gateway.Text.{Text, codes, text_eq}
use compliance_gateway.Evidence.Value.{null, int, text, array, object, Items, nil, cons, end, field}
use compliance_gateway.Config.{SanctionsList}
use compliance_gateway.Checks.{Screened, CheckResult}

pub data Err : Type 0 where
  no_file no_version_row no_list : Err

-- `loadedList`
pub record LoadedList : Type 0 where
  pub id : ℕ
  pub name : Text
  pub version : Text
  pub sha256 : Text
  pub loaded_at : Text
  pub entries : List Text

unfoldable pub has_entry : Text → List Text → Bool
has_entry a [] = false
has_entry a (x ∷ xs) = text_eq x a || has_entry a xs

-- The part of a line before its first `#`.
unfoldable pub before_comment : Text → Text
before_comment [] = []
before_comment (c ∷ cs) = let rest = before_comment cs in if c == b'#' then [] else c ∷ rest

module _ (trim to_lower : Text → Text) where
  -- `entries[…] = true` for every line that holds something; a set holds an entry once.
  unfoldable pub entries_of : List Text → List Text
  unfolding before_comment has_entry
  entries_of [] = []
  entries_of (l ∷ ls) =
      let rest = entries_of ls in
      let line = trim (before_comment l) in
      if text_eq line [] || has_entry (to_lower line) rest then rest else to_lower line ∷ rest

  module _ (sha : Text → Text) (lines : Text → List Text) (utf8 : String → Text) where
    -- One list: its file, its entries, and its row of `sanctions_list_version`.
    unfoldable pub load_one :
        (String → Option Text)
        → (Text → Text → Text → ℕ → Option (ℕ × Text))
        → SanctionsList
        → Result Err LoadedList
    unfolding entries_of
    load_one read_file version_row c = do
      raw ← or_err no_file (read_file c.path)
      let es = entries_of (lines raw)
      row ← or_err no_version_row (version_row (utf8 c.name) (utf8 c.version) (sha raw) (length es))
      ok (record {
        id = row.0;
        name = utf8 c.name;
        version = utf8 c.version;
        sha256 = sha raw;
        loaded_at = row.1;
        entries = es;
      })

    unfoldable pub load_all :
        (String → Option Text)
        → (Text → Text → Text → ℕ → Option (ℕ × Text))
        → List SanctionsList
        → Result Err (List LoadedList)
    unfolding load_one
    load_all read_file version_row [] = ok []
    load_all read_file version_row (c ∷ cs) = do
      l ← load_one read_file version_row c
      ls ← load_all read_file version_row cs
      ok (l ∷ ls)

    -- `Load`: the lists are replaced when all of them were read, and otherwise kept.
    unfoldable pub load :
        (String → Option Text)
        → (Text → Text → Text → ℕ → Option (ℕ × Text))
        → List SanctionsList
        → List LoadedList
        → List LoadedList × Option Err
    unfolding load_all
    load read_file version_row cfgs lists = elim (load_all read_file version_row cfgs) [
      | ok ls ↦ (ls, none)
      | err e ↦ (lists, some e)
    ]

abbrev pub used_lists : List LoadedList → Items
used_lists [] = nil
used_lists (l ∷ ls) =
    cons
      (object (
        field (codes "name") (text l.name) (
          field (codes "version") (text l.version) (
            field (codes "sha256") (text l.sha256) (
              field (codes "loaded_at") (text l.loaded_at)
                (field (codes "version_id") (int l.id) end))))))
      (used_lists ls)

-- The lists that have the address.
unfoldable pub matched : Text → List LoadedList → List LoadedList
unfolding has_entry
matched payer [] = []
matched payer (l ∷ ls) =
    let rest = matched payer ls in if has_entry payer l.entries then l ∷ rest else rest

abbrev pub matches_of : Text → List LoadedList → Items
matches_of value [] = nil
matches_of value (l ∷ ls) =
    cons
      (object (
        field (codes "field") (text (codes "payer_address")) (
          field (codes "value") (text value) (
            field (codes "list") (text l.name)
              (field (codes "list_version") (text l.version) end)))))
      (matches_of value ls)

abbrev pub is_none : List LoadedList → Bool
is_none [] = true
is_none (l ∷ ls) = false

abbrev pub no_match_text : Text
no_match_text =
    codes "No match on the payer address. Direct counterparties are not screened in this version."

-- `Sanctions.Run`: `hex` is Address.Hex.
unfoldable pub sanctions_run :
    (Text → Text) → (ℕ → Text) → Text → List LoadedList → Screened → Result Err CheckResult
unfolding matched
sanctions_run to_lower hex now lists p =
    let hits = matched (to_lower (hex p.payer)) lists in
    let outcome = if is_none hits then codes "NO_MATCH" else codes "TRUE_MATCH" in
    if is_none lists
    then err no_list
    else ok (record {
      kind = [];
      provider = codes "Deflow";
      product = codes "address list screening";
      outcome = outcome;
      section = field (codes "fields_screened") (text (codes "Payer address")) (
          field (codes "name_screening") (text (codes "NOT_PERFORMED")) (
            field (codes "algorithm") (text (codes "exact address match, case-insensitive")) (
              field (codes "threshold") (text (codes "exact")) (
                field (codes "calibration_version") (text (codes "n/a")) (
                  field (codes "lists") (array (used_lists lists)) (
                    field (codes "screened_at") (text now) (
                      field (codes "result") (text outcome) (
                        field (codes "matched_on")
                          (if is_none hits
                            then text (
                                codes
                                  "No match on the payer address. Direct counterparties are not screened in this version.")
                            else array (matches_of (hex p.payer) hits))
                          (field (codes "alert_analysis") null (
                            field (codes "reviewer") null
                              (field (codes "second_reviewer") null end)))))))))));
      raw_sha256 = [];
      performed_at = some now;
    })

-- A list has the address.
abbrev pub Lists : Text → List LoadedList → Type 0
Lists payer lists = Any (λ (l : LoadedList). has_entry payer l.entries ≡ true) lists

matched-Lists :
    (payer : Text) (ls : List LoadedList) → is_none (matched payer ls) ≡ false → Lists payer ls
unfolding matched
matched-Lists payer [] h = absurd (ground arith)
matched-Lists payer (l ∷ ls) h = elim (Bool-cases (has_entry payer l.entries)) [
  | inl y ↦ first y
  | inr n ↦ later (matched-Lists payer ls (ground arith))
]

Lists-matched :
    (payer : Text) {ls : List LoadedList} → Lists payer ls → is_none (matched payer ls) ≡ false
unfolding matched
Lists-matched payer (first h) = ground arith
Lists-matched payer (later m) = ground (arith, Lists-matched payer m)

outcome_iff :
    (b : Bool)
    → ((if b then codes "NO_MATCH" else codes "TRUE_MATCH") ≡ codes "TRUE_MATCH") ↔ (b ≡ false)
outcome_iff true = (λ e. cc, λ e. cc)
outcome_iff false = (λ e. refl, λ e. refl)

-- When a list is loaded the payer is screened, and the outcome is TRUE_MATCH exactly when the payer's
-- address in lower case is an entry of some loaded list.
pub sanctions_run_iff :
    (to_lower : Text → Text) (hex : ℕ → Text) (now : Text) (l : LoadedList) (ls : List LoadedList)
    (p : Screened)
    → (r : CheckResult) × (sanctions_run to_lower hex now (l ∷ ls) p ≡ ok r)
      × ((r.outcome ≡ codes "TRUE_MATCH")
          ↔ Any (λ (k : LoadedList). has_entry (to_lower (hex p.payer)) k.entries ≡ true) (l ∷ ls))
unfolding sanctions_run
sanctions_run_iff to_lower hex now l ls p =
    let payer = to_lower (hex p.payer) in
    let test = outcome_iff (is_none (matched payer (l ∷ ls))) in
    (_, refl, (λ e. matched-Lists payer (l ∷ ls) (test.0 e), λ m. test.1 (Lists-matched payer m)))
