-- ===== src/App/Imported.antt =====
-- main.go and rulesets.go: the hash that `ruleset-hash` prints is the one under which the service stores
-- the same bytes.
use compliance_gateway.Common.{
  Result, err, sym, Bool, true, false, ap, bind_ok, require, ◌≡◌, refl, ◌∙◌, inl, inr, not, Option,
  none, some, List, [], ◌∷◌, ◌++◌, any, arith, Bool-cases, ok, or_err, or_err_ok, Holds, holds,
  fails, Holds-ok, require-Holds, subst,
}
use compliance_gateway.Text.{Text, text_eq}
use compliance_gateway.Text.Laws.{text_eq_eq, text_eq_refl}
use compliance_gateway.Rules.Parse.{Parsed, parse}
use compliance_gateway.Pipeline.{Err, internal, conflict}
use compliance_gateway.Pipeline.Env.{Env}
use compliance_gateway.Pipeline.Store.{Db, RulesetRow}
use compliance_gateway.Pipeline.Rulesets.{
  find_ruleset, draft, insert_over, insert_ruleset, after_insert, after_parse, import_ruleset,
}
use compliance_gateway.App.Command.{ruleset_hash, bad_ruleset}

found_added :
    (d : RulesetRow) (rs : List RulesetRow)
    → find_ruleset d.version rs ≡ none
    → find_ruleset d.version (rs ++ d ∷ []) ≡ some d
unfolding find_ruleset
found_added d [] h = rw (text_eq_refl d.version) refl
found_added d (r ∷ rs) h = ground (arith, found_added d rs)

-- A row of this version is there, with the hash that is answered.
abbrev pub IsStored : Text → Text → Db → Type 0
IsStored version hash db =
    (r : RulesetRow) × (find_ruleset version db.rulesets ≡ some r) × (r.ruleset_hash ≡ hash)

insert_over-IsStored :
    (d : RulesetRow) (db : Db) (o : Option RulesetRow)
    → find_ruleset d.version db.rulesets ≡ o
    → Holds (λ out. IsStored d.version out.0 out.1) (insert_over d db o)
insert_over-IsStored d db (some r) h = elim (Bool-cases r.approved) [
  | inl y ↦ rw y fails
  | inr z ↦ rw z (holds (r, h, refl))
]
insert_over-IsStored d db none h =
    require-Holds (not (any (λ r. text_eq r.ruleset_hash d.ruleset_hash) db.rulesets)) internal _
      λ _. holds (d, found_added d db.rulesets h, refl)

insert_ruleset-IsStored :
    (d : RulesetRow) (db : Db) → Holds (λ out. IsStored d.version out.0 out.1) (insert_ruleset d db)
unfolding insert_ruleset
insert_ruleset-IsStored d db = insert_over-IsStored d db _ refl

parsed_ok :
    (env : Env) (raw v h : Text)
    → ruleset_hash env raw ≡ ok (v, h)
    → (p : Parsed) × (parse env.decode_ruleset env.decode env.set_string env.sha raw ≡ some p)
      × (env.utf8 p.rules.version ≡ v)
      × (p.hash ≡ h)
unfolding ruleset_hash
parsed_ok env raw v h e =
    let read = parse env.decode_ruleset env.decode env.set_string env.sha raw in
    let (p, f, g) = bind_ok (or_err bad_ruleset read) _ e in
    (p, or_err_ok bad_ruleset read f, cc, cc)

ok_pair : {a b : Text × Text} → ◌≡◌ {A = Result Err (Text × Text)} (ok a) (ok b) → a ≡ b
ok_pair e = cc

passed : (b : Bool) {u : Unit {0}} → require b conflict ≡ ok u → b ≡ true
passed true h = refl
passed false h = cc

after_insert-IsStored :
    (env : Env) (p : Parsed) (db : Db) (r : Result Err (Text × Db)) {w k : Text} {after : Db}
    → Holds (λ out. IsStored (draft env p).version out.0 out.1) r
    → after_insert env p db r ≡ (ok (w, k), after)
    → (w ≡ env.utf8 p.rules.version)
      × (k ≡ p.hash)
      × IsStored (env.utf8 p.rules.version) p.hash after
after_insert-IsStored env p db (err e) h same = cc
after_insert-IsStored env p db (ok stored) {w} {k} {after} h same =
    let (_, t, g) = bind_ok (require (text_eq stored.0 p.hash) conflict) _ (ap (λ x. x.0) same) in
    let y = passed (text_eq stored.0 p.hash) t in
    (
      sym (ap (λ x. x.0) (ok_pair g)),
      sym (ap (λ x. x.1) (ok_pair g)),
      subst (IsStored (env.utf8 p.rules.version) p.hash) (ap (λ x. x.1) same) (
          subst (λ h. IsStored (env.utf8 p.rules.version) h stored.1) (text_eq_eq stored.0 p.hash y)
            (Holds-ok h refl)),
    )

import_ruleset-IsStored :
    (env : Env) (raw : Text) (p : Parsed) (db : Db) {w k : Text} {after : Db}
    → parse env.decode_ruleset env.decode env.set_string env.sha raw ≡ some p
    → import_ruleset env raw db ≡ (ok (w, k), after)
    → (w ≡ env.utf8 p.rules.version)
      × (k ≡ p.hash)
      × IsStored (env.utf8 p.rules.version) p.hash after
unfolding import_ruleset
import_ruleset-IsStored env raw p db e f =
    after_insert-IsStored env p db (insert_ruleset (draft env p) db)
      (insert_ruleset-IsStored (draft env p) db) (sym (ap (after_parse env db) e) ∙ f)

-- When `ruleset-hash` prints a version and a hash of some bytes, and the service imports the same
-- bytes, then it answers with this version and this hash, and it has stored a ruleset of this version
-- with this hash.
pub ruleset_hash-import_ruleset :
    (env : Env) (raw v h w k : Text) (db after : Db)
    → ruleset_hash env raw ≡ ok (v, h)
    → import_ruleset env raw db ≡ (ok (w, k), after)
    → (w ≡ v) × (k ≡ h) × IsStored v h after
ruleset_hash-import_ruleset env raw v h w k db after e f =
    let (p, g, a, b) = parsed_ok env raw v h e in
    let (x, y, z) = import_ruleset-IsStored env raw p db g f in
    (
      x ∙ a,
      y ∙ b,
      subst (λ u. IsStored u h after) a
          (subst (λ u. IsStored (env.utf8 p.rules.version) u after) b z),
    )
