-- ===== src/Checks/Structuring.antt =====
-- structuring.go and fx.go: rule SPLIT-03 over the payer's payments of 72 hours. The rows of the query
-- are a parameter, and so are big.Rat's reading (`set_string`) and printing (`float_string`).
use compliance_gateway.Common.{
  ℕ, ◌+◌, ◌^◌, String, Bool, true, false, ◌&&◌, ◌||◌, Option, none, some, List, [], ◌∷◌, ◌++◌, leb,
  ◌==◌, if◌then◌else◌, Result, ok, ◌>>=◌, or_err,
}
use compliance_gateway.Text.{Text, codes, itoa}
use compliance_gateway.Rat.{Rat, ℤ, ge, less, add, mul, quo, whole}
use compliance_gateway.Evidence.Value.{int, text, array, object, Items, nil, cons, end, field}
use compliance_gateway.Config.{ChainConfig, chain_by_id, token_at}
use compliance_gateway.Checks.{Screened, CheckResult}

pub data Err : Type 0 where
  no_chain no_token bad_amount bad_rate bad_decimal : Err

-- A row of the query; `amount` is what big.Int reads of its text.
pub record Row : Type 0 where
  pub id : ℕ
  pub chain_id : ℕ
  pub token : ℕ
  pub amount : Option ℤ
  pub pack_id : Option Text

-- What the loop over the rows has gathered.
pub record Window : Type 0 where
  pub aggregate : Rat
  pub band : ℕ
  pub linked : ℕ
  pub pack_ids : List Text
  pub seen_self : Bool

abbrev pub empty_window : Window
empty_window = record {
  aggregate = whole 0;
  band = 0;
  linked = 0;
  pack_ids = [];
  seen_self = false;
}

abbrev pub in_band : Rat → Bool
in_band eur = ge eur (whole 900) && less eur (whole 1000)

-- One amount added to the sums.
abbrev pub count_in : Rat → Window → Window
count_in eur w = record w {
  aggregate = add w.aggregate eur;
  band = if in_band eur then w.band + 1 else w.band;
  linked = w.linked + 1;
}

-- The row is the payment's own, or another one whose pack is linked.
abbrev pub link : Screened → Row → Window → Window
link p row w =
    if row.id == p.id
    then record w { seen_self = true }
    else elim row.pack_id [ none ↦ w | some q ↦ record w { pack_ids = w.pack_ids ++ q ∷ [] } ]

abbrev pub pack_items : List Text → Items
pack_items [] = nil
pack_items (q ∷ qs) = cons (text q) (pack_items qs)

abbrev pub larger : Rat → Rat → Rat
larger a b = if ge a b then a else b

-- FLAG from 5000 EUR in all, or from three payments in the band below 1000 EUR.
abbrev pub is_flagged : Window → Bool
is_flagged w = ge w.aggregate (whole 5000) || leb 3 w.band

module _ (set_rate : String → Option Rat) (set_string : Text → Option Rat)
    (float_string : ℕ → Rat → Text) where
  -- `EUR`: the amount in units of the token, at the rate, rounded to cents.
  unfoldable pub eur_text : ℤ → ℕ → String → Result Err Text
  unfolding mul
  eur_text amount decimals rate = do
    r ← or_err bad_rate (set_rate rate)
    ok (float_string 2 (mul (record { num = amount; den = 10 ^ decimals }) r))

  -- `eur` of a row, read back as a number.
  unfoldable pub eur_of : List ChainConfig → Row → Result Err Rat
  unfolding chain_by_id token_at eur_text
  eur_of chains row = do
    ch ← or_err no_chain (chain_by_id row.chain_id chains)
    t ← or_err no_token (token_at row.token ch.tokens)
    a ← or_err bad_amount row.amount
    e ← eur_text a t.decimals t.eur_rate
    or_err bad_decimal (set_string e)

  unfoldable pub gather : List ChainConfig → Screened → List Row → Window → Result Err Window
  unfolding eur_of add ge less
  gather chains p [] w = ok w
  gather chains p (row ∷ rows) w =
      eur_of chains row >>= λ eur. gather chains p rows (link p row (count_in eur w))

  -- The payment itself is always part of its own window.
  unfoldable pub with_self : Screened → Window → Result Err Window
  unfolding add ge less
  with_self p w =
      if w.seen_self
      then ok w
      else or_err bad_decimal (set_string p.amount_eur) >>= λ eur. ok (count_in eur w)

  -- The larger share of the two limits, and at most 1.
  unfoldable pub score_of : Window → Rat
  unfolding quo ge
  score_of w =
      let s = larger (quo w.aggregate 5000) (quo (whole w.band) 3) in
      if ge (whole 1) s then s else whole 1

  -- `Structuring.Run`
  unfoldable pub structuring_run :
      Text → List ChainConfig → Screened → List Row → Result Err CheckResult
  unfolding gather with_self score_of ge
  structuring_run now chains p rows = do
    w0 ← gather chains p rows empty_window
    w ← with_self p w0
    let outcome = if is_flagged w then codes "FLAG" else codes "PASS"
    ok (record {
      kind = [];
      provider = codes "Deflow";
      product = codes "SPLIT-03";
      outcome = outcome;
      section = field (codes "rule_id") (text (codes "SPLIT-03")) (
          field (codes "window") (text (codes "72h")) (
            field (codes "thresholds")
              (object (
                field (codes "aggregate_eur") (text (codes "5000.00")) (
                  field (codes "band_eur") (text (codes "900.00-999.99"))
                    (field (codes "band_count") (text (codes "3")) end))))
              (field (codes "linked_count") (int w.linked) (
                field (codes "linked_pack_ids") (array (pack_items w.pack_ids)) (
                  field (codes "features")
                    (object (
                      field (codes "aggregate_eur") (text (float_string 2 w.aggregate)) (
                        field (codes "band_count") (text (itoa w.band))
                          (field (codes "cluster") (text (codes "address")) end))))
                    (field (codes "score") (text (float_string 2 (score_of w))) (
                      field (codes "result") (text outcome)
                        (field (codes "evaluated_at") (text now) end))))))));
      raw_sha256 = [];
      performed_at = some now;
    })
