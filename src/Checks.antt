-- ===== src/Checks.antt =====
-- compliance-backend/internal/checks/checks.go: how the checks are run, and their results. What a
-- check replies within its time is a parameter of each run, as are the store of raw responses
-- (`put`) and the clock (`now`, formatted).
pub mod Kyt
pub mod Issuer
pub mod Sanctions
pub mod Structuring
pub mod Complete
use compliance_gateway.Common.{ℕ, Option, none, some, List, [], ◌∷◌, Result, ok, err, if◌then◌else◌}
use compliance_gateway.Text.{Text, codes, text_eq}
use compliance_gateway.Evidence.Value.{Value, text, Fields, end, field}

abbrev pub unavailable_text : Text
unavailable_text = codes "UNAVAILABLE"

-- `Payment`
pub record Screened : Type 0 where
  pub id : ℕ
  pub chain_id : ℕ
  pub block_number : ℕ
  pub block_time : ℕ
  pub token : ℕ
  pub payer : ℕ
  pub deposit : ℕ
  pub amount : ℕ
  pub amount_eur : Text

-- `Result`; the zero time is `none`.
pub record CheckResult : Type 0 where
  pub kind : Text
  pub provider : Text
  pub product : Text
  pub outcome : Text
  pub section : Fields
  pub raw_sha256 : Text
  pub performed_at : Option Text

abbrev pub zero_result : CheckResult
zero_result = record {
  kind = [];
  provider = [];
  product = [];
  outcome = [];
  section = end;
  raw_sha256 = [];
  performed_at = none;
}

-- What `Run` returns, or why it did not.
pub data Reply : Type 0 where
  returned : CheckResult → Option (List ℕ) → Option Text → Reply
  panicked : Text → Reply
  timed_out : Text → Reply

-- `unavailable`
unfoldable pub unavailable : Text → Text → CheckResult → Text → CheckResult
unavailable now kind partial error = record {
  kind = kind;
  provider = if text_eq partial.provider [] then codes "n/a" else partial.provider;
  product = if text_eq partial.provider [] then codes "n/a" else partial.product;
  outcome = unavailable_text;
  section =
      field (codes "result") (text unavailable_text)
        (field (codes "error") (text error) (field (codes "checked_at") (text now) end));
  raw_sha256 = [];
  performed_at = some now;
}

-- The end of `runOne`, once there is no error.
abbrev pub completed : Text → Text → CheckResult → CheckResult
completed now kind r = record r {
  kind = kind;
  performed_at = elim r.performed_at [ none ↦ some now | some t ↦ some t ];
}

module _ (put : List ℕ → Result Text Text) (now : Text) where
  -- `runOne`
  unfoldable pub run_one : Text → Reply → CheckResult
  unfolding unavailable
  run_one kind (panicked v) = unavailable now kind zero_result v
  run_one kind (timed_out e) = unavailable now kind zero_result e
  run_one kind (returned r b (some e)) = unavailable now kind r e
  run_one kind (returned r none none) = completed now kind r
  run_one kind (returned r (some b) none) = elim (put b) [
    | ok h ↦ completed now kind (record r { raw_sha256 = h })
    | err e ↦ unavailable now kind r e
  ]

  -- `RunAll`: the checks run at once, and each writes its own place of the list.
  unfoldable pub run_all : List (Text × Reply) → List CheckResult
  unfolding run_one
  run_all [] = []
  run_all ((kind, reply) ∷ cs) = run_one kind reply ∷ run_all cs
