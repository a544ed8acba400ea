-- ===== src/Examples/Preparing.antt =====
-- decide.go, `prepare`, at a concrete history.
use compliance_gateway.Common.{ℕ, ◌≡◌, refl, none, some, false, List, [], ◌∷◌, ok}
use compliance_gateway.Decision.{hold, freeze, credit}
use compliance_gateway.Decision.Verify.{Struct, TypedData, decision_data}
use compliance_gateway.Pipeline.{PastDecision, Row, prepare}

abbrev pub decided : ℕ → ℕ → PastDecision
decided kind nonce = record {
  kind = kind;
  nonce = nonce;
  mode = [];
  policy_ref = [];
  reasons = [];
  rationale = [];
  officer_id = none;
  signer = 9;
  signature = [];
  pack_hash = [];
  decided_at = 0;
}

abbrev past : List PastDecision
past = decided hold 1 ∷ decided freeze 2 ∷ []

abbrev row : Row
row = record {
  id = 1;
  chain_id = 1;
  tx_hash = 3;
  log_index = 0;
  block_number = 60;
  block_time = 0;
  token = 5;
  payer = 6;
  deposit = 7;
  amount = 900;
  reconstruction = false;
}

abbrev next_struct : Struct
next_struct = record {
  payment_id = 1;
  decision = credit;
  token = 5;
  amount = 900;
  pack_hash = 77;
  nonce = 3;
  deadline = 1000;
}

abbrev document : TypedData
document = decision_data 1 7 next_struct

prepared : prepare (some 77) past row credit 1000 ≡ ok (next_struct, document)
unfolding prepare
prepared = refl
