-- ===== src/Pipeline.antt =====
-- compliance-backend/internal/pipeline. This file has the rows that the pipeline reads and `prepare`
-- (decide.go): the next Decision of a payment, from the snapshot's root and the past decisions in the
-- order of their nonces. The modules below have the tables and the operations on them.
pub mod Sequence
pub mod Env
pub mod Store
pub mod Sections
pub mod Issue
pub mod Officer
pub mod Rulesets
pub mod Snapshot
pub mod Checking
pub mod Advance
pub mod Queries
pub mod Views
pub mod Books
pub mod Progress
pub mod Automatic
pub mod Disclosures
use compliance_gateway.Common.{
  ℕ, ◌+◌, ◌%◌, max, Bool, Option, none, some, List, [], ◌∷◌, Result, ok, err, ◌>>=◌, or_err,
}
use compliance_gateway.Decision.Transition.{replay, next}
use compliance_gateway.Text.{Text}
use compliance_gateway.Decision.Verify.{Struct, TypedData, decision_data}

-- `pastDecision`, a decision as it is stored. Times are in nanoseconds.
pub record PastDecision : Type 0 where
  pub kind : ℕ
  pub nonce : ℕ
  pub mode : Text
  pub policy_ref : Text
  pub reasons : List Text
  pub rationale : Text
  pub officer_id : Option Text
  pub signer : ℕ
  pub signature : List ℕ
  pub pack_hash : Text
  pub decided_at : ℕ

-- `row`, a payment as the pipeline reads it.
pub record Row : Type 0 where
  pub id : ℕ
  pub chain_id : ℕ
  pub tx_hash : ℕ
  pub log_index : ℕ
  pub block_number : ℕ
  pub block_time : ℕ
  pub token : ℕ
  pub payer : ℕ
  pub deposit : ℕ
  pub amount : ℕ
  pub reconstruction : Bool

-- The errors that the API tells apart; every other one is internal.
pub data Err : Type 0 where
  not_found conflict forbidden bad_request internal : Err

unfoldable pub kinds : List PastDecision → List ℕ
kinds [] = []
kinds (d ∷ ds) = d.kind ∷ kinds ds

unfoldable pub last_nonce : List PastDecision → ℕ
last_nonce [] = 0
last_nonce (d ∷ ds) = max d.nonce (last_nonce ds)

abbrev pub struct_of : ℕ → List PastDecision → Row → ℕ → ℕ → Struct
struct_of root past r kind deadline = record {
  payment_id = r.id;
  decision = kind;
  token = r.token;
  amount = r.amount;
  pack_hash = root;
  nonce = (last_nonce past + 1) % 18446744073709551616;
  deadline = deadline;
}

-- `prepare`; the error of the replay is dropped, as in the source.
unfoldable pub prepare :
    Option ℕ → List PastDecision → Row → ℕ → ℕ → Result Err (Struct × TypedData)
unfolding kinds last_nonce replay next
prepare root past r kind deadline = do
  h ← or_err conflict root
  elim (next (replay (kinds past)).0 kind).1 [
    | some e ↦ err conflict
    | none ↦ ok (
      struct_of h past r kind deadline,
      decision_data r.chain_id r.deposit (struct_of h past r kind deadline),
    )
  ]
