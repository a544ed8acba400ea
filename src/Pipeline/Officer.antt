-- ===== src/Pipeline/Officer.antt =====
-- officer.go: the document that an officer signs, and the officer's decision.
use compliance_gateway.Common.{
  ℕ, ◌+◌, not, none, some, List, ltb, ◌==◌, Result, ok, ◌>>=◌, ◌>>◌, or_err, require, map_err,
}
use compliance_gateway.Text.{Text, codes}
use compliance_gateway.Decision.Verify.{Struct, TypedData, decision_data, Officer, verify_officer}
use compliance_gateway.Pipeline.{Err, conflict, forbidden, bad_request, internal, Row}
use compliance_gateway.Pipeline.Env.{Env, Moment}
use compliance_gateway.Pipeline.Store.{
  Db, PendingRow, RecommendationRow, at, is_bigint, lock_payment,
}
use compliance_gateway.Pipeline.Issue.{prepare_next, record_decision, RecordInput}

-- officerRequestTTL, 15 minutes.
abbrev pub request_ttl : ℕ
request_ttl = 900000000000

-- `OfficerTypedData`: the prepared document is kept as the pending one.
unfoldable pub officer_typed_data : Env → Moment → ℕ → ℕ → Db → Result Err (TypedData × Db)
unfolding lock_payment prepare_next
officer_typed_data env m id kind db = do
  r ← lock_payment id db
  p ← prepare_next env m r kind db
  require (is_bigint p.0.nonce) internal
  require (is_bigint p.0.deadline) internal
  ok (
    p.1,
    record db {
      pending =
          at id
            (at kind
              (some (record {
                nonce = p.0.nonce;
                deadline = p.0.deadline;
                typed_data = p.1;
                expires_at = m.now + request_ttl;
              }))
              (db.pending id))
            db.pending;
    },
  )

-- What is signed: the prepared Decision with the pending request's deadline.
abbrev pub signed_struct : Struct → PendingRow → Struct
signed_struct s q = record s { deadline = q.deadline }

abbrev pub signed_document : Row → Struct → PendingRow → TypedData
signed_document r s q = decision_data r.chain_id r.deposit (signed_struct s q)

abbrev pub officer_input : Env → RecommendationRow → Officer → Text → List ℕ → RecordInput
officer_input env rec o rationale sig = record {
  mode = codes "OFFICER_REVIEW";
  policy_ref = rec.policy_ref;
  reasons = rec.reasons;
  rationale = rationale;
  officer_id = some (env.utf8 o.officer_id);
  signer = o.address;
  signature = sig;
}

-- `OfficerDecide`
unfoldable pub officer_decide :
    Env → Moment → ℕ → ℕ → List ℕ → Text → Db → Result Err ((Text × ℕ) × Db)
unfolding lock_payment prepare_next verify_officer record_decision
officer_decide env m id kind sig rationale db = do
  require (not (env.blank rationale)) bad_request
  r ← lock_payment id db
  q ← or_err conflict (db.pending id kind)
  require (not (ltb q.expires_at m.now)) conflict
  p ← prepare_next env m r kind db
  require (p.0.nonce == q.nonce) conflict
  o ←
      map_err (λ _. forbidden)
        (verify_officer env.digest env.sig_to_address (signed_document r p.0 q) sig kind
          env.config.officers)
  rec ← or_err internal (db.recommendations id)
  out ←
      record_decision env m r (signed_struct p.0 q) (signed_document r p.0 q)
        (officer_input env rec o rationale sig) db
  ok (out.0, record out.1 { pending = at id (λ _. none) out.1.pending })
