-- ===== src/Attestor/Workflow.antt =====
-- workflow/workflow.go and internal/chain: the three handlers, each with the report that it writes.
use compliance_gateway.Common.{
  ℕ, ◌/◌, Bool, false, not, ◌&&◌, Option, none, some, List, [], ◌∷◌, leb, ltb, ◌==◌, if◌then◌else◌,
  Result, ok, err, ◌>>=◌, ◌>>◌, or_err, require, map_err,
}
use compliance_gateway.Text.{Text}
use compliance_gateway.Attestor.{
  Config, Runtime, VerificationRequest, Attestation, Entry, attest, revoke, Report, attestations,
  settlement,
}
use compliance_gateway.Attestor.Verifying.{
  Err as VerifyErr, world_id_level, sumsub_level, verify_sumsub, verify_world_id, score,
}

pub data Err : Type 0 where
  no_secret no_queue no_payment no_score bad_request not_written : Err

-- The values of the secrets that a verification needs.
pub record Secrets : Type 0 where
  pub session_id : Text
  pub enclave_nullifier : Text
  pub sumsub_app_token : Text
  pub sumsub_secret_key : Text

abbrev pub secrets_of : Text → Text → Text → Text → Secrets
secrets_of session enclave app_token secret_key = record {
  session_id = session;
  enclave_nullifier = enclave;
  sumsub_app_token = app_token;
  sumsub_secret_key = secret_key;
}

-- An attestation that still holds is not renewed; one that cannot be read does not hold.
abbrev pub is_valid : ℕ → Option Attestation → Bool
is_valid now none = false
is_valid now (some a) = not (a.level == 0) && ltb now a.expiry

abbrev pub entry_of : VerificationRequest → Attestation → Entry
entry_of q a = record {
  kind = attest;
  gate = q.gate;
  wallet = q.wallet;
  att = a;
  nullifier = a.nullifier;
}

module _ (c : Config) (rt : Runtime) where
  -- The provider of the request's level.
  unfoldable pub verify : Secrets → VerificationRequest → Option (Result VerifyErr Attestation)
  unfolding verify_sumsub verify_world_id
  verify s q =
      if q.level == world_id_level
      then some (verify_world_id rt c.attestation_ttl q)
      else if q.level == sumsub_level
      then some (
          verify_sumsub rt s.sumsub_app_token s.sumsub_secret_key s.session_id s.enclave_nullifier
            c.attestation_ttl q)
      else none

  -- One round of the loop.
  unfoldable pub attempt : Secrets → VerificationRequest → Option Entry
  unfolding verify
  attempt s q = elim (verify s q) [
    | none ↦ none
    | some v ↦
        if is_valid rt.now (rt.attestation_of q.gate q.wallet)
        then none
        else elim v [ err e ↦ none | ok a ↦ some (entry_of q a) ]
  ]

  unfoldable pub batch_of : Secrets → List VerificationRequest → List Entry
  unfolding attempt
  batch_of s [] = []
  batch_of s (q ∷ qs) =
      let rest = batch_of s qs in elim (attempt s q) [ none ↦ rest | some e ↦ e ∷ rest ]

  -- `onVerificationCron`
  unfoldable pub on_verification_cron : Result Err Report
  unfolding batch_of
  on_verification_cron = do
    token ← or_err no_secret (rt.get_secret c.relay_fetch_token_id)
    session ← or_err no_secret (rt.get_secret c.session_id_secret_id)
    enclave ← or_err no_secret (rt.get_secret c.enclave_nullifier_secret_id)
    pending ← or_err no_queue (rt.pending token (rt.now / 60))
    app_token ← or_err no_secret (rt.get_secret c.sumsub_app_token_id)
    secret_key ← or_err no_secret (rt.get_secret c.sumsub_secret_id)
    let s = secrets_of session enclave app_token secret_key
    require (rt.write_report (attestations rt.now (batch_of s pending))) not_written
    ok (attestations rt.now (batch_of s pending))

-- `onPaymentOpened`, of the gate, the payment's id and the payer.
unfoldable pub on_payment_opened : Runtime → ℕ → ℕ → ℕ → Result Err Report
unfolding score
on_payment_opened rt gate id payer = do
  payment ← or_err no_payment (rt.payments gate id)
  risk ← map_err (λ _. no_score) (score rt payer)
  require (rt.write_report (settlement id (leb risk payment.max_risk))) not_written
  ok (settlement id (leb risk payment.max_risk))

abbrev pub revocation : ℕ → Entry
revocation nullifier = record {
  kind = revoke;
  gate = 0;
  wallet = 0;
  att = record { nullifier = 0; level = 0; expiry = 0 };
  nullifier = nullifier;
}

-- `onRevocationWebhook`
unfoldable pub on_revocation_webhook : Runtime → Text → Result Err Report
on_revocation_webhook rt input = do
  nullifier ← or_err bad_request (rt.decode_revocation input)
  let r = attestations rt.now (revocation (rt.to_hash nullifier) ∷ [])
  require (rt.write_report r) not_written
  ok r
