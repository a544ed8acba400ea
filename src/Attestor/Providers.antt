-- ===== src/Attestor/Providers.antt =====
-- internal/verifier: what a provider's answer must be for an attestation, and when one is renewed.
use compliance_gateway.Common.{
  ℕ, ◌≤◌, ◌≡◌, refl, sym, ap, inl, inr, Bool, true, false, Option, none, some, ◌==◌, arith,
  Bool-cases, ok, or_err, or_err_ok, bind_ok, require, Result, ◌&&◌,
}
use compliance_gateway.Text.{codes, text_eq}
use compliance_gateway.Text.Laws.{text_eq_eq}
use compliance_gateway.Attestor.{
  Config, Runtime, VerificationRequest, Attestation, WorldIdProof, WorldIdAnswer, Applicant, IdDoc,
  expiry_at,
}
use compliance_gateway.Attestor.Verifying.{
  verify_sumsub, verify_world_id, derive, derive_from_doc, session_user_id, first_doc,
  missing_proof, unreachable, not_approved, no_id_docs, not_verified, Err as VerifyErr,
}
use compliance_gateway.Attestor.Workflow.{Secrets, is_valid}

-- No valid attestation has been read: none could be, or it is revoked, or its time has passed.
pub data IsStale (now : ℕ) : Option Attestation → Type 0 where
  unread : IsStale now none
  revoked : {a : Attestation} → a.level ≡ 0 → IsStale now (some a)
  expired : {a : Attestation} → a.expiry ≤ now → IsStale now (some a)

pub IsStale-invalid : (now : ℕ) (o : Option Attestation) → IsStale now o → is_valid now o ≡ false
IsStale-invalid now none unread = refl
IsStale-invalid now (some a) (revoked e) = ground arith
IsStale-invalid now (some a) (expired l) = ground arith

pub invalid-IsStale : (now : ℕ) (o : Option Attestation) → is_valid now o ≡ false → IsStale now o
invalid-IsStale now none h = unread
invalid-IsStale now (some a) h = elim (Bool-cases (a.level == 0)) [
  | inl y ↦ revoked (ground arith)
  | inr z ↦ expired (ground arith)
]

ok_att : {a b : Attestation} → ◌≡◌ {A = Result VerifyErr Attestation} (ok a) (ok b) → a ≡ b
ok_att e = cc

passed : (b : Bool) (e : VerifyErr) {u : Unit {0}} → require b e ≡ ok u → b ≡ true
passed true e h = refl
passed false e h = cc

module _ (c : Config) (rt : Runtime) (q : VerificationRequest) (a : Attestation) where
  -- World ID has answered 200 and success for the request's proof and wallet.
  abbrev pub IsHuman : Type 0
  IsHuman =
      (proof : WorldIdProof) × (w : WorldIdAnswer) × (q.world_id ≡ some proof)
      × (rt.verify_world_id proof q.wallet ≡ some w)
      × (w.status ≡ 200)
      × (w.success ≡ true)
      × (a ≡ record {
        nullifier = derive rt proof.nullifier_hash q.gate;
        level = 1;
        expiry = expiry_at rt.now c.attestation_ttl;
      })

  -- Sumsub has completed the review of the applicant of this gate and wallet with GREEN, and has a
  -- document of the applicant.
  abbrev pub IsKnown : Secrets → Type 0
  IsKnown s =
      (p : Applicant) × (doc : IdDoc) × (rt.applicant s.sumsub_app_token s.sumsub_secret_key (
          session_user_id rt s.session_id (rt.to_lower (rt.address_hex q.gate))
            (rt.to_lower (rt.address_hex q.wallet)))
        ≡ some p)
      × (p.review_status ≡ codes "completed")
      × (p.review_answer ≡ codes "GREEN")
      × (first_doc p.id_docs ≡ some doc)
      × (a ≡ record {
        nullifier = derive_from_doc rt s.enclave_nullifier doc.number doc.country q.gate;
        level = 2;
        expiry = expiry_at rt.now c.attestation_ttl;
      })

  pub verify-IsHuman : verify_world_id rt c.attestation_ttl q ≡ ok a → IsHuman
  unfolding verify_world_id
  verify-IsHuman h =
      let (proof, e1, k1) = bind_ok (or_err missing_proof q.world_id) _ h in
      let (w, e2, k2) = bind_ok (or_err unreachable (rt.verify_world_id proof q.wallet)) _ k1 in
      let (_, e3, k3) = bind_ok (require (w.status == 200 && w.success) not_verified) _ k2 in
      let both = passed (w.status == 200 && w.success) not_verified e3 in
      (
        proof,
        w,
        or_err_ok missing_proof q.world_id e1,
        or_err_ok unreachable (rt.verify_world_id proof q.wallet) e2,
        ground (arith, both),
        ground (arith, both),
        sym (ok_att k3),
      )

  pub IsHuman-verify : IsHuman → verify_world_id rt c.attestation_ttl q ≡ ok a
  unfolding verify_world_id
  IsHuman-verify (proof, w, e1, e2, e3, e4, e5) = rw e1 (rw e2 (rw e3 (rw e4 (ap ok (sym e5)))))

  module _ (s : Secrets) where
    abbrev pub verified_by_sumsub : Result VerifyErr Attestation
    verified_by_sumsub =
        verify_sumsub rt s.sumsub_app_token s.sumsub_secret_key s.session_id s.enclave_nullifier
          c.attestation_ttl q

    pub verify-IsKnown : verified_by_sumsub ≡ ok a → IsKnown s
    unfolding verify_sumsub
    verify-IsKnown h =
        let (p, e1, k1) =
          bind_ok
            (or_err unreachable (
              rt.applicant s.sumsub_app_token s.sumsub_secret_key (
                session_user_id rt s.session_id (rt.to_lower (rt.address_hex q.gate))
                  (rt.to_lower (rt.address_hex q.wallet)))))
            _ h in
        let test =
          text_eq p.review_status (codes "completed") && text_eq p.review_answer (codes "GREEN") in
        let (_, e2, k2) = bind_ok (require test not_approved) _ k1 in
        let both = passed test not_approved e2 in
        let (doc, e3, k3) = bind_ok (or_err no_id_docs (first_doc p.id_docs)) _ k2 in
        (
          p,
          doc,
          or_err_ok unreachable _ e1,
          text_eq_eq p.review_status (codes "completed") (ground (arith, both)),
          text_eq_eq p.review_answer (codes "GREEN") (ground (arith, both)),
          or_err_ok no_id_docs (first_doc p.id_docs) e3,
          sym (ok_att k3),
        )

    pub IsKnown-verify : IsKnown s → verified_by_sumsub ≡ ok a
    unfolding verify_sumsub text_eq
    IsKnown-verify (p, doc, e1, e2, e3, e4, e5) = rw e1 (rw e2 (rw e3 (rw e4 (ap ok (sym e5)))))
