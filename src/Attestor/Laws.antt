-- ===== src/Attestor/Laws.antt =====
-- What a report of the workflow tells: who is attested, and which payments are refused.
use compliance_gateway.Common.{
  ℕ, suc, ◌/◌, ◌<◌, subst, ◌≤◌, ◌≡◌, ◌≢◌, ◌↔◌, refl, sym, ap, ◌⊎◌, inl, inr, Bool, true, false,
  Option, none, some, List, [], ◌∷◌, leb, ◌==◌, if◌then◌else◌, Any, first, later, arith, Bool-cases,
  ==_iff, ok, or_err, map_err, Holds, holds, Holds-ok, bind_Holds, require-Holds, or_err_ok,
  map_err_ok,
}
use compliance_gateway.Text.{Text}
use compliance_gateway.Checks.Kyt.{raised, score_of, is_raised, score_iff}
use compliance_gateway.Attestor.{
  Config, Runtime, VerificationRequest, Entry, GoPlusResponse, GatewayPayment, Report, attestations,
  settlement,
}
use compliance_gateway.Attestor.Verifying.{verify_world_id, score, score_response, address_weights}
use compliance_gateway.Attestor.Workflow.{
  Secrets, is_valid, entry_of, verify, attempt, batch_of, secrets_of, on_verification_cron,
  no_secret, no_queue, on_payment_opened, no_payment, no_score, not_written,
}
use compliance_gateway.Attestor.Providers.{
  IsStale, IsStale-invalid, invalid-IsStale, IsHuman, IsKnown, verified_by_sumsub, verify-IsHuman,
  IsHuman-verify, verify-IsKnown, IsKnown-verify,
}

-- The payer's risk exceeds the limit.
pub data IsRisky (limit : ℕ) : Option GoPlusResponse → Type 0 where
  unanswered : limit < 100 → IsRisky limit none
  refused : {r : GoPlusResponse} → r.code ≢ 1 → limit < 100 → IsRisky limit (some r)
  flagged :
      {r : GoPlusResponse}
      → r.code ≡ 1
      → Any (λ (w : Text × ℕ). (is_raised r.flags w.0 ≡ true) × (suc limit ≤ w.1)) address_weights
      → IsRisky limit (some r)

IsRisky-score : (limit : ℕ) (o : Option GoPlusResponse) → IsRisky limit o → limit < score_response o
IsRisky-score limit none (unanswered l) = l
IsRisky-score limit (some r) (refused n l) = ground arith
IsRisky-score limit (some r) (flagged e a) =
    let h = (score_iff (suc limit) r.flags address_weights (omega arith)).1 a in ground (arith, h)

above_true : (b : Bool) (n k : ℕ) → b ≡ true → n < (if b then k else 100) → suc n ≤ k
above_true b n k e h = ground arith

above_false : (b : Bool) (n k : ℕ) → b ≡ false → n < (if b then k else 100) → n < 100
above_false b n k e h = ground arith

score-IsRisky : (limit : ℕ) (o : Option GoPlusResponse) → limit < score_response o → IsRisky limit o
score-IsRisky limit none h = unanswered h
score-IsRisky limit (some r) h = elim (Bool-cases (r.code == 1)) [
  | inl e ↦ flagged ((==_iff r.code 1).0 e) (
      (score_iff (suc limit) r.flags address_weights (omega arith)).0
        (above_true (r.code == 1) limit (score_of (raised r.flags address_weights)) e h))
  | inr e ↦
      refused (ground arith)
        (above_false (r.code == 1) limit (score_of (raised r.flags address_weights)) e h)
]

no_item : {A B : Type 0} {P : A → Type 0} → Any P [] → B
no_item m = absurd (elim m [ ])

-- One round that adds an entry or none.
round_cases :
    (o : Option Entry) (es : List Entry) (x : Entry)
    → Any (λ e. e ≡ x) (elim o as (λ _. List Entry) [ none ↦ es | some e ↦ e ∷ es ])
    → (o ≡ some x) ⊎ Any (λ e. e ≡ x) es
round_cases none es x m = inr m
round_cases (some e) es x (first p) = inl (ap some p)
round_cases (some e) es x (later m) = inr m

round_first :
    (o : Option Entry) (es : List Entry) (x : Entry)
    → o ≡ some x
    → Any (λ e. e ≡ x) (elim o as (λ _. List Entry) [ none ↦ es | some e ↦ e ∷ es ])
round_first none es x p = cc
round_first (some e) es x p = first (cc)

round_later :
    (o : Option Entry) (es : List Entry) (x : Entry)
    → Any (λ e. e ≡ x) es
    → Any (λ e. e ≡ x) (elim o as (λ _. List Entry) [ none ↦ es | some e ↦ e ∷ es ])
round_later none es x m = m
round_later (some e) es x m = later m

score_value :
    (rt : Runtime) (payer risk : ℕ)
    → score rt payer ≡ ok risk
    → risk ≡ score_response (rt.address_security payer)
unfolding score
score_value rt payer risk h = ground arith

rejected_iff : (limit risk : ℕ) → (leb risk limit ≡ false) ↔ (limit < risk)
rejected_iff limit risk = ground arith

module _ (c : Config) (rt : Runtime) (s : Secrets) where
  -- The request's provider has verified it, and no valid attestation is there.
  abbrev pub IsAttested : VerificationRequest → Entry → Type 0
  IsAttested q x =
      (x ≡ entry_of q x.att)
      × IsStale rt.now (rt.attestation_of q.gate q.wallet)
      × (((q.level ≡ 1) × IsHuman c rt q x.att) ⊎ ((q.level ≡ 2) × IsKnown c rt q x.att s))

  -- In the words of the code.
  abbrev IsAttempted : VerificationRequest → Entry → Type 0
  IsAttempted q x =
      (x ≡ entry_of q x.att)
      × (is_valid rt.now (rt.attestation_of q.gate q.wallet) ≡ false)
      × (((q.level ≡ 1) × (verify_world_id rt c.attestation_ttl q ≡ ok x.att))
          ⊎ ((q.level ≡ 2) × (verified_by_sumsub c rt q x.att s ≡ ok x.att)))

  attempt-IsAttempted :
      (q : VerificationRequest) (x : Entry) → attempt c rt s q ≡ some x → IsAttempted q x
  unfolding attempt verify
  attempt-IsAttempted q x h = ground arith

  IsAttempted-attempt :
      (q : VerificationRequest) (x : Entry) → IsAttempted q x → attempt c rt s q ≡ some x
  unfolding attempt verify
  IsAttempted-attempt q x h = ground arith

  attempt-IsAttested :
      (q : VerificationRequest) (x : Entry) → attempt c rt s q ≡ some x → IsAttested q x
  attempt-IsAttested q x h =
      let (e, v, p) = attempt-IsAttempted q x h in
      (
        e,
        invalid-IsStale rt.now (rt.attestation_of q.gate q.wallet) v,
        elim p [
          | inl (l, w) ↦ inl (l, verify-IsHuman c rt q x.att w)
          | inr (l, w) ↦ inr (l, verify-IsKnown c rt q x.att s w)
        ],
      )

  IsAttested-attempt :
      (q : VerificationRequest) (x : Entry) → IsAttested q x → attempt c rt s q ≡ some x
  IsAttested-attempt q x (e, v, p) = IsAttempted-attempt q x (
    e,
    IsStale-invalid rt.now (rt.attestation_of q.gate q.wallet) v,
    elim p [
      | inl (l, w) ↦ inl (l, IsHuman-verify c rt q x.att w)
      | inr (l, w) ↦ inr (l, IsKnown-verify c rt q x.att s w)
    ],
  )

  batch-IsAttested :
      (qs : List VerificationRequest) (x : Entry)
      → Any (λ e. e ≡ x) (batch_of c rt s qs)
      → Any (λ q. IsAttested q x) qs
  unfolding batch_of
  batch-IsAttested [] x m = absurd (no_item m)
  batch-IsAttested (q ∷ qs) x m = elim (round_cases (attempt c rt s q) (batch_of c rt s qs) x m) [
    | inl e ↦ first (attempt-IsAttested q x e)
    | inr r ↦ later (batch-IsAttested qs x r)
  ]

  IsAttested-batch :
      (qs : List VerificationRequest) (x : Entry)
      → Any (λ q. IsAttested q x) qs
      → Any (λ e. e ≡ x) (batch_of c rt s qs)
  unfolding batch_of
  IsAttested-batch [] x m = elim m [ ]
  IsAttested-batch (q ∷ qs) x (first a) =
      round_first (attempt c rt s q) (batch_of c rt s qs) x (IsAttested-attempt q x a)
  IsAttested-batch (q ∷ qs) x (later m) =
      round_later (attempt c rt s q) (batch_of c rt s qs) x (IsAttested-batch qs x m)

-- The secrets are those of the configuration.
abbrev pub HasSecrets : Config → Runtime → Secrets → Type 0
HasSecrets c rt s =
    (rt.get_secret c.session_id_secret_id ≡ some s.session_id)
    × (rt.get_secret c.enclave_nullifier_secret_id ≡ some s.enclave_nullifier)
    × (rt.get_secret c.sumsub_app_token_id ≡ some s.sumsub_app_token)
    × (rt.get_secret c.sumsub_secret_id ≡ some s.sumsub_secret_key)

-- The entries of a report, told by the requests.
abbrev IsCronReport : Config → Runtime → Report → Type 0
IsCronReport c rt r =
    (n : ℕ) (es : List Entry)
    → r ≡ attestations n es
    → (s : Secrets) × (token : Text) × (qs : List VerificationRequest) × (rt.get_secret
          c.relay_fetch_token_id
        ≡ some token)
      × HasSecrets c rt s
      × (rt.pending token (rt.now / 60) ≡ some qs)
      × (n ≡ rt.now)
      × ((x : Entry) → Any (λ e. e ≡ x) es ↔ Any (λ q. IsAttested c rt s q x) qs)

on_verification_cron-Holds :
    (c : Config) (rt : Runtime) → Holds (IsCronReport c rt) (on_verification_cron c rt)
unfolding on_verification_cron
on_verification_cron-Holds c rt =
    bind_Holds (or_err no_secret (rt.get_secret c.relay_fetch_token_id)) _ λ token t.
      bind_Holds (or_err no_secret (rt.get_secret c.session_id_secret_id)) _ λ session e1.
        bind_Holds (or_err no_secret (rt.get_secret c.enclave_nullifier_secret_id)) _ λ enclave e2.
          bind_Holds (or_err no_queue (rt.pending token (rt.now / 60))) _ λ qs p.
            bind_Holds (or_err no_secret (rt.get_secret c.sumsub_app_token_id)) _ λ app_token e3.
              bind_Holds (or_err no_secret (rt.get_secret c.sumsub_secret_id)) _ λ secret_key e4.
                let s = secrets_of session enclave app_token secret_key in
                require-Holds (rt.write_report (attestations rt.now (batch_of c rt s qs)))
                  not_written _
                  λ _. holds λ n es e. (
                    s,
                    token,
                    qs,
                    or_err_ok no_secret (rt.get_secret c.relay_fetch_token_id) t,
                    (
                      or_err_ok no_secret (rt.get_secret c.session_id_secret_id) e1,
                      or_err_ok no_secret (rt.get_secret c.enclave_nullifier_secret_id) e2,
                      or_err_ok no_secret (rt.get_secret c.sumsub_app_token_id) e3,
                      or_err_ok no_secret (rt.get_secret c.sumsub_secret_id) e4,
                    ),
                    or_err_ok no_queue (rt.pending token (rt.now / 60)) p,
                    cc,
                    λ x.
                        subst (λ l. Any (λ y. y ≡ x) l ↔ Any (λ q. IsAttested c rt s q x) qs) (cc)
                          (batch-IsAttested c rt s qs x, IsAttested-batch c rt s qs x),
                  )

on_payment_opened-Holds :
    (rt : Runtime) (gate id payer : ℕ)
    → Holds
        (λ r.
          (p : GatewayPayment) × (b : Bool) × (rt.payments gate id ≡ some p)
          × (r ≡ settlement id b)
          × ((b ≡ false) ↔ IsRisky p.max_risk (rt.address_security payer)))
        (on_payment_opened rt gate id payer)
unfolding on_payment_opened score
on_payment_opened-Holds rt gate id payer =
    bind_Holds (or_err no_payment (rt.payments gate id)) _ λ p e.
      bind_Holds (map_err (λ _. no_score) (score rt payer)) _ λ risk f.
        require-Holds (rt.write_report (settlement id (leb risk p.max_risk))) not_written _ λ _.
          let g = score_value rt payer risk (map_err_ok (λ _. no_score) (score rt payer) f) in
          let o = rt.address_security payer in
          holds (
            p,
            leb risk p.max_risk,
            or_err_ok no_payment (rt.payments gate id) e,
            refl,
            (
              λ n.
                  score-IsRisky p.max_risk o
                    (subst (λ k. p.max_risk < k) g ((rejected_iff p.max_risk risk).0 n)),
              λ r.
                  (rejected_iff p.max_risk risk).1
                    (subst (λ k. p.max_risk < k) (sym g) (IsRisky-score p.max_risk o r)),
            ),
          )

pub on_verification_cron_lem :
    (c : Config) (rt : Runtime) (n : ℕ) (es : List Entry)
    → on_verification_cron c rt ≡ ok (attestations n es)
    → (s : Secrets) × (token : Text) × (qs : List VerificationRequest) × (rt.get_secret
          c.relay_fetch_token_id
        ≡ some token)
      × HasSecrets c rt s
      × (rt.pending token (rt.now / 60) ≡ some qs)
      × (n ≡ rt.now)
      × ((x : Entry) → Any (λ e. e ≡ x) es ↔ Any (λ q. IsAttested c rt s q x) qs)
on_verification_cron_lem c rt n es h = Holds-ok (on_verification_cron-Holds c rt) h n es refl

-- A settlement report is about the opened payment, and it refuses the payment exactly when the payer's
-- risk is above the limit that the gateway has for it: some raised flag weighs more than the limit, or
-- there is no usable answer about the payer and the limit is below 100.
pub on_payment_opened_lem :
    (rt : Runtime) (gate id payer : ℕ) (r : Report)
    → on_payment_opened rt gate id payer ≡ ok r
    → (p : GatewayPayment) × (b : Bool) × (rt.payments gate id ≡ some p)
      × (r ≡ settlement id b)
      × ((b ≡ false) ↔ IsRisky p.max_risk (rt.address_security payer))
on_payment_opened_lem rt gate id payer r h = Holds-ok (on_payment_opened-Holds rt gate id payer) h
