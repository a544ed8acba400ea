-- ===== src/Attestor/Answered.antt =====
-- The handlers over HTTP and the chain: who must have answered before a payment is accepted or a
-- wallet is attested.
use compliance_gateway.Common.{
  ℕ, ◌/◌, ◌<◌, ◌≡◌, refl, sym, ap, ◌∙◌, inl, inr, Bool, true, false, Option, none, some, List, [],
  ◌∷◌, ◌==◌, Any, first, later, arith, Bool-cases, ==_iff, Result, ok, err, or_err, or_err_ok,
  Holds, holds, fails, or_err-Holds, suc, ◌≤◌, Holds-ok, bind_Holds, require-Holds, subst, map_err,
  map_err_ok,
}
use compliance_gateway.Text.{Text}
use compliance_gateway.Attestor.{
  Config, Runtime, VerificationRequest, Entry, GoPlusResponse, GatewayPayment, attestations,
  settlement,
}
use compliance_gateway.Checks.Kyt.{is_raised}
use compliance_gateway.Attestor.Verifying.{address_weights}
use compliance_gateway.Attestor.Http.{Request, Response, Doer}
use compliance_gateway.Attestor.Clients.{
  Codec, Services, WireRequest, ClientErr, not_decoded, not_sent, no_request, unexpected_status,
  queue_request, send, ask, request_of, requests_of, pending, go_plus_request, address_security,
  answered, with_clients,
}
use compliance_gateway.Attestor.Reports.{Chain, with_writer}
use compliance_gateway.Attestor.Workflow.{on_verification_cron, on_payment_opened}
use compliance_gateway.Attestor.Laws.{
  IsRisky, unanswered, refused, flagged, on_payment_opened_lem, on_verification_cron_lem,
  IsAttested,
}

answered_ok {ℓ} : {A : Type ℓ} (r : Result ClientErr A) {a : A} → answered r ≡ some a → r ≡ ok a
answered_ok (ok b) h = cc
answered_ok (err e) h = cc

same_payment : {p q : GatewayPayment} → some p ≡ some q → p ≡ q
same_payment e = cc

not_refused : (b : Bool) → true ≡ b → b ≡ false → ⊥
not_refused b e f = cc

-- A risk that is not above a limit below 100 comes from a usable answer.
usable :
    (limit : ℕ) (o : Option GoPlusResponse)
    → limit < 100
    → ¬ IsRisky limit o
    → (r : GoPlusResponse) × (o ≡ some r)
      × (r.code ≡ 1)
      × ¬ Any (λ (w : Text × ℕ). (is_raised r.flags w.0 ≡ true) × (suc limit ≤ w.1)) address_weights
usable limit none l h = absurd (h (unanswered l))
usable limit (some r) l h = elim (Bool-cases (r.code == 1)) [
  | inl y ↦ let c = (==_iff r.code 1).0 y in (r, refl, c, λ a. h (flagged c a))
  | inr z ↦ absurd (h (refused (ground arith) l))
]

settlement_inj : {i j : ℕ} {a b : Bool} → settlement i a ≡ settlement j b → a ≡ b
settlement_inj e = cc

sent : (client : Doer) (q : Request) → Holds (λ r. client q ≡ ok r) (send client q)
unfolding send
sent client q = elim (client q) as (λ m. Holds (λ r. m ≡ ok r) (map_err (λ _. not_sent) m)) [
  | ok r ↦ holds refl
  | err e ↦ fails
]

ask_ok :
    (codec : Codec) (client : Doer) (q : Request) (r : Response)
    → ask codec client q ≡ ok r
    → client q ≡ ok r
unfolding ask
ask_ok codec client q r h =
    Holds-ok {P = λ x. client q ≡ ok x}
      (require-Holds (codec.can_request q.url) no_request _ λ _. sent client q) h

module _ (codec : Codec) (s : Services) (client : Doer) (chain : Chain) (rt : Runtime) where
  -- The runtime with the clients and the writer.
  abbrev pub served : Runtime
  served = with_writer chain (with_clients codec s client rt)

  -- GoPlus answered about a wallet.
  abbrev pub HasAnswered : ℕ → GoPlusResponse → Type 0
  HasAnswered wallet r =
      (resp : Response) × (client
          (go_plus_request codec client s.go_plus_url (rt.address_hex wallet))
        ≡ ok resp)
      × (codec.go_plus resp.body ≡ some r)

  address_security-HasAnswered :
      (wallet : ℕ)
      → Holds
          (HasAnswered wallet)
          (address_security codec client s.go_plus_url (rt.address_hex wallet))
  unfolding address_security
  address_security-HasAnswered wallet =
      let q = go_plus_request codec client s.go_plus_url (rt.address_hex wallet) in
      bind_Holds (map_err (λ _. not_sent) (client q)) _ λ resp e.
        or_err-Holds not_decoded (codec.go_plus resp.body)
          λ r d. (resp, map_err_ok (λ _. not_sent) (client q) e, d)

  -- The relay answered with these requests.
  abbrev pub HasListed : Text → List WireRequest → Type 0
  HasListed token ws =
      (resp : Response) × (client (queue_request codec client s.relay_url token (rt.now / 60))
        ≡ ok resp)
      × (resp.status ≡ 200)
      × (codec.queue resp.body ≡ some ws)

  -- The requests of the workflow are the items of the relay's answer.
  pending-HasListed :
      (token : Text)
      → Holds
          (λ qs. (ws : List WireRequest) × (qs ≡ requests_of codec client ws) × HasListed token ws)
          (pending codec client s.relay_url token (rt.now / 60))
  unfolding pending
  pending-HasListed token =
      let q = queue_request codec client s.relay_url token (rt.now / 60) in
      bind_Holds (ask codec client q) _ λ resp e.
        require-Holds (resp.status == 200) unexpected_status _ λ h.
          bind_Holds (or_err not_decoded (codec.queue resp.body)) _ λ ws d. holds (
            ws,
            refl,
            (
              resp,
              ask_ok codec client q resp e,
              (==_iff resp.status 200).0 h,
              or_err_ok not_decoded (codec.queue resp.body) d,
            ),
          )

  -- What holds of a request that was listed, told of the item of the answer.
  Any-requests_of :
      (P : VerificationRequest → Type 0) (Q : WireRequest → Type 0) (ws : List WireRequest)
      → ((w : WireRequest) → P (request_of codec client w) → Q w)
      → Any P (requests_of codec client ws)
      → Any Q ws
  unfolding requests_of
  Any-requests_of P Q [] f m = elim m [ ]
  Any-requests_of P Q (w ∷ ws) f (first p) = first (f w p)
  Any-requests_of P Q (w ∷ ws) f (later m) = later (Any-requests_of P Q ws f m)

  -- When a payment whose limit is below 100 is settled as accepted, GoPlus has answered about the
  -- payer over HTTP: the response was decoded, its code is 1, and no raised flag weighs more than the
  -- limit.
  pub on_payment_opened-HasAnswered :
      (gate id payer : ℕ) (p : GatewayPayment)
      → rt.payments gate id ≡ some p
      → p.max_risk < 100
      → on_payment_opened served gate id payer ≡ ok (settlement id true)
      → (r : GoPlusResponse) × HasAnswered payer r
        × (r.code ≡ 1)
        × ¬ Any
            (λ (w : Text × ℕ). (is_raised r.flags w.0 ≡ true) × (suc p.max_risk ≤ w.1))
            address_weights
  unfolding with_writer with_clients
  on_payment_opened-HasAnswered gate id payer p e l h =
      let (p', b, e', q, iff) = on_payment_opened_lem served gate id payer _ h in
      let (r, g, c, n) = usable p.max_risk (served.address_security payer) l λ risky.
        not_refused b (settlement_inj q) (
          iff.1 (
            subst (λ k. IsRisky k.max_risk (served.address_security payer))
              (same_payment (sym e ∙ e')) risky)) in
      (r, Holds-ok (address_security-HasAnswered payer) (answered_ok _ g), c, n)

  -- When the cron handler attests a wallet on a gate, the relay has answered the request that carries
  -- its token with the status 200 and with a list in which some item names that gate and that wallet.
  pub on_verification_cron-HasListed :
      (c : Config) (n : ℕ) (es : List Entry) (x : Entry)
      → on_verification_cron c served ≡ ok (attestations n es)
      → Any (λ e. e ≡ x) es
      → (token : Text) × (ws : List WireRequest) × (rt.get_secret c.relay_fetch_token_id
          ≡ some token)
        × HasListed token ws
        × Any
            (λ w.
              (codec.hex_to_address w.gate ≡ x.gate) × (codec.hex_to_address w.wallet ≡ x.wallet))
            ws
  unfolding with_writer with_clients request_of
  on_verification_cron-HasListed c n es x h m =
      let (z, token, qs, t, _, p, _, iff) = on_verification_cron_lem c served n es h in
      let (ws, e, listed) = Holds-ok (pending-HasListed token) (answered_ok _ p) in
      (
        token,
        ws,
        t,
        listed,
        Any-requests_of (λ q. IsAttested c served z q x) _ ws
            (λ w a. (sym (ap (λ (y : Entry). y.gate) a.0), sym (ap (λ (y : Entry). y.wallet) a.0)))
            (subst (Any (λ q. IsAttested c served z q x)) e ((iff x).0 m)),
      )
