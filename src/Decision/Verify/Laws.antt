-- ===== src/Decision/Verify/Laws.antt =====
-- verify.go: what a verified signature guarantees, and how each failure is reported.
use compliance_gateway.Common.{
  ℕ, ◌≡◌, ◌≢◌, refl, inl, inr, ◌↔◌, true, false, Option, some, List, [], ◌∷◌, length, ◌==◌,
  if◌then◌else◌, Any, All, arith, first, later, Bool-cases, sym,
}
use compliance_gateway.Common.{subst, ◌∙◌}
use compliance_gateway.Decision.{permits}
use compliance_gateway.Common.{Result, ok, err, ◌>>=◌, or_err, bind_ok, or_err_ok}
use compliance_gateway.Decision.Verify.{
  no_digest, TypedData, Officer, Err, recover, find_officer, verify_officer, contains,
  verify_approval, normalize_v, not_permitted, not_authorised,
}

-- `o` is the first officer of the list with this address.
pub data FirstAt (addr : ℕ) (o : Officer) : List Officer → Type 0 where
  here : {os : List Officer} → o.address ≡ addr → FirstAt addr o (o ∷ os)
  there :
      {p : Officer} {os : List Officer}
      → p.address ≢ addr
      → FirstAt addr o os
      → FirstAt addr o (p ∷ os)

found-FirstAt :
    (addr kind : ℕ) (os : List Officer) (o : Officer)
    → find_officer addr kind os ≡ ok o
    → FirstAt addr o os × (permits o.mask kind ≡ true)
unfolding find_officer
found-FirstAt addr kind [] o h = cc
found-FirstAt addr kind (p ∷ os) o h = grind (arith, found-FirstAt addr kind os o, here, there)

FirstAt-found :
    {addr : ℕ} (kind : ℕ) {o : Officer} {os : List Officer}
    → FirstAt addr o os
    → find_officer addr kind os ≡ (if permits o.mask kind then ok o else err not_permitted)
unfolding find_officer
FirstAt-found kind (here e) = ground arith
FirstAt-found kind (there n f) = ground (arith, FirstAt-found kind f)

unlisted :
    (addr kind : ℕ) (os : List Officer)
    → All (λ p. p.address ≢ addr) os
    → find_officer addr kind os ≡ err not_authorised
unfolding find_officer
unlisted addr kind [] h = refl
unlisted addr kind (p ∷ os) h = ground (arith, h.0, unlisted addr kind os h.1)

contains-Any : (xs : List ℕ) (a : ℕ) → contains xs a ≡ true → Any (λ x. x ≡ a) xs
unfolding contains
contains-Any [] a h = absurd (ground arith)
contains-Any (x ∷ xs) a h = elim (Bool-cases (x == a)) [
  | inl e ↦ first (ground arith)
  | inr e ↦ later (contains-Any xs a (ground arith))
]

Any-contains : {a : ℕ} {xs : List ℕ} → Any (λ x. x ≡ a) xs → contains xs a ≡ true
unfolding contains
Any-contains (first e) = ground arith
Any-contains (later m) = ground (arith, Any-contains m)

address-FirstAt :
    {addr : ℕ} {o : Officer} {os : List Officer} → FirstAt addr o os → o.address ≡ addr
address-FirstAt (here e) = e
address-FirstAt (there n f) = address-FirstAt f

accepted :
    (mlro : List ℕ) (b a : ℕ)
    → (if contains mlro b then ok b else err not_authorised) ≡ ok a
    → (b ≡ a) × (contains mlro a ≡ true)
accepted mlro b a h = ground arith

module _ (digest : TypedData → Option ℕ) (sig_to_address : ℕ → List ℕ → Option ℕ) where
  -- The signature is readable and is by this address over this document.
  abbrev pub IsSignedBy : TypedData → List ℕ → ℕ → Type 0
  IsSignedBy td sig addr =
      (h : ℕ) × (digest td ≡ some h)
      × (length sig ≡ 65)
      × (sig_to_address h (normalize_v 64 sig) ≡ some addr)

  recover_ok :
      (h : ℕ) (sig : List ℕ) (a : ℕ)
      → recover digest sig_to_address h sig ≡ ok a
      → (length sig ≡ 65) × (sig_to_address h (normalize_v 64 sig) ≡ some a)
  unfolding recover
  recover_ok h sig a e = ground arith

  signer_lem :
      {A : Type 0} (td : TypedData) (sig : List ℕ) (f : ℕ → Result Err A) (r : A)
      → (or_err no_digest (digest td) >>= λ h. recover digest sig_to_address h sig >>= f) ≡ ok r
      → (a : ℕ) × IsSignedBy td sig a × (f a ≡ ok r)
  signer_lem td sig f r e =
      let (h, e1, k1) = bind_ok (or_err no_digest (digest td)) _ e in
      let (a, e2, k2) = bind_ok (recover digest sig_to_address h sig) f k1 in
      let (l, s) = recover_ok h sig a e2 in (a, (h, or_err_ok no_digest (digest td) e1, l, s), k2)

  signed_recover :
      {A : Type 0} (td : TypedData) (sig : List ℕ) (a : ℕ) (f : ℕ → Result Err A)
      → IsSignedBy td sig a
      → (or_err no_digest (digest td) >>= λ h. recover digest sig_to_address h sig >>= f) ≡ f a
  unfolding recover
  signed_recover td sig a f (h, d, l, s) = rw d (rw l (rw s refl))

  -- The first officer whose address the signature recovers to decides: the check gives that officer
  -- if the mask permits the kind, and gives nobody else.
  pub verify_officer_iff :
      (td : TypedData) (sig : List ℕ) (kind : ℕ) (os : List Officer) (o : Officer)
      → (verify_officer digest sig_to_address td sig kind os ≡ ok o)
        ↔ (IsSignedBy td sig o.address × FirstAt o.address o os × (permits o.mask kind ≡ true))
  unfolding verify_officer
  verify_officer_iff td sig kind os o = (
    λ h.
        let (a, s, f) = signer_lem td sig (λ a. find_officer a kind os) o h in
        let (w, p) = found-FirstAt a kind os o f in
        (
          subst (IsSignedBy td sig) (sym (address-FirstAt w)) s,
          subst (λ x. FirstAt x o os) (sym (address-FirstAt w)) w,
          p,
        ),
    λ (s, w, p).
        signed_recover td sig o.address (λ a. find_officer a kind os) s
        ∙ (FirstAt-found kind w ∙ rw p),
  )

  -- A readable signature by an address that no officer has is refused as not authorised.
  pub verify_officer_unlisted :
      (td : TypedData) (sig : List ℕ) (kind : ℕ) (os : List Officer) (a : ℕ)
      → IsSignedBy td sig a
      → All (λ p. p.address ≢ a) os
      → verify_officer digest sig_to_address td sig kind os ≡ err not_authorised
  unfolding verify_officer
  verify_officer_unlisted td sig kind os a s none_has =
      signed_recover td sig a (λ b. find_officer b kind os) s ∙ unlisted a kind os none_has

  -- A readable signature is refused as not permitted when the first officer with its address has a
  -- mask without the kind, even if a later officer with that address has the kind.
  pub verify_officer_not_permitted :
      (td : TypedData) (sig : List ℕ) (kind : ℕ) (os : List Officer) (a : ℕ) (o : Officer)
      → IsSignedBy td sig a
      → FirstAt a o os
      → permits o.mask kind ≡ false
      → verify_officer digest sig_to_address td sig kind os ≡ err not_permitted
  unfolding verify_officer
  verify_officer_not_permitted td sig kind os a o s w p =
      signed_recover td sig a (λ b. find_officer b kind os) s ∙ (FirstAt-found kind w ∙ rw p)

  -- A ruleset approval is accepted exactly when its signature recovers to a listed MLRO address.
  pub verify_approval_iff :
      (td : TypedData) (sig : List ℕ) (mlro : List ℕ) (a : ℕ)
      → (verify_approval digest sig_to_address td sig mlro ≡ ok a)
        ↔ (IsSignedBy td sig a × Any (λ x. x ≡ a) mlro)
  unfolding verify_approval
  verify_approval_iff td sig mlro a = (
    λ h.
        let (b, s, f) =
          signer_lem td sig (λ b. if contains mlro b then ok b else err not_authorised) a h in
        let (e, c) = accepted mlro b a f in (subst (IsSignedBy td sig) e s, contains-Any mlro a c),
    λ (s, m).
        signed_recover td sig a (λ b. if contains mlro b then ok b else err not_authorised) s
        ∙ rw (Any-contains m),
  )
