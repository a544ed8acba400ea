-- ===== src/Decision/Signer/Recovered.antt =====
-- decision.go: `Recover` gives back the address of the key that signed.
use compliance_gateway.Common.{
  ℕ, zero, suc, ◌+◌, ◌%◌, ◌<◌, ◌≡◌, refl, ap, ◌∙◌, Option, none, some, List, [], ◌∷◌, length, arith,
  ok,
}
use compliance_gateway.Decision.Verify.{TypedData, normalize_v, recover}
use compliance_gateway.Decision.Signer.{Secp, add_27, sign_digest, signer_address}

-- The byte at a place.
abbrev pub byte_at : ℕ → List ℕ → Option ℕ
byte_at i [] = none
byte_at zero (b ∷ bs) = some b
byte_at (suc i) (b ∷ bs) = byte_at i bs

-- Adding 27 to a byte that is 0 or 1 is undone, and keeps the length.
normalize_v-add_27 :
    (i v : ℕ) (sig : List ℕ)
    → byte_at i sig ≡ some v
    → v < 2
    → (out : List ℕ) × (add_27 i sig ≡ some out)
      × (normalize_v i out ≡ sig)
      × (length out ≡ length sig)
unfolding add_27 normalize_v
normalize_v-add_27 i v [] h l = cc
normalize_v-add_27 zero v (b ∷ bs) h l = ((b + 27) % 256 ∷ bs, refl, ground arith, refl)
normalize_v-add_27 (suc i) v (b ∷ bs) h l =
    let (out, e, n, k) = normalize_v-add_27 i v bs h l in
    (b ∷ out, rw e refl, ap (λ (x : List ℕ). b ∷ x) n, ap suc k)

-- When secp256k1 signs every digest with 65 bytes, the last of them 0 or 1, from which it recovers the
-- key's address, then `Sign` returns a signature on any digest, and `Recover` gives the signer's
-- address from it.
pub recover-sign_digest :
    (secp : Secp) (digest : TypedData → Option ℕ) (sig_to_address : ℕ → List ℕ → Option ℕ)
    (key hash : ℕ)
    → ((h : ℕ)
        → (sig : List ℕ) × (v : ℕ) × (secp.sign key h ≡ some sig)
          × (length sig ≡ 65)
          × (byte_at 64 sig ≡ some v)
          × (v < 2)
          × (sig_to_address h sig ≡ some (signer_address secp key)))
    → (sig : List ℕ) × (sign_digest secp key hash ≡ ok sig)
      × (recover digest sig_to_address hash sig ≡ ok (signer_address secp key))
unfolding sign_digest recover
recover-sign_digest secp digest sig_to_address key hash law =
    let (sig, v, s, l, b, low, r) = law hash in
    let (out, e, n, k) = normalize_v-add_27 64 v sig b low in
    (out, rw s (rw e refl), rw (k ∙ l) (rw n (rw r refl)))
