-- ===== src/Evidence/Jws/Verified.antt =====
-- jws.go: a signature that `Sign` returns is verified, and what else is.
use compliance_gateway.Common.{
  ℕ, ◌<◌, ◌^◌, ◌≡◌, refl, ap, sym, ◌∙◌, ◌↔◌, Bool, true, false, some, List, [], ◌∷◌, ◌++◌, arith,
  ok, Holds-ok, bind_Holds, require-Holds, holds, bind_ok, or_err, or_err_ok, require, ◌>>◌, ==_iff,
  subst, length, length-append, All,
}
use compliance_gateway.Text.{Text, dot, split, text_eq}
use compliance_gateway.Text.Paths.{
  no_dot, split_plain, split-append, split-no_dot, dotted-split, dotted,
}
use compliance_gateway.Text.Base64.{
  base64_encode, base64_decode, decode-encode, no_dot-encode, encode_inj, IsBytes,
}
use compliance_gateway.Evidence.Canon.{canon}
use compliance_gateway.Evidence.Jws.Bytes.{
  set_bytes, take, drop, take-append, drop-append, fill_bytes_lem,
}
use compliance_gateway.Evidence.Jws.{
  Crypto, JwsSigner, JwsErr, load_jws_signer, parse_key, no_file, no_pem, wrong_curve, header,
  signing_input, sign, verify_jws, public, check_signature, halves, sign_digest, detached,
  bad_encoding,
}

-- The header is always there, and holds no dot.
header_ok : (s : JwsSigner) → (h : Text) × (header s ≡ ok h) × (no_dot h ≡ true)
unfolding header canon
header_ok s = (base64_encode _, refl, no_dot-encode _)

append-IsBytes : (xs ys : List ℕ) → IsBytes xs → IsBytes ys → IsBytes (xs ++ ys)
append-IsBytes [] ys p q = q
append-IsBytes (x ∷ xs) ys (a, p) q = (a, append-IsBytes xs ys p q)

-- The two halves of a signature are cut out of its 64 bytes again.
halves_ok :
    (std : Crypto) (r t : ℕ)
    → r < 256 ^ 32
    → t < 256 ^ 32
    → (sig : List ℕ) × (halves std (r, t) ≡ ok sig)
      × (length sig ≡ 64)
      × (set_bytes (take 32 sig) ≡ r)
      × (set_bytes (drop 32 sig) ≡ t)
      × IsBytes sig
unfolding halves
halves_ok std r t hr ht =
    let (a, fa, la, sa, ba) = fill_bytes_lem 32 r hr in
    let (b, fb, lb, sb, bb) = fill_bytes_lem 32 t ht in
    (
      a ++ b,
      rw fa (rw fb refl),
      omega (arith, length-append a b),
      ap set_bytes (ap (λ n. take n (a ++ b)) (sym la) ∙ take-append a b) ∙ sa,
      ap set_bytes (ap (λ n. drop n (a ++ b)) (sym la) ∙ drop-append a b) ∙ sb,
      append-IsBytes a b ba bb,
    )

parts_of :
    (h s : Text) → no_dot h ≡ true → no_dot s ≡ true → split (h ++ dot ∷ dot ∷ s) ≡ h ∷ [] ∷ s ∷ []
parts_of h s p q =
    split-append h (dot ∷ s) p
    ∙ ap (λ (l : List Text). h ∷ l)
        (split-append [] s refl ∙ ap (λ (l : List Text). [] ∷ l) (split_plain s q))

-- A header, two dots and a signature of 64 bytes that the curve verifies over the payload.
abbrev pub IsDetached : Crypto → ℕ → Text → Text → Type 0
IsDetached std pub_key jws payload =
    (h : Text) × (s : Text) × (sig : List ℕ) × (jws ≡ h ++ dot ∷ dot ∷ s)
    × (no_dot h ≡ true)
    × (no_dot s ≡ true)
    × (base64_decode s ≡ some sig)
    × (length sig ≡ 64)
    × (std.verify pub_key (std.sha256 (signing_input h payload)) (set_bytes (take 32 sig))
          (set_bytes (drop 32 sig))
        ≡ true)

both_required :
    (a b : Bool) (e f : JwsErr) → (require a e >> require b f) ≡ ok tt → (a ≡ true) × (b ≡ true)
both_required true true e f h = (refl, refl)
both_required true false e f h = cc
both_required false b e f h = cc

module _ (std : Crypto) where
  -- What `VerifyJWS` has found of the parts that it accepts.
  accepted :
      (pub_key : ℕ) (payload : Text) (parts : List Text)
      → detached std pub_key payload parts ≡ ok tt
      → (h : Text) × (s : Text) × (sig : List ℕ) × (parts ≡ h ∷ [] ∷ s ∷ [])
        × (base64_decode s ≡ some sig)
        × (length sig ≡ 64)
        × (std.verify pub_key
              (std.sha256 (signing_input h payload))
              (set_bytes (take 32 sig))
              (set_bytes (drop 32 sig))
            ≡ true)
  unfolding check_signature text_eq
  accepted pub_key payload [] e = cc
  accepted pub_key payload (h ∷ []) e = cc
  accepted pub_key payload (h ∷ m ∷ []) e = cc
  accepted pub_key payload (h ∷ (c ∷ m) ∷ s ∷ []) e = cc
  accepted pub_key payload (h ∷ m ∷ s ∷ x ∷ parts) e = cc
  accepted pub_key payload (h ∷ [] ∷ s ∷ []) e =
      let (sig, d, k) = bind_ok (or_err bad_encoding (base64_decode s)) _ e in
      let (l, v) = both_required _ _ _ _ k in
      (h, s, sig, refl, or_err_ok _ _ d, (==_iff _ _).0 l, v)

  -- When the curve's signing, on every digest, returns two numbers of at most 32 bytes that it
  -- verifies under the signer's public key, then `Sign` returns a JWS over any payload, and
  -- `VerifyJWS` accepts it under that public key over the payload.
  pub verify-sign :
      (s : JwsSigner) (payload : Text)
      → ((d : Text)
          → (r : ℕ) × (t : ℕ) × (std.sign s.key d ≡ some (r, t))
            × (r < 256 ^ 32)
            × (t < 256 ^ 32)
            × (std.verify (public std s) d r t ≡ true))
      → (jws : Text) × (sign std s payload ≡ ok jws)
        × (verify_jws std (public std s) jws payload ≡ ok tt)
  unfolding sign verify_jws sign_digest check_signature text_eq
  verify-sign s payload law =
      let (h, eh, ph) = header_ok s in
      let (r, t, es, hr, ht, v) = law (std.sha256 (signing_input h payload)) in
      let (sig, eg, l, sr, st, b) = halves_ok std r t hr ht in
      (
        h ++ dot ∷ dot ∷ base64_encode sig,
        rw eh (rw es (rw eg refl)),
        rw (parts_of h (base64_encode sig) ph (no_dot-encode sig))
            (rw (decode-encode sig b) (rw l (rw sr (rw st (rw v refl))))),
      )

  -- `VerifyJWS` accepts a text over a payload exactly when the text is a header, two dots and a
  -- signature, no dot in either, the signature decodes to 64 bytes, and the curve verifies the
  -- numbers of its halves on the hash of the header, a dot and the encoded payload.
  pub verify_jws_iff :
      (pub_key : ℕ) (jws payload : Text)
      → (verify_jws std pub_key jws payload ≡ ok tt) ↔ IsDetached std pub_key jws payload
  unfolding verify_jws check_signature text_eq
  verify_jws_iff pub_key jws payload = (
    λ e.
        let (h, s, sig, p, d, l, v) = accepted pub_key payload (split jws) e in
        let (ph, (_, (ps, _))) = subst (All (λ w. no_dot w ≡ true)) p (split-no_dot jws) in
        (h, s, sig, sym (dotted-split jws) ∙ ap dotted p, ph, ps, d, l, v),
    λ (h, s, sig, e, ph, ps, d, l, v). rw e (rw (parts_of h s ph ps) (rw d (rw l (rw v refl)))),
  )

cut_input : (h p : Text) → no_dot h ≡ true → split (signing_input h p) ≡ h ∷ base64_encode p ∷ []
unfolding signing_input
cut_input h p ph =
    split-append h (base64_encode p) ph
    ∙ ap (λ (l : List Text). h ∷ l) (split_plain (base64_encode p) (no_dot-encode p))

two_parts : {a b c d : Text} → (a ∷ b ∷ []) ≡ (c ∷ d ∷ []) → (a ≡ c) × (b ≡ d)
two_parts e = (cc, cc)

-- The bytes that are hashed tell the header and the payload.
pub signing_input_inj :
    (h k p q : Text)
    → no_dot h ≡ true
    → no_dot k ≡ true
    → IsBytes p
    → IsBytes q
    → signing_input h p ≡ signing_input k q
    → (h ≡ k) × (p ≡ q)
unfolding signing_input
signing_input_inj h k p q ph pk bp bq e =
    let (a, b) = two_parts (sym (cut_input h p ph) ∙ ap split e ∙ cut_input k q pk) in
    (a, encode_inj p q bp bq b)

-- A signer that was loaded has a P-256 key.
pub load_jws_signer-is_p256 :
    (std : Crypto) (path kid : Text) (s : JwsSigner)
    → load_jws_signer std path kid ≡ ok s
    → s.key.is_p256 ≡ true
unfolding load_jws_signer
load_jws_signer-is_p256 std path kid s e =
    Holds-ok {P = λ s. s.key.is_p256 ≡ true}
      (bind_Holds (or_err no_file (std.read_file path)) _ λ raw _.
        bind_Holds (or_err no_pem (std.pem_decode raw)) _ λ block _.
          bind_Holds (parse_key std block) _
            λ key _. require-Holds key.is_p256 wrong_curve _ λ h. holds h)
      e
