-- ===== src/Evidence/Jws.antt =====
-- jws.go: the detached ES256 JWS over a pack's data. The file system, PEM, the key formats, SHA-256
-- and ECDSA are parameters; `r.FillBytes` and `SetBytes` are written out.
pub mod Bytes
pub mod Verified
use compliance_gateway.Common.{
  ℕ, Bool, true, false, not, ◌||◌, Option, none, some, List, [], ◌∷◌, ◌++◌, ◌==◌, if◌then◌else◌,
  Result, ok, err, ◌>>=◌, ◌>>◌, or_err, require, length,
}
use compliance_gateway.Text.{Text, codes, dot, split, text_eq}
use compliance_gateway.Text.Base64.{base64_encode, base64_decode}
use compliance_gateway.Evidence.Value.{Value, text, object, field, end}
use compliance_gateway.Evidence.Canon.{canon}
use Bytes.{fill_bytes, set_bytes, take, drop}

pub data JwsErr : Type 0 where
  no_file no_pem bad_key not_ecdsa wrong_curve panic signing_failed : JwsErr
  not_detached bad_encoding does_not_verify : JwsErr

-- An `*ecdsa.PrivateKey`, as far as the loader looks into it.
pub record Key : Type 0 where
  pub scalar : ℕ
  pub is_p256 : Bool

-- What `x509.ParsePKCS8PrivateKey` returns: an ECDSA key or another one.
pub data Parsed : Type 0 where
  ecdsa : Key → Parsed
  other : Parsed

-- The calls into the standard library's files and cryptography.
pub record Crypto : Type 0 where
  pub read_file : Text → Option Text
  pub pem_decode : Text → Option Text
  pub parse_pkcs8 : Text → Option Parsed
  pub parse_sec1 : Text → Option Key
  pub sha256 : Text → Text
  pub public_key : Key → ℕ
  pub sign : Key → Text → Option (ℕ × ℕ)
  pub verify : ℕ → Text → ℕ → ℕ → Bool

pub record JwsSigner : Type 0 where
  pub kid : Text
  pub key : Key

-- `header`: the canonical JSON of the algorithm and the key's id, encoded.
unfoldable pub header : JwsSigner → Result JwsErr Text
header s = do
  c ← or_err panic (
      canon (
        object (field (codes "alg") (text (codes "ES256")) (field (codes "kid") (text s.kid) end))))
  ok (base64_encode c)

-- The bytes that are hashed.
unfoldable pub signing_input : Text → Text → Text
signing_input h payload = h ++ dot ∷ base64_encode payload

module _ (std : Crypto) where
  pub parse_key : Text → Result JwsErr Key
  parse_key block = elim (std.parse_pkcs8 block) [
    | some parsed ↦ elim parsed [ ecdsa k ↦ ok k | other ↦ err not_ecdsa ]
    | none ↦ or_err bad_key (std.parse_sec1 block)
  ]

  -- `LoadJWSSigner`
  unfoldable pub load_jws_signer : Text → Text → Result JwsErr JwsSigner
  unfolding parse_key
  load_jws_signer path kid = do
    raw ← or_err no_file (std.read_file path)
    block ← or_err no_pem (std.pem_decode raw)
    key ← parse_key block
    require key.is_p256 wrong_curve
    ok (record { kid = kid; key = key })

  -- `Public`
  abbrev pub public : JwsSigner → ℕ
  public s = std.public_key s.key

  sign_digest : JwsSigner → Text → Result JwsErr (ℕ × ℕ)
  sign_digest s digest = or_err signing_failed (std.sign s.key digest)

  -- The two halves of the signature; a number that does not fit is a panic.
  halves : ℕ × ℕ → Result JwsErr Text
  halves (r, s) = do
    a ← or_err panic (fill_bytes 32 r)
    b ← or_err panic (fill_bytes 32 s)
    ok (a ++ b)

  -- `Sign`
  unfoldable pub sign : JwsSigner → Text → Result JwsErr Text
  unfolding header signing_input sign_digest halves
  sign s payload = do
    h ← header s
    rs ← sign_digest s (std.sha256 (signing_input h payload))
    sig ← halves rs
    ok (h ++ dot ∷ dot ∷ base64_encode sig)

  pub check_signature : ℕ → Text → Text → Text → Result JwsErr (Unit {0})
  check_signature pub_key h sig64 payload = do
    sig ← or_err bad_encoding (base64_decode sig64)
    require (length sig == 64) bad_encoding
    require
        (std.verify pub_key (std.sha256 (signing_input h payload)) (set_bytes (take 32 sig))
          (set_bytes (drop 32 sig)))
        does_not_verify

  -- What is checked of the parts between the dots.
  abbrev pub detached : ℕ → Text → List Text → Result JwsErr (Unit {0})
  detached pub_key payload (h ∷ m ∷ s ∷ []) =
      require (text_eq m []) not_detached >> check_signature pub_key h s payload
  detached pub_key payload parts = err not_detached

  -- `VerifyJWS`
  unfoldable pub verify_jws : ℕ → Text → Text → Result JwsErr (Unit {0})
  unfolding split text_eq check_signature
  verify_jws pub_key jws payload = detached pub_key payload (split jws)

-- A signature without the reason why there is none.
abbrev pub signed : Result JwsErr Text → Option Text
signed (ok jws) = some jws
signed (err e) = none
