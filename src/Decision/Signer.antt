-- ===== src/Decision/Signer.antt =====
-- decision.go: the processor's key, `LoadFileSigner` and `Sign`. Files, the trimming of white space and
-- secp256k1 are parameters.
pub mod Recovered
use compliance_gateway.Common.{
  ℕ, zero, suc, ◌+◌, ◌%◌, Bool, true, false, Option, none, some, List, [], ◌∷◌, if◌then◌else◌,
  Result, ok, err, ◌>>=◌, or_err,
}
use compliance_gateway.Text.{Text, codes, is_prefix}

pub data SignerErr : Type 0 where
  no_file bad_key signing_failed panic : SignerErr

-- A private key is a number.
pub record Secp : Type 0 where
  pub read_file : Text → Option Text
  pub trim_space : Text → Text
  pub hex_to_ecdsa : Text → Option ℕ
  pub sign : ℕ → ℕ → Option (List ℕ)  -- crypto.Sign of a digest
  pub key_address : ℕ → ℕ  -- PubkeyToAddress of the public key

-- strings.TrimPrefix(s, "0x")
unfoldable pub trim_0x : Text → Text
unfolding is_prefix
trim_0x [] = []
trim_0x (a ∷ []) = a ∷ []
trim_0x (a ∷ b ∷ s) = if is_prefix (codes "0x") (a ∷ b ∷ s) then s else a ∷ b ∷ s

-- `sig[i] += 27` on bytes; an index out of range is a panic.
unfoldable pub add_27 : ℕ → List ℕ → Option (List ℕ)
add_27 i [] = none
add_27 zero (b ∷ bs) = some ((b + 27) % 256 ∷ bs)
add_27 (suc i) (b ∷ bs) = elim (add_27 i bs) [ none ↦ none | some cs ↦ some (b ∷ cs) ]

module _ (secp : Secp) where
  -- `LoadFileSigner`
  unfoldable pub load_file_signer : Text → Result SignerErr ℕ
  unfolding trim_0x
  load_file_signer path = do
    raw ← or_err no_file (secp.read_file path)
    or_err bad_key (secp.hex_to_ecdsa (trim_0x (secp.trim_space raw)))

  -- `KeySigner.Address`
  unfoldable pub signer_address : ℕ → ℕ
  signer_address key = secp.key_address key

  -- `KeySigner.Sign`: v is 27 or 28.
  unfoldable pub sign_digest : ℕ → ℕ → Result SignerErr (List ℕ)
  unfolding add_27
  sign_digest key digest = do
    sig ← or_err signing_failed (secp.sign key digest)
    or_err panic (add_27 64 sig)
