-- ===== src/Decision/Verify.antt =====
-- decision.go (`Recover`, `TypedData`) and verify.go: who signed a document, and whether that signer may.
-- Hashes and addresses are numbers. The EIP-712 hash of a document and the recovery of an address
-- from a signature belong to go-ethereum: they are the parameters `digest` and `sig_to_address`.
pub mod Laws
use compliance_gateway.Common.{
  ℕ, zero, suc, ◌-◌, String, Bool, true, false, Option, none, some, List, [], ◌∷◌, length, leb,
  ◌==◌, if◌then◌else◌,
}
use compliance_gateway.Common.{◌||◌, ◌≡◌, refl, arith, ap}
use compliance_gateway.Common.{Result, ok, err, ◌>>=◌, or_err}
use compliance_gateway.Decision.{permits}

-- `Struct`, the Decision that the processor contracts accept.
pub record Struct : Type 0 where
  pub payment_id : ℕ
  pub decision : ℕ  -- uint8
  pub token : ℕ
  pub amount : ℕ
  pub pack_hash : ℕ
  pub nonce : ℕ  -- uint64
  pub deadline : ℕ  -- uint64

-- The two EIP-712 documents, by the values of their domains and messages.
pub data TypedData : Type 0 where
  decision_data : (chain_id verifying : ℕ) → Struct → TypedData
  ruleset_approval : (ruleset_hash : ℕ) (version : String) (effective_from : ℕ) → TypedData

-- config.Officer
pub record Officer : Type 0 where
  pub address : ℕ
  pub officer_id : String
  pub mask : ℕ  -- uint8

pub data Err : Type 0 where
  no_digest bad_length bad_signature not_permitted not_authorised : Err

-- The copy of the signature with `s[64]`, its last byte, brought from 27/28 to 0/1.
unfoldable pub normalize_v : ℕ → List ℕ → List ℕ
normalize_v i [] = []
normalize_v zero (b ∷ bs) = (if leb 27 b then b - 27 else b) ∷ bs
normalize_v (suc i) (b ∷ bs) = b ∷ normalize_v i bs

-- The loop over the officers: the first with the recovered address decides.
unfoldable pub find_officer : ℕ → ℕ → List Officer → Result Err Officer
find_officer addr kind [] = err not_authorised
find_officer addr kind (o ∷ os) =
    let rest = find_officer addr kind os in
    if o.address == addr then (if permits o.mask kind then ok o else err not_permitted) else rest

unfoldable pub contains : List ℕ → ℕ → Bool
contains [] a = false
contains (x ∷ xs) a = x == a || contains xs a

module _ (digest : TypedData → Option ℕ) (sig_to_address : ℕ → List ℕ → Option ℕ) where
  unfoldable pub recover : ℕ → List ℕ → Result Err ℕ
  recover h sig =
      if length sig == 65
      then or_err bad_signature (sig_to_address h (normalize_v 64 sig))
      else err bad_length

  unfoldable pub verify_officer : TypedData → List ℕ → ℕ → List Officer → Result Err Officer
  unfolding recover
  verify_officer td sig kind officers = do
    h ← or_err no_digest (digest td)
    addr ← recover h sig
    find_officer addr kind officers

  unfoldable pub verify_approval : TypedData → List ℕ → List ℕ → Result Err ℕ
  unfolding recover
  verify_approval td sig mlro = do
    h ← or_err no_digest (digest td)
    addr ← recover h sig
    if contains mlro addr then ok addr else err not_authorised
