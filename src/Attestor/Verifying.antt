-- ===== src/Attestor/Verifying.antt =====
-- internal/verifier, internal/nullifier, internal/sessionid and internal/provenance: who is attested,
-- under which nullifier, and the risk of a wallet.
use compliance_gateway.Common.{
  ℕ, Bool, not, ◌&&◌, Option, none, some, List, [], ◌∷◌, ◌++◌, ◌==◌, if◌then◌else◌, Result, ok,
  ◌>>=◌, ◌>>◌, or_err, require,
}
use compliance_gateway.Text.{Text, TextMap, codes, text_eq, text_le}
use compliance_gateway.Checks.Kyt.{raised, score_of}
use compliance_gateway.Rat.{ℤ}
use compliance_gateway.Attestor.{
  Runtime, VerificationRequest, Attestation, IdDoc, GoPlusResponse, expiry_at,
}

pub data Err : Type 0 where
  missing_proof unreachable not_approved no_id_docs not_verified no_request : Err

abbrev pub world_id_level : ℕ
world_id_level = 1

abbrev pub sumsub_level : ℕ
sumsub_level = 2

-- The order of `firstDoc`: by country, type and number.
unfoldable pub is_before : IdDoc → IdDoc → Bool
unfolding text_eq text_le
is_before a b =
    if not (text_eq a.country b.country)
    then text_le a.country b.country
    else if not (text_eq a.id_doc_type b.id_doc_type)
    then text_le a.id_doc_type b.id_doc_type
    else not (text_eq a.number b.number) && text_le a.number b.number

unfoldable pub insert_doc : IdDoc → List IdDoc → List IdDoc
unfolding is_before
insert_doc d [] = d ∷ []
insert_doc d (e ∷ es) = let rest = insert_doc d es in if is_before e d then e ∷ rest else d ∷ e ∷ es

unfoldable pub sort_docs : List IdDoc → List IdDoc
unfolding insert_doc
sort_docs [] = []
sort_docs (d ∷ ds) = insert_doc d (sort_docs ds)

abbrev pub head_doc : List IdDoc → Option IdDoc
head_doc [] = none
head_doc (d ∷ ds) = some d

-- `firstDoc`
unfoldable pub first_doc : List IdDoc → Option IdDoc
unfolding sort_docs
first_doc ds = head_doc (sort_docs ds)

-- `goPlusWeights`
abbrev pub address_weights : TextMap ℕ
address_weights =
    (codes "sanctioned", 100)
    ∷ (codes "money_laundering", 90)
    ∷ (codes "stealing_attack", 90)
    ∷ (codes "mixer", 80)
    ∷ (codes "darkweb_transactions", 80)
    ∷ (codes "cybercrime", 70)
    ∷ (codes "financial_crime", 70)
    ∷ (codes "blackmail_activities", 70)
    ∷ (codes "phishing_activities", 60)
    ∷ (codes "blacklist_doubt", 50)
    ∷ (codes "fake_kyc", 40)
    ∷ (codes "honeypot_related_address", 30)
    ∷ []

abbrev pub score_response : Option GoPlusResponse → ℕ
score_response none = 100
score_response (some r) = if r.code == 1 then score_of (raised r.flags address_weights) else 100

module _ (rt : Runtime) where
  -- `Derive`
  abbrev pub derive : Text → ℕ → ℕ
  derive doc_id gate = rt.keccak (doc_id ++ rt.address_bytes gate)

  -- `DeriveFromDoc`
  abbrev pub derive_from_doc : Text → Text → Text → ℕ → ℕ
  derive_from_doc secret number country gate =
      rt.to_bytes32 (rt.hmac secret (number ++ (country ++ rt.to_lower (rt.address_hex gate))))

  -- `SessionUserID`
  abbrev pub session_user_id : Text → Text → Text → Text
  session_user_id secret gate wallet =
      codes "cg-" ++ rt.hex_encode (rt.hmac secret (rt.to_lower gate ++ rt.to_lower wallet))

  -- `SumsubProvider.Verify`, with the keys of the client, the secrets and the TTL.
  unfoldable pub verify_sumsub :
      Text → Text → Text → Text → ℤ → VerificationRequest → Result Err Attestation
  unfolding text_eq first_doc
  verify_sumsub app_token secret_key session_secret enclave_secret ttl q = do
    a ← or_err unreachable (
        rt.applicant app_token secret_key (
          session_user_id session_secret (rt.to_lower (rt.address_hex q.gate))
            (rt.to_lower (rt.address_hex q.wallet))))
    require (text_eq a.review_status (codes "completed") && text_eq a.review_answer (codes "GREEN"))
        not_approved
    doc ← or_err no_id_docs (first_doc a.id_docs)
    ok (record {
      nullifier = derive_from_doc enclave_secret doc.number doc.country q.gate;
      level = sumsub_level;
      expiry = expiry_at rt.now ttl;
    })

  -- `WorldIDProvider.Verify`
  unfoldable pub verify_world_id : ℤ → VerificationRequest → Result Err Attestation
  verify_world_id ttl q = do
    proof ← or_err missing_proof q.world_id
    a ← or_err unreachable (rt.verify_world_id proof q.wallet)
    require (a.status == 200 && a.success) not_verified
    ok (record {
      nullifier = derive proof.nullifier_hash q.gate;
      level = world_id_level;
      expiry = expiry_at rt.now ttl;
    })

  -- `Score`: the highest weight of a raised flag, and 100 without a usable response.
  unfoldable pub score : ℕ → Result Err ℕ
  unfolding raised score_of
  score wallet = do
    require (rt.can_request wallet) no_request
    ok (score_response (rt.address_security wallet))
