-- ===== src/Attestor.antt =====
-- attestor-workflow: the workflow in an enclave that attests verified wallets, settles payments by the
-- payer's risk and revokes attestations. This file has the data of internal/domain and what the
-- workflow calls from outside; the modules below have the providers, the screener and the handlers.
pub mod Verifying
pub mod Workflow
pub mod Laws
pub mod Providers
pub mod Order
pub mod Http
pub mod Clients
pub mod Reports
pub mod Answered
use compliance_gateway.Common.{ℕ, suc, ◌+◌, ◌-◌, ◌%◌, Bool, Option, List}
use compliance_gateway.Text.{Text, TextMap}
use compliance_gateway.Rat.{ℤ, pos, negsuc}

-- `WorldIDProof`
pub record WorldIdProof : Type 0 where
  pub merkle_root : Text
  pub nullifier_hash : Text
  pub proof : Text
  pub verification_level : Text
  pub action : Text

pub record VerificationRequest : Type 0 where
  pub gate : ℕ
  pub wallet : ℕ
  pub level : ℕ
  pub world_id : Option WorldIdProof

-- The contract's struct.
pub record Attestation : Type 0 where
  pub nullifier : ℕ
  pub level : ℕ
  pub expiry : ℕ

pub data EntryKind : Type 0 where
  attest revoke unrevoke : EntryKind

pub record Entry : Type 0 where
  pub kind : EntryKind
  pub gate : ℕ
  pub wallet : ℕ
  pub att : Attestation
  pub nullifier : ℕ

-- `sumsubIDDoc`
pub record IdDoc : Type 0 where
  pub country : Text
  pub id_doc_type : Text
  pub number : Text

-- `sumsubApplicant`
pub record Applicant : Type 0 where
  pub review_status : Text
  pub review_answer : Text
  pub id_docs : List IdDoc

-- What World ID answers: the HTTP status and the decoded `success`.
pub record WorldIdAnswer : Type 0 where
  pub status : ℕ
  pub success : Bool

-- `goPlusResponse`
pub record GoPlusResponse : Type 0 where
  pub code : ℕ
  pub flags : TextMap Text

-- What the payments opened on a gateway are read as.
pub record GatewayPayment : Type 0 where
  pub max_risk : ℕ

-- The configuration of the workflow that its handlers read.
pub record Config : Type 0 where
  pub sumsub_app_token_id : Text
  pub sumsub_secret_id : Text
  pub session_id_secret_id : Text
  pub relay_fetch_token_id : Text
  pub enclave_nullifier_secret_id : Text
  pub attestation_ttl : ℤ  -- seconds

-- The report that is signed and written to a contract.
pub data Report : Type 0 where
  attestations : (heartbeat : ℕ) → List Entry → Report
  settlement : (id : ℕ) (accepted : Bool) → Report

-- The runtime, the contracts, the services behind HTTP with their responses decoded, and the hashes.
-- A call that fails gives nothing.
pub record Runtime : Type 0 where
  pub now : ℕ  -- seconds
  pub get_secret : Text → Option Text
  pub pending : Text → ℕ → Option (List VerificationRequest)  -- the token and the minute
  pub attestation_of : ℕ → ℕ → Option Attestation
  pub applicant : Text → Text → Text → Option Applicant  -- the two keys and the user's id
  pub verify_world_id : WorldIdProof → ℕ → Option WorldIdAnswer
  pub can_request : ℕ → Bool  -- http.NewRequestWithContext
  pub address_security : ℕ → Option GoPlusResponse
  pub payments : ℕ → ℕ → Option GatewayPayment
  pub write_report : Report → Bool
  pub decode_revocation : Text → Option Text
  pub to_hash : Text → ℕ  -- HexToHash
  pub hmac : Text → Text → Text
  pub keccak : Text → ℕ
  pub to_bytes32 : Text → ℕ
  pub hex_encode : Text → Text
  pub address_hex : ℕ → Text
  pub address_bytes : ℕ → Text
  pub to_lower : Text → Text

-- uint64 of the Unix time after the TTL.
abbrev pub expiry_at : ℕ → ℤ → ℕ
expiry_at now (pos n) = (now + n) % 18446744073709551616
expiry_at now (negsuc n) = (now - suc n) % 18446744073709551616
