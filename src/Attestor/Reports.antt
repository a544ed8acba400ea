-- ===== src/Attestor/Reports.antt =====
-- internal/chain/writer.go: how a report is encoded, signed and written. The ABI encoding, the signing
-- and the contracts' forwarders are parameters.
use compliance_gateway.Common.{
  Bool, true, false, Option, List, [], ◌∷◌, Result, ok, err, ◌>>=◌, ◌>>◌, or_err, require,
}
use compliance_gateway.Text.{Text, codes}
use compliance_gateway.Attestor.{Runtime, Report, attestations, settlement}

mutual
  -- `abi.Type`, as far as the reports use it.
  pub data AbiType : Type 0 where
    uint8 uint64 bytes32 address boolean : AbiType
    tuple tuples : Components → AbiType

  -- `[]abi.ArgumentMarshaling`
  pub data Components : Type 0 where
    last : Components
    component : Text → AbiType → Components → Components

abbrev pub attestation_components : Components
attestation_components =
    component (codes "nullifier") bytes32
      (component (codes "level") uint8 (component (codes "expiry") uint64 last))

abbrev pub entry_components : Components
entry_components = component (codes "kind") uint8 (
    component (codes "gate") address (
      component (codes "wallet") address (
        component (codes "att") (tuple attestation_components)
          (component (codes "nullifier") bytes32 last))))

-- `ReportRequest`
pub record ReportRequest : Type 0 where
  pub encoded_payload : Text
  pub encoder_name : Text
  pub signing_algo : Text
  pub hashing_algo : Text

-- go-ethereum's ABI, the runtime's signing, and the two contracts.
pub record Chain : Type 0 where
  pub has_type : AbiType → Bool  -- abi.NewType
  pub pack : List AbiType → Report → Option Text
  pub generate : ReportRequest → Option Text
  pub write_registry : Text → Bool
  pub write_gateway : Text → Bool

pub data WriteErr : Type 0 where
  no_type not_packed not_signed not_written : WriteErr

-- The arguments of a report, each of a type that the ABI has.
unfoldable pub report_args : Chain → List AbiType → Result WriteErr (List AbiType)
report_args chain [] = ok []
report_args chain (t ∷ ts) = do
  require (chain.has_type t) no_type
  rest ← report_args chain ts
  ok (t ∷ rest)

-- `attestationReportArgs` and `settlementReportArgs`
abbrev pub attestation_types : List AbiType
attestation_types = uint64 ∷ tuples entry_components ∷ []

abbrev pub settlement_types : List AbiType
settlement_types = bytes32 ∷ boolean ∷ []

abbrev pub report_request : Text → ReportRequest
report_request encoded = record {
  encoded_payload = encoded;
  encoder_name = codes "evm";
  signing_algo = codes "ecdsa";
  hashing_algo = codes "keccak256";
}

-- `generateAndWrite`
unfoldable pub generate_and_write : Chain → Text → (Text → Bool) → Result WriteErr (Unit {0})
generate_and_write chain encoded write = do
  report ← or_err not_signed (chain.generate (report_request encoded))
  require (write report) not_written

unfoldable pub write_packed :
    Chain → List AbiType → Report → (Text → Bool) → Result WriteErr (Unit {0})
unfolding report_args generate_and_write
write_packed chain types r write = do
  args ← report_args chain types
  encoded ← or_err not_packed (chain.pack args r)
  generate_and_write chain encoded write

-- `ReportAttestations` and `ReportSettlement`
unfoldable pub write_report : Chain → Report → Result WriteErr (Unit {0})
unfolding write_packed
write_report chain (attestations heartbeat batch) =
    write_packed chain attestation_types (attestations heartbeat batch) chain.write_registry
write_report chain (settlement id accepted) =
    write_packed chain settlement_types (settlement id accepted) chain.write_gateway

abbrev pub is_written : Result WriteErr (Unit {0}) → Bool
is_written (ok u) = true
is_written (err e) = false

-- The runtime of the workflow with the writer in it.
unfoldable pub with_writer : Chain → Runtime → Runtime
unfolding write_report
with_writer chain rt = record rt { write_report = λ r. is_written (write_report chain r) }
