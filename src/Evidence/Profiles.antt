-- ===== src/Evidence/Profiles.antt =====
-- profiles.go: the disclosure profiles, and the copies that must not be issued.
use compliance_gateway.Common.{Bool, false, Option, none, some, List, [], ◌∷◌, ◌++◌, if◌then◌else◌}
use compliance_gateway.Text.{Text, TextMap, codes, text_eq}
use compliance_gateway.Evidence.Value.{text, object, Fields, get}

abbrev pub off_ramp : List Text
off_ramp =
    codes "travel_rule.originator.identifier"
    ∷ codes "travel_rule.originator.identifier_type"
    ∷ codes "travel_rule.beneficiary.name"
    ∷ codes "kyt.api_version"
    ∷ codes "kyt.external_ref"
    ∷ codes "kyt.raw_response_sha256"
    ∷ codes "sanctions.algorithm"
    ∷ codes "sanctions.threshold"
    ∷ codes "sanctions.calibration_version"
    ∷ codes "sanctions.matched_on"
    ∷ codes "sanctions.alert_analysis"
    ∷ codes "sanctions.reviewer"
    ∷ codes "sanctions.second_reviewer"
    ∷ codes "structuring.rule_id"
    ∷ codes "structuring.window"
    ∷ codes "structuring.thresholds"
    ∷ codes "structuring.linked_count"
    ∷ codes "structuring.linked_pack_ids"
    ∷ codes "structuring.features"
    ∷ codes "structuring.score"
    ∷ codes "rules.approved_by"
    ∷ codes "rules.engine_version"
    ∷ codes "rules.thresholds"
    ∷ codes "rules.recommendation"
    ∷ codes "timeline.offchain"
    ∷ codes "decision.mode"
    ∷ codes "decision.policy_ref"
    ∷ codes "decision.reason_codes"
    ∷ codes "decision.rationale"
    ∷ codes "decision.officer_id"
    ∷ codes "decision.second_reviewer"
    ∷ codes "decision.return_blocked"
    ∷ codes "retention.legal_hold"
    ∷ []

abbrev pub bank : List Text
bank =
    off_ramp
    ++ (codes "travel_rule.originator"
        ∷ codes "travel_rule.beneficiary"
        ∷ codes "wallet_ownership.required"
        ∷ codes "wallet_ownership.reason"
        ∷ codes "wallet_ownership.method"
        ∷ codes "wallet_ownership.message"
        ∷ codes "wallet_ownership.message_sha256"
        ∷ codes "wallet_ownership.domain"
        ∷ codes "wallet_ownership.nonce"
        ∷ codes "wallet_ownership.chain_id"
        ∷ codes "wallet_ownership.issued_at"
        ∷ codes "wallet_ownership.expires_at"
        ∷ codes "wallet_ownership.signature"
        ∷ codes "wallet_ownership.verified_at"
        ∷ codes "wallet_ownership.verified_block"
        ∷ codes "wallet_ownership.prior_pack_id"
        ∷ [])

-- `Profiles`: the paths that each profile withholds.
unfoldable pub profiles : Text → Option (List Text)
profiles p =
    if text_eq p (codes "MASTER")
    then some []
    else if text_eq p (codes "FIU_SUPERVISOR")
    then some []
    else if text_eq p (codes "OFF_RAMP")
    then some off_ramp
    else if text_eq p (codes "BANK")
    then some bank
    else if text_eq p (codes "AUDITOR")
    then some (codes "travel_rule.originator" ∷ codes "travel_rule.beneficiary" ∷ [])
    else none

-- `data[section][key] == want`; a section that is no map has no key.
unfoldable pub field_is : Fields → Text → Text → Text → Bool
field_is fs section key want = elim (get section fs) [
  | some (object gs) ↦ elim (get key gs) [ some (text s) ↦ text_eq s want | _ ↦ false ]
  | _ ↦ false
]

pub data Reason : Type 0 where
  frozen true_match : Reason

-- `RefusedProfiles`: the reason, for each profile that it names.
unfoldable pub refused_profiles : Fields → TextMap Reason
unfolding field_is
refused_profiles fs =
    if field_is fs (codes "decision") (codes "decision") (codes "FREEZE")
    then (codes "OFF_RAMP", frozen) ∷ (codes "BANK", frozen) ∷ []
    else if field_is fs (codes "sanctions") (codes "result") (codes "TRUE_MATCH")
    then (codes "OFF_RAMP", true_match) ∷ (codes "BANK", true_match) ∷ []
    else []
