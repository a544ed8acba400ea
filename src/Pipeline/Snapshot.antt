-- ===== src/Pipeline/Snapshot.antt =====
-- snapshot.go: the ten evidence sections of a payment. `uuid4` is random and comes with the moment.
use compliance_gateway.Common.{
  ℕ, zero, suc, ◌*◌, Bool, false, Option, none, some, List, [], ◌∷◌, ◌++◌, ◌^◌, ◌==◌, if◌then◌else◌,
  Result, ◌>>=◌, map_err,
}
use compliance_gateway.Text.{Text, codes, text_eq, dot}
use compliance_gateway.Rat.{Rat, pos}
use compliance_gateway.Config.{ChainConfig, Token}
use compliance_gateway.Rules.{Inputs, Ruleset}
use compliance_gateway.Rules.Parse.{inputs_map, inputs_hash}
use compliance_gateway.Evidence.Value.{
  Value, null, boolean, int, text, strings, object, Fields, set, fields_of,
}
use compliance_gateway.Evidence.Builder.{Snapshot, new_snapshot}
use compliance_gateway.Checks.{unavailable_text}
use compliance_gateway.Pipeline.{Row, Err, internal}
use compliance_gateway.Pipeline.Env.{Env, Moment}
use compliance_gateway.Pipeline.Store.{CheckRow}
use compliance_gateway.Pipeline.Sections.{token_of, or_null}

-- `effectiveRuleset`
pub record EffectiveRuleset : Type 0 where
  pub rules : Ruleset
  pub version : Text
  pub hash : Text
  pub approved_by : ℕ
  pub effective_from : ℕ  -- seconds

-- `rules.Recommendation`, in the bytes of its texts.
pub record Advice : Type 0 where
  pub recommendation : Text
  pub reasons : List Text
  pub policy_ref : Text
  pub rule_id : Text
  pub auto : Bool

-- `cs[kind]` of the map that `loadChecks` fills.
unfoldable pub check_of : Text → List CheckRow → Option CheckRow
unfolding text_eq
check_of kind [] = none
check_of kind (c ∷ cs) = let rest = check_of kind cs in if text_eq c.kind kind then some c else rest

-- `section`
unfoldable pub check_section : Text → List CheckRow → Fields
unfolding check_of set
check_section kind cs = elim (check_of kind cs) [
  | none ↦ fields_of (
      (codes "result", text unavailable_text)
      ∷ (codes "error", text (codes "no result stored"))
      ∷ [])
  | some c ↦
      if text_eq kind (codes "kyt")
      then set (codes "raw_response_sha256") (or_null c.raw_sha256) c.section
      else c.section
]

-- strings.TrimRight(s, "0")
unfoldable pub trim_zeros : Text → Text
trim_zeros [] = []
trim_zeros (c ∷ cs) = elim (trim_zeros cs) [
  | [] ↦ if c == b'0' then [] else c ∷ []
  | d ∷ ds ↦ c ∷ d ∷ ds
]

unfoldable pub pad : ℕ → Text → Text
pad zero cs = cs
pad (suc n) [] = b'0' ∷ pad n []
pad (suc n) (c ∷ cs) = c ∷ pad n cs

-- At least two decimals stay.
unfoldable pub format_decimals : Text → Text
unfolding trim_zeros pad
format_decimals [] = codes ".00"
format_decimals (c ∷ cs) =
    let rest = format_decimals cs in if c == dot then dot ∷ pad 2 (trim_zeros cs) else c ∷ rest

-- `FormatUnits` of fx.go
unfoldable pub format_units : (ℕ → Rat → Text) → ℕ → ℕ → Text
unfolding format_decimals
format_units float_string amount decimals =
    format_decimals (float_string decimals (record { num = pos amount; den = 10 ^ decimals }))

abbrev pub rules_section : Env → Option EffectiveRuleset → Advice → Inputs → Value
rules_section env eff a i =
    let advice = object (
      fields_of (
        (codes "recommendation", text a.recommendation)
        ∷ (codes "reason_codes", strings a.reasons)
        ∷ (codes "policy_ref", text a.policy_ref)
        ∷ (codes "inputs", object (inputs_map env.utf8 i))
        ∷ (codes "inputs_hash", text (inputs_hash env.utf8 env.sha i))
        ∷ [])) in
    elim eff [
      | none ↦ object (
          fields_of (
            (codes "rules_version", null)
            ∷ (codes "ruleset_hash", null)
            ∷ (codes "approved_by", null)
            ∷ (codes "effective_from", null)
            ∷ (codes "engine_version", text env.engine_version)
            ∷ (codes "thresholds", null)
            ∷ (codes "recommendation", advice)
            ∷ []))
      | some e ↦ object (
          fields_of (
            (codes "rules_version", text e.version)
            ∷ (codes "ruleset_hash", text e.hash)
            ∷ (codes "approved_by", text (env.address_hex e.approved_by))
            ∷ (codes "effective_from", text (env.rfc3339 (e.effective_from * 1000000000)))
            ∷ (codes "engine_version", text env.engine_version)
            ∷ (
              codes "thresholds",
              text (
                  codes "See ruleset "
                  ++ (e.version
                      ++ (codes " (sha256 "
                          ++ (e.hash ++ (codes "); matched rule " ++ a.rule_id))))),
            )
            ∷ (codes "recommendation", advice)
            ∷ []))
    ]

abbrev pub onchain_section : Env → Row → ChainConfig → Token → Text → Value
onchain_section env r ch t eur = object (
    fields_of (
      (codes "chain_name", text (env.utf8 ch.name))
      ∷ (codes "chain_id", int r.chain_id)
      ∷ (codes "token", text (env.utf8 t.symbol))
      ∷ (codes "token_contract", text (env.address_hex r.token))
      ∷ (codes "amount", text (format_units env.float_string r.amount t.decimals))
      ∷ (codes "fx_rate_eur", text (env.utf8 t.eur_rate))
      ∷ (codes "amount_eur", text eur)
      ∷ (codes "fx_source", text (env.utf8 t.fx_source))
      ∷ (codes "fx_at", text (env.rfc3339 r.block_time))
      ∷ (codes "payer_address", text (env.address_hex r.payer))
      ∷ (codes "deposit_contract", text (env.address_hex r.deposit))
      ∷ (codes "tx_hash", text (env.hash_hex r.tx_hash))
      ∷ (codes "block_number", int r.block_number)
      ∷ (codes "block_timestamp", text (env.rfc3339 r.block_time))
      ∷ (codes "log_index", int r.log_index)
      ∷ (codes "confirmations", int ch.confirmations)
      ∷ []))

abbrev pub not_collected : Text
not_collected =
    codes "Not collected: gathered outside Deflow (configuration b, no checkout integration)"

abbrev pub travel_rule_section : Value
travel_rule_section = object (
    fields_of (
      (codes "standard", text (codes "IVMS101.2023"))
      ∷ (codes "collected_at", null)
      ∷ (codes "collected_before_payment", boolean false)
      ∷ (codes "originator", null)
      ∷ (codes "originator_vasp", null)
      ∷ (codes "protocol", null)
      ∷ (codes "beneficiary", null)
      ∷ (codes "wallet_type", text (codes "UNKNOWN"))
      ∷ (codes "wallet_type_method", text (codes "not determined"))
      ∷ (codes "completeness", text (codes "NOT_COLLECTED"))
      ∷ (codes "note", text not_collected)
      ∷ []))

abbrev pub wallet_ownership_section : Value
wallet_ownership_section = object (
    fields_of (
      (codes "required", boolean false)
      ∷ (codes "reason", text not_collected)
      ∷ (codes "method", null)
      ∷ (codes "message", null)
      ∷ (codes "message_sha256", null)
      ∷ (codes "domain", null)
      ∷ (codes "nonce", null)
      ∷ (codes "chain_id", null)
      ∷ (codes "issued_at", null)
      ∷ (codes "expires_at", null)
      ∷ (codes "signature", null)
      ∷ (codes "result", text (codes "NOT_COLLECTED"))
      ∷ (codes "verified_at", null)
      ∷ (codes "verified_block", null)
      ∷ (codes "prior_pack_id", null)
      ∷ []))

-- `snapshot`, of the amount in EUR, the effective ruleset, the recommendation and its inputs.
unfoldable pub snapshot :
    Env
    → Moment
    → Row
    → List CheckRow
    → Text
    → Option EffectiveRuleset
    → Advice
    → Inputs
    → Result Err Snapshot
unfolding token_of check_section format_units new_snapshot
snapshot env m r cs eur eff a i = do
  c ← token_of env.config r
  map_err (λ _. internal)
      (new_snapshot env.sha m.fresh
        (fields_of (
          (codes "pack_id", text m.uuid)
          ∷ (codes "payment_ref", text (env.hash_hex r.id))
          ∷ (codes "onchain", onchain_section env r c.0 c.1 eur)
          ∷ (codes "travel_rule", travel_rule_section)
          ∷ (codes "wallet_ownership", wallet_ownership_section)
          ∷ (codes "kyt", object (check_section (codes "kyt") cs))
          ∷ (codes "sanctions", object (check_section (codes "sanctions") cs))
          ∷ (codes "structuring", object (check_section (codes "structuring") cs))
          ∷ (codes "issuer", object (check_section (codes "issuer") cs))
          ∷ (codes "rules", rules_section env eff a i)
          ∷ []))
        0)
