-- ===== src/Rules/Parse.antt =====
-- rules.go: `Parse`, and the canonical form of the inputs (`Map`, `Hash`). Decoding is a parameter.
use compliance_gateway.Common.{ℕ, String, Option, none, some, List, [], ◌∷◌}
use compliance_gateway.Text.{Text, codes}
use compliance_gateway.Rat.{Rat}
use compliance_gateway.Rules.{Ruleset, Inputs, validate}
use compliance_gateway.Evidence.Value.{boolean, text, object, Fields, fields_of}
use compliance_gateway.Evidence.Canon.{canon}

-- A ruleset with its canonical form and hash.
pub record Parsed : Type 0 where
  pub rules : Ruleset
  pub canonical : Text
  pub hash : Text

-- `Parse`: what the strict decoder reads, if it is valid, and the canonical form of the plain one.
unfoldable pub parse :
    (Text → Option Ruleset)
    → (Text → Option Fields)
    → (String → Option Rat)
    → (List ℕ → Text)
    → Text
    → Option Parsed
unfolding validate canon
parse decode_ruleset decode set_string sha raw = elim (decode_ruleset raw) [
  | none ↦ none
  | some rs ↦ elim (validate set_string rs) [
    | _ ∷ _ ↦ none
    | [] ↦ elim (decode raw) [
      | none ↦ none
      | some fs ↦ elim (canon (object fs)) [
        | none ↦ none
        | some c ↦ some (record { rules = rs; canonical = c; hash = sha c })
      ]
    ]
  ]
]

-- `Map`
abbrev pub inputs_map : (String → Text) → Inputs → Fields
inputs_map utf8 i = fields_of (
    (codes "kyt.risk_level", text (utf8 i.kyt))
    ∷ (codes "sanctions.result", text (utf8 i.sanctions))
    ∷ (codes "structuring.result", text (utf8 i.structuring))
    ∷ (codes "issuer.result", text (utf8 i.issuer))
    ∷ (codes "any_unavailable", boolean i.any_unavailable)
    ∷ (codes "amount_eur", text (utf8 i.amount_eur))
    ∷ [])

-- `Hash`; an error of Canon is dropped.
unfoldable pub inputs_hash : (String → Text) → (List ℕ → Text) → Inputs → Text
unfolding canon
inputs_hash utf8 sha i = elim (canon (object (inputs_map utf8 i))) [
  | none ↦ sha []
  | some b ↦ sha b
]
