-- ===== src/Examples/Recommending.antt =====
-- rules.go at a concrete ruleset.
use compliance_gateway.Common.{
  ◌≡◌, ◌↔◌, refl, String, Option, none, some, [], ◌∷◌, str_eq, true, false, if◌then◌else◌,
}
use compliance_gateway.Rat.{Rat, pos, ge}
use compliance_gateway.Rules.{
  Condition, Rule, Ruleset, Inputs, text, validate, validate_condition, recommend,
  recommendation_of, match, match_all, enums, contains,
}
use compliance_gateway.Rules.Wellformed.{ConditionOk, validate_condition_iff}
use compliance_gateway.Rules.Recommend.{recommend_total, FirstMatch, RuleOk}

-- Reads two numerals.
abbrev decimal : String → Option Rat
decimal s =
    if str_eq "1000" s
    then some (record { num = pos 1000; den = 1 })
    else if str_eq "999.5" s
    then some (record { num = pos 1999; den = 2 })
    else none

abbrev large : Condition
large = record { field = "amount_eur"; op = "gte"; value = text "1000" }

abbrev hold_large : Rule
hold_large = record {
  id = "large";
  when = large ∷ [];
  recommend = "HOLD";
  reasons = "AMOUNT" ∷ [];
  auto = false;
}

abbrev pub credit_rest : Rule
credit_rest = record {
  id = "default";
  when = [];
  recommend = "CREDIT";
  reasons = "CLEAN" ∷ [];
  auto = true;
}

abbrev two_rules : Ruleset
two_rules = record { version = "v1"; rules = hold_large ∷ credit_rest ∷ [] }

abbrev small : Inputs
small = record {
  kyt = "LOW";
  sanctions = "NO_MATCH";
  structuring = "PASS";
  issuer = "NOT_LISTED";
  any_unavailable = false;
  amount_eur = "999.5";
}

ruleset_valid : validate decimal two_rules ≡ []
unfolding validate validate_condition enums contains
ruleset_valid = refl

recommend_total_example :
    (q : Rule) × FirstMatch decimal small q two_rules.rules
    × RuleOk decimal q
    × (recommend decimal two_rules small ≡ some (recommendation_of decimal "v1" q))
recommend_total_example = recommend_total decimal two_rules small ruleset_valid

-- 999.5 is below the limit, so the last rule decides.
small_credited :
    recommend decimal two_rules small ≡ some (recommendation_of decimal "v1" credit_rest)
unfolding recommend match match_all ge
small_credited = refl

validate_condition_iff_example :
    (validate_condition decimal large ≡ none) ↔ ConditionOk decimal large
validate_condition_iff_example = validate_condition_iff decimal large
