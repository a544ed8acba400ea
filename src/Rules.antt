-- ===== src/Rules.antt =====
-- compliance-backend/internal/rules/rules.go: rulesets, their validation, and `Recommend`.
-- A panic (a failed type assertion, or no default rule) is `none`. Reading a decimal is the
-- parameter `set_string`, which stands for big.Rat's.
pub mod Wellformed
pub mod Matching
pub mod Recommend
pub mod Parse
use compliance_gateway.Common.{
  ℕ, suc, ◌+◌, String, Bool, true, false, not, ◌&&◌, ◌||◌, Option, none, some, List, [], ◌∷◌, ◌++◌,
  if◌then◌else◌, any, str_eq,
}
use Prim.Native.String.{◌++◌ as ◌⧺◌}
use compliance_gateway.Rat.{Rat, ge}

-- What `Value any` can hold after the JSON decoder, as far as a type assertion tells it apart.
mutual
  pub data Value : Type 0 where
    text : String → Value
    boolean : Bool → Value
    list : Values → Value
    other : Value

  pub data Values : Type 0 where
    nil : Values
    cons : Value → Values → Values

pub record Condition : Type 0 where
  pub field : String
  pub op : String
  pub value : Value

pub record Rule : Type 0 where
  pub id : String
  pub when : List Condition
  pub recommend : String
  pub reasons : List String
  pub auto : Bool

pub record Ruleset : Type 0 where
  pub version : String
  pub rules : List Rule

pub record Inputs : Type 0 where
  pub kyt : String
  pub sanctions : String
  pub structuring : String
  pub issuer : String
  pub any_unavailable : Bool
  pub amount_eur : String

pub record Recommendation : Type 0 where
  pub recommendation : String
  pub reasons : List String
  pub policy_ref : String
  pub rule_id : String
  pub auto : Bool

unfoldable pub enums : String → Option (List String)
enums f =
    if str_eq "kyt.risk_level" f
    then some ("LOW" ∷ "MEDIUM" ∷ "HIGH" ∷ "SEVERE" ∷ "UNAVAILABLE" ∷ [])
    else if str_eq "sanctions.result" f
    then some ("NO_MATCH" ∷ "TRUE_MATCH" ∷ "UNAVAILABLE" ∷ [])
    else if str_eq "structuring.result" f
    then some ("PASS" ∷ "FLAG" ∷ "UNAVAILABLE" ∷ [])
    else if str_eq "issuer.result" f
    then some ("NOT_LISTED" ∷ "LISTED" ∷ "UNAVAILABLE" ∷ [])
    else none

abbrev pub decisions : List String
decisions = "CREDIT" ∷ "HOLD" ∷ "FREEZE" ∷ "RETURN" ∷ []

-- slices.Contains
unfoldable pub contains : List String → String → Bool
contains [] s = false
contains (x ∷ xs) s = str_eq x s || contains xs s

pub data ConditionErr : Type 0 where
  needs_one_of needs_list not_one_of bad_operator bad_any_unavailable bad_amount unknown_field :
      ConditionErr

pub data Err : Type 0 where
  no_version no_rules last_has_conditions : Err
  bad_id bad_recommend no_reasons : ℕ → Err
  bad_condition : ℕ → ℕ → ConditionErr → Err

abbrev is_text_of : List String → Value → Bool
is_text_of allowed (text s) = contains allowed s
is_text_of allowed _ = false

-- The loop over the list of an `in` condition.
unfoldable pub all_texts_of : List String → Values → Bool
unfolding contains
all_texts_of allowed nil = true
all_texts_of allowed (cons v vs) = is_text_of allowed v && all_texts_of allowed vs

validate_in : List String → Value → Option ConditionErr
unfolding all_texts_of
validate_in allowed (list nil) = some needs_list
validate_in allowed (list (cons v vs)) =
    if all_texts_of allowed (cons v vs) then none else some not_one_of
validate_in allowed _ = some needs_list

validate_enum : List String → String → Value → Option ConditionErr
unfolding validate_in contains
validate_enum allowed op v =
    if str_eq "eq" op
    then (if is_text_of allowed v then none else some needs_one_of)
    else if str_eq "in" op
    then validate_in allowed v
    else some bad_operator

abbrev pub is_boolean : Value → Bool
is_boolean (boolean b) = true
is_boolean _ = false

abbrev get : Inputs → String → String
get i f =
    if str_eq "kyt.risk_level" f
    then i.kyt
    else if str_eq "sanctions.result" f
    then i.sanctions
    else if str_eq "structuring.result" f
    then i.structuring
    else if str_eq "issuer.result" f
    then i.issuer
    else ""

match_boolean : Bool → Value → Option Bool
match_boolean u (boolean true) = some u
match_boolean u (boolean false) = some (not u)
match_boolean u _ = none

match_text : String → Value → Option Bool
match_text v (text s) = some (str_eq v s)
match_text v _ = none

-- The loop returns at the first equal text, and panics at an item that is no text.
match_any : String → Values → Option Bool
match_any v nil = some false
match_any v (cons (text s) xs) = let rest = match_any v xs in if str_eq v s then some true else rest
match_any v (cons _ xs) = none

match_list : String → Value → Option Bool
unfolding match_any
match_list v (list xs) = match_any v xs
match_list v _ = none

module _ (set_string : String → Option Rat) where
  abbrev pub is_decimal : Value → Bool
  is_decimal (text s) = elim (set_string s) [ none ↦ false | some r ↦ true ]
  is_decimal _ = false

  -- `Condition.validate`
  unfoldable pub validate_condition : Condition → Option ConditionErr
  unfolding validate_enum
  validate_condition c = elim (enums c.field) [
    | some allowed ↦ validate_enum allowed c.op c.value
    | none ↦
        if str_eq "any_unavailable" c.field
        then (if is_boolean c.value && str_eq "eq" c.op then none else some bad_any_unavailable)
        else if str_eq "amount_eur" c.field
        then (if is_decimal c.value && str_eq "gte" c.op then none else some bad_amount)
        else some unknown_field
  ]

  -- The conditions of rule `i`, from condition `j` on.
  unfoldable pub condition_errors : ℕ → ℕ → List Condition → List Err
  condition_errors i j [] = []
  condition_errors i j (c ∷ cs) =
      elim (validate_condition c) [ none ↦ [] | some e ↦ bad_condition i j e ∷ [] ]
      ++ condition_errors i (j + 1) cs

  -- The rules from index `i` on; `ids` are the ids before it.
  unfoldable pub rule_errors : ℕ → List String → List Rule → List Err
  unfolding condition_errors
  rule_errors i ids [] = []
  rule_errors i ids (r ∷ rs) =
      (if str_eq "" r.id || contains ids r.id then bad_id i ∷ [] else [])
      ++ ((if contains decisions r.recommend then [] else bad_recommend i ∷ [])
          ++ (elim r.reasons [ [] ↦ no_reasons i ∷ [] | _ ∷ _ ↦ [] ]
              ++ (condition_errors i 0 r.when ++ rule_errors (i + 1) (r.id ∷ ids) rs)))

  unfoldable pub last_errors : List Rule → List Err
  last_errors [] = []
  last_errors (r ∷ []) = elim r.when [ [] ↦ [] | _ ∷ _ ↦ last_has_conditions ∷ [] ]
  last_errors (r ∷ s ∷ rs) = last_errors (s ∷ rs)

  -- With no rule at all nothing else is looked at.
  unfoldable pub rules_errors : List Rule → List Err
  unfolding rule_errors last_errors
  rules_errors [] = no_rules ∷ []
  rules_errors (r ∷ rs) = rule_errors 0 [] (r ∷ rs) ++ last_errors (r ∷ rs)

  -- `Ruleset.validate`: the joined errors, none for a valid ruleset.
  unfoldable pub validate : Ruleset → List Err
  unfolding rules_errors
  validate rs = (if str_eq "" rs.version then no_version ∷ [] else []) ++ rules_errors rs.rules

  match_amount : String → Value → Option Bool
  unfolding ge
  match_amount a (text s) = elim (set_string a) [
    | none ↦ some false
    | some x ↦ elim (set_string s) [ none ↦ some false | some y ↦ some (ge x y) ]
  ]
  match_amount a _ = none

  -- `Condition.match`
  unfoldable pub match : Condition → Inputs → Option Bool
  unfolding match_boolean match_amount match_text match_list
  match c i =
      if str_eq "any_unavailable" c.field
      then match_boolean i.any_unavailable c.value
      else if str_eq "amount_eur" c.field
      then match_amount i.amount_eur c.value
      else if str_eq "eq" c.op
      then match_text (get i c.field) c.value
      else match_list (get i c.field) c.value

  -- The inner loop of `Recommend`: it stops at the first condition that does not match.
  unfoldable pub match_all : List Condition → Inputs → Option Bool
  match_all [] i = some true
  match_all (c ∷ cs) i =
      let rest = match_all cs i in
      elim (match c i) [ none ↦ none | some true ↦ rest | some false ↦ some false ]

  abbrev pub recommendation_of : String → Rule → Recommendation
  recommendation_of version r = record {
    recommendation = r.recommend;
    reasons = r.reasons;
    policy_ref = version ⧺ ("/" ⧺ r.id);
    rule_id = r.id;
    auto = r.auto;
  }

  unfoldable pub recommend_from : String → List Rule → Inputs → Option Recommendation
  recommend_from version [] i = none
  recommend_from version (r ∷ rs) i =
      let rest = recommend_from version rs i in
      elim (match_all r.when i) [
        | none ↦ none
        | some true ↦ some (recommendation_of version r)
        | some false ↦ rest
      ]

  -- `Recommend`
  unfoldable pub recommend : Ruleset → Inputs → Option Recommendation
  unfolding recommend_from
  recommend rs i = recommend_from rs.version rs.rules i
