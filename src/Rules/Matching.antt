-- ===== src/Rules/Matching.antt =====
-- rules.go, `match`: on the conditions of a valid rule no type assertion fails.
use compliance_gateway.Common.{
  ℕ, ◌+◌, ◌≡◌, refl, String, Bool, true, false, not, ◌&&◌, ◌||◌, Option, none, some, List, [], ◌∷◌,
  ◌++◌, All, str_eq, eq_iff, arith,
}
use compliance_gateway.Rat.{Rat, ge}
use compliance_gateway.Rules.{get, bad_condition}
use compliance_gateway.Rules.Wellformed.{in_op, unavailable_field, amount_field}
use compliance_gateway.Rules.{
  Inputs, match, match_all, match_any, Values, Condition, enums, validate_condition,
  condition_errors,
}
use compliance_gateway.Rules.Wellformed.{
  ConditionOk, equals, one_of, unavailable, at_least, TextsOf, one, more, validate_condition_iff,
}

pub ++-nil {ℓ} : {A : Type ℓ} (xs ys : List A) → xs ++ ys ≡ [] → (xs ≡ []) × (ys ≡ [])
++-nil [] ys h = (refl, h)
++-nil (x ∷ xs) ys h = cc

match_any_total :
    (v : String) {allowed : List String} {vs : Values}
    → TextsOf allowed vs
    → (b : Bool) × (match_any v vs ≡ some b)
unfolding match_any
match_any_total v (one {s} m) = (str_eq v s, ground arith)
match_any_total v (more {s} m t) =
    let (b, e) = match_any_total v t in (str_eq v s || b, ground arith)

enum_field :
    (f : String) (allowed : List String)
    → enums f ≡ some allowed
    → (str_eq "any_unavailable" f ≡ false) × (str_eq "amount_eur" f ≡ false)
enum_field f allowed e = (
  ground (arith, unavailable_field f, eq_iff "any_unavailable" f),
  ground (arith, amount_field f, eq_iff "amount_eur" f),
)

-- The answer of a comparison with a decimal that parses.
amount_answer : Option Rat → Rat → Bool
unfolding ge
amount_answer none r = false
amount_answer (some x) r = ge x r

module _ (set_string : String → Option Rat) where
  -- The type assertions of a valid condition succeed.
  match_total :
      (i : Inputs) {c : Condition}
      → ConditionOk set_string c
      → (b : Bool) × (match set_string c i ≡ some b)
  unfolding match amount_answer
  match_total i (equals {c} allowed s e o w m) =
      (str_eq (get i c.field) s, ground (arith, enum_field c.field allowed e, eq_iff "eq" c.op))
  match_total i (one_of {c} allowed vs e o w t) =
      let (b, r) = match_any_total (get i c.field) t in
      (b, ground (arith, r, enum_field c.field allowed e, in_op c.op o))
  match_total i (unavailable {c} true f o w) =
      (i.any_unavailable, ground (arith, unavailable_field c.field f))
  match_total i (unavailable {c} false f o w) =
      (not i.any_unavailable, ground (arith, unavailable_field c.field f))
  match_total i (at_least {c} s r f o w e) =
      (amount_answer (set_string i.amount_eur) r, ground (arith, amount_field c.field f))

  pub match_all_total :
      (i : Inputs) (cs : List Condition)
      → All (ConditionOk set_string) cs
      → (b : Bool) × (match_all set_string cs i ≡ some b)
  unfolding match_all
  match_all_total i [] h = (true, refl)
  match_all_total i (c ∷ cs) h =
      let (b, e) = match_total i h.0 in
      let (d, f) = match_all_total i cs h.1 in (b && d, ground (arith, e, f))

  pub condition_errors-none :
      (i j : ℕ) (cs : List Condition)
      → condition_errors set_string i j cs ≡ []
      → All (ConditionOk set_string) cs
  unfolding condition_errors
  condition_errors-none i j [] h = tt
  condition_errors-none i j (c ∷ cs) h =
      let (a, b) =
        ++-nil
          (elim (validate_condition set_string c) [ none ↦ [] | some e ↦ bad_condition i j e ∷ [] ])
          _ h in
      ((validate_condition_iff set_string c).0 (ground arith), condition_errors-none i (j + 1) cs b)
