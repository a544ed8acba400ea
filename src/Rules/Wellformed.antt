-- ===== src/Rules/Wellformed.antt =====
-- Well-formed rulesets, stated without the validator (rules.go), and that it accepts exactly these.
use compliance_gateway.Common.{
  ◌≡◌, refl, sym, ◌↔◌, inl, inr, String, Bool, true, false, ◌&&◌, Option, none, some, List, [], ◌∷◌,
  Any, first, later, str_eq, eq_iff, arith, Bool-cases, Option-cases,
}
use compliance_gateway.Rat.{Rat}
use compliance_gateway.Rules.{
  is_boolean, Value, text, boolean, list, other, Values, nil, cons, Condition, enums, contains,
  all_texts_of, is_text_of, validate_in, validate_enum, validate_condition, is_decimal,
}

-- A non-empty list of texts, each one allowed.
pub data TextsOf (allowed : List String) : Values → Type 0 where
  one : {s : String} → Any (λ a. a ≡ s) allowed → TextsOf allowed (cons (text s) nil)
  more :
      {s : String} {vs : Values}
      → Any (λ a. a ≡ s) allowed
      → TextsOf allowed vs
      → TextsOf allowed (cons (text s) vs)

module _ (set_string : String → Option Rat) where
  -- What a condition may ask.
  pub data ConditionOk : Condition → Type 0 where
    equals :
        {c : Condition} (allowed : List String) (s : String)
        → enums c.field ≡ some allowed
        → c.op ≡ "eq"
        → c.value ≡ text s
        → Any (λ a. a ≡ s) allowed
        → ConditionOk c
    one_of :
        {c : Condition} (allowed : List String) (vs : Values)
        → enums c.field ≡ some allowed
        → c.op ≡ "in"
        → c.value ≡ list vs
        → TextsOf allowed vs
        → ConditionOk c
    unavailable :
        {c : Condition} (b : Bool)
        → c.field ≡ "any_unavailable"
        → c.op ≡ "eq"
        → c.value ≡ boolean b
        → ConditionOk c
    at_least :
        {c : Condition} (s : String) (r : Rat)
        → c.field ≡ "amount_eur"
        → c.op ≡ "gte"
        → c.value ≡ text s
        → set_string s ≡ some r
        → ConditionOk c

pub in_op : (op : String) → op ≡ "in" → (str_eq "eq" op ≡ false) × (str_eq "in" op ≡ true)
in_op op e = rw e (refl, refl)

pub unavailable_field :
    (f : String) → f ≡ "any_unavailable" → (enums f ≡ none) × (str_eq "any_unavailable" f ≡ true)
unfolding enums
unavailable_field f e = rw e (refl, refl)

pub amount_field :
    (f : String)
    → f ≡ "amount_eur"
    → (enums f ≡ none) × (str_eq "any_unavailable" f ≡ false) × (str_eq "amount_eur" f ≡ true)
unfolding enums
amount_field f e = rw e (refl, refl, refl)

pub contains-Any : (xs : List String) (s : String) → contains xs s ≡ true → Any (λ a. a ≡ s) xs
unfolding contains
contains-Any [] s h = absurd (ground arith)
contains-Any (x ∷ xs) s h = elim (Bool-cases (str_eq x s)) [
  | inl e ↦ first ((eq_iff x s).0 e)
  | inr e ↦ later (contains-Any xs s (ground arith))
]

Any-contains : (s : String) {xs : List String} → Any (λ a. a ≡ s) xs → contains xs s ≡ true
unfolding contains
Any-contains s (first {x} e) = ground (arith, eq_iff x s)
Any-contains s (later {x} m) = ground (arith, Any-contains s m)

texts-TextsOf :
    (allowed : List String) (v : Value) (vs : Values)
    → all_texts_of allowed (cons v vs) ≡ true
    → TextsOf allowed (cons v vs)
unfolding all_texts_of
texts-TextsOf allowed (text s) nil h = one (contains-Any allowed s (ground arith))
texts-TextsOf allowed (text s) (cons w ws) h =
    more (contains-Any allowed s (ground arith)) (texts-TextsOf allowed w ws (ground arith))
texts-TextsOf allowed (boolean b) vs h = absurd (ground arith)
texts-TextsOf allowed (list l) vs h = absurd (ground arith)
texts-TextsOf allowed other vs h = absurd (ground arith)

TextsOf-texts :
    {allowed : List String} {vs : Values} → TextsOf allowed vs → all_texts_of allowed vs ≡ true
unfolding all_texts_of
TextsOf-texts (one {s} m) = ground (arith, Any-contains s m)
TextsOf-texts (more {s} m t) = ground (arith, Any-contains s m, TextsOf-texts t)

module _ (set_string : String → Option Rat) where
  open_in :
      (c : Condition) (allowed : List String) (v : Value)
      → enums c.field ≡ some allowed
      → str_eq "in" c.op ≡ true
      → c.value ≡ v
      → validate_in allowed v ≡ none
      → ConditionOk set_string c
  unfolding validate_in
  open_in c allowed (list (cons v vs)) e o w h =
      one_of allowed (cons v vs) e (sym ((eq_iff "in" c.op).0 o)) w
        (texts-TextsOf allowed v vs (ground arith))
  open_in c allowed (list nil) e o w h = cc
  open_in c allowed (text s) e o w h = cc
  open_in c allowed (boolean b) e o w h = cc
  open_in c allowed other e o w h = cc

  open_eq :
      (c : Condition) (allowed : List String) (v : Value)
      → enums c.field ≡ some allowed
      → str_eq "eq" c.op ≡ true
      → c.value ≡ v
      → is_text_of allowed v ≡ true
      → ConditionOk set_string c
  open_eq c allowed (text s) e o w h =
      equals allowed s e (sym ((eq_iff "eq" c.op).0 o)) w (contains-Any allowed s h)
  open_eq c allowed (boolean b) e o w h = absurd (ground arith)
  open_eq c allowed (list l) e o w h = absurd (ground arith)
  open_eq c allowed other e o w h = absurd (ground arith)

  open_enum :
      (c : Condition) (allowed : List String)
      → enums c.field ≡ some allowed
      → validate_enum allowed c.op c.value ≡ none
      → ConditionOk set_string c
  unfolding validate_enum
  open_enum c allowed e h = elim (Bool-cases (str_eq "eq" c.op)) [
    | inl o ↦ open_eq c allowed c.value e o refl (ground arith)
    | inr o ↦ elim (Bool-cases (str_eq "in" c.op)) [
      | inl p ↦ open_in c allowed c.value e p refl (ground arith)
      | inr p ↦ absurd (ground arith)
    ]
  ]

  open_unavailable :
      (c : Condition) (v : Value)
      → c.value ≡ v
      → str_eq "any_unavailable" c.field ≡ true
      → is_boolean v && str_eq "eq" c.op ≡ true
      → ConditionOk set_string c
  open_unavailable c (boolean b) w f h =
      unavailable b (sym ((eq_iff "any_unavailable" c.field).0 f)) (sym ((eq_iff "eq" c.op).0 h)) w
  open_unavailable c (text s) w f h = absurd (ground arith)
  open_unavailable c (list l) w f h = absurd (ground arith)
  open_unavailable c other w f h = absurd (ground arith)

  open_decimal :
      (c : Condition) (v : Value)
      → c.value ≡ v
      → str_eq "amount_eur" c.field ≡ true
      → is_decimal set_string v && str_eq "gte" c.op ≡ true
      → ConditionOk set_string c
  open_decimal c (text s) w f h = elim (Option-cases (set_string s)) [
    | inl e ↦ absurd (ground arith)
    | inr (r, e) ↦
        at_least s r (sym ((eq_iff "amount_eur" c.field).0 f))
          (sym ((eq_iff "gte" c.op).0 (ground arith))) w e
  ]
  open_decimal c (boolean b) w f h = absurd (ground arith)
  open_decimal c (list l) w f h = absurd (ground arith)
  open_decimal c other w f h = absurd (ground arith)

  validate_condition-ConditionOk :
      (c : Condition) → validate_condition set_string c ≡ none → ConditionOk set_string c
  unfolding validate_condition
  validate_condition-ConditionOk c h = elim (Option-cases (enums c.field)) [
    | inr (allowed, e) ↦ open_enum c allowed e (ground arith)
    | inl e ↦ elim (Bool-cases (str_eq "any_unavailable" c.field)) [
      | inl f ↦ open_unavailable c c.value refl f (ground arith)
      | inr f ↦ elim (Bool-cases (str_eq "amount_eur" c.field)) [
        | inl g ↦ open_decimal c c.value refl g (ground arith)
        | inr g ↦ absurd (ground arith)
      ]
    ]
  ]

  validate_in-TextsOf :
      {allowed : List String} {vs : Values}
      → TextsOf allowed vs
      → validate_in allowed (list vs) ≡ none
  unfolding validate_in
  validate_in-TextsOf (one m) = rw (TextsOf-texts (one m))
  validate_in-TextsOf (more m t) = rw (TextsOf-texts (more m t))

  ConditionOk-validate_condition :
      {c : Condition} → ConditionOk set_string c → validate_condition set_string c ≡ none
  unfolding validate_condition
  ConditionOk-validate_condition (equals {c} allowed s e o w m) =
      ground (arith, Any-contains s m, eq_iff "eq" c.op)
  ConditionOk-validate_condition (one_of {c} allowed vs e o w t) =
      ground (arith, validate_in-TextsOf t, in_op c.op o)
  ConditionOk-validate_condition (unavailable {c} b f o w) =
      ground (arith, unavailable_field c.field f, eq_iff "eq" c.op)
  ConditionOk-validate_condition (at_least {c} s r f o w e) =
      ground (arith, amount_field c.field f, eq_iff "gte" c.op)

  -- A condition passes the validator exactly when its field, operator and value fit together.
  pub validate_condition_iff :
      (c : Condition) → (validate_condition set_string c ≡ none) ↔ ConditionOk set_string c
  validate_condition_iff c = (validate_condition-ConditionOk c, ConditionOk-validate_condition)
