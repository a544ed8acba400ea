-- ===== src/Evidence/Builder/Normal.antt =====
-- builder.go: the shape that values have after they are written and read.
use compliance_gateway.Common.{
  ℕ, zero, suc, ◌+◌, ◌/◌, ◌%◌, ◌≡◌, ◌≢◌, refl, ap, inl, inr, false, Option, none, some, List, [],
  ◌∷◌, ltb, arith, Bool-cases,
}
use compliance_gateway.Text.{Text, TextMap, digits, itoa}
use compliance_gateway.Evidence.Value.{
  Value, null, boolean, number, int, text, array, strings, object, unsupported, Items, nil, cons,
  Fields, end, field, texts,
}
use compliance_gateway.Evidence.Canon.{
  write, write_items, write_fields, write_strings, is_float, add_member, sort, members, commas,
  braces, brackets,
}
use compliance_gateway.Evidence.Builder.{round_trip, round_trip_items, round_trip_fields}

-- The values that decoding JSON gives: no integers, no []string, and no other Go type.
abbrev mutual
  pub IsDecoded : Value → Type 0
  IsDecoded null = Unit
  IsDecoded (boolean b) = Unit
  IsDecoded (number x) = Unit
  IsDecoded (int n) = ⊥
  IsDecoded (text s) = Unit
  IsDecoded (array vs) = AllDecoded vs
  IsDecoded (strings l) = ⊥
  IsDecoded (object fs) = HasDecoded fs
  IsDecoded unsupported = ⊥

  pub AllDecoded : Items → Type 0
  AllDecoded nil = Unit
  AllDecoded (cons v vs) = IsDecoded v × AllDecoded vs

  pub HasDecoded : Fields → Type 0
  HasDecoded end = Unit
  HasDecoded (field k v fs) = IsDecoded v × HasDecoded fs

is_float-digits : (f n : ℕ) (acc : Text) → is_float acc ≡ false → is_float (digits f n acc) ≡ false
unfolding digits is_float
is_float-digits zero n acc h = h
is_float-digits (suc f) n acc h = elim (Bool-cases (ltb n 10)) [
  | inl y ↦ ground arith
  | inr z ↦ rw z (is_float-digits f (n / 10) ((b'0' + n % 10) ∷ acc) (ground arith))
]

write-int : (n : ℕ) → write (number (itoa n)) ≡ some (itoa n)
unfolding write itoa is_float
write-int n = rw (is_float-digits (suc n) n [] refl) refl

pub write_items-texts : (l : List Text) → write_items (texts l) ≡ some (write_strings l)
unfolding write
write_items-texts [] = refl
write_items-texts (s ∷ l) = rw (write_items-texts l) refl

mutual
  unfolding write round_trip

  pub write-round_trip : (v : Value) → write (round_trip v) ≡ write v
  write-round_trip null = refl
  write-round_trip (boolean b) = refl
  write-round_trip (number x) = refl
  write-round_trip (int n) = write-int n
  write-round_trip (text s) = refl
  write-round_trip (array vs) =
      λ i. elim (write_items-round_trip vs i) [ none ↦ none | some l ↦ some (brackets (commas l)) ]
  write-round_trip (strings l) = rw (write_items-texts l) refl
  write-round_trip (object fs) = λ i. elim (write_fields-round_trip fs i) [
    | none ↦ none
    | some m ↦ some (braces (commas (members (sort m))))
  ]
  write-round_trip unsupported = refl

  write_items-round_trip : (vs : Items) → write_items (round_trip_items vs) ≡ write_items vs
  write_items-round_trip nil = refl
  write_items-round_trip (cons v vs) = λ i. elim (write-round_trip v i) [
    | none ↦ none
    | some x ↦ elim (write_items-round_trip vs i) [ none ↦ none | some l ↦ some (x ∷ l) ]
  ]

  write_fields-round_trip : (fs : Fields) → write_fields (round_trip_fields fs) ≡ write_fields fs
  write_fields-round_trip end = refl
  write_fields-round_trip (field k v fs) =
      λ i. add_member k (write-round_trip v i) (write_fields-round_trip fs i)

added :
    (k : Text) (x : Option Text) (m : Option (TextMap Text))
    → add_member k x m ≢ none
    → (x ≢ none) × (m ≢ none)
added k none m h = absurd (h refl)
added k (some x) none h = absurd (h refl)
added k (some x) (some m) h = (λ e. cc, λ e. cc)

texts-AllDecoded : (l : List Text) → AllDecoded (texts l)
texts-AllDecoded [] = tt
texts-AllDecoded (s ∷ l) = (tt, texts-AllDecoded l)

mutual
  unfolding write round_trip

  pub round_trip-IsDecoded : (v : Value) → write v ≢ none → IsDecoded (round_trip v)
  round_trip-IsDecoded null h = tt
  round_trip-IsDecoded (boolean b) h = tt
  round_trip-IsDecoded (number x) h = tt
  round_trip-IsDecoded (int n) h = tt
  round_trip-IsDecoded (text s) h = tt
  round_trip-IsDecoded (array vs) h =
      round_trip-AllDecoded vs
        λ e. h (λ i. elim (e i) [ none ↦ none | some l ↦ some (brackets (commas l)) ])
  round_trip-IsDecoded (strings l) h = texts-AllDecoded l
  round_trip-IsDecoded (object fs) h =
      round_trip-HasDecoded fs λ e.
        h (λ i. elim (e i) [ none ↦ none | some m ↦ some (braces (commas (members (sort m)))) ])
  round_trip-IsDecoded unsupported h = absurd (h refl)

  round_trip-AllDecoded : (vs : Items) → write_items vs ≢ none → AllDecoded (round_trip_items vs)
  round_trip-AllDecoded nil h = tt
  round_trip-AllDecoded (cons v vs) h = (
    round_trip-IsDecoded v λ e. h (ground (arith, e)),
    round_trip-AllDecoded vs λ e. h (ground (arith, e)),
  )

  pub round_trip-HasDecoded :
      (fs : Fields) → write_fields fs ≢ none → HasDecoded (round_trip_fields fs)
  round_trip-HasDecoded end h = tt
  round_trip-HasDecoded (field k v fs) h =
      let (a, b) = added k (write v) (write_fields fs) h in
      (round_trip-IsDecoded v a, round_trip-HasDecoded fs b)

pub texts_once : (l : List Text) → round_trip_items (texts l) ≡ texts l
unfolding round_trip
texts_once [] = refl
texts_once (s ∷ l) = ap (cons (text s)) (texts_once l)

mutual
  unfolding round_trip

  round_trip_twice : (v : Value) → round_trip (round_trip v) ≡ round_trip v
  round_trip_twice null = refl
  round_trip_twice (boolean b) = refl
  round_trip_twice (number x) = refl
  round_trip_twice (int n) = refl
  round_trip_twice (text s) = refl
  round_trip_twice (array vs) = ap array (items_twice vs)
  round_trip_twice (strings l) = ap array (texts_once l)
  round_trip_twice (object fs) = ap object (fields_twice fs)
  round_trip_twice unsupported = refl

  items_twice : (vs : Items) → round_trip_items (round_trip_items vs) ≡ round_trip_items vs
  items_twice nil = refl
  items_twice (cons v vs) = λ i. cons (round_trip_twice v i) (items_twice vs i)

  pub fields_twice : (fs : Fields) → round_trip_fields (round_trip_fields fs) ≡ round_trip_fields fs
  fields_twice end = refl
  fields_twice (field k v fs) = λ i. field k (round_trip_twice v i) (fields_twice fs i)
