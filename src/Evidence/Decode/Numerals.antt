-- ===== src/Evidence/Decode/Numerals.antt =====
-- canon.go: a numeral that is written is read back.
use compliance_gateway.Common.{
  ℕ, zero, suc, ◌+◌, ◌/◌, ◌%◌, ◌<◌, ◌≡◌, ◌≢◌, refl, ap, sym, ◌∙◌, ◌⊎◌, inl, inr, Bool-cases, true,
  false, ◌||◌, [], ◌∷◌, ◌++◌, ltb, ◌==◌, arith, append_assoc, append-nil,
}
use compliance_gateway.Text.{Text, digits, itoa}
use compliance_gateway.Evidence.Value.{number}
use compliance_gateway.Evidence.Decode.{
  Place, start, signed, zero_, digits_, point, fraction, letter, exponent_sign, exponent, wrong,
  next_place, place_after, is_complete, is_numeral, is_numeral_byte, is_digit, Stack, in_number,
  want, complete, run, step,
}

wrong_stays : (x : Text) → place_after x wrong ≡ wrong
unfolding place_after
wrong_stays [] = refl
wrong_stays (c ∷ x) = wrong_stays x

byte_or_wrong : (c : ℕ) (p : Place) → (next_place c p ≡ wrong) ⊎ (is_numeral_byte c ≡ true)
byte_or_wrong c start = elim (Bool-cases (is_numeral_byte c)) [
  | inl y ↦ inr y
  | inr z ↦ inl (ground arith)
]
byte_or_wrong c signed = elim (Bool-cases (is_numeral_byte c)) [
  | inl y ↦ inr y
  | inr z ↦ inl (ground arith)
]
byte_or_wrong c zero_ = elim (Bool-cases (is_numeral_byte c)) [
  | inl y ↦ inr y
  | inr z ↦ inl (ground arith)
]
byte_or_wrong c digits_ = elim (Bool-cases (is_numeral_byte c)) [
  | inl y ↦ inr y
  | inr z ↦ inl (ground arith)
]
byte_or_wrong c point = elim (Bool-cases (is_numeral_byte c)) [
  | inl y ↦ inr y
  | inr z ↦ inl (ground arith)
]
byte_or_wrong c fraction = elim (Bool-cases (is_numeral_byte c)) [
  | inl y ↦ inr y
  | inr z ↦ inl (ground arith)
]
byte_or_wrong c letter = elim (Bool-cases (is_numeral_byte c)) [
  | inl y ↦ inr y
  | inr z ↦ inl (ground arith)
]
byte_or_wrong c exponent_sign = elim (Bool-cases (is_numeral_byte c)) [
  | inl y ↦ inr y
  | inr z ↦ inl (ground arith)
]
byte_or_wrong c exponent = elim (Bool-cases (is_numeral_byte c)) [
  | inl y ↦ inr y
  | inr z ↦ inl (ground arith)
]
byte_or_wrong c wrong = inl refl

lost : (x : Text) (p : Place) → p ≡ wrong → is_complete (place_after x p) ≢ true
lost x p e h = wrong_ne (sym (ap is_complete (ap (place_after x) e ∙ wrong_stays x)) ∙ h)
  where
    wrong_ne : ◌≢◌ false true
    wrong_ne e = cc

byte_step :
    (c : ℕ) (t : Text) (st : Stack)
    → is_numeral_byte c ≡ true
    → step c (in_number t st) ≡ in_number (t ++ c ∷ []) st
unfolding step
byte_step c t st y = rw y refl

-- The rest of a numeral is taken in.
run-in_number :
    (x t rest : Text) (p : Place) (st : Stack)
    → is_complete (place_after x p) ≡ true
    → run (x ++ rest) (in_number t st) ≡ run rest (in_number (t ++ x) st)
unfolding run place_after
run-in_number [] t rest p st h = ap (λ y. run rest (in_number y st)) (sym (append-nil t))
run-in_number (c ∷ x) t rest p st h = elim (byte_or_wrong c p) [
  | inl w ↦ absurd (lost x (next_place c p) w h)
  | inr y ↦
      ap (run (x ++ rest)) (byte_step c t st y)
      ∙ run-in_number x (t ++ c ∷ []) rest (next_place c p) st h
      ∙ ap (λ z. run rest (in_number z st)) (append_assoc t (c ∷ []) x)
]

first_byte : (c : ℕ) → (next_place c start ≡ wrong) ⊎ ((is_digit c || c == b'-') ≡ true)
first_byte c = elim (Bool-cases (is_digit c || c == b'-')) [
  | inl y ↦ inr y
  | inr z ↦ inl (ground arith)
]

first_step :
    (c : ℕ) (st : Stack)
    → (is_digit c || c == b'-') ≡ true
    → step c (want st) ≡ in_number (c ∷ []) st
unfolding step
first_step c st y = ground arith

numeral_end :
    (d : ℕ) (t : Text) (st : Stack)
    → is_numeral_byte d ≡ false
    → is_numeral t ≡ true
    → step d (in_number t st) ≡ step d (complete (number t) st)
unfolding step
numeral_end d t st z y = rw z (rw y refl)

-- A numeral is read up to a byte that belongs to none.
pub run-numeral :
    (x : Text) (d : ℕ) (rest : Text) (st : Stack)
    → is_numeral x ≡ true
    → is_numeral_byte d ≡ false
    → run (x ++ d ∷ rest) (want st) ≡ run (d ∷ rest) (complete (number x) st)
unfolding run is_numeral place_after
run-numeral [] d rest st y z = cc
run-numeral (c ∷ x) d rest st y z = elim (first_byte c) [
  | inl w ↦ absurd (lost x (next_place c start) w y)
  | inr f ↦
      ap (run (x ++ d ∷ rest)) (first_step c st f)
      ∙ run-in_number x (c ∷ []) (d ∷ rest) (next_place c start) st y
      ∙ ap (run rest) (numeral_end d (c ∷ x) st z y)
]

-- A numeral does not begin like the end of a list, nor with a space.
pub numeral_head :
    (x : Text)
    → is_numeral x ≡ true
    → (c : ℕ) × (y : Text) × (x ≡ c ∷ y) × ((is_digit c || c == b'-') ≡ true)
unfolding is_numeral place_after
numeral_head [] h = cc
numeral_head (c ∷ x) h = elim (first_byte c) [
  | inl w ↦ absurd (lost x (next_place c start) w h)
  | inr f ↦ (c, x, refl, f)
]

digit_first : (n : ℕ) → 0 < n → n < 10 → next_place (b'0' + n % 10) start ≡ digits_
digit_first n l h = ground arith

digit_next : (n : ℕ) → next_place (b'0' + n % 10) digits_ ≡ digits_
digit_next n = ground arith

place_after-digits :
    (f n : ℕ) (acc : Text)
    → n < f
    → 0 < n
    → place_after (digits f n acc) start ≡ place_after acc digits_
unfolding digits place_after
place_after-digits zero n acc h l = absurd (omega arith)
place_after-digits (suc f) n acc h l = elim (Bool-cases (ltb n 10)) [
  | inl y ↦ rw y (ap (place_after acc) (digit_first n l (ground arith)))
  | inr z ↦ rw z (
      place_after-digits f (n / 10) ((b'0' + n % 10) ∷ acc) (ground arith) (ground arith)
      ∙ ap (place_after acc) (digit_next n))
]

-- Every number is printed as a numeral.
pub is_numeral-itoa : (n : ℕ) → is_numeral (itoa n) ≡ true
unfolding is_numeral itoa digits place_after
is_numeral-itoa zero = refl
is_numeral-itoa (suc n) =
    ap is_complete (place_after-digits (suc (suc n)) (suc n) [] (omega arith) (omega arith))
