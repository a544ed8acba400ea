-- ===== src/Text/Numerals.antt =====
-- Decimal numerals: what `itoa` prints is read back, whatever stands behind it.
use compliance_gateway.Common.{
  ℕ, zero, suc, ◌+◌, ◌-◌, ◌*◌, ◌/◌, ◌%◌, ◌<◌, ◌≡◌, ◌≢◌, ap, ◌∙◌, ◌&&◌, [], ◌∷◌, ◌++◌, leb, ltb,
  if◌then◌else◌, arith, Bool-cases, inl, inr,
}
use compliance_gateway.Text.{Text, digits, itoa}

-- The number that the leading digits make after `acc`, and what follows them.
unfoldable pub leading : ℕ → Text → ℕ × Text
leading acc [] = (acc, [])
leading acc (c ∷ cs) =
    let rest = leading (acc * 10 + (c - b'0')) cs in
    if leb b'0' c && leb c b'9' then rest else (acc, c ∷ cs)

leading-digit :
    (a k : ℕ) (cs : Text) → k < 10 → leading a ((b'0' + k) ∷ cs) ≡ leading (a * 10 + k) cs
unfolding leading
leading-digit a k cs h = ground arith

leading-digits :
    (f n : ℕ) (acc tail : Text)
    → n < f
    → leading 0 (digits f n acc ++ tail) ≡ leading n (acc ++ tail)
unfolding digits
leading-digits zero n acc tail h = absurd (omega arith)
leading-digits (suc f) n acc tail h = elim (Bool-cases (ltb n 10)) [
  | inl y ↦ rw y (
      leading-digit 0 (n % 10) (acc ++ tail) (omega arith)
      ∙ ap (λ k. leading k (acc ++ tail)) (ground arith))
  | inr z ↦ rw z (
      leading-digits f (n / 10) ((b'0' + n % 10) ∷ acc) tail (ground arith)
      ∙ leading-digit (n / 10) (n % 10) (acc ++ tail) (omega arith)
      ∙ ap (λ k. leading k (acc ++ tail)) (omega arith))
]

pub leading-itoa : (n : ℕ) (tail : Text) → leading 0 (itoa n ++ tail) ≡ leading n tail
unfolding itoa
leading-itoa n tail = leading-digits (suc n) n [] tail (omega arith)

digits_ne : (f n c : ℕ) (acc : Text) → digits f n (c ∷ acc) ≢ []
unfolding digits
digits_ne zero n c acc e = cc
digits_ne (suc f) n c acc e = elim (Bool-cases (ltb n 10)) [
  | inl y ↦ ground arith
  | inr z ↦ digits_ne f (n / 10) (b'0' + n % 10) (c ∷ acc) (ground arith)
]

pub itoa_ne : (n : ℕ) → itoa n ≢ []
unfolding itoa digits
itoa_ne n e = elim (Bool-cases (ltb n 10)) [
  | inl y ↦ ground arith
  | inr z ↦ digits_ne n (n / 10) (b'0' + n % 10) [] (ground arith)
]
