-- ===== src/Rat.antt =====
-- The exact fractions of Go's big.Rat that the checks and the rules compare, over the native numbers.
-- Reading a fraction from text is `set_string`, a parameter of the code that uses it.
use compliance_gateway.Common.{
  ℕ, zero, suc, ◌+◌, ◌-◌, ◌*◌, Bool, true, false, not, leb, if◌then◌else◌,
}

-- `negsuc n` is -(n + 1).
pub data ℤ : Type 0 where
  pos : ℕ → ℤ
  negsuc : ℕ → ℤ

-- num / den, with den positive.
pub record Rat : Type 0 where
  pub num : ℤ
  pub den : ℕ

abbrev pub times : ℤ → ℕ → ℤ
times (pos n) d = pos (n * d)
times (negsuc n) zero = pos 0
times (negsuc n) (suc k) = negsuc (n * suc k + k)

abbrev pub leb_ℤ : ℤ → ℤ → Bool
leb_ℤ (pos a) (pos b) = leb a b
leb_ℤ (pos a) (negsuc b) = false
leb_ℤ (negsuc a) (pos b) = true
leb_ℤ (negsuc a) (negsuc b) = leb b a

-- a.Cmp(b) >= 0
unfoldable pub ge : Rat → Rat → Bool
ge a b = leb_ℤ (times b.num a.den) (times a.num b.den)

-- r.Sign() > 0
unfoldable pub is_positive : Rat → Bool
is_positive r = elim r.num [ pos n ↦ leb 1 n | negsuc n ↦ false ]

-- The integer -n.
abbrev pub negative : ℕ → ℤ
negative zero = pos 0
negative (suc n) = negsuc n

abbrev pub difference : ℕ → ℕ → ℤ
difference a b = if leb b a then pos (a - b) else negative (b - a)

abbrev pub add_ℤ : ℤ → ℤ → ℤ
add_ℤ (pos a) (pos b) = pos (a + b)
add_ℤ (pos a) (negsuc b) = difference a (suc b)
add_ℤ (negsuc a) (pos b) = difference b (suc a)
add_ℤ (negsuc a) (negsuc b) = negsuc (suc (a + b))

abbrev pub mul_ℤ : ℤ → ℤ → ℤ
mul_ℤ (pos a) (pos b) = pos (a * b)
mul_ℤ (pos a) (negsuc b) = negative (a * suc b)
mul_ℤ (negsuc a) (pos b) = negative (suc a * b)
mul_ℤ (negsuc a) (negsuc b) = pos (suc a * suc b)

-- a.Add, a.Mul, and a.Quo by a positive number
unfoldable pub add : Rat → Rat → Rat
add a b = record { num = add_ℤ (times a.num b.den) (times b.num a.den); den = a.den * b.den }

unfoldable pub mul : Rat → Rat → Rat
mul a b = record { num = mul_ℤ a.num b.num; den = a.den * b.den }

unfoldable pub quo : Rat → ℕ → Rat
quo a n = record { num = a.num; den = a.den * n }

abbrev pub whole : ℕ → Rat
whole n = record { num = pos n; den = 1 }

-- a.Cmp(b) < 0
unfoldable pub less : Rat → Rat → Bool
unfolding ge
less a b = not (ge a b)
