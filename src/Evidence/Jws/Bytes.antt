-- ===== src/Evidence/Jws/Bytes.antt =====
-- math/big's FillBytes and SetBytes on big-endian bytes, and the slices sig[:32] and sig[32:].
use compliance_gateway.Common.{
  ℕ, zero, suc, ◌+◌, ◌*◌, ◌/◌, ◌%◌, ◌^◌, ◌<◌, ◌≡◌, refl, Option, none, some, List, [], ◌∷◌, ◌++◌,
  ltb, if◌then◌else◌, arith, length, ap, ◌∙◌,
}
use compliance_gateway.Text.Base64.{IsBytes}

-- The n low bytes of x, the most significant first, before `acc`.
be_bytes : ℕ → ℕ → List ℕ → List ℕ
be_bytes zero x acc = acc
be_bytes (suc n) x acc = be_bytes n (x / 256) (x % 256 ∷ acc)

-- FillBytes: none is the panic on a number that does not fit.
unfoldable pub fill_bytes : ℕ → ℕ → Option (List ℕ)
unfolding be_bytes
fill_bytes n x = if ltb x (256 ^ n) then some (be_bytes n x []) else none

from_bytes : ℕ → List ℕ → ℕ
from_bytes acc [] = acc
from_bytes acc (b ∷ bs) = from_bytes (acc * 256 + b) bs

-- SetBytes
unfoldable pub set_bytes : List ℕ → ℕ
unfolding from_bytes
set_bytes bs = from_bytes 0 bs

unfoldable pub take : ℕ → List ℕ → List ℕ
take zero xs = []
take (suc n) [] = []
take (suc n) (x ∷ xs) = x ∷ take n xs

unfoldable pub drop : ℕ → List ℕ → List ℕ
drop zero xs = xs
drop (suc n) [] = []
drop (suc n) (x ∷ xs) = drop n xs

pub take-append : (xs ys : List ℕ) → take (length xs) (xs ++ ys) ≡ xs
unfolding take
take-append [] ys = refl
take-append (x ∷ xs) ys = ap (λ (l : List ℕ). x ∷ l) (take-append xs ys)

pub drop-append : (xs ys : List ℕ) → drop (length xs) (xs ++ ys) ≡ ys
unfolding drop
drop-append [] ys = refl
drop-append (x ∷ xs) ys = drop-append xs ys

length-be_bytes : (n x : ℕ) (acc : List ℕ) → length (be_bytes n x acc) ≡ n + length acc
unfolding be_bytes
length-be_bytes zero x acc = omega arith
length-be_bytes (suc n) x acc = omega (arith, length-be_bytes n (x / 256) (x % 256 ∷ acc))

IsBytes-be_bytes : (n x : ℕ) (acc : List ℕ) → IsBytes acc → IsBytes (be_bytes n x acc)
unfolding be_bytes
IsBytes-be_bytes zero x acc h = h
IsBytes-be_bytes (suc n) x acc h = IsBytes-be_bytes n (x / 256) (x % 256 ∷ acc) (omega arith, h)

pow_suc : (n : ℕ) → 256 ^ suc n ≡ 256 * 256 ^ n
pow_suc n = omega arith

quotient_fits : (n x : ℕ) → x < 256 ^ suc n → x / 256 < 256 ^ n
quotient_fits n x h = omega (arith, pow_suc n)

-- Reading the bytes of x after `hi` is reading `hi * 256 ^ n + x` before the rest.
from_bytes-be_bytes :
    (n x : ℕ) (acc : List ℕ) → x < 256 ^ n → from_bytes 0 (be_bytes n x acc) ≡ from_bytes x acc
unfolding from_bytes be_bytes
from_bytes-be_bytes zero x acc h = ground arith
from_bytes-be_bytes (suc n) x acc h =
    from_bytes-be_bytes n (x / 256) (x % 256 ∷ acc) (quotient_fits n x h)
    ∙ ap (λ (y : ℕ). from_bytes y acc) (omega arith)

-- A number that fits is filled in, with as many bytes as asked for, and is read back.
pub fill_bytes_lem :
    (n x : ℕ)
    → x < 256 ^ n
    → (bs : List ℕ) × (fill_bytes n x ≡ some bs) × (length bs ≡ n) × (set_bytes bs ≡ x) × IsBytes bs
unfolding fill_bytes set_bytes
fill_bytes_lem n x h = (
  be_bytes n x [],
  ground arith,
  omega (arith, length-be_bytes n x []),
  from_bytes-be_bytes n x [] h,
  IsBytes-be_bytes n x [] tt,
)
