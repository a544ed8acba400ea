-- ===== src/Text.antt =====
-- Text as its UTF-8 bytes: equality, byte order, prefixes, decimal numerals, hexadecimal, and the
-- dotted paths of the evidence tree.
pub mod Laws
pub mod Paths
pub mod Base64
pub mod Numerals
pub mod Order
use Prim.Native.Char.{code}
use compliance_gateway.Common.{
  ℕ, zero, suc, ◌+◌, ◌-◌, ◌*◌, ◌/◌, ◌%◌, String, Bool, true, false, ◌&&◌, ◌||◌, Option, none, some,
  List, [], ◌∷◌, ◌++◌, ltb, leb, ◌==◌, if◌then◌else◌,
}

abbrev pub Text : Type 0
Text = List ℕ

-- The bytes of an ASCII literal.
abbrev pub codes : String → Text
codes String.[] = []
codes (String.◌∷◌ c s) = code c ∷ codes s

unfoldable pub text_eq : Text → Text → Bool
text_eq [] [] = true
text_eq [] (y ∷ ys) = false
text_eq (x ∷ xs) [] = false
text_eq (x ∷ xs) (y ∷ ys) = x == y && text_eq xs ys

-- The byte order of `sort.Strings`.
unfoldable pub text_le : Text → Text → Bool
text_le [] ys = true
text_le (x ∷ xs) [] = false
text_le (x ∷ xs) (y ∷ ys) = ltb x y || (x == y && text_le xs ys)

-- strings.HasPrefix, the prefix first.
unfoldable pub is_prefix : Text → Text → Bool
is_prefix [] ys = true
is_prefix (x ∷ xs) [] = false
is_prefix (x ∷ xs) (y ∷ ys) = x == y && is_prefix xs ys

abbrev pub dot : ℕ
dot = b'.'

-- strings.Split(path, ".")
unfoldable pub split : Text → List Text
split [] = [] ∷ []
split (c ∷ cs) =
    let rest = split cs in
    if c == dot then [] ∷ rest else elim rest [ [] ↦ (c ∷ []) ∷ [] | w ∷ ws ↦ (c ∷ w) ∷ ws ]

-- strconv.Itoa on a non-negative number, on fuel for its digits.
unfoldable pub digits : ℕ → ℕ → Text → Text
digits zero n acc = acc
digits (suc f) n acc =
    let rest = digits f (n / 10) ((b'0' + n % 10) ∷ acc) in
    if ltb n 10 then (b'0' + n % 10) ∷ acc else rest

unfoldable pub itoa : ℕ → Text
unfolding digits
itoa n = digits (suc n) n []

abbrev pub hex_digit : ℕ → Option ℕ
hex_digit c =
    if leb b'0' c && leb c b'9'
    then some (c - b'0')
    else if leb b'a' c && leb c b'f'
    then some (c - b'a' + 10)
    else if leb b'A' c && leb c b'F'
    then some (c - b'A' + 10)
    else none

-- hex.DecodeString
unfoldable pub hex_decode : Text → Option (List ℕ)
hex_decode [] = some []
hex_decode (x ∷ []) = none
hex_decode (x ∷ y ∷ cs) =
    let rest = hex_decode cs in
    elim (hex_digit x) [
      | none ↦ none
      | some h ↦ elim (hex_digit y) [
        | none ↦ none
        | some l ↦ elim rest [ none ↦ none | some bs ↦ some ((h * 16 + l) ∷ bs) ]
      ]
    ]

abbrev pub hex_char : ℕ → ℕ
hex_char n = if ltb n 10 then b'0' + n else b'a' + (n - 10)

-- hex.EncodeToString
unfoldable pub hex_encode : List ℕ → Text
hex_encode [] = []
hex_encode (b ∷ bs) = hex_char (b / 16) ∷ hex_char (b % 16) ∷ hex_encode bs

-- A map from text to text: an association list that holds each key once.
abbrev pub TextMap {ℓ} : Type ℓ → Type ℓ
TextMap V = List (Text × V)

module _ {ℓ} {V : Type ℓ} where
  unfoldable pub lookup : Text → TextMap V → Option V
  lookup k [] = none
  lookup k ((j, v) ∷ m) = let rest = lookup k m in if text_eq j k then some v else rest

  unfoldable pub put : Text → V → TextMap V → TextMap V
  put k v [] = (k, v) ∷ []
  put k v ((j, w) ∷ m) = let rest = put k v m in if text_eq j k then (j, v) ∷ m else (j, w) ∷ rest

  -- The entries whose key does not pass the test stay.
  unfoldable pub delete_if : (Text → Bool) → TextMap V → TextMap V
  delete_if p [] = []
  delete_if p ((j, w) ∷ m) = let rest = delete_if p m in if p j then rest else (j, w) ∷ rest
