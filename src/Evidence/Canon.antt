-- ===== src/Evidence/Canon.antt =====
-- canon.go: the canonical JSON bytes of a value. A panic, which `Canon` turns into an error, is `none`.
pub mod Unordered
use compliance_gateway.Common.{
  ℕ, ◌/◌, ◌%◌, Bool, true, false, ◌||◌, Option, none, some, List, [], ◌∷◌, ◌++◌, ltb, ◌==◌,
  if◌then◌else◌,
}
use compliance_gateway.Text.{Text, TextMap, codes, text_le, itoa, hex_char}
use compliance_gateway.Evidence.Value.{
  Value, null, boolean, number, int, text, array, strings, object, unsupported, Items, nil, cons,
  Fields, end, field,
}

-- Quote, backslash and the C0 controls are escaped, and nothing else.
unfoldable pub escape : ℕ → Text
escape c =
    if c == b'"'
    then 0x5c ∷ b'"' ∷ []
    else if c == 0x5c
    then 0x5c ∷ 0x5c ∷ []
    else if c == 10
    then 0x5c ∷ b'n' ∷ []
    else if c == 13
    then 0x5c ∷ b'r' ∷ []
    else if c == 9
    then 0x5c ∷ b't' ∷ []
    else if c == 8
    then 0x5c ∷ b'b' ∷ []
    else if c == 12
    then 0x5c ∷ b'f' ∷ []
    else if ltb c 32
    then 0x5c ∷ b'u' ∷ b'0' ∷ b'0' ∷ hex_char (c / 16) ∷ hex_char (c % 16) ∷ []
    else c ∷ []

unfoldable pub escape_all : Text → Text
unfolding escape
escape_all [] = []
escape_all (c ∷ cs) = escape c ++ escape_all cs

unfoldable pub write_string : Text → Text
unfolding escape_all
write_string s = b'"' ∷ (escape_all s ++ b'"' ∷ [])

-- strings.ContainsAny(x, ".eE")
unfoldable pub is_float : Text → Bool
is_float [] = false
is_float (c ∷ cs) = c == b'.' || (c == b'e' || (c == b'E' || is_float cs))

-- The separator before every item but the first.
unfoldable pub commas : List Text → Text
commas [] = []
commas (x ∷ []) = x
commas (x ∷ y ∷ ys) = x ++ b',' ∷ commas (y ∷ ys)

-- Insertion into fields that are sorted by key.
unfoldable pub insert : Text → Text → TextMap Text → TextMap Text
insert k v [] = (k, v) ∷ []
insert k v ((j, w) ∷ m) =
    let rest = insert k v m in if text_le k j then (k, v) ∷ (j, w) ∷ m else (j, w) ∷ rest

unfoldable pub sort : TextMap Text → TextMap Text
unfolding insert
sort [] = []
sort ((k, v) ∷ m) = insert k v (sort m)

-- `"key":value` for each field.
unfoldable pub members : TextMap Text → List Text
unfolding write_string
members [] = []
members ((k, v) ∷ m) = (write_string k ++ b':' ∷ v) ∷ members m

abbrev pub write_strings : List Text → List Text
write_strings [] = []
write_strings (s ∷ ss) = write_string s ∷ write_strings ss

abbrev pub braces : Text → Text
braces b = b'{' ∷ (b ++ b'}' ∷ [])

abbrev pub brackets : Text → Text
brackets b = b'[' ∷ (b ++ b']' ∷ [])

-- A field that is written before the others; a panic of either is one of the map.
abbrev pub add_member : Text → Option Text → Option (TextMap Text) → Option (TextMap Text)
add_member k none m = none
add_member k (some x) none = none
add_member k (some x) (some m) = some ((k, x) ∷ m)

-- The values of a map are written first, and then joined in the order of the sorted keys.
unfoldable mutual
  unfolding write_string is_float commas sort members itoa

  pub write : Value → Option Text
  write null = some (codes "null")
  write (boolean true) = some (codes "true")
  write (boolean false) = some (codes "false")
  write (number x) = if is_float x then none else some x
  write (int n) = some (itoa n)
  write (text s) = some (write_string s)
  write (array vs) = elim (write_items vs) [ none ↦ none | some l ↦ some (brackets (commas l)) ]
  write (strings ss) = some (brackets (commas (write_strings ss)))
  write (object fs) = elim (write_fields fs) [
    | none ↦ none
    | some m ↦ some (braces (commas (members (sort m))))
  ]
  write unsupported = none

  pub write_items : Items → Option (List Text)
  write_items nil = some []
  write_items (cons v vs) = elim (write v) [
    | none ↦ none
    | some x ↦ elim (write_items vs) [ none ↦ none | some l ↦ some (x ∷ l) ]
  ]

  pub write_fields : Fields → Option (TextMap Text)
  write_fields end = some []
  write_fields (field k v fs) = add_member k (write v) (write_fields fs)

-- `Canon`
unfoldable pub canon : Value → Option Text
unfolding write
canon v = write v
