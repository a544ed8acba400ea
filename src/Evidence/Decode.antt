-- ===== src/Evidence/Decode.antt =====
-- canon.go, `Decode`: what encoding/json reads, with numbers kept as they are written. The scanner is
-- a step on each byte. The bytes after the first value are not looked at. An escaped surrogate, which
-- `Canon` does not write, is not read, and the depth of nesting has no limit.
pub mod Strings
pub mod Numerals
pub mod Ordered
pub mod Values
use compliance_gateway.Common.{
  ℕ, ◌+◌, ◌-◌, ◌*◌, ◌/◌, ◌%◌, Bool, true, false, ◌&&◌, ◌||◌, Option, none, some, List, [], ◌∷◌,
  ◌++◌, leb, ltb, ◌==◌, if◌then◌else◌,
}
use compliance_gateway.Text.{Text, codes, hex_digit}
use compliance_gateway.Evidence.Value.{
  Value, null, boolean, number, text, array, object, Items, nil, cons, Fields, end, set,
}

-- Where a numeral stands: before it, after its sign, after a first zero, in its digits, after its
-- point, in its fraction, after its exponent's letter, after that sign, in the exponent.
pub data Place : Type 0 where
  start signed zero_ digits_ point fraction letter exponent_sign exponent wrong : Place

abbrev pub is_digit : ℕ → Bool
is_digit c = leb b'0' c && leb c b'9'

abbrev pub is_letter : ℕ → Bool
is_letter c = c == b'e' || c == b'E'

abbrev pub after_integer : ℕ → Place
after_integer c = if c == b'.' then point else if is_letter c then letter else wrong

abbrev pub next_place : ℕ → Place → Place
next_place c start =
    if c == b'-' then signed else if c == b'0' then zero_ else if is_digit c then digits_ else wrong
next_place c signed = if c == b'0' then zero_ else if is_digit c then digits_ else wrong
next_place c zero_ = after_integer c
next_place c digits_ = if is_digit c then digits_ else after_integer c
next_place c point = if is_digit c then fraction else wrong
next_place c fraction = if is_digit c then fraction else if is_letter c then letter else wrong
next_place c letter =
    if c == b'+' || c == b'-' then exponent_sign else if is_digit c then exponent else wrong
next_place c exponent_sign = if is_digit c then exponent else wrong
next_place c exponent = if is_digit c then exponent else wrong
next_place c wrong = wrong

abbrev pub is_complete : Place → Bool
is_complete zero_ = true
is_complete digits_ = true
is_complete fraction = true
is_complete exponent = true
is_complete _ = false

unfoldable pub place_after : Text → Place → Place
place_after [] p = p
place_after (c ∷ cs) p = place_after cs (next_place c p)

-- A numeral of JSON.
unfoldable pub is_numeral : Text → Bool
unfolding place_after
is_numeral t = is_complete (place_after t start)

abbrev pub is_numeral_byte : ℕ → Bool
is_numeral_byte c = is_digit c || (c == b'.' || (is_letter c || (c == b'+' || c == b'-')))

abbrev pub is_space : ℕ → Bool
is_space c = c == 32 || (c == 9 || (c == 10 || c == 13))

-- The lists and maps that are open around a value.
pub data Stack : Type 0 where
  top : Stack
  items : Items → Stack → Stack
  pair : Fields → Text → Stack → Stack

-- What a string is for.
pub data Use : Type 0 where
  key : Fields → Stack → Use
  content : Stack → Use

pub data Scanner : Type 0 where
  want first_item first_key : Stack → Scanner
  want_key : Fields → Stack → Scanner
  want_colon : Fields → Text → Stack → Scanner
  in_string in_escape : Text → Use → Scanner
  in_unicode : ℕ → ℕ → Text → Use → Scanner
  in_number : Text → Stack → Scanner
  in_literal : Text → Value → Stack → Scanner
  complete : Value → Stack → Scanner
  failed : Scanner

abbrev pub add_last : Items → Value → Items
add_last nil v = cons v nil
add_last (cons w ws) v = cons w (add_last ws v)

-- utf8.AppendRune, below the supplementary planes.
abbrev utf8_of : ℕ → Text
utf8_of n =
    if ltb n 128
    then n ∷ []
    else if ltb n 2048
    then (192 + n / 64) ∷ (128 + n % 64) ∷ []
    else (224 + n / 4096) ∷ (128 + n / 64 % 64) ∷ (128 + n % 64) ∷ []

abbrev is_surrogate : ℕ → Bool
is_surrogate n = leb 0xd800 n && ltb n 0xe000

abbrev pub close_string : Text → Use → Scanner
close_string s (key fs st) = want_colon fs s st
close_string s (content st) = complete (text s) st

-- The start of a value.
abbrev begin : ℕ → Stack → Scanner
begin c st =
    if is_space c
    then want st
    else if c == b'{'
    then first_key st
    else if c == b'['
    then first_item st
    else if c == b'"'
    then in_string [] (content st)
    else if c == b't'
    then in_literal (codes "rue") (boolean true) st
    else if c == b'f'
    then in_literal (codes "alse") (boolean false) st
    else if c == b'n'
    then in_literal (codes "ull") null st
    else if is_digit c || c == b'-'
    then in_number (c ∷ []) st
    else failed

-- The byte after a value.
abbrev pub follow : ℕ → Value → Stack → Scanner
follow c v top = complete v top
follow c v (items vs st) =
    if is_space c
    then complete v (items vs st)
    else if c == b','
    then want (items (add_last vs v) st)
    else if c == b']'
    then complete (array (add_last vs v)) st
    else failed
follow c v (pair fs k st) =
    if is_space c
    then complete v (pair fs k st)
    else if c == b','
    then want_key (set k v fs) st
    else if c == b'}'
    then complete (object (set k v fs)) st
    else failed

abbrev unescape : ℕ → Option ℕ
unescape c =
    if c == b'"' || (c == 0x5c || c == b'/')
    then some c
    else if c == b'n'
    then some 10
    else if c == b'r'
    then some 13
    else if c == b't'
    then some 9
    else if c == b'b'
    then some 8
    else if c == b'f'
    then some 12
    else none

abbrev pub end_unicode : ℕ → Text → Use → Scanner
end_unicode n s u = if is_surrogate n then failed else in_string (s ++ utf8_of n) u

abbrev pub next_digit : Option ℕ → ℕ → ℕ → Text → Use → Scanner
next_digit none left n s u = failed
next_digit (some h) left n s u =
    if left == 0 then end_unicode (n * 16 + h) s u else in_unicode (left - 1) (n * 16 + h) s u

unfoldable pub step : ℕ → Scanner → Scanner
step c (want st) = begin c st
step c (first_item st) =
    if is_space c
    then first_item st
    else if c == b']'
    then complete (array nil) st
    else begin c (items nil st)
step c (first_key st) =
    if is_space c
    then first_key st
    else if c == b'}'
    then complete (object end) st
    else if c == b'"'
    then in_string [] (key end st)
    else failed
step c (want_key fs st) =
    if is_space c then want_key fs st else if c == b'"' then in_string [] (key fs st) else failed
step c (want_colon fs k st) =
    if is_space c then want_colon fs k st else if c == b':' then want (pair fs k st) else failed
step c (in_string s u) =
    if c == b'"'
    then close_string s u
    else if c == 0x5c
    then in_escape s u
    else if ltb c 32
    then failed
    else in_string (s ++ c ∷ []) u
step c (in_escape s u) =
    if c == b'u'
    then in_unicode 3 0 s u
    else elim (unescape c) [ none ↦ failed | some d ↦ in_string (s ++ d ∷ []) u ]
step c (in_unicode left n s u) = next_digit (hex_digit c) left n s u
step c (in_number t st) =
    if is_numeral_byte c
    then in_number (t ++ c ∷ []) st
    else if is_numeral t
    then follow c (number t) st
    else failed
step c (in_literal [] v st) = follow c v st
step c (in_literal (d ∷ ds) v st) = if c == d then in_literal ds v st else failed
step c (complete v st) = follow c v st
step c failed = failed

unfoldable pub run : Text → Scanner → Scanner
unfolding step
run [] s = s
run (c ∷ cs) s = run cs (step c s)

-- The fields of the map that was read; null leaves a map without fields.
abbrev pub map_of : Scanner → Option Fields
map_of (complete (object fs) top) = some fs
map_of (complete null top) = some end
map_of (in_literal [] null top) = some end
map_of _ = none

-- `Decode` into a map[string]any
unfoldable pub decode : Text → Option Fields
unfolding run
decode t = map_of (run t (want top))
