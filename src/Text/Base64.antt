-- ===== src/Text/Base64.antt =====
-- encoding/base64's RawURLEncoding: six bits to a character, no padding. Decoding is Go's: it skips
-- line breaks and does not ask that the bits left over are 0.
use compliance_gateway.Common.{
  ℕ, ◌+◌, ◌-◌, ◌*◌, ◌/◌, ◌%◌, ◌<◌, ◌≡◌, refl, ap, sym, ◌∙◌, true, ◌&&◌, ◌||◌, Option, none, some,
  List, [], ◌∷◌, map, ltb, leb, ◌==◌, if◌then◌else◌, All, arith,
}
use compliance_gateway.Text.{Text}
use compliance_gateway.Text.Paths.{no_dot}

-- The character of six bits.
unfoldable pub sextet_char : ℕ → ℕ
sextet_char n =
    if ltb n 26
    then b'A' + n
    else if ltb n 52
    then 71 + n
    else if ltb n 62
    then n - 4
    else if n == 62
    then b'-'
    else b'_'

unfoldable pub char_sextet : ℕ → Option ℕ
char_sextet c =
    if leb b'A' c && leb c b'Z'
    then some (c - b'A')
    else if leb b'a' c && leb c b'z'
    then some (c - 71)
    else if leb b'0' c && leb c b'9'
    then some (c + 4)
    else if c == b'-'
    then some 62
    else if c == b'_'
    then some 63
    else none

-- The bytes of a text, six bits at a time.
unfoldable pub cut : List ℕ → List ℕ
cut [] = []
cut (a ∷ []) = a / 4 ∷ a % 4 * 16 ∷ []
cut (a ∷ b ∷ []) = a / 4 ∷ (a % 4 * 16 + b / 16) ∷ b % 16 * 4 ∷ []
cut (a ∷ b ∷ c ∷ s) = a / 4 ∷ (a % 4 * 16 + b / 16) ∷ (b % 16 * 4 + c / 64) ∷ c % 64 ∷ cut s

unfoldable pub paste : List ℕ → Option (List ℕ)
paste [] = some []
paste (x ∷ []) = none
paste (x ∷ y ∷ []) = some ((x * 4 + y / 16) ∷ [])
paste (x ∷ y ∷ z ∷ []) = some ((x * 4 + y / 16) ∷ (y % 16 * 16 + z / 4) ∷ [])
paste (x ∷ y ∷ z ∷ w ∷ s) = elim (paste s) [
  | none ↦ none
  | some bs ↦ some ((x * 4 + y / 16) ∷ (y % 16 * 16 + z / 4) ∷ (z % 4 * 64 + w) ∷ bs)
]

unfoldable pub sextets : Text → Option (List ℕ)
unfolding char_sextet
sextets [] = some []
sextets (c ∷ cs) =
    let rest = sextets cs in
    if c == 10 || c == 13 then rest else elim (char_sextet c) [
      | none ↦ none
      | some n ↦ elim rest [ none ↦ none | some ns ↦ some (n ∷ ns) ]
    ]

-- EncodeToString
unfoldable pub base64_encode : List ℕ → Text
unfolding cut sextet_char
base64_encode bs = map sextet_char (cut bs)

-- DecodeString
unfoldable pub base64_decode : Text → Option (List ℕ)
unfolding sextets paste
base64_decode s = elim (sextets s) [ none ↦ none | some ns ↦ paste ns ]

abbrev pub IsBytes : List ℕ → Type 0
IsBytes = All (λ b. b < 256)

sextets-map : (ns : List ℕ) → All (λ n. n < 64) ns → sextets (map sextet_char ns) ≡ some ns
unfolding sextets sextet_char
sextets-map [] h = refl
sextets-map (n ∷ ns) (p, h) = ground (arith, sextets-map ns h)

All-cut : (bs : List ℕ) → IsBytes bs → All (λ n. n < 64) (cut bs)
unfolding cut
All-cut [] h = tt
All-cut (a ∷ []) h = ground arith
All-cut (a ∷ b ∷ []) h = ground arith
All-cut (a ∷ b ∷ c ∷ s) (p, (q, (r, h))) =
    (omega arith, (omega arith, (omega arith, (omega arith, All-cut s h))))

paste-cut : (bs : List ℕ) → IsBytes bs → paste (cut bs) ≡ some bs
unfolding cut paste
paste-cut [] h = refl
paste-cut (a ∷ []) h = ground arith
paste-cut (a ∷ b ∷ []) h = ground arith
paste-cut (a ∷ b ∷ c ∷ s) (p, (q, (r, h))) = ground (arith, paste-cut s h)

-- What was encoded is decoded.
pub decode-encode : (bs : List ℕ) → IsBytes bs → base64_decode (base64_encode bs) ≡ some bs
unfolding base64_decode base64_encode
decode-encode bs h = ground (arith, sextets-map (cut bs) (All-cut bs h), paste-cut bs h)

no_dot-map : (ns : List ℕ) → no_dot (map sextet_char ns) ≡ true
unfolding sextet_char
no_dot-map [] = refl
no_dot-map (n ∷ ns) = ground (arith, no_dot-map ns)

pub no_dot-encode : (bs : List ℕ) → no_dot (base64_encode bs) ≡ true
unfolding base64_encode
no_dot-encode bs = no_dot-map (cut bs)

unwrap : {bs cs : List ℕ} → some bs ≡ some cs → bs ≡ cs
unwrap h = cc

pub encode_inj :
    (bs cs : List ℕ) → IsBytes bs → IsBytes cs → base64_encode bs ≡ base64_encode cs → bs ≡ cs
encode_inj bs cs p q e = unwrap (sym (decode-encode bs p) ∙ ap base64_decode e ∙ decode-encode cs q)
