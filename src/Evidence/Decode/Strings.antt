-- ===== src/Evidence/Decode/Strings.antt =====
-- canon.go: a string that is written is read back.
use compliance_gateway.Common.{
  ℕ, ◌<◌, ◌+◌, ◌*◌, ◌/◌, ◌%◌, ◌≡◌, ◌≢◌, refl, ap, sym, ◌∙◌, inl, inr, Bool-cases, some, [], ◌∷◌,
  ◌++◌, ltb, ◌==◌, arith, subst, ==_iff, ltb→lt, false, true, append_assoc, append-nil,
}
use compliance_gateway.Text.{Text, hex_digit, hex_char}
use compliance_gateway.Evidence.Canon.{escape, escape_all}
use compliance_gateway.Evidence.Decode.{
  Use, run, step, in_string, close_string, in_unicode, end_unicode, next_digit,
}

hex_digit-hex_char : (n : ℕ) → n < 16 → hex_digit (hex_char n) ≡ some n
hex_digit-hex_char n h = ground arith

small : (c : ℕ) (s : Text) (u : Use) → c < 32 → end_unicode c s u ≡ in_string (s ++ c ∷ []) u
small c s u h = ground arith

-- The bytes that stand for one are read as it.
abbrev Reads : ℕ → Type 0
Reads c =
    (s rest : Text) (u : Use)
    → run (escape c ++ rest) (in_string s u) ≡ run rest (in_string (s ++ c ∷ []) u)

named : (c d : ℕ) → (c == d) ≡ true → Reads d → Reads c
named c d e r = subst Reads (sym ((==_iff c d).0 e)) r

end_small :
    (n c : ℕ) (s : Text) (u : Use) → n ≡ c → c < 32 → end_unicode n s u ≡ in_string (s ++ c ∷ []) u
end_small n c s u e h =
    subst (λ k. end_unicode k s u ≡ in_string (s ++ c ∷ []) u) (sym e) (small c s u h)

not_equal : (c d : ℕ) → c ≢ d → (c == d) ≡ false
not_equal c d n = ground arith

below_32 : (c : ℕ) → c < 32 → ltb c 32 ≡ true
below_32 c h = ground arith

escape-control :
    (c : ℕ)
    → c < 32
    → (c == 10) ≡ false
    → (c == 13) ≡ false
    → (c == 9) ≡ false
    → (c == 8) ≡ false
    → (c == 12) ≡ false
    → escape c ≡ 0x5c ∷ b'u' ∷ b'0' ∷ b'0' ∷ hex_char (c / 16) ∷ hex_char (c % 16) ∷ []
unfolding escape
escape-control c h a b d e f = rw (not_equal c 34 (omega arith)) (
    rw (not_equal c 0x5c (omega arith)) (rw a (rw b (rw d (rw e (rw f (rw (below_32 c h) refl)))))))

escape-plain :
    (c : ℕ) → (c == 34) ≡ false → (c == 0x5c) ≡ false → ltb c 32 ≡ false → escape c ≡ c ∷ []
unfolding escape
escape-plain c a b h = ground arith

third_digit :
    (x a : ℕ) (s : Text) (u : Use)
    → hex_digit x ≡ some a
    → step x (in_unicode 1 0 s u) ≡ in_unicode 0 (0 + a) s u
unfolding step
third_digit x a s u e = ap (λ o. next_digit o 1 0 s u) e

last_digit :
    (x n a : ℕ) (s : Text) (u : Use)
    → hex_digit x ≡ some a
    → step x (in_unicode 0 n s u) ≡ end_unicode (n * 16 + a) s u
unfolding step
last_digit x n a s u e = ap (λ o. next_digit o 0 n s u) e

Reads-control :
    (c : ℕ)
    → c < 32
    → (c == 10) ≡ false
    → (c == 13) ≡ false
    → (c == 9) ≡ false
    → (c == 8) ≡ false
    → (c == 12) ≡ false
    → Reads c
unfolding run
Reads-control c h a b d e f s rest u =
    ap (λ x. run (x ++ rest) (in_string s u)) (escape-control c h a b d e f)
    ∙ ap (λ x. run rest (step (hex_char (c % 16)) x))
        (third_digit (hex_char (c / 16)) (c / 16) s u (hex_digit-hex_char (c / 16) (omega arith)))
    ∙ ap (run rest) (
        last_digit (hex_char (c % 16)) (0 + c / 16) (c % 16) s u
          (hex_digit-hex_char (c % 16) (omega arith))
        ∙ end_small ((0 + c / 16) * 16 + c % 16) c s u (omega arith) h)

step-plain :
    (c : ℕ) (s : Text) (u : Use)
    → (c == 34) ≡ false
    → (c == 0x5c) ≡ false
    → ltb c 32 ≡ false
    → step c (in_string s u) ≡ in_string (s ++ c ∷ []) u
unfolding step
step-plain c s u a b h = rw a (rw b (rw h refl))

Reads-plain : (c : ℕ) → (c == 34) ≡ false → (c == 0x5c) ≡ false → ltb c 32 ≡ false → Reads c
unfolding run
Reads-plain c a b h s rest u =
    ap (λ x. run (x ++ rest) (in_string s u)) (escape-plain c a b h)
    ∙ ap (run rest) (step-plain c s u a b h)

Reads-quote : Reads 34
unfolding run escape
Reads-quote s rest u = refl

Reads-backslash : Reads 0x5c
unfolding run escape
Reads-backslash s rest u = refl

Reads-10 : Reads 10
unfolding run escape
Reads-10 s rest u = refl

Reads-13 : Reads 13
unfolding run escape
Reads-13 s rest u = refl

Reads-9 : Reads 9
unfolding run escape
Reads-9 s rest u = refl

Reads-8 : Reads 8
unfolding run escape
Reads-8 s rest u = refl

Reads-12 : Reads 12
unfolding run escape
Reads-12 s rest u = refl

run-escape : (c : ℕ) → Reads c
run-escape c = elim (Bool-cases (ltb c 32)) [
  | inl l ↦ elim (Bool-cases (c == 10)) [
    | inl y ↦ named c 10 y Reads-10
    | inr a ↦ elim (Bool-cases (c == 13)) [
      | inl y ↦ named c 13 y Reads-13
      | inr b ↦ elim (Bool-cases (c == 9)) [
        | inl y ↦ named c 9 y Reads-9
        | inr d ↦ elim (Bool-cases (c == 8)) [
          | inl y ↦ named c 8 y Reads-8
          | inr e ↦ elim (Bool-cases (c == 12)) [
            | inl y ↦ named c 12 y Reads-12
            | inr f ↦ Reads-control c (ltb→lt c 32 l) a b d e f
          ]
        ]
      ]
    ]
  ]
  | inr l ↦ elim (Bool-cases (c == 34)) [
    | inl y ↦ named c 34 y Reads-quote
    | inr a ↦ elim (Bool-cases (c == 0x5c)) [
      | inl y ↦ named c 0x5c y Reads-backslash
      | inr b ↦ Reads-plain c a b l
    ]
  ]
]

pub run-escape_all :
    (t s rest : Text) (u : Use)
    → run (escape_all t ++ rest) (in_string s u) ≡ run rest (in_string (s ++ t) u)
unfolding escape_all
run-escape_all [] s rest u = ap (λ x. run rest (in_string x u)) (sym (append-nil s))
run-escape_all (c ∷ t) s rest u =
    ap (λ x. run x (in_string s u)) (append_assoc (escape c) (escape_all t) rest)
    ∙ run-escape c s (escape_all t ++ rest) u
    ∙ run-escape_all t (s ++ c ∷ []) rest u
    ∙ ap (λ x. run rest (in_string x u)) (append_assoc s (c ∷ []) t)

-- A string that is written, after its opening quote, is read as the string.
pub run-write_string :
    (t rest : Text) (u : Use)
    → run (escape_all t ++ b'"' ∷ rest) (in_string [] u) ≡ run rest (close_string t u)
unfolding run
run-write_string t rest u = run-escape_all t [] (b'"' ∷ rest) u
