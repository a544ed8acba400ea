-- ===== src/Text/Paths.antt =====
-- Dotted paths: a path of plain segments, and paths that branch off from it.
use compliance_gateway.Common.{
  ℕ, ◌≡◌, ◌≢◌, refl, ap, sym, ◌∙◌, inl, inr, Bool, true, false, ◌&&◌, List, [], ◌∷◌, ◌++◌, ◌==◌,
  arith, Bool-cases, not, All, subst,
}
use compliance_gateway.Text.{Text, text_eq, is_prefix, dot, split}
use compliance_gateway.Text.Laws.{under, IsApart}

abbrev pub no_dot : Text → Bool
no_dot [] = true
no_dot (c ∷ cs) = not (c == dot) && no_dot cs

-- A key or segment: not empty, and without a dot.
abbrev pub IsPlain : Text → Type 0
IsPlain k = (k ≢ []) × (no_dot k ≡ true)

-- The dotted path of some segments.
abbrev pub dotted : List Text → Text
dotted [] = []
dotted (k ∷ []) = k
dotted (k ∷ l ∷ ks) = k ++ dot ∷ dotted (l ∷ ks)

dotted-cons : (c : ℕ) (w : Text) (ws : List Text) → dotted ((c ∷ w) ∷ ws) ≡ c ∷ dotted (w ∷ ws)
dotted-cons c w [] = refl
dotted-cons c w (v ∷ ws) = refl

pub split_cons : (p : Text) → (w : Text) × (ws : List Text) × (split p ≡ w ∷ ws)
unfolding split
split_cons [] = ([], [], refl)
split_cons (c ∷ p) = elim (Bool-cases (c == dot)) [
  | inl e ↦ ([], split p, rw e)
  | inr e ↦ let (w, ws, h) = split_cons p in (c ∷ w, ws, rw e (rw h refl))
]

-- Joining the segments of a path gives the path.
pub dotted-split : (p : Text) → dotted (split p) ≡ p
unfolding split
dotted-split [] = refl
dotted-split (c ∷ p) =
    let (w, ws, h) = split_cons p in
    let ih = dotted-split p in
    elim (Bool-cases (c == dot)) [
      | inl e ↦ rw e (rw h (ground (arith, ap dotted h, ih)))
      | inr e ↦ rw e (rw h (dotted-cons c w ws ∙ ap (λ (r : Text). c ∷ r) (sym (ap dotted h) ∙ ih)))
    ]

-- What lies under a path that is apart from `q` is not under `q`.
pub under-apart : (q p j : Text) → IsApart q p → under p j ≡ true → under q j ≡ false
unfolding text_eq is_prefix
under-apart [] [] j h u = absurd (ground arith)
under-apart [] (d ∷ p) [] h u = absurd (ground arith)
under-apart [] (d ∷ p) (e ∷ j) h u = ground arith
under-apart (c ∷ q) [] [] h u = ground arith
under-apart (c ∷ q) [] (e ∷ j) h u = ground arith
under-apart (c ∷ q) (d ∷ p) [] h u = ground arith
under-apart (c ∷ q) (d ∷ p) (e ∷ j) h u = ground (arith, under-apart q p j)

tail_ne : (c d : ℕ) (k l : Text) → (c ∷ k) ≢ (d ∷ l) → c ≡ d → k ≢ l
tail_ne c d k l n e f = n (rw e (rw f refl))

-- Two plain keys that differ branch off from one another, whatever follows the first.
pub plain-IsApart : (k l : Text) → k ≢ l → no_dot k ≡ true → no_dot l ≡ true → IsApart k l
unfolding text_eq is_prefix
plain-IsApart [] [] n a b = absurd (n refl)
plain-IsApart [] (d ∷ l) n a b = ground arith
plain-IsApart (c ∷ k) [] n a b = ground arith
plain-IsApart (c ∷ k) (d ∷ l) n a b = elim (Bool-cases (c == d)) [
  | inl e ↦ ground (arith, plain-IsApart k l (tail_ne c d k l n (ground arith)))
  | inr e ↦ ground arith
]

pub plain-IsApart_below :
    (k l s : Text) → k ≢ l → no_dot k ≡ true → no_dot l ≡ true → IsApart (k ++ dot ∷ s) l
unfolding text_eq is_prefix
plain-IsApart_below [] [] s n a b = absurd (n refl)
plain-IsApart_below [] (d ∷ l) s n a b = ground arith
plain-IsApart_below (c ∷ k) [] s n a b = ground arith
plain-IsApart_below (c ∷ k) (d ∷ l) s n a b = elim (Bool-cases (c == d)) [
  | inl e ↦ ground (arith, plain-IsApart_below k l s (tail_ne c d k l n (ground arith)))
  | inr e ↦ ground arith
]

pub IsApart-append : (p x y : Text) → IsApart x y → IsApart (p ++ x) (p ++ y)
unfolding text_eq is_prefix
IsApart-append [] x y h = h
IsApart-append (c ∷ p) x y h = ground (arith, IsApart-append p x y)

-- Splitting what joins texts without a dot gives the texts.
pub split_plain : (w : Text) → no_dot w ≡ true → split w ≡ w ∷ []
unfolding split
split_plain [] h = refl
split_plain (c ∷ w) h = ground (arith, split_plain w)

pub split-append : (w s : Text) → no_dot w ≡ true → split (w ++ dot ∷ s) ≡ w ∷ split s
unfolding split
split-append [] s h = ground arith
split-append (c ∷ w) s h = ground (arith, split-append w s)

pub split-no_dot : (p : Text) → All (λ w. no_dot w ≡ true) (split p)
unfolding split
split-no_dot [] = (refl, tt)
split-no_dot (c ∷ p) =
    let (w, ws, h) = split_cons p in
    let (a, b) = subst (All (λ v. no_dot v ≡ true)) h (split-no_dot p) in
    elim (Bool-cases (c == dot)) [
      | inl e ↦ rw e (refl, split-no_dot p)
      | inr e ↦ rw e (rw h (ground arith, b))
    ]
