-- ===== src/Text/Laws.antt =====
-- Equality of texts, the laws of text maps, and which paths lie under a path.
use compliance_gateway.Common.{
  ◌≡◌, refl, ap, ◌↔◌, inl, inr, Bool, true, false, ◌||◌, none, some, [], ◌∷◌, ◌++◌, if◌then◌else◌,
  arith, Bool-cases,
}
use compliance_gateway.Text.{Text, text_eq, is_prefix, dot, lookup, put, delete_if, TextMap}

pub text_eq_eq : (x y : Text) → text_eq x y ≡ true → x ≡ y
unfolding text_eq
text_eq_eq [] [] h = refl
text_eq_eq [] (y ∷ ys) h = cc
text_eq_eq (x ∷ xs) [] h = cc
text_eq_eq (x ∷ xs) (y ∷ ys) h = ground (arith, text_eq_eq xs ys)

pub text_eq_refl : (x : Text) → text_eq x x ≡ true
unfolding text_eq
text_eq_refl [] = refl
text_eq_refl (x ∷ xs) = ground (arith, text_eq_refl xs)

pub text_eq_iff : (x y : Text) → (text_eq x y ≡ true) ↔ (x ≡ y)
text_eq_iff x y = (text_eq_eq x y, λ e. rw e (text_eq_refl y))

module _ {ℓ} {V : Type ℓ} where
  pub lookup-put :
      (k j : Text) (v : V) (m : TextMap V)
      → lookup j (put k v m) ≡ (if text_eq k j then some v else lookup j m)
  unfolding lookup put
  lookup-put k j v [] = ground arith
  lookup-put k j v ((i, w) ∷ m) =
      ground (arith, text_eq_iff k j, text_eq_iff i k, text_eq_iff i j, lookup-put k j v m)

  pub lookup-delete_if :
      (p : Text → Bool) (j : Text) (m : TextMap V)
      → lookup j (delete_if p m) ≡ (if p j then none else lookup j m)
  unfolding lookup delete_if
  lookup-delete_if p j [] = ground arith
  lookup-delete_if p j ((i, w) ∷ m) = elim (Bool-cases (text_eq i j)) [
    | inl e ↦ ground (arith, ap p (text_eq_eq i j e), lookup-delete_if p j m)
    | inr e ↦ ground (arith, lookup-delete_if p j m)
  ]

-- The path itself, or one below it.
abbrev pub under : Text → Text → Bool
under q p = text_eq p q || is_prefix (q ++ dot ∷ []) p

-- `p` is neither `q` nor below nor above it.
abbrev pub IsApart : Text → Text → Type 0
IsApart q p = (under q p ≡ false) × (under p q ≡ false)

prefix-append : (q s : Text) → is_prefix q (q ++ s) ≡ true
unfolding is_prefix
prefix-append [] s = refl
prefix-append (c ∷ q) s = ground (arith, prefix-append q s)

-- What lies below a path that is apart from `q` is not under `q`.
under-below : (q p s : Text) → IsApart q p → under q (p ++ dot ∷ s) ≡ false
unfolding text_eq is_prefix
under-below [] [] s h = absurd (ground arith)
under-below [] (d ∷ p) s h = ground arith
under-below (c ∷ q) [] s h = ground arith
under-below (c ∷ q) (d ∷ p) s h = ground (arith, under-below q p s)

pub under_refl : (p : Text) → under p p ≡ true
under_refl p = ground (arith, text_eq_refl p)

-- A path below one below `p` is below `p`.
pub under_trans : (p k j : Text) → under (p ++ dot ∷ k) j ≡ true → under p j ≡ true
unfolding text_eq is_prefix
under_trans [] k [] h = ground arith
under_trans [] k (d ∷ j) h = ground arith
under_trans (c ∷ p) k [] h = absurd (ground arith)
under_trans (c ∷ p) k (d ∷ j) h = ground (arith, under_trans p k j)
