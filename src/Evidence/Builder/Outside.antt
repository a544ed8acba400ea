-- ===== src/Evidence/Builder/Outside.antt =====
-- tree.go and builder.go: where salting and carrying write.
use compliance_gateway.Common.{
  ℕ, ◌+◌, ◌≡◌, refl, ◌∙◌, inl, inr, Bool, true, false, Option, none, some, ◌∷◌, ◌++◌, arith,
  Bool-cases,
}
use compliance_gateway.Text.{Text, TextMap, text_eq, dot, itoa, lookup, put}
use compliance_gateway.Text.Laws.{under, under_trans, lookup-put}
use compliance_gateway.Text.Order.{text_eq_sym}
use compliance_gateway.Evidence.Value.{
  Value, null, boolean, number, int, text, array, strings, object, unsupported, Items, nil, cons,
  Fields, end, field, withheld, is_end, is_nil,
}
use compliance_gateway.Evidence.Tree.{Salting, salt, salt_fields, salt_items, salt_leaf, join}
use compliance_gateway.Evidence.Builder.{carry, carry_fields, carry_items, carry_leaf}

outside_join : (p k j : Text) → under p j ≡ false → under (p ++ dot ∷ k) j ≡ false
outside_join p k j h = elim (Bool-cases (under (p ++ dot ∷ k) j)) [
  | inl y ↦ ground (arith, under_trans p k j y)
  | inr z ↦ z
]

outside_ne : (p j : Text) → under p j ≡ false → text_eq p j ≡ false
outside_ne p j h = ground (arith, text_eq_sym p j)

put_outside :
    (p j s : Text) (m : TextMap Text) → under p j ≡ false → lookup j (put p s m) ≡ lookup j m
put_outside p j s m h = lookup-put p j s m ∙ rw (outside_ne p j h) refl

-- Of the three ways in which a map is treated.
treated {ℓ} :
    {A : Type ℓ} (f : A → Option Text) (x : Option Text) (w : Option Text) (e : Bool) (s a b : A)
    → f s ≡ x
    → f a ≡ x
    → f b ≡ x
    → f (elim w [ some t ↦ s | none ↦ elim e [ true ↦ a | false ↦ b ] ]) ≡ x
treated f x (some t) e s a b p q r = p
treated f x none true s a b p q r = q
treated f x none false s a b p q r = r

module _ (fresh : ℕ → Text) (j : Text) where
  abbrev salt_at : Salting → Option Text
  salt_at s = lookup j s.salts

  salt_leaf_outside :
      (p : Text) (s : Salting) → under p j ≡ false → salt_at (salt_leaf fresh p s) ≡ salt_at s
  unfolding salt_leaf
  salt_leaf_outside p s h =
      elim (lookup p s.salts)
        as (λ o.
          salt_at (elim o [
            | some old ↦ s
            | none ↦ record { salts = put p (fresh s.drawn) s.salts; drawn = s.drawn + 1 }
          ])
          ≡ salt_at s) [ none ↦ put_outside p j (fresh s.drawn) s.salts h | some old ↦ refl ]

  mutual
    unfolding salt

    pub salt_outside :
        (v : Value) (c : ℕ) (p : Text) (s : Salting)
        → under (c ∷ p) j ≡ false
        → salt_at (salt fresh v (c ∷ p) s) ≡ salt_at s
    salt_outside (object fs) c p s h =
        treated salt_at (salt_at s) (withheld fs) (is_end fs) s (salt_leaf fresh (c ∷ p) s)
          (salt_fields fresh fs (c ∷ p) s) refl (salt_leaf_outside (c ∷ p) s h)
          (salt_fields_outside fs c p s h)
    salt_outside (array vs) c p s h =
        treated salt_at (salt_at s) none (is_nil vs) s (salt_leaf fresh (c ∷ p) s)
          (salt_items fresh vs 0 (c ∷ p) s) refl (salt_leaf_outside (c ∷ p) s h)
          (salt_items_outside vs 0 c p s h)
    salt_outside null c p s h = salt_leaf_outside (c ∷ p) s h
    salt_outside (boolean b) c p s h = salt_leaf_outside (c ∷ p) s h
    salt_outside (number x) c p s h = salt_leaf_outside (c ∷ p) s h
    salt_outside (int n) c p s h = salt_leaf_outside (c ∷ p) s h
    salt_outside (text t) c p s h = salt_leaf_outside (c ∷ p) s h
    salt_outside (strings l) c p s h = salt_leaf_outside (c ∷ p) s h
    salt_outside unsupported c p s h = salt_leaf_outside (c ∷ p) s h

    salt_fields_outside :
        (fs : Fields) (c : ℕ) (p : Text) (s : Salting)
        → under (c ∷ p) j ≡ false
        → salt_at (salt_fields fresh fs (c ∷ p) s) ≡ salt_at s
    salt_fields_outside end c p s h = refl
    salt_fields_outside (field k v fs) c p s h =
        salt_fields_outside fs c p (salt fresh v (join (c ∷ p) k) s) h
        ∙ salt_outside v c (p ++ dot ∷ k) s (outside_join (c ∷ p) k j h)

    salt_items_outside :
        (vs : Items) (i c : ℕ) (p : Text) (s : Salting)
        → under (c ∷ p) j ≡ false
        → salt_at (salt_items fresh vs i (c ∷ p) s) ≡ salt_at s
    salt_items_outside nil i c p s h = refl
    salt_items_outside (cons v vs) i c p s h =
        salt_items_outside vs (i + 1) c p (salt fresh v (join (c ∷ p) (itoa i)) s) h
        ∙ salt_outside v c (p ++ dot ∷ itoa i) s (outside_join (c ∷ p) (itoa i) j h)

module _ (prev : TextMap Text) (j : Text) where
  carry_leaf_outside :
      (p : Text) (out : TextMap Text)
      → under p j ≡ false
      → lookup j (carry_leaf prev p out) ≡ lookup j out
  unfolding carry_leaf
  carry_leaf_outside p out h =
      elim (lookup p prev)
        as (λ o. lookup j (elim o [ none ↦ out | some t ↦ put p t out ]) ≡ lookup j out) [
          | none ↦ refl
          | some t ↦ put_outside p j t out h
        ]

  mutual
    unfolding carry

    pub carry_outside :
        (v : Value) (c : ℕ) (p : Text) (out : TextMap Text)
        → under (c ∷ p) j ≡ false
        → lookup j (carry v prev (c ∷ p) out) ≡ lookup j out
    carry_outside (object fs) c p out h =
        treated (lookup j) (lookup j out) (withheld fs) (is_end fs) (carry_leaf prev (c ∷ p) out)
          (carry_leaf prev (c ∷ p) out) (carry_fields fs prev (c ∷ p) out)
          (carry_leaf_outside (c ∷ p) out h) (carry_leaf_outside (c ∷ p) out h)
          (carry_fields_outside fs c p out h)
    carry_outside (array vs) c p out h =
        treated (lookup j) (lookup j out) none (is_nil vs) out (carry_leaf prev (c ∷ p) out)
          (carry_items vs 0 prev (c ∷ p) out) refl (carry_leaf_outside (c ∷ p) out h)
          (carry_items_outside vs 0 c p out h)
    carry_outside null c p out h = carry_leaf_outside (c ∷ p) out h
    carry_outside (boolean b) c p out h = carry_leaf_outside (c ∷ p) out h
    carry_outside (number x) c p out h = carry_leaf_outside (c ∷ p) out h
    carry_outside (int n) c p out h = carry_leaf_outside (c ∷ p) out h
    carry_outside (text t) c p out h = carry_leaf_outside (c ∷ p) out h
    carry_outside (strings l) c p out h = carry_leaf_outside (c ∷ p) out h
    carry_outside unsupported c p out h = carry_leaf_outside (c ∷ p) out h

    carry_fields_outside :
        (fs : Fields) (c : ℕ) (p : Text) (out : TextMap Text)
        → under (c ∷ p) j ≡ false
        → lookup j (carry_fields fs prev (c ∷ p) out) ≡ lookup j out
    carry_fields_outside end c p out h = refl
    carry_fields_outside (field k v fs) c p out h =
        carry_fields_outside fs c p (carry v prev (join (c ∷ p) k) out) h
        ∙ carry_outside v c (p ++ dot ∷ k) out (outside_join (c ∷ p) k j h)

    carry_items_outside :
        (vs : Items) (i c : ℕ) (p : Text) (out : TextMap Text)
        → under (c ∷ p) j ≡ false
        → lookup j (carry_items vs i prev (c ∷ p) out) ≡ lookup j out
    carry_items_outside nil i c p out h = refl
    carry_items_outside (cons v vs) i c p out h =
        carry_items_outside vs (i + 1) c p (carry v prev (join (c ∷ p) (itoa i)) out) h
        ∙ carry_outside v c (p ++ dot ∷ itoa i) out (outside_join (c ∷ p) (itoa i) j h)
