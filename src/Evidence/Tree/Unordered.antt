-- ===== src/Evidence/Tree/Unordered.antt =====
-- tree.go: the roots do not depend on the order in which a `range` gives a map's fields.
use compliance_gateway.Common.{
  ℕ, ◌+◌, ◌≡◌, refl, ap, sym, ◌∙◌, ◌≢◌, subst, inl, inr, true, false, Option, none, some, List, [],
  ◌∷◌, ◌++◌, Bool-cases, if◌then◌else◌,
}
use compliance_gateway.Text.{Text, TextMap, text_eq, codes, itoa, lookup, hex_decode}
use compliance_gateway.Text.Laws.{text_eq_eq}
use compliance_gateway.Evidence.Value.{
  Value, null, object, text, Items, Fields, end, field, get, withheld, is_end, is_nil, as_text,
}
use compliance_gateway.Evidence.Canon.{canon}
use compliance_gateway.Evidence.Canon.Unordered.{
  SameValue, same, same_array, same_object, SameItems, no_items, same_item, SameFields,
  SameValue-trans, no_fields, same_field, swap_fields, then_same, canon_same,
}
use compliance_gateway.Evidence.Tree.{
  evidence_keys, join, leaf, hash_fields, hash_items, add_field, add_item, node, node_fields,
  node_items, master_root, key_hashes, evidence_root,
}

is_end_same : {fs gs : Fields} → SameFields fs gs → is_end fs ≡ is_end gs
is_end_same no_fields = refl
is_end_same (same_field s t) = refl
is_end_same (swap_fields n) = refl
is_end_same (then_same s t) = is_end_same s ∙ is_end_same t

as_text_same : {v w : Value} → SameValue v w → as_text v ≡ as_text w
as_text_same same = refl
as_text_same (same_array s) = refl
as_text_same (same_object s) = refl

-- The test of `isWithheld`, on a field and what follows it.
withheld-field :
    (k : Text) (v : Value) (fs : Fields)
    → withheld (field k v fs)
      ≡ (if is_end fs then (if text_eq k (codes "$withheld") then as_text v else none) else none)
unfolding withheld
withheld-field k v end = refl
withheld-field k v (field l w fs) = refl

withheld_same : {fs gs : Fields} → SameFields fs gs → withheld fs ≡ withheld gs
withheld_same no_fields = refl
withheld_same (same_field {k} {v} {w} {fs} {gs} s t) =
    withheld-field k v fs
    ∙ (λ i.
        if is_end_same t i
        then (if text_eq k (codes "$withheld") then as_text_same s i else none)
        else none)
    ∙ sym (withheld-field k w gs)
withheld_same (swap_fields {k} {l} {v} {w} {fs} n) =
    withheld-field k v (field l w fs) ∙ sym (withheld-field l w (field k v fs))
withheld_same (then_same s t) = withheld_same s ∙ withheld_same t

-- Both are missing, or they differ in the order of their fields.
abbrev Alike : Option Fields → Option Fields → Type 0
Alike none none = Unit
Alike (some fs) (some gs) = SameFields fs gs
Alike _ _ = ⊥

Alike-trans : (a b c : Option Fields) → Alike a b → Alike b c → Alike a c
Alike-trans none none none p q = tt
Alike-trans (some a) (some b) (some c) p q = then_same p q
Alike-trans none none (some c) p q = absurd q
Alike-trans none (some b) c p q = absurd p
Alike-trans (some a) none c p q = absurd p
Alike-trans (some a) (some b) none p q = absurd q

-- Both are missing, or they differ in the order of the fields in them.
abbrev AlikeValues : Option Value → Option Value → Type 0
AlikeValues none none = Unit
AlikeValues (some v) (some w) = SameValue v w
AlikeValues _ _ = ⊥

AlikeValues-refl : (o : Option Value) → AlikeValues o o
AlikeValues-refl none = tt
AlikeValues-refl (some v) = same

AlikeValues-trans : (a b c : Option Value) → AlikeValues a b → AlikeValues b c → AlikeValues a c
AlikeValues-trans none none none p q = tt
AlikeValues-trans (some a) (some b) (some c) p q = SameValue-trans p q
AlikeValues-trans none none (some c) p q = absurd q
AlikeValues-trans none (some b) c p q = absurd p
AlikeValues-trans (some a) none c p q = absurd p
AlikeValues-trans (some a) (some b) none p q = absurd q

module _ (sha : List ℕ → Text) where
  add_field-Alike :
      (k : Text) (x y : Option Text) (m n : Option Fields)
      → x ≡ y
      → Alike m n
      → Alike (add_field sha k x m) (add_field sha k y n)
  add_field-Alike k none none m n e h = tt
  add_field-Alike k none (some y) m n e h = cc
  add_field-Alike k (some x) none m n e h = cc
  add_field-Alike k (some x) (some y) none none e h = tt
  add_field-Alike k (some x) (some y) none (some n) e h = absurd h
  add_field-Alike k (some x) (some y) (some m) none e h = absurd h
  add_field-Alike k (some x) (some y) (some m) (some n) e h =
      subst (λ t. SameFields (field k (text x) m) (field k (text t) n)) (cc) (same_field same h)

  swap-Alike :
      (k l : Text) (x y : Option Text) (m : Option Fields)
      → k ≢ l
      → Alike (add_field sha k x (add_field sha l y m)) (add_field sha l y (add_field sha k x m))
  swap-Alike k l none none m n = tt
  swap-Alike k l none (some y) none n = tt
  swap-Alike k l none (some y) (some m) n = tt
  swap-Alike k l (some x) none m n = tt
  swap-Alike k l (some x) (some y) none n = tt
  swap-Alike k l (some x) (some y) (some m) n = swap_fields n

  leaf_same :
      {v w : Value} (salts : TextMap Text) (p : Text)
      → SameValue v w
      → leaf sha v salts p ≡ leaf sha w salts p
  unfolding leaf
  leaf_same salts p s = λ i. elim (lookup p salts) [
    | none ↦ none
    | some t ↦ elim (hex_decode t) [
      | none ↦ none
      | some salt ↦ elim (canon_same s i) [ none ↦ none | some b ↦ some (sha (salt ++ b)) ]
    ]
  ]

  hash_fields-Alike : (m n : Option Fields) → Alike m n → hash_fields sha m ≡ hash_fields sha n
  unfolding hash_fields
  hash_fields-Alike none none h = refl
  hash_fields-Alike none (some n) h = absurd h
  hash_fields-Alike (some m) none h = absurd h
  hash_fields-Alike (some m) (some n) h = rw (canon_same (same_object h), hash_fields)

  is_nil_same : {vs ws : Items} → SameItems vs ws → is_nil vs ≡ is_nil ws
  is_nil_same no_items = refl
  is_nil_same (same_item s t) = refl

  mutual
    unfolding node

    pub node_same :
        {v w : Value} (salts : TextMap Text) (p : Text)
        → SameValue v w
        → node sha v salts p ≡ node sha w salts p
    node_same salts p same = refl
    node_same salts p (same_array {vs} {ws} s) = λ i. elim (is_nil_same s i) [
      | true ↦ leaf_same salts p (same_array s) i
      | false ↦ hash_items sha (node_items_same 0 salts p s i)
    ]
    node_same salts p (same_object {fs} {gs} s) = λ i. elim (withheld_same s i) [
      | some w ↦ some w
      | none ↦ elim (is_end_same s i) [
        | true ↦ leaf_same salts p (same_object s) i
        | false ↦
            hash_fields-Alike (node_fields sha fs salts p) (node_fields sha gs salts p)
              (node_fields_same salts p s) i
      ]
    ]

    node_fields_same :
        {fs gs : Fields} (salts : TextMap Text) (p : Text)
        → SameFields fs gs
        → Alike (node_fields sha fs salts p) (node_fields sha gs salts p)
    node_fields_same salts p no_fields = no_fields
    node_fields_same salts p (same_field {k} {v} {w} {fs} {gs} s t) =
        add_field-Alike k (node sha v salts (join p k)) (node sha w salts (join p k))
          (node_fields sha fs salts p) (node_fields sha gs salts p) (node_same salts (join p k) s)
          (node_fields_same salts p t)
    node_fields_same salts p (swap_fields {k} {l} {v} {w} {fs} n) =
        swap-Alike k l (node sha v salts (join p k)) (node sha w salts (join p l))
          (node_fields sha fs salts p) n
    node_fields_same salts p (then_same {fs} {gs} {hs} s t) =
        Alike-trans (node_fields sha fs salts p) (node_fields sha gs salts p)
          (node_fields sha hs salts p) (node_fields_same salts p s) (node_fields_same salts p t)

    node_items_same :
        {vs ws : Items} (i : ℕ) (salts : TextMap Text) (p : Text)
        → SameItems vs ws
        → node_items sha vs i salts p ≡ node_items sha ws i salts p
    node_items_same i salts p no_items = refl
    node_items_same i salts p (same_item s t) = λ j.
        add_item sha (node_same salts (join p (itoa i)) s j) (node_items_same (i + 1) salts p t j)

  -- What a key holds.
  value_same : {fs gs : Fields} (k : Text) → SameFields fs gs → AlikeValues (get k fs) (get k gs)
  unfolding get
  value_same k no_fields = tt
  value_same k (same_field {k = j} {v} {w} {fs} {gs} s t) = elim (Bool-cases (text_eq j k)) [
    | inl y ↦ rw y s
    | inr n ↦ rw n (value_same k t)
  ]
  value_same k (swap_fields {k = j} {l} {v} {w} {fs} n) = elim (Bool-cases (text_eq j k)) [
    | inl y ↦ elim (Bool-cases (text_eq l k)) [
      | inl z ↦ absurd (n (text_eq_eq j k y ∙ sym (text_eq_eq l k z)))
      | inr z ↦ rw y (rw z same)
    ]
    | inr y ↦ elim (Bool-cases (text_eq l k)) [
      | inl z ↦ rw y (rw z same)
      | inr z ↦ rw y (rw z (AlikeValues-refl (get k fs)))
    ]
  ]
  value_same k (then_same {fs} {gs} {hs} s t) =
      AlikeValues-trans (get k fs) (get k gs) (get k hs) (value_same k s) (value_same k t)

  node_or_null :
      (a b : Option Value) (salts : TextMap Text) (k : Text)
      → AlikeValues a b
      → elim a [ none ↦ node sha null salts k | some v ↦ node sha v salts k ]
        ≡ elim b [ none ↦ node sha null salts k | some v ↦ node sha v salts k ]
  node_or_null none none salts k h = refl
  node_or_null none (some w) salts k h = absurd h
  node_or_null (some v) none salts k h = absurd h
  node_or_null (some v) (some w) salts k h = node_same salts k h

  key_hashes_same :
      {fs gs : Fields} (ks : List Text) (salts : TextMap Text)
      → SameFields fs gs
      → key_hashes sha ks fs salts ≡ key_hashes sha ks gs salts
  unfolding key_hashes
  key_hashes_same [] salts s = refl
  key_hashes_same {fs} {gs} (k ∷ ks) salts s = λ i.
      add_field sha k (node_or_null (get k fs) (get k gs) salts k (value_same k s) i)
        (key_hashes_same ks salts s i)

  -- The canonical JSON of a map, its master root and its evidence root are the same for any two orders
  -- of its fields and of the fields of the maps in it, a failure included.
  pub roots_same :
      (fs gs : Fields) (salts : TextMap Text)
      → SameFields fs gs
      → (canon (object fs) ≡ canon (object gs))
        × (master_root sha fs salts ≡ master_root sha gs salts)
        × (evidence_root sha fs salts ≡ evidence_root sha gs salts)
  unfolding master_root evidence_root
  roots_same fs gs salts s = (
    canon_same (same_object s),
    node_same salts [] (same_object s),
    ap (hash_fields sha) (key_hashes_same evidence_keys salts s),
  )
