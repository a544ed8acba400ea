-- ===== src/Evidence/Canon/Unordered.antt =====
-- canon.go: the canonical bytes do not depend on the order in which a `range` gives a map's fields.
use compliance_gateway.Common.{
  ◌≡◌, ◌≢◌, refl, ap, sym, ◌∙◌, subst, Option, none, some, [], ◌∷◌, arith,
}
use compliance_gateway.Text.{Text, TextMap}
use compliance_gateway.Text.Laws.{text_eq_eq}
use compliance_gateway.Text.Order.{text_le_total, text_le_antisym, text_le_trans}
use compliance_gateway.Evidence.Value.{Value, array, object, Items, nil, cons, Fields, end, field}
use compliance_gateway.Evidence.Canon.{
  canon, write, write_items, write_fields, add_member, insert, sort, members, commas, braces,
  brackets,
}

-- Values that differ only in the order of the fields of the maps in them. Two fields change places
-- when their keys differ, as the keys of one map do.
mutual
  pub data SameValue : Value → Value → Type 0 where
    same : {v : Value} → SameValue v v
    same_array : {vs ws : Items} → SameItems vs ws → SameValue (array vs) (array ws)
    same_object : {fs gs : Fields} → SameFields fs gs → SameValue (object fs) (object gs)

  pub data SameItems : Items → Items → Type 0 where
    no_items : SameItems nil nil
    same_item :
        {v w : Value} {vs ws : Items}
        → SameValue v w
        → SameItems vs ws
        → SameItems (cons v vs) (cons w ws)

  pub data SameFields : Fields → Fields → Type 0 where
    no_fields : SameFields end end
    same_field :
        {k : Text} {v w : Value} {fs gs : Fields}
        → SameValue v w
        → SameFields fs gs
        → SameFields (field k v fs) (field k w gs)
    swap_fields :
        {k l : Text} {v w : Value} {fs : Fields}
        → k ≢ l
        → SameFields (field k v (field l w fs)) (field l w (field k v fs))
    then_same : {fs gs hs : Fields} → SameFields fs gs → SameFields gs hs → SameFields fs hs

mutual
  pub SameValue-trans : {u v w : Value} → SameValue u v → SameValue v w → SameValue u w
  SameValue-trans same t = t
  SameValue-trans (same_array s) same = same_array s
  SameValue-trans (same_array s) (same_array t) = same_array (SameItems-trans s t)
  SameValue-trans (same_object s) same = same_object s
  SameValue-trans (same_object s) (same_object t) = same_object (then_same s t)

  SameItems-trans : {us vs ws : Items} → SameItems us vs → SameItems vs ws → SameItems us ws
  SameItems-trans no_items t = t
  SameItems-trans (same_item s t) (same_item p q) =
      same_item (SameValue-trans s p) (SameItems-trans t q)

-- Two fields with different keys are inserted in either order.
insert_comm :
    (k l x y : Text) (m : TextMap Text)
    → k ≢ l
    → insert k x (insert l y m) ≡ insert l y (insert k x m)
unfolding insert
insert_comm k l x y [] n = ground (arith, text_le_total k l, text_le_antisym k l, text_eq_eq k l)
insert_comm k l x y ((j, w) ∷ m) n = ground (
  arith,
  text_le_total k l,
  text_le_antisym k l,
  text_eq_eq k l,
  text_le_total k j,
  text_le_total l j,
  text_le_trans k l j,
  text_le_trans l k j,
  text_le_trans k j l,
  text_le_trans l j k,
  insert_comm k l x y m n,
)

-- Both are missing, or they are sorted to the same fields.
abbrev Alike : Option (TextMap Text) → Option (TextMap Text) → Type 0
Alike none none = Unit
Alike (some m) (some n) = sort m ≡ sort n
Alike _ _ = ⊥

Alike-trans : (a b c : Option (TextMap Text)) → Alike a b → Alike b c → Alike a c
Alike-trans none none none p q = tt
Alike-trans (some a) (some b) (some c) p q = p ∙ q
Alike-trans none none (some c) p q = absurd q
Alike-trans none (some b) c p q = absurd p
Alike-trans (some a) none c p q = absurd p
Alike-trans (some a) (some b) none p q = absurd q

add_member-Alike :
    (k : Text) (x : Option Text) (m n : Option (TextMap Text))
    → Alike m n
    → Alike (add_member k x m) (add_member k x n)
unfolding sort
add_member-Alike k none m n h = tt
add_member-Alike k (some x) none none h = tt
add_member-Alike k (some x) none (some n) h = absurd h
add_member-Alike k (some x) (some m) none h = absurd h
add_member-Alike k (some x) (some m) (some n) h = ap (insert k x) h

swap-Alike :
    (k l : Text) (x y : Option Text) (m : Option (TextMap Text))
    → k ≢ l
    → Alike (add_member k x (add_member l y m)) (add_member l y (add_member k x m))
unfolding sort
swap-Alike k l none none m n = tt
swap-Alike k l none (some y) m n = tt
swap-Alike k l (some x) none m n = tt
swap-Alike k l (some x) (some y) none n = tt
swap-Alike k l (some x) (some y) (some m) n = insert_comm k l x y (sort m) n

write_object : Option (TextMap Text) → Option Text
write_object none = none
write_object (some m) = some (braces (commas (members (sort m))))

write_object-Alike : (m n : Option (TextMap Text)) → Alike m n → write_object m ≡ write_object n
unfolding write_object
write_object-Alike none none h = refl
write_object-Alike none (some n) h = absurd h
write_object-Alike (some m) none h = absurd h
write_object-Alike (some m) (some n) h = ap (λ s. some (braces (commas (members s)))) h

write-object : (fs : Fields) → write (object fs) ≡ write_object (write_fields fs)
unfolding write write_object
write-object fs = elim (write_fields fs) [ none ↦ refl | some m ↦ refl ]

mutual
  unfolding write

  write_same : {v w : Value} → SameValue v w → write v ≡ write w
  write_same same = refl
  write_same (same_array s) =
      λ i. elim (write_items_same s i) [ none ↦ none | some l ↦ some (brackets (commas l)) ]
  write_same (same_object {fs} {gs} s) =
      write-object fs
      ∙ write_object-Alike (write_fields fs) (write_fields gs) (write_fields_same s)
      ∙ sym (write-object gs)

  write_items_same : {vs ws : Items} → SameItems vs ws → write_items vs ≡ write_items ws
  write_items_same no_items = refl
  write_items_same (same_item s t) = λ i. elim (write_same s i) [
    | none ↦ none
    | some x ↦ elim (write_items_same t i) [ none ↦ none | some l ↦ some (x ∷ l) ]
  ]

  write_fields_same :
      {fs gs : Fields} → SameFields fs gs → Alike (write_fields fs) (write_fields gs)
  write_fields_same no_fields = refl
  write_fields_same (same_field {k} {v} {w} {fs} {gs} s t) =
      subst (λ x. Alike (write_fields (field k v fs)) (add_member k x (write_fields gs)))
        (write_same s)
        (add_member-Alike k (write v) (write_fields fs) (write_fields gs) (write_fields_same t))
  write_fields_same (swap_fields {k} {l} {v} {w} {fs} n) =
      swap-Alike k l (write v) (write w) (write_fields fs) n
  write_fields_same (then_same {fs} {gs} {hs} s t) =
      Alike-trans (write_fields fs) (write_fields gs) (write_fields hs) (write_fields_same s)
        (write_fields_same t)

pub canon_same : {v w : Value} → SameValue v w → canon v ≡ canon w
unfolding canon
canon_same s = write_same s
