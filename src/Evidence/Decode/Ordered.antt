-- ===== src/Evidence/Decode/Ordered.antt =====
-- canon.go: maps whose fields stand in the order of their keys.
use compliance_gateway.Common.{
  ◌≡◌, ◌≢◌, refl, ap, sym, ◌∙◌, inl, inr, true, Option, none, some, ◌∷◌, Bool-cases, subst,
}
use compliance_gateway.Text.{text_eq, Text, TextMap, text_le}
use compliance_gateway.Text.Laws.{text_eq_eq}
use compliance_gateway.Evidence.Value.{Value, Fields, end, field, set}
use compliance_gateway.Evidence.Canon.{write, write_fields, sort, insert, add_member}
use compliance_gateway.Evidence.Builder.{set_all}
use compliance_gateway.Evidence.Projection.Branches.{Lacks}

-- Later keys are greater.
abbrev pub Precedes : Text → Fields → Type 0
Precedes k end = Unit
Precedes k (field j v fs) = (text_le k j ≡ true) × (k ≢ j) × Precedes k fs

-- The fields stand in the order of their keys, which are different.
abbrev pub InOrder : Fields → Type 0
InOrder end = Unit
InOrder (field k v fs) = Precedes k fs × InOrder fs

-- Writing in order.
pub added_some :
    (k : Text) (o : Option Text) (m : Option (TextMap Text)) {r : TextMap Text}
    → add_member k o m ≡ some r
    → (x : Text) × (n : TextMap Text) × (o ≡ some x) × (m ≡ some n) × ((k, x) ∷ n ≡ r)
added_some k none m h = cc
added_some k (some x) none h = cc
added_some k (some x) (some n) h = (x, n, refl, refl, cc)

pub some_map : {a b : TextMap Text} → some a ≡ some b → a ≡ b
some_map e = cc

insert_first :
    (k x : Text) (fs : Fields) (m : TextMap Text)
    → Precedes k fs
    → write_fields fs ≡ some m
    → insert k x m ≡ (k, x) ∷ m
unfolding insert write
insert_first k x end m p h = subst (λ n. insert k x n ≡ (k, x) ∷ n) (some_map h) refl
insert_first k x (field j v fs) m p h =
    let (y, n, _, _, e) = added_some j (write v) (write_fields fs) h in
    subst (λ n. insert k x n ≡ (k, x) ∷ n) e (rw p.0 refl)

pub sort-InOrder :
    (fs : Fields) (m : TextMap Text) → InOrder fs → write_fields fs ≡ some m → sort m ≡ m
unfolding sort write
sort-InOrder end m r h = subst (λ n. sort n ≡ n) (some_map h) refl
sort-InOrder (field k v fs) m r h =
    let (x, n, _, f, e) = added_some k (write v) (write_fields fs) h in
    subst (λ q. sort q ≡ q) e
      (ap (insert k x) (sort-InOrder fs n r.1 f) ∙ insert_first k x fs n r.0 f)

-- Setting in order.
append_fields : Fields → Fields → Fields
append_fields end hs = hs
append_fields (field k v fs) hs = field k v (append_fields fs hs)

append_end : (fs : Fields) → append_fields fs end ≡ fs
unfolding append_fields
append_end end = refl
append_end (field k v fs) = ap (field k v) (append_end fs)

append_once :
    (fs : Fields) (k : Text) (v : Value) (hs : Fields)
    → append_fields (append_fields fs (field k v end)) hs ≡ append_fields fs (field k v hs)
unfolding append_fields
append_once end k v hs = refl
append_once (field j w fs) k v hs = ap (field j w) (append_once fs k v hs)

set_new :
    (k : Text) (v : Value) (fs : Fields)
    → Lacks k fs
    → set k v fs ≡ append_fields fs (field k v end)
unfolding set append_fields
set_new k v end l = refl
set_new k v (field j w fs) (n, l) = elim (Bool-cases (text_eq j k)) [
  | inl y ↦ absurd (n (sym (text_eq_eq j k y)))
  | inr z ↦ rw z (ap (field j w) (set_new k v fs l))
]

Lacks-append :
    (j : Text) (fs : Fields) (k : Text) (v : Value)
    → Lacks j fs
    → j ≢ k
    → Lacks j (append_fields fs (field k v end))
unfolding append_fields
Lacks-append j end k v l n = (n, tt)
Lacks-append j (field i w fs) k v (m, l) n = (m, Lacks-append j fs k v l n)

-- None of the fields is in the map yet.
AllNew : Fields → Fields → Type 0
AllNew end gs = Unit
AllNew (field k v fs) gs = Lacks k gs × AllNew fs gs

AllNew-append :
    (fs gs : Fields) (k : Text) (v : Value)
    → Precedes k fs
    → AllNew fs gs
    → AllNew fs (append_fields gs (field k v end))
unfolding AllNew
AllNew-append end gs k v p a = tt
AllNew-append (field j w fs) gs k v p a =
    (Lacks-append j gs k v a.0 (λ e. p.1 (sym e)), AllNew-append fs gs k v p.2 a.1)

AllNew-end : (fs : Fields) → AllNew fs end
unfolding AllNew
AllNew-end end = tt
AllNew-end (field k v fs) = (tt, AllNew-end fs)

set_all-append : (fs gs : Fields) → InOrder fs → AllNew fs gs → set_all fs gs ≡ append_fields gs fs
unfolding set_all AllNew
set_all-append end gs r a = sym (append_end gs)
set_all-append (field k v fs) gs r a =
    ap (set_all fs) (set_new k v gs a.0)
    ∙ set_all-append fs (append_fields gs (field k v end)) r.1 (AllNew-append fs gs k v r.0 a.1)
    ∙ append_once gs k v fs

-- Setting the fields of such a map one after another gives the map.
pub set_all-InOrder : (fs : Fields) → InOrder fs → set_all fs end ≡ fs
unfolding append_fields
set_all-InOrder fs r = set_all-append fs end r (AllNew-end fs)
