-- ===== src/Evidence/Projection/Maps.antt =====
-- projection.go: maps with plain keys, and what a change at one key leaves as it was.
use compliance_gateway.Common.{
  ◌≡◌, ◌≢◌, refl, ap, sym, ◌∙◌, inl, inr, false, Option, none, some, List, [], ◌∷◌, arith,
  Bool-cases, subst, ◌⊎◌, All,
}
use compliance_gateway.Text.{Text, codes, text_eq}
use compliance_gateway.Text.Laws.{text_eq_iff, text_eq_eq}
use compliance_gateway.Text.Paths.{IsPlain}
use compliance_gateway.Evidence.Value.{
  Value, null, boolean, number, int, text, array, strings, object, unsupported, Fields, end, field,
  get, set, withheld, is_end,
}
use compliance_gateway.Evidence.Projection.{get_at, set_at, change, in_object}
use compliance_gateway.Evidence.Projection.Branches.{Lacks, PlainKeys}

-- The inputs of the recommendation, whose keys have dots. No profile's path leads there.
abbrev pub inputs_key : Text
inputs_key = codes "inputs"

-- A segment of a path of a profile.
abbrev pub IsSegment : Text → Type 0
IsSegment k = IsPlain k × (k ≢ codes "$withheld") × (k ≢ inputs_key)

-- The keys of a map, and of every map inside its maps, are plain and pairwise different; but nothing
-- is asked of what stands at the inputs.
unfoldable mutual
  pub PlainTree : Fields → Type 0
  PlainTree end = Unit
  PlainTree (field k v fs) =
      IsPlain k × Lacks k fs × ((k ≡ inputs_key) ⊎ PlainInside v) × PlainTree fs

  pub PlainInside : Value → Type 0
  PlainInside (object fs) = PlainTree fs
  PlainInside _ = Unit

pub plain_keys : (fs : Fields) → PlainTree fs → PlainKeys fs
unfolding PlainTree
plain_keys end w = tt
plain_keys (field k v fs) w = (w.0, plain_keys fs w.3)

pub some_eq : (u v : Value) → some u ≡ some v → u ≡ v
some_eq u v e = cc

pub plain_get :
    (k : Text) (fs : Fields) (v : Value)
    → k ≢ inputs_key
    → PlainTree fs
    → get k fs ≡ some v
    → PlainInside v
unfolding PlainTree get
plain_get k end v n w e = cc
plain_get k (field j u fs) v n w e = elim (Bool-cases (text_eq j k)) [
  | inl y ↦
      subst PlainInside (some_eq u v (ground arith))
        (elim w.2 [ inl same ↦ absurd (n (sym (text_eq_eq j k y) ∙ same)) | inr t ↦ t ])
  | inr z ↦ plain_get k fs v n w.3 (ground arith)
]

pub set-change :
    (k : Text) (v : Value) (fs : Fields) (w : Value)
    → get k fs ≡ some w
    → set k v fs ≡ change k (λ _. v) fs
unfolding get set change
set-change k v end w e = cc
set-change k v (field j u fs) w e = elim (Bool-cases (text_eq j k)) [
  | inl y ↦ rw y
  | inr n ↦ rw n (ap (field j u) (set-change k v fs w (ground arith)))
]

pub get-change :
    (k : Text) (f : Value → Value) (fs : Fields) (w : Value)
    → get k fs ≡ some w
    → get k (change k f fs) ≡ some (f w)
unfolding get change
get-change k f end w e = cc
get-change k f (field j u fs) w e = elim (Bool-cases (text_eq j k)) [
  | inl y ↦ ground arith
  | inr n ↦ ground (arith, get-change k f fs w)
]

-- A map with an ordinary key is neither withheld nor empty.
pub ordinary :
    (k : Text) (fs : Fields) (w : Value)
    → k ≢ codes "$withheld"
    → get k fs ≡ some w
    → (withheld fs ≡ none) × (is_end fs ≡ false)
unfolding get withheld
ordinary k end w n e = cc
ordinary k (field j v end) w n e =
    ground (arith, text_eq_iff j k, text_eq_iff j (codes "$withheld"))
ordinary k (field j v (field l u fs)) w n e = (refl, refl)

inner :
    (l : Text) (ks : List Text) (o : Option Value) (v : Value)
    → elim o as (λ _. Option Value) [ some (object gs) ↦ get_at (l ∷ ks) gs | _ ↦ none ] ≡ some v
    → (gs : Fields) × (o ≡ some (object gs)) × (get_at (l ∷ ks) gs ≡ some v)
inner l ks (some (object gs)) v e = (gs, refl, e)
inner l ks none v e = cc
inner l ks (some null) v e = cc
inner l ks (some (boolean b)) v e = cc
inner l ks (some (number x)) v e = cc
inner l ks (some (int n)) v e = cc
inner l ks (some (text x)) v e = cc
inner l ks (some (array x)) v e = cc
inner l ks (some (strings x)) v e = cc
inner l ks (some unsupported) v e = cc

-- Below the first segment of a longer path stands a map.
pub get_at-inner :
    (k l : Text) (ks : List Text) (fs : Fields) (v : Value)
    → get_at (k ∷ l ∷ ks) fs ≡ some v
    → (gs : Fields) × (get k fs ≡ some (object gs)) × (get_at (l ∷ ks) gs ≡ some v)
unfolding get_at
get_at-inner k l ks fs v e = inner l ks (get k fs) v e

-- The first segment of a path that is found is a key, and stays one.
pub get_at-head :
    (k : Text) (ks : List Text) (fs : Fields) (v : Value)
    → get_at (k ∷ ks) fs ≡ some v
    → (w : Value) × (get k fs ≡ some w)
unfolding get_at
get_at-head k [] fs v e = (v, e)
get_at-head k (l ∷ ks) fs v e = let (gs, g, _) = get_at-inner k l ks fs v e in (object gs, g)

pub get-set_at :
    (k : Text) (ks : List Text) (u : Value) (fs : Fields) (w : Value)
    → get k fs ≡ some w
    → (x : Value) × (get k (set_at (k ∷ ks) u fs) ≡ some x)
unfolding set_at
get-set_at k [] u fs w g = (u, rw (set-change k u fs w g) (get-change k (λ _. u) fs w g))
get-set_at k (l ∷ ks) u fs w g =
    (in_object (set_at (l ∷ ks) u) w, get-change k (in_object (set_at (l ∷ ks) u)) fs w g)

change-Lacks : (l k : Text) (f : Value → Value) (fs : Fields) → Lacks l fs → Lacks l (change k f fs)
unfolding change
change-Lacks l k f end h = tt
change-Lacks l k f (field j u fs) h = elim (Bool-cases (text_eq j k)) [
  | inl y ↦ rw y h
  | inr n ↦ rw n (h.0, change-Lacks l k f fs h.1)
]

change-PlainTree :
    (k : Text) (f : Value → Value) (fs : Fields)
    → PlainTree fs
    → ((w : Value) → get k fs ≡ some w → PlainInside (f w))
    → PlainTree (change k f fs)
unfolding change PlainTree get
change-PlainTree k f end t h = tt
change-PlainTree k f (field j u fs) t h = elim (Bool-cases (text_eq j k)) [
  | inl y ↦ rw y (t.0, t.1, inr (h u (rw y)), t.3)
  | inr n ↦
      rw n (t.0, change-Lacks j k f fs t.1, t.2, change-PlainTree k f fs t.3 (λ w g. h w (rw n g)))
]

pub set_at-PlainTree :
    (k : Text) (ks : List Text) (u : Value) (fs : Fields) (v : Value)
    → All IsSegment (k ∷ ks)
    → PlainTree fs
    → PlainInside u
    → get_at (k ∷ ks) fs ≡ some v
    → PlainTree (set_at (k ∷ ks) u fs)
unfolding get_at set_at PlainTree
set_at-PlainTree k [] u fs v a t pu g =
    rw (set-change k u fs v g) (change-PlainTree k (λ _. u) fs t (λ _ _. pu))
set_at-PlainTree k (l ∷ ks) u fs v a t pu g =
    let (gs, gk, gl) = get_at-inner k l ks fs v g in
    change-PlainTree k (in_object (set_at (l ∷ ks) u)) fs t (λ w gw.
      subst (λ x. PlainInside (in_object (set_at (l ∷ ks) u) x))
        (some_eq (object gs) w (sym gk ∙ gw))
        (set_at-PlainTree l ks u gs v a.1 (plain_get k fs (object gs) a.0.2 t gk) pu gl))

through :
    (l : Text) (ks : List Text) {o : Option Value} {gs : Fields} {u : Option Value}
    → o ≡ some (object gs)
    → get_at (l ∷ ks) gs ≡ u
    → elim o as (λ _. Option Value) [ some (object hs) ↦ get_at (l ∷ ks) hs | _ ↦ none ] ≡ u
through l ks e h = rw e h

-- What is written at a path that was found is found there.
pub get_at-set_at :
    (k : Text) (ks : List Text) (u : Value) (fs : Fields) (v : Value)
    → get_at (k ∷ ks) fs ≡ some v
    → get_at (k ∷ ks) (set_at (k ∷ ks) u fs) ≡ some u
unfolding get_at set_at
get_at-set_at k [] u fs v g = rw (set-change k u fs v g) (get-change k (λ _. u) fs v g)
get_at-set_at k (l ∷ ks) u fs v g =
    let (gs, gk, gl) = get_at-inner k l ks fs v g in
    through l ks (get-change k (in_object (set_at (l ∷ ks) u)) fs (object gs) gk)
      (get_at-set_at l ks u gs v gl)
