-- ===== src/Evidence/Projection/Branches.antt =====
-- projection.go: withholding a path leaves alone every branch of the tree that is not on it.
use compliance_gateway.Common.{ℕ, ◌≡◌, ◌≢◌, refl, ap, sym, true, List, [], ◌∷◌, arith}
use mathlib.Core.List.{append_assoc}
use compliance_gateway.Text.{Text, TextMap, dot, delete_if}
use compliance_gateway.Text.Laws.{under, IsApart, lookup-delete_if}
use compliance_gateway.Text.Paths.{
  no_dot, IsPlain, dotted, under-apart, plain-IsApart, plain-IsApart_below, IsApart-append,
}
use compliance_gateway.Evidence.Value.{Value, Fields, end, field}
use compliance_gateway.Evidence.Tree.{join, node, node_fields}
use compliance_gateway.Evidence.Tree.Stable.{AgreeUnder, node_stable}

-- Deleting what is under `q` changes no salt under a path that is apart from `q`.
delete-agree :
    (q p : Text) (s : TextMap Text) → IsApart q p → AgreeUnder p s (delete_if (under q) s)
delete-agree q p s a j u = ground (arith, lookup-delete_if (under q) j s, under-apart q p j)

-- The path of a segment list below `p`.
abbrev pub below : Text → List Text → Text
below p ks = join p (dotted ks)

-- A sibling of the first segment branches off from the path.
sibling-IsApart :
    (p k l : Text) (ks : List Text)
    → k ≢ l
    → no_dot k ≡ true
    → no_dot l ≡ true
    → IsApart (below p (k ∷ ks)) (join p l)
sibling-IsApart [] k l [] n a b = plain-IsApart k l n a b
sibling-IsApart [] k l (m ∷ ks) n a b = plain-IsApart_below k l (dotted (m ∷ ks)) n a b
sibling-IsApart (c ∷ p) k l [] n a b =
    IsApart-append (c ∷ p) (dot ∷ k) (dot ∷ l)
      (IsApart-append (dot ∷ []) k l (plain-IsApart k l n a b))
sibling-IsApart (c ∷ p) k l (m ∷ ks) n a b =
    IsApart-append (c ∷ p) (dot ∷ dotted (k ∷ m ∷ ks)) (dot ∷ l) (
      IsApart-append (dot ∷ []) (dotted (k ∷ m ∷ ks)) l
        (plain-IsApart_below k l (dotted (m ∷ ks)) n a b))

join-ne : (p k : Text) → k ≢ [] → join p k ≢ []
join-ne [] k n = n
join-ne (c ∷ p) k n = λ e. cc

-- One segment further down, the rest of the path is the same path.
pub below-cons :
    (p k l : Text) (ks : List Text) → k ≢ [] → below (join p k) (l ∷ ks) ≡ below p (k ∷ l ∷ ks)
below-cons [] [] l ks n = absurd (n refl)
below-cons [] (c ∷ k) l ks n = refl
below-cons (d ∷ p) k l ks n =
    ap (λ (x : Text). d ∷ x) (append_assoc p (dot ∷ k) (dot ∷ dotted (l ∷ ks)))

-- No field of the map has this key.
abbrev pub Lacks : Text → Fields → Type 0
Lacks k end = Unit
Lacks k (field l v fs) = (k ≢ l) × Lacks k fs

abbrev pub PlainKeys : Fields → Type 0
PlainKeys end = Unit
PlainKeys (field l v fs) = IsPlain l × PlainKeys fs

module _ (sha : List ℕ → Text) where
  -- The hashes of the fields with other keys than the path's stay.
  pub sibling_node :
      (p k l : Text) (ks : List Text) (v : Value) (s : TextMap Text)
      → k ≢ l
      → no_dot k ≡ true
      → IsPlain l
      → node sha v (delete_if (under (below p (k ∷ ks))) s) (join p l) ≡ node sha v s (join p l)
  sibling_node p k l ks v s n a b = sym (
      node_stable sha v s _ (join p l) (join-ne p l b.0)
        (delete-agree _ _ s (sibling-IsApart p k l ks n a b.1)))

  pub siblings :
      (p k : Text) (ks : List Text) (fs : Fields) (s : TextMap Text)
      → no_dot k ≡ true
      → Lacks k fs
      → PlainKeys fs
      → node_fields sha fs (delete_if (under (below p (k ∷ ks))) s) p ≡ node_fields sha fs s p
  unfolding node
  siblings p k ks end s a h w = refl
  siblings p k ks (field l v fs) s a h w =
      rw (sibling_node p k l ks v s h.0 a w.0, siblings p k ks fs s a h.1 w.1)
