-- ===== src/Evidence/Projection/Roots.antt =====
-- projection.go: a copy with withheld subtrees reproduces the master root of its pack.
use compliance_gateway.Common.{
  ℕ, ◌≡◌, ap, sym, ◌∙◌, inl, inr, true, false, none, some, List, [], ◌∷◌, arith, Bool-cases, All,
  subst,
}
use compliance_gateway.Text.{Text, TextMap, delete_if, text_eq}
use compliance_gateway.Text.Laws.{under, text_eq_eq, text_eq_iff}
use compliance_gateway.Text.Paths.{no_dot}
use compliance_gateway.Evidence.Value.{Value, object, Fields, end, field, get, withheld, is_end}
use compliance_gateway.Evidence.Tree.{join, node, node_fields, hash_fields}
use compliance_gateway.Evidence.Projection.{get_at, set_at, change, in_object, withheld_value}
use compliance_gateway.Evidence.Projection.Branches.{
  below, below-cons, siblings, sibling_node, Lacks,
}
use compliance_gateway.Evidence.Tree.{leaf, add_field}
use compliance_gateway.Evidence.Projection.Maps.{
  PlainTree, IsSegment, some_eq, plain_keys, plain_get, set-change, ordinary, get_at-inner,
  get_at-head, get-set_at,
}

module _ (sha : List ℕ → Text) where
  -- The hash of such a map is that of its fields' hashes.
  pub node_inner :
      (fs : Fields) (s : TextMap Text) (p : Text)
      → withheld fs ≡ none
      → is_end fs ≡ false
      → node sha (object fs) s p ≡ hash_fields sha (node_fields sha fs s p)
  unfolding node
  node_inner fs s p a b =
      (λ i. elim (a i) [
        | some w ↦ some w
        | none ↦ elim (is_end fs) [
          | true ↦ leaf sha (object fs) s p
          | false ↦ hash_fields sha (node_fields sha fs s p)
        ]
      ])
      ∙ (λ i. elim (b i) [
        | true ↦ leaf sha (object fs) s p
        | false ↦ hash_fields sha (node_fields sha fs s p)
      ])

  fields_cong :
      (j : Text) (u v : Value) (fs gs : Fields) (s t : TextMap Text) (p : Text)
      → node sha u s (join p j) ≡ node sha v t (join p j)
      → node_fields sha fs s p ≡ node_fields sha gs t p
      → node_fields sha (field j u fs) s p ≡ node_fields sha (field j v gs) t p
  unfolding node
  fields_cong j u v fs gs s t p a b = λ i. add_field sha j (a i) (b i)

  -- A change at one key that keeps that key's hash keeps the hashes of the map, when the salts
  -- under a path through the key are dropped.
  change_root :
      (p k : Text) (ks : List Text) (f : Value → Value) (fs : Fields) (w : Value) (s : TextMap Text)
      → PlainTree fs
      → no_dot k ≡ true
      → get k fs ≡ some w
      → node sha (f w) (delete_if (under (below p (k ∷ ks))) s) (join p k) ≡ node sha w s (join p k)
      → node_fields sha (change k f fs) (delete_if (under (below p (k ∷ ks))) s) p
        ≡ node_fields sha fs s p
  unfolding get change PlainTree
  change_root p k ks f end w s t d g e = cc
  change_root p k ks f (field j u fs) w s t d g e =
      let r = delete_if (under (below p (k ∷ ks))) s in
      elim (Bool-cases (text_eq j k)) [
        | inl y ↦
            let je = text_eq_eq j k y in
            let ue = some_eq u w (ground (arith, g, y)) in
            rw y (
              fields_cong j (f u) u fs fs r s p
                ((λ i. node sha (f (ue i)) r (join p (je i)))
                  ∙ (e ∙ sym (λ i. node sha (ue i) s (join p (je i)))))
                (siblings sha p k ks fs s d (subst (λ x. Lacks x fs) je t.1) (plain_keys fs t.3)))
        | inr n ↦ rw n (
            fields_cong j u u (change k f fs) fs r s p
              (sibling_node sha p k j ks u s (λ x. ground (arith, n, text_eq_iff j k, sym x)) d t.0)
              (change_root p k ks f fs w s t.3 d (ground arith) e))
      ]

  -- Withholding a path keeps the hashes of the fields above it.
  pub set_at_root :
      (ks : List Text) (k p : Text) (fs : Fields) (v : Value) (h : Text) (s : TextMap Text)
      → All IsSegment (k ∷ ks)
      → PlainTree fs
      → get_at (k ∷ ks) fs ≡ some v
      → node sha v s (below p (k ∷ ks)) ≡ some h
      → node_fields sha
          (set_at (k ∷ ks) (withheld_value h) fs)
          (delete_if (under (below p (k ∷ ks))) s)
          p
        ≡ node_fields sha fs s p
  unfolding get_at set_at PlainTree
  set_at_root [] k p fs v h s a t g e = rw (set-change k (withheld_value h) fs v g) (
      change_root p k [] (λ _. withheld_value h) fs v s t a.0.0.1 g
        (unfold node withheld text_eq in sym e))
  set_at_root (l ∷ ks) k p fs v h s a t g e =
      let (gs, gk, gl) = get_at-inner k l ks fs v g in
      let (w, gw) = get_at-head l ks gs v gl in
      let (x, gx) = get-set_at l ks (withheld_value h) gs w gw in
      let same = below-cons p k l ks a.0.0.0 in
      let (wh, full) = ordinary l gs w a.1.0.1 gw in
      let (wh', full') = ordinary l (set_at (l ∷ ks) (withheld_value h) gs) x a.1.0.1 gx in
      let ih =
        set_at_root ks l (join p k) gs v h s a.1 (plain_get k fs (object gs) a.0.2 t gk) gl
          (ap (node sha v s) same ∙ e) in
      change_root p k (l ∷ ks) (in_object (set_at (l ∷ ks) (withheld_value h))) fs (object gs) s t
        a.0.0.1 gk
        (node_inner (set_at (l ∷ ks) (withheld_value h) gs) _ (join p k) wh' full'
          ∙ (ap (hash_fields sha) (
                subst
                  (λ q.
                    node_fields sha (set_at (l ∷ ks) (withheld_value h) gs) (delete_if (under q) s)
                      (join p k)
                    ≡ node_fields sha gs s (join p k))
                  same ih)
              ∙ sym (node_inner gs s (join p k) wh full)))
