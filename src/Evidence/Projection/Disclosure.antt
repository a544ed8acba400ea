-- ===== src/Evidence/Projection/Disclosure.antt =====
-- projection.go: what a recipient's copy proves, and what it leaves out.
use compliance_gateway.Common.{◌⊎◌, inl, inr}
use compliance_gateway.Common.{
  ℕ, ◌≡◌, refl, ap, sym, ◌∙◌, Bool, true, not, ◌&&◌, none, some, List, [], ◌∷◌, if◌then◌else◌,
  arith, Option-cases, All, all, ok, subst, bind_ok,
}
use compliance_gateway.Text.{Text, codes, lookup, delete_if, text_eq, split}
use compliance_gateway.Text.Laws.{under, text_eq_iff, lookup-delete_if}
use compliance_gateway.Text.Paths.{no_dot, dotted, dotted-split, split_cons}
use compliance_gateway.Evidence.Value.{Value, object}
use compliance_gateway.Evidence.Tree.{node, node_hash, master_root, hash_fields}
use compliance_gateway.Evidence.Projection.{
  get_at, set_at, withheld_value, withhold, withhold_all, Copy,
}
use compliance_gateway.Evidence.Projection.Maps.{
  PlainInside, IsSegment, inputs_key, some_eq, PlainTree, ordinary, get_at-head, get-set_at,
  set_at-PlainTree, get_at-set_at,
}
use compliance_gateway.Evidence.Projection.Roots.{node_inner, set_at_root}

-- A segment that a disclosure path may have.
abbrev pub segment_ok : Text → Bool
segment_ok k =
    not (text_eq k [])
    && (no_dot k && not (text_eq k (codes "$withheld")) && not (text_eq k inputs_key))

segment_ok-IsSegment : (k : Text) → segment_ok k ≡ true → IsSegment k
segment_ok-IsSegment k h = (
  (λ e. ground (arith, text_eq_iff k []), ground arith),
  (λ e. ground (arith, text_eq_iff k (codes "$withheld"))),
  (λ e. ground (arith, text_eq_iff k inputs_key)),
)

segments-IsSegment : (ks : List Text) → all segment_ok ks ≡ true → All IsSegment ks
segments-IsSegment [] h = tt
segments-IsSegment (k ∷ ks) h =
    (segment_ok-IsSegment k (ground arith), segments-IsSegment ks (ground arith))

withheld-PlainInside : (h : Text) → PlainInside (withheld_value h)
unfolding PlainTree
withheld-PlainInside h = (((λ e. cc), refl), tt, inr tt, tt)

hidden_there :
    (c : Copy) (path : Text) (v : Value) (h : Text)
    → get_at (split path) c.content ≡ some v
    → get_at (split path) (set_at (split path) (withheld_value h) c.content)
      ≡ some (withheld_value h)
hidden_there c path v h g =
    let (k, ks, sp) = split_cons path in
    rw sp (
      get_at-set_at k ks (withheld_value h) c.content v
        (subst (λ l. get_at l c.content ≡ some v) sp g))

module _ (sha : List ℕ → Text) where
  -- A step that found its path.
  withhold_found :
      (c : Copy) (path : Text) (v : Value) (h : Text)
      → get_at (split path) c.content ≡ some v
      → node_hash sha v c.salts path ≡ some h
      → withhold sha c path
        ≡ ok (record {
          content = set_at (split path) (withheld_value h) c.content;
          salts = delete_if (under path) c.salts;
        })
  unfolding withhold
  withhold_found c path v h g n = ground arith

  found_root :
      (c : Copy) (k : Text) (ks : List Text) (v : Value) (h : Text)
      → All IsSegment (k ∷ ks)
      → PlainTree c.content
      → get_at (k ∷ ks) c.content ≡ some v
      → node sha v c.salts (dotted (k ∷ ks)) ≡ some h
      → node sha
          (object (set_at (k ∷ ks) (withheld_value h) c.content))
          (delete_if (under (dotted (k ∷ ks))) c.salts)
          []
        ≡ node sha (object c.content) c.salts []
  found_root c k ks v h a t g n =
      let (w, gw) = get_at-head k ks c.content v g in
      let (x, gx) = get-set_at k ks (withheld_value h) c.content w gw in
      let (wh, full) = ordinary k c.content w a.0.1 gw in
      let (wh', full') = ordinary k (set_at (k ∷ ks) (withheld_value h) c.content) x a.0.1 gx in
      node_inner sha (set_at (k ∷ ks) (withheld_value h) c.content) _ [] wh' full'
      ∙ (ap (hash_fields sha) (set_at_root sha ks k [] c.content v h c.salts a t g n)
          ∙ sym (node_inner sha c.content c.salts [] wh full))

  abbrev hidden : Copy → Text → Text → Copy
  hidden c path h = record {
    content = set_at (split path) (withheld_value h) c.content;
    salts = delete_if (under path) c.salts;
  }

  withhold_cases :
      (c d : Copy) (path : Text)
      → withhold sha c path ≡ ok d
      → ((get_at (split path) c.content ≡ none) × (d ≡ c))
        ⊎ ((v : Value) × (h : Text) × (get_at (split path) c.content ≡ some v)
            × (node_hash sha v c.salts path ≡ some h)
            × (d ≡ hidden c path h))
  unfolding withhold
  withhold_cases c d path e = elim (Option-cases (get_at (split path) c.content)) [
    | inl n ↦ inl (n, ground arith)
    | inr (v, g) ↦ elim (Option-cases (node_hash sha v c.salts path)) [
      | inl n ↦ absurd (ground arith)
      | inr (h, n) ↦ inr (v, h, g, n, ground arith)
    ]
  ]

  hidden_root :
      (c : Copy) (path : Text) (v : Value) (h : Text)
      → All IsSegment (split path)
      → PlainTree c.content
      → get_at (split path) c.content ≡ some v
      → node_hash sha v c.salts path ≡ some h
      → (master_root sha (hidden c path h).content (hidden c path h).salts
          ≡ master_root sha c.content c.salts)
        × PlainTree (hidden c path h).content
  unfolding master_root
  hidden_root c path v h a t g n =
      let (k, ks, sp) = split_cons path in
      let dp = ap dotted (sym sp) ∙ dotted-split path in
      let a' = subst (All IsSegment) sp a in
      let g' = subst (λ l. get_at l c.content ≡ some v) sp g in
      (
        rw sp (
            subst
              (λ q.
                node sha (object (set_at (k ∷ ks) (withheld_value h) c.content))
                  (delete_if (under q) c.salts) []
                ≡ node sha (object c.content) c.salts [])
              dp (found_root c k ks v h a' t g' (ap (node sha v c.salts) dp ∙ n))),
        rw sp
            (set_at-PlainTree k ks (withheld_value h) c.content v a' t (withheld-PlainInside h) g'),
      )

  withhold_root :
      (c d : Copy) (path : Text)
      → all segment_ok (split path) ≡ true
      → PlainTree c.content
      → withhold sha c path ≡ ok d
      → (master_root sha d.content d.salts ≡ master_root sha c.content c.salts)
        × PlainTree d.content
  withhold_root c d path a t e = elim (withhold_cases c d path e) [
    | inl (_, same) ↦ rw same (refl, t)
    | inr (v, h, g, n, is) ↦
        rw is (hidden_root c path v h (segments-IsSegment (split path) a) t g n)
  ]

  pub withhold_all_root :
      (c d : Copy) (paths : List Text)
      → all (λ q. all segment_ok (split q)) paths ≡ true
      → PlainTree c.content
      → withhold_all sha c paths ≡ ok d
      → master_root sha d.content d.salts ≡ master_root sha c.content c.salts
  unfolding withhold_all
  withhold_all_root c d [] a t e = ground arith
  withhold_all_root c d (path ∷ paths) a t e =
      let (m, e1, e2) = bind_ok (withhold sha c path) _ e in
      let (r, t') = withhold_root c m path (ground arith) t e1 in
      withhold_all_root m d paths (ground arith) t' e2 ∙ r

  -- When a step succeeds at a path that the data has, the subtree is gone from the copy: at its path
  -- stands its hash, and no salt at the path or below it is left; the salts elsewhere are as they were.
  pub withhold_hides :
      (c d : Copy) (path : Text) (v : Value)
      → get_at (split path) c.content ≡ some v
      → withhold sha c path ≡ ok d
      → (h : Text) × (node_hash sha v c.salts path ≡ some h)
        × (get_at (split path) d.content ≡ some (withheld_value h))
        × ((j : Text) → lookup j d.salts ≡ (if under path j then none else lookup j c.salts))
  withhold_hides c d path v g e = elim (withhold_cases c d path e) [
    | inl (n, _) ↦ absurd (ground arith)
    | inr (w, h, gw, n, is) ↦ (
      h,
      ap (λ u. node_hash sha u c.salts path) (some_eq v w (sym g ∙ gw)) ∙ n,
      rw is (hidden_there c path w h gw),
      λ j. rw is (lookup-delete_if (under path) j c.salts),
    )
  ]
