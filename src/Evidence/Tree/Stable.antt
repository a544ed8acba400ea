-- ===== src/Evidence/Tree/Stable.antt =====
-- tree.go: a subtree's hash reads only the salts at its own path and below.
use compliance_gateway.Common.{ℕ, ◌+◌, ◌≡◌, ◌≢◌, refl, true, false, none, some, List, [], ◌∷◌, ◌++◌}
use compliance_gateway.Text.{Text, TextMap, dot, itoa, lookup}
use compliance_gateway.Text.Laws.{under, under_trans, under_refl}
use compliance_gateway.Evidence.Value.{
  Value, null, boolean, number, int, text, array, strings, object, unsupported, Items, nil, cons,
  Fields, end, field, withheld, is_end, is_nil,
}
use compliance_gateway.Evidence.Tree.{
  join, leaf, hash_fields, hash_items, node, node_fields, node_items,
}

-- Two salt maps agree at `p` and at every path below it.
abbrev pub AgreeUnder : Text → TextMap Text → TextMap Text → Type 0
AgreeUnder p s t = (j : Text) → under p j ≡ true → lookup j s ≡ lookup j t

AgreeUnder-join :
    (c : ℕ) (p k : Text) (s t : TextMap Text)
    → AgreeUnder (c ∷ p) s t
    → AgreeUnder (join (c ∷ p) k) s t
AgreeUnder-join c p k s t a j u = a j (under_trans (c ∷ p) k j u)

module _ (sha : List ℕ → Text) where
  pub leaf-agree :
      (v : Value) (s t : TextMap Text) (p : Text)
      → AgreeUnder p s t
      → leaf sha v s p ≡ leaf sha v t p
  unfolding leaf
  leaf-agree v s t p a = rw (a p (under_refl p), leaf)

  mutual
    unfolding node

    node-agree :
        (v : Value) (s t : TextMap Text) (c : ℕ) (p : Text)
        → AgreeUnder (c ∷ p) s t
        → node sha v s (c ∷ p) ≡ node sha v t (c ∷ p)
    node-agree (object fs) s t c p a = λ i. elim (withheld fs) [
      | some w ↦ some w
      | none ↦ elim (is_end fs) [
        | true ↦ leaf-agree (object fs) s t (c ∷ p) a i
        | false ↦ hash_fields sha (node_fields-agree fs s t c p a i)
      ]
    ]
    node-agree (array vs) s t c p a = λ i. elim (is_nil vs) [
      | true ↦ leaf-agree (array vs) s t (c ∷ p) a i
      | false ↦ hash_items sha (node_items-agree vs 0 s t c p a i)
    ]
    node-agree null s t c p a = leaf-agree null s t (c ∷ p) a
    node-agree (boolean b) s t c p a = leaf-agree (boolean b) s t (c ∷ p) a
    node-agree (number x) s t c p a = leaf-agree (number x) s t (c ∷ p) a
    node-agree (int n) s t c p a = leaf-agree (int n) s t (c ∷ p) a
    node-agree (text x) s t c p a = leaf-agree (text x) s t (c ∷ p) a
    node-agree (strings l) s t c p a = leaf-agree (strings l) s t (c ∷ p) a
    node-agree unsupported s t c p a = leaf-agree unsupported s t (c ∷ p) a

    node_fields-agree :
        (fs : Fields) (s t : TextMap Text) (c : ℕ) (p : Text)
        → AgreeUnder (c ∷ p) s t
        → node_fields sha fs s (c ∷ p) ≡ node_fields sha fs t (c ∷ p)
    node_fields-agree end s t c p a = refl
    node_fields-agree (field k v fs) s t c p a = rw (
      node-agree v s t c (p ++ dot ∷ k) (AgreeUnder-join c p k s t a),
      node_fields-agree fs s t c p a,
    )

    node_items-agree :
        (vs : Items) (i : ℕ) (s t : TextMap Text) (c : ℕ) (p : Text)
        → AgreeUnder (c ∷ p) s t
        → node_items sha vs i s (c ∷ p) ≡ node_items sha vs i t (c ∷ p)
    node_items-agree nil i s t c p a = refl
    node_items-agree (cons v vs) i s t c p a = rw (
      node-agree v s t c (p ++ dot ∷ itoa i) (AgreeUnder-join c p (itoa i) s t a),
      node_items-agree vs (i + 1) s t c p a,
    )

  -- The hash of a subtree at a path that is not empty depends only on the salts at the path and below
  -- it.
  pub node_stable :
      (v : Value) (s t : TextMap Text) (p : Text)
      → p ≢ []
      → AgreeUnder p s t
      → node sha v s p ≡ node sha v t p
  node_stable v s t [] n a = absurd (n refl)
  node_stable v s t (c ∷ p) n a = node-agree v s t c p a
