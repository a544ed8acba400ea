-- ===== src/Evidence/Tree.antt =====
-- tree.go: the salted hash tree over a pack's data. A panic, which `safe` turns into an error, is
-- `none`. SHA-256 (`sha`, lowercase hex) and the random source (`fresh`, the hex of the n-th 32
-- random bytes) are parameters.
pub mod Stable
pub mod Unordered
use compliance_gateway.Common.{
  ℕ, suc, ◌+◌, Bool, true, false, Option, none, some, List, [], ◌∷◌, ◌++◌, if◌then◌else◌,
}
use compliance_gateway.Text.{Text, TextMap, codes, dot, itoa, hex_decode, lookup, put}
use compliance_gateway.Evidence.Value.{
  Value, null, boolean, number, int, text, array, strings, object, unsupported, Items, nil, cons,
  Fields, end, field, get, withheld, is_end, is_nil,
}
use compliance_gateway.Evidence.Canon.{canon}

-- `EvidenceKeys`
abbrev pub evidence_keys : List Text
evidence_keys =
    codes "pack_id"
    ∷ codes "payment_ref"
    ∷ codes "onchain"
    ∷ codes "travel_rule"
    ∷ codes "wallet_ownership"
    ∷ codes "kyt"
    ∷ codes "sanctions"
    ∷ codes "structuring"
    ∷ codes "issuer"
    ∷ codes "rules"
    ∷ []

abbrev pub join : Text → Text → Text
join [] k = k
join (c ∷ path) k = (c ∷ path) ++ dot ∷ k

module _ (sha : List ℕ → Text) where
  -- sha256(salt || canonical bytes)
  unfoldable pub leaf : Value → TextMap Text → Text → Option Text
  leaf v salts path = elim (lookup path salts) [
    | none ↦ none
    | some s ↦ elim (hex_decode s) [
      | none ↦ none
      | some salt ↦ elim (canon v) [ none ↦ none | some b ↦ some (sha (salt ++ b)) ]
    ]
  ]

  -- SHA of the canonical map or list of the children's hashes.
  unfoldable pub hash_fields : Option Fields → Option Text
  hash_fields none = none
  hash_fields (some fs) = elim (canon (object fs)) [ none ↦ none | some b ↦ some (sha b) ]

  unfoldable pub hash_items : Option Items → Option Text
  hash_items none = none
  hash_items (some l) = elim (canon (array l)) [ none ↦ none | some b ↦ some (sha b) ]

  abbrev pub add_field : Text → Option Text → Option Fields → Option Fields
  add_field k none m = none
  add_field k (some h) none = none
  add_field k (some h) (some m) = some (field k (text h) m)

  abbrev pub add_item : Option Text → Option Items → Option Items
  add_item none l = none
  add_item (some h) none = none
  add_item (some h) (some l) = some (cons (text h) l)

  unfoldable mutual
    pub node : Value → TextMap Text → Text → Option Text
    node (object fs) salts path = elim (withheld fs) [
      | some w ↦ some w
      | none ↦ elim (is_end fs) [
        | true ↦ leaf (object fs) salts path
        | false ↦ hash_fields (node_fields fs salts path)
      ]
    ]
    node (array vs) salts path = elim (is_nil vs) [
      | true ↦ leaf (array vs) salts path
      | false ↦ hash_items (node_items vs 0 salts path)
    ]
    node null salts path = leaf null salts path
    node (boolean b) salts path = leaf (boolean b) salts path
    node (number x) salts path = leaf (number x) salts path
    node (int n) salts path = leaf (int n) salts path
    node (text s) salts path = leaf (text s) salts path
    node (strings l) salts path = leaf (strings l) salts path
    node unsupported salts path = leaf unsupported salts path

    pub node_fields : Fields → TextMap Text → Text → Option Fields
    node_fields end salts path = some end
    node_fields (field k v fs) salts path =
        add_field k (node v salts (join path k)) (node_fields fs salts path)

    pub node_items : Items → ℕ → TextMap Text → Text → Option Items
    node_items nil i salts path = some nil
    node_items (cons v vs) i salts path =
        add_item (node v salts (join path (itoa i))) (node_items vs (i + 1) salts path)

  -- `NodeHash`
  unfoldable pub node_hash : Value → TextMap Text → Text → Option Text
  unfolding node
  node_hash v salts path = node v salts path

  -- `MasterRoot`
  unfoldable pub master_root : Fields → TextMap Text → Option Text
  unfolding node_hash
  master_root data_ salts = node_hash (object data_) salts []

  -- The node hashes of the keys; a key that the data lacks is hashed as null.
  unfoldable pub key_hashes : List Text → Fields → TextMap Text → Option Fields
  unfolding node
  key_hashes [] data_ salts = some end
  key_hashes (k ∷ ks) data_ salts =
      add_field k (elim (get k data_) [ none ↦ node null salts k | some v ↦ node v salts k ])
        (key_hashes ks data_ salts)

  -- `EvidenceRoot`
  unfoldable pub evidence_root : Fields → TextMap Text → Option Text
  unfolding key_hashes
  evidence_root data_ salts = hash_fields (key_hashes evidence_keys data_ salts)

-- The salts so far, and how many random values were drawn.
pub record Salting : Type 0 where
  pub salts : TextMap Text
  pub drawn : ℕ

module _ (fresh : ℕ → Text) where
  unfoldable pub salt_leaf : Text → Salting → Salting
  salt_leaf path s = elim (lookup path s.salts) [
    | some old ↦ s
    | none ↦ record { salts = put path (fresh s.drawn) s.salts; drawn = s.drawn + 1 }
  ]

  -- `Salt`
  unfoldable mutual
    unfolding salt_leaf

    pub salt : Value → Text → Salting → Salting
    salt (object fs) path s = elim (withheld fs) [
      | some w ↦ s
      | none ↦ elim (is_end fs) [ true ↦ salt_leaf path s | false ↦ salt_fields fs path s ]
    ]
    salt (array vs) path s = elim (is_nil vs) [
      | true ↦ salt_leaf path s
      | false ↦ salt_items vs 0 path s
    ]
    salt null path s = salt_leaf path s
    salt (boolean b) path s = salt_leaf path s
    salt (number x) path s = salt_leaf path s
    salt (int n) path s = salt_leaf path s
    salt (text t) path s = salt_leaf path s
    salt (strings l) path s = salt_leaf path s
    salt unsupported path s = salt_leaf path s

    pub salt_fields : Fields → Text → Salting → Salting
    salt_fields end path s = s
    salt_fields (field k v fs) path s = salt_fields fs path (salt v (join path k) s)

    pub salt_items : Items → ℕ → Text → Salting → Salting
    salt_items nil i path s = s
    salt_items (cons v vs) i path s = salt_items vs (i + 1) path (salt v (join path (itoa i)) s)
