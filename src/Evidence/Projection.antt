-- ===== src/Evidence/Projection.antt =====
-- projection.go: a recipient's copy of a pack, in which withheld subtrees are replaced by their hash.
-- Go changes a deep copy in place; here the changed maps are new values. Whether a text is blank
-- (`strings.TrimSpace`) is the parameter `blank`.
pub mod Branches
pub mod Maps
pub mod Roots
pub mod Disclosure
pub mod Issued
use compliance_gateway.Common.{
  ℕ, Bool, true, false, not, ◌||◌, Option, none, some, List, [], ◌∷◌, ◌++◌, if◌then◌else◌, Result,
  ok, err, ◌>>=◌, ◌>>◌, require, or_err,
}
use compliance_gateway.Text.{Text, TextMap, codes, dot, split, delete_if, text_eq}
use compliance_gateway.Text.Laws.{under}
use compliance_gateway.Evidence.Value.{Value, null, text, object, Fields, end, field, get, set}
use compliance_gateway.Evidence.Canon.{canon}
use compliance_gateway.Evidence.Tree.{node_hash}
use compliance_gateway.Evidence.Builder.{Pack, schema_version}
use compliance_gateway.Evidence.Profiles.{profiles}

-- `parent[k]` along the segments: every parent must be a map.
unfoldable pub get_at : List Text → Fields → Option Value
get_at [] fs = none
get_at (k ∷ []) fs = get k fs
get_at (k ∷ l ∷ ks) fs = elim (get k fs) [ some (object gs) ↦ get_at (l ∷ ks) gs | _ ↦ none ]

abbrev pub in_object : (Fields → Fields) → Value → Value
in_object f (object gs) = object (f gs)
in_object f v = v

-- The value at a key, changed.
unfoldable pub change : Text → (Value → Value) → Fields → Fields
change k f end = end
change k f (field j v fs) =
    let rest = change k f fs in if text_eq j k then field j (f v) fs else field j v rest

-- `parent[last] = v`
unfoldable pub set_at : List Text → Value → Fields → Fields
unfolding change
set_at [] v fs = fs
set_at (k ∷ []) v fs = set k v fs
set_at (k ∷ l ∷ ks) v fs = change k (in_object (set_at (l ∷ ks) v)) fs

abbrev pub withheld_value : Text → Value
withheld_value h = object (field (codes "$withheld") (text h) end)

pub record Recipient : Type 0 where
  pub profile : Text
  pub prepared_for : Text
  pub purpose : Text

pub data ProjectErr : Type 0 where
  unknown_profile recipient_required no_hash not_canonical : ProjectErr

abbrev pub salts_fields : TextMap Text → Fields
salts_fields [] = end
salts_fields ((k, s) ∷ m) = field k (text s) (salts_fields m)

-- What a copy's data and salts are while the paths of a profile are withheld.
pub record Copy : Type 0 where
  pub content : Fields
  pub salts : TextMap Text

module _ (sha : List ℕ → Text) where
  -- `withhold`: a path that the pack does not have is skipped.
  unfoldable pub withhold : Copy → Text → Result ProjectErr Copy
  unfolding get_at set_at
  withhold c path = elim (get_at (split path) c.content) [
    | none ↦ ok c
    | some v ↦ elim (node_hash sha v c.salts path) [
      | none ↦ err no_hash
      | some h ↦ ok (record {
        content = set_at (split path) (withheld_value h) c.content;
        salts = delete_if (under path) c.salts;
      })
    ]
  ]

  unfoldable pub withhold_all : Copy → List Text → Result ProjectErr Copy
  withhold_all c [] = ok c
  withhold_all c (path ∷ paths) = withhold c path >>= λ d. withhold_all d paths

  abbrev pub copy_fields : Pack → Recipient → Text → Copy → Fields
  copy_fields p r now c = field (codes "schema_version") (text schema_version) (
      field (codes "pack_id") (text p.pack_id) (
        field (codes "profile") (text r.profile) (
          field (codes "prepared_for") (text r.prepared_for) (
            field (codes "purpose") (text r.purpose) (
              field (codes "generated_at") (text now) (
                field (codes "data") (object c.content)
                  (field (codes "salts") (object (salts_fields c.salts)) end)))))))

  abbrev pub integrity_fields : Pack → Text → Fields
  integrity_fields p projection_hash =
      field (codes "sig_alg") (text (codes "ES256, detached JWS")) (
        field (codes "key_id") (text p.kid) (
          field (codes "signature") (text p.jws) (
            field (codes "tsa") null (
              field (codes "ts_time") null (
                field (codes "ts_serial") null (
                  field (codes "anchor_root") null (
                    field (codes "anchor_tx") null (
                      field (codes "prev_pack_hash") (text p.prev_pack_hash) (
                        field (codes "master_root") (text p.master_root) (
                          field (codes "evidence_root") (text p.evidence_root)
                            (field (codes "projection_hash") (text projection_hash) end)))))))))))

  -- `Project`
  unfoldable pub project : (Text → Bool) → Pack → Recipient → Text → Result ProjectErr Fields
  unfolding withhold_all
  project blank p r now = do
    paths ← or_err unknown_profile (profiles r.profile)
    require (not (blank r.prepared_for || blank r.purpose)) recipient_required
    c ← withhold_all (record { content = p.content; salts = p.salts }) paths
    b ← or_err not_canonical (canon (object (copy_fields p r now c)))
    ok (set (codes "integrity") (object (integrity_fields p (sha b))) (copy_fields p r now c))
