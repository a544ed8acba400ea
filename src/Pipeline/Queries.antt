-- ===== src/Pipeline/Queries.antt =====
-- queries.go: `LoadPack` and `Project`. The copy of a pack is made outside a transaction.
use compliance_gateway.Common.{
  ℕ, Bool, true, false, not, ◌&&◌, ◌||◌, Option, none, some, List, [], ◌∷◌, ◌++◌, leb, ◌==◌,
  if◌then◌else◌, Result, ok, ◌>>=◌, ◌>>◌, or_err, require, map_err,
}
use compliance_gateway.Text.{Text, codes, lookup}
use compliance_gateway.Evidence.Value.{Fields, text, object, get}
use compliance_gateway.Evidence.Builder.{Pack}
use compliance_gateway.Evidence.Profiles.{Reason, profiles, refused_profiles}
use compliance_gateway.Evidence.Projection.{Recipient, project}
use compliance_gateway.Pipeline.{Err, not_found, conflict, bad_request}
use compliance_gateway.Pipeline.Env.{Env, Moment}
use compliance_gateway.Pipeline.Store.{Db, PackRow, ProjectionRow, latest_pack}

-- [0-9a-f]
abbrev pub is_lower_hex : ℕ → Bool
is_lower_hex c = leb 48 c && leb c 57 || leb 97 c && leb c 102

-- A text of the shape's length, with its dashes and a hexadecimal digit at every other place.
unfoldable pub has_shape : Text → Text → Bool
has_shape [] [] = true
has_shape [] (c ∷ cs) = false
has_shape (d ∷ ds) [] = false
has_shape (d ∷ ds) (c ∷ cs) = (if d == 45 then c == 45 else is_lower_hex c) && has_shape ds cs

-- `uuidRE`
unfoldable pub is_uuid : Text → Bool
unfolding has_shape
is_uuid t = has_shape (codes "xxxxxxxx-xxxx-xxxx-xxxx-xxxxxxxxxxxx") t

unfoldable pub of_version : ℕ → List PackRow → List PackRow
of_version v [] = []
of_version v (k ∷ ks) = let rest = of_version v ks in if k.version == v then k ∷ rest else rest

abbrev pub pack_of : Env → PackRow → Pack
pack_of env k = record {
  pack_id = k.pack_id;
  version = k.version;
  content = k.content;
  salts = k.salts;
  master_root = k.master_root;
  evidence_root = k.evidence_root;
  jws = k.jws;
  kid = env.kid;
  prev_pack_hash = k.prev_pack_hash;
  pack_hash = k.pack_hash;
}

-- `LoadPack`; version 0 means the latest.
unfoldable pub load_pack : Env → Text → ℕ → Db → Result Err Pack
unfolding is_uuid latest_pack of_version
load_pack env id version db = do
  require (is_uuid id) not_found
  k ←
      or_err not_found
        (latest_pack id (if version == 0 then db.packs else of_version version db.packs))
  ok (pack_of env k)

abbrev pub hash_in : Option Fields → Text
hash_in none = []
hash_in (some fs) = elim (get (codes "projection_hash") fs) [ some (text h) ↦ h | _ ↦ [] ]

-- `copy["integrity"].(map[string]any)["projection_hash"]`
abbrev pub projection_hash_of : Fields → Text
projection_hash_of copy = elim (get (codes "integrity") copy) [
  | some (object fs) ↦ hash_in (some fs)
  | _ ↦ hash_in none
]

abbrev pub projection_row : Text → Pack → Recipient → Fields → ProjectionRow
projection_row id k r copy = record {
  pack_id = id;
  version = k.version;
  profile = r.profile;
  prepared_for = r.prepared_for;
  purpose = r.purpose;
  projection_hash = projection_hash_of copy;
}

abbrev pub is_refused : Option Reason → Bool
is_refused none = false
is_refused (some why) = true

-- `Project`: the disclosure is logged before the copy is given out.
unfoldable pub project_pack : Env → Moment → Text → Recipient → Db → Result Err (Fields × Db)
unfolding profiles load_pack refused_profiles project get
project_pack env m id r db = do
  _ ← or_err bad_request (profiles r.profile)
  k ← load_pack env id 0 db
  require (not (is_refused (lookup r.profile (refused_profiles k.content)))) conflict
  copy ← map_err (λ _. bad_request) (project env.sha env.blank k r (env.rfc3339 m.now))
  ok (copy, record db { projections = db.projections ++ projection_row id k r copy ∷ [] })
