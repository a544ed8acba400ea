-- ===== src/Evidence/Builder.antt =====
-- builder.go: snapshots, packs and the journal's hash chain. The signature over the payload (`sign`)
-- belongs to the key and is a parameter, as SHA-256 and the random source are.
pub mod Normal
pub mod Normalized
pub mod Outside
pub mod Content
pub mod Kept
use compliance_gateway.Common.{
  ℕ, suc, ◌+◌, Bool, true, false, not, ◌&&◌, Option, none, some, List, [], ◌∷◌, ◌++◌, ◌==◌,
  if◌then◌else◌, length, Result, ok, err, ◌>>=◌, ◌>>◌, require, or_err,
}
use compliance_gateway.Text.{Text, TextMap, codes, text_eq, itoa, lookup, put, hex_decode}
use compliance_gateway.Evidence.Value.{
  Value, null, boolean, number, int, text, array, strings, object, unsupported, Items, nil, cons,
  Fields, end, field, get, set, withheld, is_end, is_nil, texts,
}
use compliance_gateway.Evidence.Canon.{canon}
use compliance_gateway.Evidence.Decode.{decode}
use compliance_gateway.Evidence.Tree.{
  evidence_keys, join, evidence_root, master_root, Salting, salt,
}

abbrev pub schema_version : Text
schema_version = codes "deflow-evidence/1.0"

pub data BuildErr : Type 0 where
  section_missing not_only_evidence not_canonical not_decoded no_root root_changed not_signed
        bad_hash :
      BuildErr

pub record Snapshot : Type 0 where
  pub content : Fields  -- `Data`
  pub salts : TextMap Text
  pub evidence_root : Text

pub record Pack : Type 0 where
  pub pack_id : Text
  pub version : ℕ
  pub content : Fields  -- `Data`
  pub salts : TextMap Text
  pub master_root : Text
  pub evidence_root : Text
  pub jws : Text
  pub kid : Text
  pub prev_pack_hash : Text
  pub pack_hash : Text

-- The shape in which a value comes back when encoding/json has written it and Decode reads it, as a
-- check's section is stored and loaded.
unfoldable mutual
  pub round_trip : Value → Value
  round_trip (int n) = number (itoa n)
  round_trip (strings l) = array (texts l)
  round_trip (array vs) = array (round_trip_items vs)
  round_trip (object fs) = object (round_trip_fields fs)
  round_trip null = null
  round_trip (boolean b) = boolean b
  round_trip (number x) = number x
  round_trip (text s) = text s
  round_trip unsupported = unsupported

  pub round_trip_items : Items → Items
  round_trip_items nil = nil
  round_trip_items (cons v vs) = cons (round_trip v) (round_trip_items vs)

  pub round_trip_fields : Fields → Fields
  round_trip_fields end = end
  round_trip_fields (field k v fs) = field k (round_trip v) (round_trip_fields fs)

-- `normalize`
unfoldable pub normalize : Fields → Result BuildErr Fields
unfolding decode
normalize fs = do
  bytes ← or_err not_canonical (canon (object fs))
  or_err not_decoded (decode bytes)

abbrev pub count : Fields → ℕ
count end = 0
count (field k v fs) = suc (count fs)

unfoldable pub has_all : List Text → Fields → Bool
has_all [] fs = true
has_all (k ∷ ks) fs = elim (get k fs) [ none ↦ false | some v ↦ has_all ks fs ]

unfoldable pub carry_leaf : TextMap Text → Text → TextMap Text → TextMap Text
carry_leaf prev path out = elim (lookup path prev) [ none ↦ out | some s ↦ put path s out ]

-- `carry`: the earlier salts of the leaf paths below `v`.
unfoldable mutual
  unfolding carry_leaf

  pub carry : Value → TextMap Text → Text → TextMap Text → TextMap Text
  carry (object fs) prev path out = elim (withheld fs) [
    | some w ↦ carry_leaf prev path out
    | none ↦ elim (is_end fs) [
      | true ↦ carry_leaf prev path out
      | false ↦ carry_fields fs prev path out
    ]
  ]
  carry (array vs) prev path out = elim (is_nil vs) [
    | true ↦ carry_leaf prev path out
    | false ↦ carry_items vs 0 prev path out
  ]
  carry null prev path out = carry_leaf prev path out
  carry (boolean b) prev path out = carry_leaf prev path out
  carry (number x) prev path out = carry_leaf prev path out
  carry (int n) prev path out = carry_leaf prev path out
  carry (text s) prev path out = carry_leaf prev path out
  carry (strings l) prev path out = carry_leaf prev path out
  carry unsupported prev path out = carry_leaf prev path out

  pub carry_fields : Fields → TextMap Text → Text → TextMap Text → TextMap Text
  carry_fields end prev path out = out
  carry_fields (field k v fs) prev path out =
      carry_fields fs prev path (carry v prev (join path k) out)

  pub carry_items : Items → ℕ → TextMap Text → Text → TextMap Text → TextMap Text
  carry_items nil i prev path out = out
  carry_items (cons v vs) i prev path out =
      carry_items vs (i + 1) prev path (carry v prev (join path (itoa i)) out)

-- The fields of `over` written into `fs` one by one.
unfoldable pub set_all : Fields → Fields → Fields
set_all end fs = fs
set_all (field k v over) fs = set_all over (set k v fs)

-- The data of a pack: evidence wins over anything in `rest`.
unfoldable pub pack_content : Fields → ℕ → Fields → Fields
unfolding set_all
pack_content evidence version rest =
    set (codes "schema_version") (text schema_version)
      (set (codes "pack_version") (text (itoa version)) (set_all evidence (set_all rest end)))

module _ (fresh : ℕ → Text) where
  -- The loop of `NewSnapshot` over the evidence keys.
  unfoldable pub salt_keys : List Text → Fields → Salting → Salting
  unfolding salt
  salt_keys [] fs s = s
  salt_keys (k ∷ ks) fs s =
      salt_keys ks fs (elim (get k fs) [ none ↦ salt fresh null k s | some v ↦ salt fresh v k s ])

  -- One round of the salting loop of `BuildPack`.
  unfoldable pub salt_section : Fields → TextMap Text → Text → Value → Salting → Salting
  unfolding carry salt
  salt_section evidence prev k v s = elim (get k evidence) [
    | some e ↦ s
    | none ↦
        salt fresh v k
          (if text_eq k (codes "decision") then s else record s { salts = carry v prev k s.salts })
  ]

  unfoldable pub salt_sections : Fields → TextMap Text → Fields → Salting → Salting
  unfolding salt_section
  salt_sections evidence prev end s = s
  salt_sections evidence prev (field k v fs) s =
      salt_sections evidence prev fs (salt_section evidence prev k v s)

-- `PackHash`
unfoldable pub pack_hash : (List ℕ → Text) → Text → Text → Option Text
pack_hash sha prev master = elim (hex_decode prev) [
  | none ↦ none
  | some p ↦ elim (hex_decode master) [
    | none ↦ none
    | some m ↦ if length p == 32 && length m == 32 then some (sha (p ++ m)) else none
  ]
]

module _ (sha : List ℕ → Text) (fresh : ℕ → Text) where
  -- `NewSnapshot`; `drawn` counts the random values used before it.
  unfoldable pub new_snapshot : Fields → ℕ → Result BuildErr Snapshot
  unfolding has_all normalize salt_keys evidence_root
  new_snapshot sections drawn =
      if not (has_all evidence_keys sections)
      then err section_missing
      else if not (count sections == length evidence_keys)
      then err not_only_evidence
      else do
        fs ← normalize sections
        let s = salt_keys fresh evidence_keys fs (record { salts = []; drawn = drawn })
        root ← or_err no_root (evidence_root sha fs s.salts)
        ok (record { content = fs; salts = s.salts; evidence_root = root })

  module _ (sign : Text → Option Text) (kid : Text) where
    -- `BuildPack`
    unfoldable pub build_pack :
        Snapshot → ℕ → Fields → TextMap Text → Text → ℕ → Result BuildErr Pack
    unfolding normalize pack_content salt_sections evidence_root master_root pack_hash
    build_pack snap version rest prev_salts prev_pack_hash drawn = do
      rest' ← normalize rest
      let fs = pack_content snap.content version rest'
      payload ← or_err not_canonical (canon (object fs))
      let s =
          salt_sections fresh snap.content prev_salts fs
            (record { salts = snap.salts; drawn = drawn })
      master ← or_err no_root (master_root sha fs s.salts)
      root ← or_err no_root (evidence_root sha fs s.salts)
      require (text_eq root snap.evidence_root) root_changed
      jws ← or_err not_signed (sign payload)
      hash ← or_err bad_hash (pack_hash sha prev_pack_hash master)
      ok (record {
        pack_id = elim (get (codes "pack_id") snap.content) [ some (text t) ↦ t | _ ↦ [] ];
        version = version;
        content = fs;
        salts = s.salts;
        master_root = master;
        evidence_root = root;
        jws = jws;
        kid = kid;
        prev_pack_hash = prev_pack_hash;
        pack_hash = hash;
      })
