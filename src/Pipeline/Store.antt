-- ===== src/Pipeline/Store.antt =====
-- store/migrations/001_init.sql as the pipeline uses it: the tables as one record. A table with a key
-- is a function from the key, and an append-only one a list in the order of its rows. An operation
-- takes the tables and gives the next ones; a transaction that fails gives none, and so changes none.
use compliance_gateway.Common.{
  ℕ, Bool, true, false, Option, none, some, List, [], ◌∷◌, ◌++◌, leb, ltb, ◌==◌, if◌then◌else◌, any,
  Result, ok, err, ◌>>◌, require, not,
}
use compliance_gateway.Text.{Text, TextMap, text_eq}
use compliance_gateway.Evidence.Value.{Fields}
use compliance_gateway.Decision.Verify.{TypedData}
use compliance_gateway.Ingest.{Payment, Stage, find}
use compliance_gateway.Pipeline.{PastDecision, Row, Err, not_found, internal}

-- `checkRow`
pub record CheckRow : Type 0 where
  pub kind : Text
  pub provider : Text
  pub product : Text
  pub outcome : Text
  pub section : Fields
  pub raw_sha256 : Option Text
  pub performed_at : Text

pub record RecommendationRow : Type 0 where
  pub ruleset_version : Option Text
  pub recommendation : Text
  pub reasons : List Text
  pub policy_ref : Text
  pub auto : Bool
  pub inputs : Fields
  pub inputs_hash : Text
  pub engine_version : Text
  pub created_at : ℕ

pub record SnapshotRow : Type 0 where
  pub pack_id : Text
  pub content : Fields
  pub salts : TextMap Text
  pub evidence_root : Text

pub record DecisionRow : Type 0 where
  pub decision : PastDecision
  pub deadline : ℕ
  pub typed_data : TypedData

pub record PendingRow : Type 0 where
  pub nonce : ℕ
  pub deadline : ℕ
  pub typed_data : TypedData
  pub expires_at : ℕ

pub record PackRow : Type 0 where
  pub pack_id : Text
  pub version : ℕ
  pub payment : ℕ
  pub seq : ℕ
  pub content : Fields
  pub salts : TextMap Text
  pub master_root : Text
  pub evidence_root : Text
  pub jws : Text
  pub prev_pack_hash : Text
  pub pack_hash : Text

pub record RulesetRow : Type 0 where
  pub version : Text
  pub canonical : Text
  pub ruleset_hash : Text
  pub approved_by : Option ℕ
  pub approval_sig : List ℕ
  pub effective_from : ℕ  -- seconds; read only once approved
  pub approved : Bool

pub record ProjectionRow : Type 0 where
  pub pack_id : Text
  pub version : ℕ
  pub profile : Text
  pub prepared_for : Text
  pub purpose : Text
  pub projection_hash : Text

-- The newest pack stands first.
pub record Db : Type 0 where
  pub payments : List (ℕ × Payment)
  pub checks : ℕ → List CheckRow
  pub recommendations : ℕ → Option RecommendationRow
  pub snapshots : ℕ → Option SnapshotRow
  pub decisions : ℕ → List DecisionRow
  pub pending : ℕ → ℕ → Option PendingRow
  pub packs : List PackRow
  pub head_seq : ℕ
  pub head_hash : Text
  pub rulesets : List RulesetRow
  pub projections : List ProjectionRow

-- A table with one row changed.
abbrev pub at {ℓ} : {A : Type ℓ} → ℕ → A → (ℕ → A) → ℕ → A
at id v f i = if i == id then v else f i

abbrev pub row_of : ℕ → Payment → Row
row_of id p = record {
  id = id;
  chain_id = p.deposit.chain_id;
  tx_hash = p.deposit.tx_hash;
  log_index = p.deposit.log_index;
  block_number = p.deposit.block_number;
  block_time = p.deposit.block_time;
  token = p.deposit.token;
  payer = p.deposit.payer;
  deposit = p.deposit.to;
  amount = p.deposit.amount;
  reconstruction = p.reconstruction;
}

-- UPDATE payment SET stage = … WHERE id = …
unfoldable pub set_stage : ℕ → Stage → List (ℕ × Payment) → List (ℕ × Payment)
set_stage id s [] = []
set_stage id s ((i, p) ∷ ps) =
    (if i == id then (i, record p { stage = s }) else (i, p)) ∷ set_stage id s ps

-- `lockPayment`
unfoldable pub lock_payment : ℕ → Db → Result Err Row
unfolding find
lock_payment id db = elim (find id db.payments) [ none ↦ err not_found | some p ↦ ok (row_of id p) ]

abbrev pub past_of : List DecisionRow → List PastDecision
past_of [] = []
past_of (d ∷ ds) = d.decision ∷ past_of ds

-- ORDER BY nonce
unfoldable pub insert_by_nonce : PastDecision → List PastDecision → List PastDecision
insert_by_nonce d [] = d ∷ []
insert_by_nonce d (e ∷ es) =
    let rest = insert_by_nonce d es in if leb d.nonce e.nonce then d ∷ e ∷ es else e ∷ rest

unfoldable pub order_by_nonce : List PastDecision → List PastDecision
unfolding insert_by_nonce
order_by_nonce [] = []
order_by_nonce (d ∷ ds) = insert_by_nonce d (order_by_nonce ds)

-- The decisions in the order of their nonces.
abbrev pub history_of : List DecisionRow → List PastDecision
history_of ds = order_by_nonce (past_of ds)

-- `loadDecisions`
unfoldable pub load_decisions : ℕ → Db → List PastDecision
unfolding order_by_nonce
load_decisions id db = history_of (db.decisions id)

-- A uint64 that a column of type bigint takes; the driver refuses a greater one.
abbrev pub is_bigint : ℕ → Bool
is_bigint n = ltb n 9223372036854775808

-- INSERT INTO decision, whose nonce is unique for the payment and whose kind is 1 to 4.
unfoldable pub insert_decision : ℕ → DecisionRow → Db → Result Err Db
insert_decision id d db = do
  require (leb 1 d.decision.kind) internal
  require (leb d.decision.kind 4) internal
  require (is_bigint d.decision.nonce) internal
  require (is_bigint d.deadline) internal
  require (not (any (λ e. e.decision.nonce == d.decision.nonce) (db.decisions id))) internal
  ok (record db { decisions = at id (db.decisions id ++ d ∷ []) db.decisions })

-- INSERT INTO pack, whose id and version are unique, as is its place in the journal.
unfoldable pub insert_pack : PackRow → Db → Result Err Db
unfolding text_eq
insert_pack k db = do
  require
      (not (
        any
          (λ j.
            if j.seq == k.seq
            then true
            else if text_eq j.pack_id k.pack_id
            then j.version == k.version
            else false)
          db.packs))
      internal
  ok (record db { packs = k ∷ db.packs })

-- ORDER BY pack_version DESC LIMIT 1
unfoldable pub latest_pack : Text → List PackRow → Option PackRow
unfolding text_eq
latest_pack id [] = none
latest_pack id (k ∷ ks) =
    let rest = latest_pack id ks in
    if text_eq k.pack_id id
    then elim rest [ none ↦ some k | some l ↦ if ltb k.version l.version then some l else some k ]
    else rest
