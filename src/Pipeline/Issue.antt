-- ===== src/Pipeline/Issue.antt =====
-- decide.go: `issuePack`, `record` and `decideAuto`. What the tables hold is what was stored in them.
use compliance_gateway.Common.{
  ℕ, suc, ◌+◌, ◌-◌, ◌%◌, ◌/◌, Option, none, some, List, [], ◌++◌, ◌==◌, if◌then◌else◌, Result, ok,
  ◌>>=◌, or_err, map_err,
}
use compliance_gateway.Text.{Text, TextMap, codes}
use compliance_gateway.Rat.{ℤ, pos, negsuc}
use compliance_gateway.Decision.{hold}
use compliance_gateway.Decision.Verify.{Struct, TypedData}
use compliance_gateway.Evidence.Builder.{Snapshot, Pack, build_pack}
use compliance_gateway.Ingest.{Stage, in_review, decided}
use compliance_gateway.Pipeline.{Row, Err, internal, prepare}
use compliance_gateway.Pipeline.Env.{Env, Moment}
use compliance_gateway.Pipeline.Store.{
  Db, DecisionRow, SnapshotRow, PackRow, set_stage, insert_decision, insert_pack, latest_pack,
  load_decisions,
}
use compliance_gateway.Pipeline.Sections.{rest}

-- The latest pack's version and salts; version 0 and no salts before the first pack.
abbrev pub version_of : Option PackRow → ℕ
version_of none = 0
version_of (some k) = k.version

abbrev pub salts_of : Option PackRow → TextMap Text
salts_of none = []
salts_of (some k) = k.salts

abbrev pub pack_row : SnapshotRow → ℕ → ℕ → ℕ → Pack → PackRow
pack_row s version payment seq k = record {
  pack_id = s.pack_id;
  version = version;
  payment = payment;
  seq = seq;
  content = k.content;
  salts = k.salts;
  master_root = k.master_root;
  evidence_root = k.evidence_root;
  jws = k.jws;
  prev_pack_hash = k.prev_pack_hash;
  pack_hash = k.pack_hash;
}

abbrev pub snapshot_of : SnapshotRow → Snapshot
snapshot_of s = record { content = s.content; salts = s.salts; evidence_root = s.evidence_root }

-- `issuePack`: the new pack takes the journal's head as its predecessor, and becomes the head.
unfoldable pub issue_pack : Env → Moment → Row → Db → Result Err ((Text × ℕ) × Db)
issue_pack env m r db = do
  s ← or_err internal (db.snapshots r.id)
  let prev = latest_pack s.pack_id db.packs
  let version = version_of prev + 1
  fs ← rest env m.now r db
  k ←
      map_err (λ _. internal)
        (build_pack env.sha m.fresh env.sign env.kid (snapshot_of s) version fs (salts_of prev)
          db.head_hash 0)
  db' ← insert_pack (pack_row s version r.id (db.head_seq + 1) k) db
  ok ((s.pack_id, version), record db' { head_seq = db.head_seq + 1; head_hash = k.pack_hash })

-- `recordInput`
pub record RecordInput : Type 0 where
  pub mode : Text
  pub policy_ref : Text
  pub reasons : List Text
  pub rationale : Text
  pub officer_id : Option Text
  pub signer : ℕ
  pub signature : List ℕ

abbrev pub decision_row : Env → Moment → Struct → TypedData → RecordInput → DecisionRow
decision_row env m s td i = record {
  decision = record {
    kind = s.decision;
    nonce = s.nonce;
    mode = i.mode;
    policy_ref = i.policy_ref;
    reasons = i.reasons;
    rationale = i.rationale;
    officer_id = i.officer_id;
    signer = i.signer;
    signature = i.signature;
    pack_hash = env.bare_hex s.pack_hash;
    decided_at = m.now;
  };
  deadline = s.deadline;
  typed_data = td;
}

-- A hold waits for an officer.
abbrev pub stage_after : ℕ → Stage
stage_after kind = if kind == hold then in_review else decided

-- `record`
unfoldable pub record_decision :
    Env → Moment → Row → Struct → TypedData → RecordInput → Db → Result Err ((Text × ℕ) × Db)
unfolding insert_decision issue_pack
record_decision env m r s td i db = do
  db1 ← insert_decision r.id (decision_row env m s td i) db
  issued ← issue_pack env m r db1
  ok (
    issued.0,
    record issued.1 { payments = set_stage r.id (stage_after s.decision) issued.1.payments },
  )

-- The Unix time of now plus the configured TTL, as uint64.
abbrev pub deadline_at : ℕ → ℤ → ℕ
deadline_at now (pos n) = (now + n) / 1000000000 % 18446744073709551616
deadline_at now (negsuc n) = (now - suc n) / 1000000000 % 18446744073709551616

abbrev pub root_of : Env → Option SnapshotRow → Option ℕ
root_of env none = none
root_of env (some s) = some (env.to_hash s.evidence_root)

-- `prepare`, on what the tables hold.
unfoldable pub prepare_next : Env → Moment → Row → ℕ → Db → Result Err (Struct × TypedData)
unfolding prepare
prepare_next env m r kind db =
    prepare (root_of env (db.snapshots r.id)) (load_decisions r.id db) r kind
      (deadline_at m.now env.config.decision_ttl)

-- `decideAuto`, of a recommendation's reference and reasons.
unfoldable pub decide_auto :
    Env → Moment → Row → ℕ → Text → List Text → Db → Result Err ((Text × ℕ) × Db)
unfolding prepare_next record_decision
decide_auto env m r kind policy_ref reasons db = do
  p ← prepare_next env m r kind db
  h ← or_err internal (env.digest p.1)
  sig ← or_err internal (env.policy_sign h)
  record_decision env m r p.0 p.1
      (record {
        mode = codes "AUTO_BY_POLICY";
        policy_ref = policy_ref;
        reasons = reasons;
        rationale = codes "Automatic under policy " ++ policy_ref;
        officer_id = none;
        signer = env.policy_address;
        signature = sig;
      })
      db
