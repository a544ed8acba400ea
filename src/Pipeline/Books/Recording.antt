-- ===== src/Pipeline/Books/Recording.antt =====
-- decide.go and officer.go: what an operation that succeeds has written.
use compliance_gateway.Common.{
  ℕ, ◌+◌, ◌<◌, ◌≡◌, refl, ok, arith, List, Option, none, some, ◌∷◌, [], ◌++◌, Holds, holds,
  bind_Holds, Holds-ok, or_err, or_err_ok, require-Holds, ap, sym, subst, ◌∙◌, ◌%◌, Holds-map,
  map_err, map_err_ok,
}
use compliance_gateway.Text.{Text, text_eq}
use compliance_gateway.Decision.Verify.{Struct, TypedData}
use compliance_gateway.Evidence.Builder.{
  Snapshot, build_pack, pack_hash, normalize, pack_content, salt_sections, not_canonical, no_root,
  root_changed, not_signed, bad_hash,
}
use compliance_gateway.Evidence.Canon.{canon}
use compliance_gateway.Evidence.Tree.{master_root, evidence_root}
use compliance_gateway.Evidence.Value.{Fields, object}
use compliance_gateway.Text.{TextMap}
use compliance_gateway.Pipeline.{Row, internal, kinds, last_nonce, prepare}
use compliance_gateway.Decision.Transition.{replay, next}
use compliance_gateway.Pipeline.Env.{Env, Moment}
use compliance_gateway.Pipeline.Store.{
  Db, DecisionRow, PackRow, at, history_of, load_decisions, set_stage, latest_pack, insert_decision,
  insert_pack,
}
use compliance_gateway.Pipeline.Sections.{rest}
use compliance_gateway.Ingest.{Payment}
use compliance_gateway.Pipeline.Issue.{
  issue_pack, pack_row, snapshot_of, version_of, salts_of, stage_after, record_decision,
  RecordInput, decision_row, decide_auto, prepare_next,
}
use compliance_gateway.Pipeline.Books.{books, Effect, Follows, records}

insert_decision_ok :
    (id : ℕ) (d : DecisionRow) (db db' : Db)
    → insert_decision id d db ≡ ok db'
    → (d.decision.nonce < 9223372036854775808)
      × (db' ≡ record db { decisions = at id (db.decisions id ++ d ∷ []) db.decisions })
unfolding insert_decision
insert_decision_ok id d db db' h = ground arith

insert_pack_ok :
    (k : PackRow) (db db' : Db)
    → insert_pack k db ≡ ok db'
    → db' ≡ record db { packs = k ∷ db.packs }
unfolding insert_pack
insert_pack_ok k db db' h = ground arith

-- A pack that is built hashes over its predecessor, and is sealed by its own data.
build_pack_ok :
    (sha : List ℕ → Text) (fresh : ℕ → Text) (sign : Text → Option Text) (kid : Text) (s : Snapshot)
    (v : ℕ) (fs : Fields) (prev_salts : TextMap Text) (prev : Text) (n : ℕ)
    → Holds
        (λ k.
          (k.prev_pack_hash ≡ prev)
          × (pack_hash sha prev k.master_root ≡ some k.pack_hash)
          × ((payload : Text) × (canon (object k.content) ≡ some payload)
              × (sign payload ≡ some k.jws))
          × (master_root sha k.content k.salts ≡ some k.master_root)
          × (evidence_root sha k.content k.salts ≡ some k.evidence_root))
        (build_pack sha fresh sign kid s v fs prev_salts prev n)
unfolding build_pack
build_pack_ok sha fresh sign kid s v fs prev_salts prev n = bind_Holds (normalize fs) _ λ fs' _.
    let d = pack_content s.content v fs' in
    let t = salt_sections fresh s.content prev_salts d (record { salts = s.salts; drawn = n }) in
    bind_Holds (or_err not_canonical (canon (object d))) _ λ payload e1.
      bind_Holds (or_err no_root (master_root sha d t.salts)) _ λ master e2.
        bind_Holds (or_err no_root (evidence_root sha d t.salts)) _ λ root e3.
          require-Holds (text_eq root s.evidence_root) root_changed _ λ _.
            bind_Holds (or_err not_signed (sign payload)) _ λ jws e4.
              bind_Holds (or_err bad_hash (pack_hash sha prev master)) _ λ hash e5. holds (
                refl,
                or_err_ok _ _ e5,
                (payload, or_err_ok _ _ e1, or_err_ok _ _ e4),
                or_err_ok _ _ e2,
                or_err_ok _ _ e3,
              )

abbrev with_head : ℕ → Text → Db → Db
with_head n h db = record db { head_seq = n; head_hash = h }

abbrev with_payments : List (ℕ × Payment) → Db → Db
with_payments ps db = record db { payments = ps }

abbrev with_pack : PackRow → Db → Db
with_pack k db = record db {
  packs = k ∷ db.packs;
  head_seq = db.head_seq + 1;
  head_hash = k.pack_hash;
}

issue_pack-Holds :
    (env : Env) (m : Moment) (r : Row) (db : Db)
    → Holds
        (λ out.
          (k : PackRow) × Follows env.sha env.sign db.head_seq db.head_hash k
          × (out.1 ≡ with_pack k db))
        (issue_pack env m r db)
unfolding issue_pack
issue_pack-Holds env m r db = bind_Holds (or_err internal (db.snapshots r.id)) _ λ s _.
    bind_Holds (rest env m.now r db) _ λ fs _.
      let prev = latest_pack s.pack_id db.packs in
      let v = version_of prev + 1 in
      let built =
        build_pack env.sha m.fresh env.sign env.kid (snapshot_of s) v fs (salts_of prev)
          db.head_hash 0 in
      bind_Holds (map_err (λ _. internal) built) _ λ k e.
        bind_Holds (insert_pack (pack_row s v r.id (db.head_seq + 1) k) db) _ λ db1 e1.
          let p =
            Holds-ok
              (build_pack_ok env.sha m.fresh env.sign env.kid (snapshot_of s) v fs (salts_of prev)
                db.head_hash 0)
              (map_err_ok (λ _. internal) built e) in
          let q = insert_pack_ok (pack_row s v r.id (db.head_seq + 1) k) db db1 e1 in
          holds (
            pack_row s v r.id (db.head_seq + 1) k,
            (
              refl,
              p.0,
              subst (λ h. pack_hash env.sha h k.master_root ≡ some k.pack_hash) (sym p.0) p.1,
              (p.2, p.3, p.4),
            ),
            ap (with_head (db.head_seq + 1) k.pack_hash) q,
          )

-- What `record` writes: one decision and one pack, and a stage.
abbrev pub Records : Env → ℕ → DecisionRow → Db → Db → Type 0
Records env id d db db' =
    (k : PackRow) × (ps : List (ℕ × Payment)) × (d.decision.nonce < 9223372036854775808)
    × Follows env.sha env.sign db.head_seq db.head_hash k
    × (db' ≡ record (with_pack k db) {
      decisions = at id (db.decisions id ++ d ∷ []) db.decisions;
      payments = ps;
    })

pub record_decision-Holds :
    (env : Env) (m : Moment) (r : Row) (s : Struct) (td : TypedData) (i : RecordInput) (db : Db)
    → Holds
        (λ out. Records env r.id (decision_row env m s td i) db out.1)
        (record_decision env m r s td i db)
unfolding record_decision
record_decision-Holds env m r s td i db =
    let d = decision_row env m s td i in
    bind_Holds (insert_decision r.id d db) _ λ db1 e1. bind_Holds (issue_pack env m r db1) _ λ o e2.
      let (n, e) = insert_decision_ok r.id d db db1 e1 in
      let (k, f, g) = Holds-ok (issue_pack-Holds env m r db1) e2 in
      let ps = set_stage r.id (stage_after s.decision) o.1.payments in
      holds (
        k,
        ps,
        n,
        subst (λ x. Follows env.sha env.sign x.head_seq x.head_hash k) e f,
        ap (with_payments ps) g ∙ ap (λ x. with_payments ps (with_pack k x)) e,
      )

pub prepare_next_ok :
    (env : Env) (m : Moment) (r : Row) (kind : ℕ) (db : Db) (s : Struct) (td : TypedData)
    → prepare_next env m r kind db ≡ ok (s, td)
    → (s.decision ≡ kind)
      × (s.nonce ≡ (last_nonce (history_of (db.decisions r.id)) + 1) % 18446744073709551616)
      × ((next (replay (kinds (history_of (db.decisions r.id)))).0 s.decision).1 ≡ none)
unfolding prepare_next prepare load_decisions
prepare_next_ok env m r kind db s td h = ground arith

pub Records-Effect :
    (env : Env) (id : ℕ) (d : DecisionRow) (db db' : Db)
    → (d.decision.nonce ≡ (last_nonce (history_of (db.decisions id)) + 1) % 18446744073709551616)
    → ((next (replay (kinds (history_of (db.decisions id)))).0 d.decision.kind).1 ≡ none)
    → Records env id d db db'
    → Effect env.sha env.sign (books db) (books db')
Records-Effect env id d db db' n h (k, ps, b, f, e) =
    subst (λ x. Effect env.sha env.sign (books db) (books x)) (sym e) (records id d k (n, b, h) f)

-- An automatic decision.
pub decide_auto-Holds :
    (env : Env) (m : Moment) (r : Row) (kind : ℕ) (policy_ref : Text) (reasons : List Text)
    (db : Db)
    → Holds
        (λ out. Effect env.sha env.sign (books db) (books out.1))
        (decide_auto env m r kind policy_ref reasons db)
unfolding decide_auto
decide_auto-Holds env m r kind policy_ref reasons db =
    bind_Holds (prepare_next env m r kind db) _ λ p e.
      bind_Holds (or_err internal (env.digest p.1)) _ λ h _.
        bind_Holds (or_err internal (env.policy_sign h)) _ λ sig _.
          let (_, n, x) = prepare_next_ok env m r kind db p.0 p.1 e in
          Holds-map (record_decision-Holds env m r p.0 p.1 _ db)
            λ out w. Records-Effect env r.id _ db out.1 n x w
