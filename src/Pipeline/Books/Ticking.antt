-- ===== src/Pipeline/Books/Ticking.antt =====
-- pipeline.go: what a tick does to the decisions, the packs and the rulesets.
use compliance_gateway.Common.{
  ℕ, ◌≡◌, ◌∙◌, subst, Option, none, some, List, [], ◌∷◌, Result, ok, err, or_err, Holds, holds,
  Holds-ok, Holds-map, bind_Holds, if_Holds, arith,
}
use compliance_gateway.Text.{Text}
use compliance_gateway.Ingest.{checks_done, find}
use compliance_gateway.Checks.{run_all}
use compliance_gateway.Pipeline.{Row, Err, internal}
use compliance_gateway.Pipeline.Env.{Env, Moment}
use compliance_gateway.Pipeline.Store.{Db, RecommendationRow, SnapshotRow}
use compliance_gateway.Pipeline.Issue.{decide_auto}
use compliance_gateway.Pipeline.Snapshot.{EffectiveRuleset, Advice, snapshot}
use compliance_gateway.Pipeline.Checking.{
  amount_eur, check_payment, insert_checks, screened_of, each_row, same_stage, run_checks, due,
  checks_due, advice_due,
}
use compliance_gateway.Pipeline.Advance.{
  ruleset_at, inputs_of, advise, recommendation_row, snapshot_row, insert_recommendation,
  insert_snapshot, is_automatic, kind_of, settle, advise_payment, recommend_payment, recommend_all,
  tick_after, tick,
}
use compliance_gateway.Pipeline.Books.{Effects, Effects-trans, unchanged, step, books}
use compliance_gateway.Pipeline.Books.Recording.{decide_auto-Holds}

module _ (sha : List ℕ → Text) (sign : Text → Option Text) where
  row_done :
      (db : Db) (rest : Db → Db × Option Err) (q : Result Err Db)
      → Holds (λ db'. Effects sha sign (books db) (books db')) q
      → ((db' : Db) → Effects sha sign (books db') (books (rest db').0))
      → Effects sha sign
          (books db)
          (books (elim q as (λ _. Db × Option Err) [ err e ↦ (db, some e) | ok db' ↦ rest db' ]).0)
  row_done db rest (ok db') (holds p) h = Effects-trans sha sign p (h db')
  row_done db rest (err e) p h = unchanged

  pub each_row-Effects :
      (f : Row → Db → Result Err Db)
      → ((r : Row) (db : Db) → Holds (λ db'. Effects sha sign (books db) (books db')) (f r db))
      → (rs : List Row) (db : Db) → Effects sha sign (books db) (books (each_row f rs db).0)
  unfolding each_row
  each_row-Effects f h [] db = unchanged
  each_row-Effects f h (r ∷ rs) db =
      row_done db (each_row f rs) (f r db) (h r db) (each_row-Effects f h rs)

check_payment-Holds :
    (env : Env) (m : Moment) (r : Row) (db : Db)
    → Holds (λ db'. Effects env.sha env.sign (books db) (books db')) (check_payment env m r db)
unfolding check_payment
check_payment-Holds env m r db = bind_Holds (amount_eur env r) _ λ eur _.
    bind_Holds
      (insert_checks (run_all m.put (env.rfc3339 m.now) (m.replies (screened_of r eur)))
        (db.checks r.id))
      _ λ cs _. holds unchanged

insert_recommendation-books :
    (id : ℕ) (r : RecommendationRow) (db db' : Db)
    → insert_recommendation id r db ≡ ok db'
    → books db' ≡ books db
unfolding insert_recommendation
insert_recommendation-books id r db db' h = ground arith

insert_snapshot-books :
    (id : ℕ) (s : SnapshotRow) (db db' : Db)
    → insert_snapshot id s db ≡ ok db'
    → books db' ≡ books db
unfolding insert_snapshot
insert_snapshot-books id s db db' h = ground arith

settle-Holds :
    (env : Env) (m : Moment) (r : Row) (eff : Option EffectiveRuleset) (a : Advice) (db : Db)
    → Holds (λ db'. Effects env.sha env.sign (books db) (books db')) (settle env m r eff a db)
unfolding settle
settle-Holds env m r eff a db =
    if_Holds (is_automatic eff a (kind_of env a)) _ _
      (λ _. bind_Holds (decide_auto env m r (kind_of env a) a.policy_ref a.reasons db) _ λ out e.
        holds (
          step (Holds-ok (decide_auto-Holds env m r (kind_of env a) a.policy_ref a.reasons db) e)
            unchanged))
      (λ _. holds unchanged)

advise_payment-Holds :
    (env : Env) (m : Moment) (r : Row) (db : Db)
    → Holds (λ db'. Effects env.sha env.sign (books db) (books db')) (advise_payment env m r db)
unfolding advise_payment
advise_payment-Holds env m r db =
    let cs = db.checks r.id in
    bind_Holds (amount_eur env r) _ λ eur _. bind_Holds (ruleset_at env r.block_time db) _ λ eff _.
      let i = inputs_of env cs eur in
      bind_Holds (advise env eff i) _ λ a _.
        let row = recommendation_row env m eff a i in
        bind_Holds (insert_recommendation r.id row db) _ λ db1 e1.
          bind_Holds (snapshot env m r cs eur eff a i) _ λ s _.
            bind_Holds (insert_snapshot r.id (snapshot_row m.uuid s) db1) _ λ db2 e2.
              let e =
                insert_snapshot-books r.id (snapshot_row m.uuid s) db1 db2 e2
                ∙ insert_recommendation-books r.id row db db1 e1 in
              Holds-map (settle-Holds env m r eff a db2)
                λ db3 t. subst (λ b. Effects env.sha env.sign b (books db3)) e t

recommend_payment-Holds :
    (env : Env) (m : Moment) (r : Row) (db : Db)
    → Holds (λ db'. Effects env.sha env.sign (books db) (books db')) (recommend_payment env m r db)
unfolding recommend_payment
recommend_payment-Holds env m r db = bind_Holds (or_err internal (find r.id db.payments)) _ λ p _.
    if_Holds (same_stage p.stage checks_done) _ _ (λ _. advise_payment-Holds env m r db)
      (λ _. holds unchanged)

run_checks-Effects :
    (env : Env) (m : Moment) (db : Db)
    → Effects env.sha env.sign (books db) (books (run_checks env m db).0)
unfolding run_checks
run_checks-Effects env m db =
    each_row-Effects env.sha env.sign (check_payment env m) (check_payment-Holds env m)
      (due checks_due db) db

recommend_all-Effects :
    (env : Env) (m : Moment) (db : Db)
    → Effects env.sha env.sign (books db) (books (recommend_all env m db).0)
unfolding recommend_all
recommend_all-Effects env m db =
    each_row-Effects env.sha env.sign (recommend_payment env m) (recommend_payment-Holds env m)
      (due advice_due db) db

tick_after-Effects :
    (env : Env) (m : Moment) (b : Db) (t : Db × Option Err)
    → Effects env.sha env.sign (books b) (books t.0)
    → Effects env.sha env.sign (books b) (books (tick_after env m t).0)
tick_after-Effects env m b (db, some e) h = h
tick_after-Effects env m b (db, none) h =
    Effects-trans env.sha env.sign h (recommend_all-Effects env m db)

pub tick-Effects :
    (env : Env) (m : Moment) (db : Db)
    → Effects env.sha env.sign (books db) (books (tick env m db).0)
unfolding tick
tick-Effects env m db =
    tick_after-Effects env m db (run_checks env m db) (run_checks-Effects env m db)
