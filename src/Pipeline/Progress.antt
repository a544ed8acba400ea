-- ===== src/Pipeline/Progress.antt =====
-- pipeline.go, `runChecks`: every payment of the round gets past its checks.
use compliance_gateway.Common.{
  ℕ, ◌≡◌, ◌≢◌, refl, sym, ap, subst, ◌⊎◌, false, Option, none, some, List, [], ◌∷◌, All, Result, ok,
  err, Holds, holds, Holds-ok, Holds-map, bind_Holds, arith,
}
use compliance_gateway.Ingest.{Payment, Stage, checks_pending, checks_done, find}
use compliance_gateway.Checks.{run_all}
use compliance_gateway.Pipeline.{Row, Err}
use compliance_gateway.Pipeline.Env.{Env, Moment}
use compliance_gateway.Pipeline.Store.{Db, set_stage}
use compliance_gateway.Pipeline.Checking.{
  amount_eur, insert_checks, screened_of, check_payment, finish_checks, each_row, due, checks_due,
  run_checks, same_stage,
}

-- The payment, if it is there, has its checks behind it.
abbrev pub IsChecked : ℕ → List (ℕ × Payment) → Type 0
IsChecked id ps = (p : Payment) → find id ps ≡ some p → p.stage ≢ checks_pending

set_stage_same :
    (id : ℕ) (s : Stage) (ps : List (ℕ × Payment)) (q : Payment)
    → find id (set_stage id s ps) ≡ some q
    → q.stage ≡ s
unfolding find set_stage
set_stage_same id s [] q h = cc
set_stage_same id s ((i, p) ∷ ps) q h = ground (arith, set_stage_same id s ps q)

set_stage_other :
    (i id : ℕ) (s : Stage) (ps : List (ℕ × Payment)) (q : Payment)
    → find i (set_stage id s ps) ≡ some q
    → (q.stage ≡ s) ⊎ (find i ps ≡ some q)
unfolding find set_stage
set_stage_other i id s [] q h = cc
set_stage_other i id s ((j, p) ∷ ps) q h = ground (arith, set_stage_other i id s ps q)

not_pending : (s : Stage) → same_stage s checks_pending ≡ false → s ≢ checks_pending
not_pending s h = ground arith

finish_checks_same : (id : ℕ) (ps : List (ℕ × Payment)) → IsChecked id (finish_checks id ps)
unfolding finish_checks
finish_checks_same id ps q h =
    ground (arith, set_stage_same id checks_done ps q, not_pending q.stage)

finish_checks_other :
    (i id : ℕ) (ps : List (ℕ × Payment)) → IsChecked i ps → IsChecked i (finish_checks id ps)
unfolding finish_checks
finish_checks_other i id ps c q h = ground (arith, set_stage_other i id checks_done ps q, c q)

check_payment-Holds :
    (env : Env) (m : Moment) (r : Row) (db : Db)
    → Holds (λ db'. db'.payments ≡ finish_checks r.id db.payments) (check_payment env m r db)
unfolding check_payment
check_payment-Holds env m r db = bind_Holds (amount_eur env r) _ λ eur _.
    bind_Holds
      (insert_checks (run_all m.put (env.rfc3339 m.now) (m.replies (screened_of r eur)))
        (db.checks r.id))
      _ λ cs _. holds refl

-- A loop that stops at an error, over steps that each finish their own row and unfinish none.
module _ (P : ℕ → Db → Type 0) where
  row_kept :
      (i : ℕ) (db : Db) (rest : Db → Db × Option Err) (q : Result Err Db)
      → P i db
      → Holds (P i) q
      → ((db' : Db) → P i db' → P i (rest db').0)
      → P i (elim q as (λ _. Db × Option Err) [ err e ↦ (db, some e) | ok db' ↦ rest db' ]).0
  row_kept i db rest (ok db') p (holds h) k = k db' h
  row_kept i db rest (err e) p h k = p

  row_passed :
      (db db' : Db) (rest : Db → Db × Option Err) (q : Result Err Db)
      → (elim q as (λ _. Db × Option Err) [ err e ↦ (db, some e) | ok a ↦ rest a ]) ≡ (db', none)
      → (a : Db) × (q ≡ ok a) × (rest a ≡ (db', none))
  row_passed db db' rest (ok a) h = (a, refl, h)
  row_passed db db' rest (err e) h = cc

  module _ (f : Row → Db → Result Err Db) where
    each_row_kept :
        ((i : ℕ) (r : Row) (db : Db) → P i db → Holds (P i) (f r db))
        → (i : ℕ) (rs : List Row) (db : Db) → P i db
        → P i (each_row f rs db).0
    unfolding each_row
    each_row_kept keeps i [] db p = p
    each_row_kept keeps i (r ∷ rs) db p =
        row_kept i db (each_row f rs) (f r db) p (keeps i r db p) (each_row_kept keeps i rs)

    pub each_row-All :
        ((i : ℕ) (r : Row) (db : Db) → P i db → Holds (P i) (f r db))
        → ((r : Row) (db : Db) → Holds (P r.id) (f r db))
        → (rs : List Row) (db db' : Db) → each_row f rs db ≡ (db', none)
        → All (λ r. P r.id db') rs
    unfolding each_row
    each_row-All keeps does [] db db' h = tt
    each_row-All keeps does (r ∷ rs) db db' h =
        let (a, e, g) = row_passed db db' (each_row f rs) (f r db) h in
        (
          subst (P r.id) (ap (λ x. x.0) g) (each_row_kept keeps r.id rs a (Holds-ok (does r db) e)),
          each_row-All keeps does rs a db' g,
        )

-- When `runChecks` ends without an error, every payment that it read as due has left the stage
-- `checks_pending`.
pub run_checks-IsChecked :
    (env : Env) (m : Moment) (db db' : Db)
    → run_checks env m db ≡ (db', none)
    → All (λ r. IsChecked r.id db'.payments) (due checks_due db)
unfolding run_checks
run_checks-IsChecked env m db db' h =
    each_row-All (λ i d. IsChecked i d.payments) (check_payment env m)
      (λ i r d c.
        Holds-map (check_payment-Holds env m r d)
          λ d' e. subst (IsChecked i) (sym e) (finish_checks_other i r.id d.payments c))
      (λ r d.
        Holds-map (check_payment-Holds env m r d)
          λ d' e. subst (IsChecked r.id) (sym e) (finish_checks_same r.id d.payments))
      (due checks_due db) db db' h
