-- ===== src/Pipeline/Checking.antt =====
-- pipeline.go: `runChecks`, which commits one payment at a time, so that an error keeps what was
-- committed before it. A payment's checks are not run again.
use compliance_gateway.Common.{
  ℕ, zero, suc, Bool, true, false, ◌&&◌, ◌||◌, Option, none, some, List, [], ◌∷◌, ◌++◌, leb, ltb,
  ◌==◌, any, if◌then◌else◌, Result, ok, err, ◌>>=◌, ◌>>◌, require, map_err,
}
use compliance_gateway.Text.{Text, codes, text_eq}
use compliance_gateway.Rat.{pos}
use compliance_gateway.Checks.{Screened, CheckResult, run_all}
use compliance_gateway.Checks.Structuring.{eur_text}
use compliance_gateway.Evidence.Builder.{round_trip_fields}
use compliance_gateway.Ingest.{
  Payment, Ingest, confirmed, orphaned, Stage, checks_pending, checks_done, in_review, decided,
  find,
}
use compliance_gateway.Pipeline.{Row, Err, internal}
use compliance_gateway.Pipeline.Env.{Env, Moment}
use compliance_gateway.Pipeline.Store.{Db, CheckRow, at, row_of, set_stage}
use compliance_gateway.Pipeline.Sections.{token_of}
use compliance_gateway.Pipeline.Snapshot.{check_of}

abbrev pub same_stage : Stage → Stage → Bool
same_stage checks_pending checks_pending = true
same_stage checks_done checks_done = true
same_stage in_review in_review = true
same_stage decided decided = true
same_stage _ _ = false

abbrev pub is_confirmed : Ingest → Bool
is_confirmed confirmed = true
is_confirmed _ = false

abbrev pub is_live : Ingest → Bool
is_live orphaned = false
is_live _ = true

-- `amountEUR`
unfoldable pub amount_eur : Env → Row → Result Err Text
unfolding token_of eur_text
amount_eur env r = do
  c ← token_of env.config r
  map_err (λ _. internal)
      (eur_text env.set_string (λ t. env.set_string (env.string_of t)) env.float_string
        (pos r.amount) c.1.decimals c.1.eur_rate)

-- ORDER BY block_number, log_index
abbrev pub before : Row → Row → Bool
before a b =
    ltb a.block_number b.block_number
    || (a.block_number == b.block_number && leb a.log_index b.log_index)

unfoldable pub insert_row : Row → List Row → List Row
insert_row r [] = r ∷ []
insert_row r (s ∷ ss) = let rest = insert_row r ss in if before r s then r ∷ s ∷ ss else s ∷ rest

unfoldable pub matching : (Payment → Bool) → List (ℕ × Payment) → List Row
unfolding insert_row
matching p [] = []
matching p ((i, x) ∷ xs) =
    let rest = matching p xs in if p x then insert_row (row_of i x) rest else rest

abbrev pub first_rows : ℕ → List Row → List Row
first_rows zero rs = []
first_rows (suc n) [] = []
first_rows (suc n) (r ∷ rs) = r ∷ first_rows n rs

-- `due`, LIMIT 50
unfoldable pub due : (Payment → Bool) → Db → List Row
unfolding matching
due p db = first_rows 50 (matching p db.payments)

abbrev pub screened_of : Row → Text → Screened
screened_of r eur = record {
  id = r.id;
  chain_id = r.chain_id;
  block_number = r.block_number;
  block_time = r.block_time;
  token = r.token;
  payer = r.payer;
  deposit = r.deposit;
  amount = r.amount;
  amount_eur = eur;
}

abbrev pub check_row : CheckResult → CheckRow
check_row c = record {
  kind = c.kind;
  provider = c.provider;
  product = c.product;
  outcome = c.outcome;
  section = round_trip_fields c.section;
  raw_sha256 = if text_eq c.raw_sha256 [] then none else some c.raw_sha256;
  performed_at = elim c.performed_at [ none ↦ [] | some t ↦ t ];
}

abbrev pub check_kinds : List Text
check_kinds = codes "kyt" ∷ codes "sanctions" ∷ codes "structuring" ∷ codes "issuer" ∷ []

-- INSERT INTO check_result … ON CONFLICT (payment_id, kind) DO NOTHING, of a kind that the table takes.
unfoldable pub insert_checks : List CheckResult → List CheckRow → Result Err (List CheckRow)
unfolding check_of text_eq round_trip_fields
insert_checks [] rows = ok rows
insert_checks (c ∷ cs) rows =
    require (any (λ k. text_eq k c.kind) check_kinds) internal >> elim (check_of c.kind rows) [
      | some old ↦ insert_checks cs rows
      | none ↦ insert_checks cs (rows ++ check_row c ∷ [])
    ]

-- UPDATE payment SET stage = 'checks_done' WHERE id = … AND stage = 'checks_pending'
unfoldable pub finish_checks : ℕ → List (ℕ × Payment) → List (ℕ × Payment)
unfolding find set_stage
finish_checks id ps = elim (find id ps) [
  | none ↦ ps
  | some p ↦ if same_stage p.stage checks_pending then set_stage id checks_done ps else ps
]

-- One payment of `runChecks`.
unfoldable pub check_payment : Env → Moment → Row → Db → Result Err Db
unfolding amount_eur run_all insert_checks finish_checks
check_payment env m r db = do
  eur ← amount_eur env r
  cs ←
      insert_checks (run_all m.put (env.rfc3339 m.now) (m.replies (screened_of r eur)))
        (db.checks r.id)
  ok (record db { checks = at r.id cs db.checks; payments = finish_checks r.id db.payments })

-- A loop over the due payments that commits each.
unfoldable pub each_row : (Row → Db → Result Err Db) → List Row → Db → Db × Option Err
each_row f [] db = (db, none)
each_row f (r ∷ rs) db = elim (f r db) [ err e ↦ (db, some e) | ok db' ↦ each_row f rs db' ]

abbrev pub checks_due : Payment → Bool
checks_due p = same_stage p.stage checks_pending && is_live p.ingest

abbrev pub advice_due : Payment → Bool
advice_due p = same_stage p.stage checks_done && is_confirmed p.ingest

-- `runChecks`
unfoldable pub run_checks : Env → Moment → Db → Db × Option Err
unfolding due check_payment each_row
run_checks env m db = each_row (check_payment env m) (due checks_due db) db
