-- ===== src/Examples/Ingesting.antt =====
-- hint.go and reconciler.go at a concrete chain.
use compliance_gateway.Common.{ℕ, ◌+◌, ◌<◌, ◌≡◌, refl, none, some, [], ◌∷◌, false, true, arith}
use compliance_gateway.Ingest.{Deposit, Payment, Cursor, Store, seen, checks_pending, find}
use compliance_gateway.Ingest.Reconciler.{Chain, Node, step}
use compliance_gateway.Ingest.Hint.{Watched, handle}
use compliance_gateway.Ingest.Hint.Envelope.{Json}
use compliance_gateway.Text.{codes}
use compliance_gateway.Ingest.Evolution.{
  hint, reconcile, backfill_from, happen_all, Evolves, payment_survives,
}
use compliance_gateway.Ingest.Range.{step-seen_above, IsSettled}

abbrev pub payment_id : ℕ → ℕ → ℕ → ℕ
payment_id chain tx index = tx + index

abbrev pub deposit : Deposit
deposit = record {
  chain_id = 1;
  tx_hash = 70;
  log_index = 2;
  block_number = 60;
  block_hash = 8;
  block_time = 1000;
  token = 5;
  payer = 6;
  to = 7;
  amount = 900;
}

abbrev hinted : Payment
hinted = record { deposit = deposit; ingest = seen; stage = checks_pending; reconstruction = false }

abbrev cursor : Cursor
cursor = record { last_reconciled = 50; backfill_until = 0 }

abbrev pub store : Store
store = record { payments = (72, hinted) ∷ []; cursors = λ i. some cursor }

abbrev chain : Chain
chain = record { chain_id = 1; confirmations = 10; chunk = 5 }

abbrev pub watched : Watched
watched = record { chain_id = 1; tokens = 5 ∷ []; deposits = 7 ∷ [] }

-- A message about the deposit, whatever its bytes are.
abbrev pub json : Json
json = record {
  envelope = λ raw. some (record {
    chain_id = 1;
    contract = 5;
    name = codes "Transfer";
    block_number = 60;
    block_hash = 8;
    tx_hash = 70;
    log_index = 2;
    timestamp = 1000;
    content = [];
  });
  transfer = λ content. some (record { from = 6; to = 7; value = codes "900" });
}

-- The head is block 68, and no range has a log.
abbrev node : Node
node = record {
  block_number = some 68;
  filter_logs = λ from to. some [];
  header_by_number = λ n. none;
}

hinted_found : find 72 store.payments ≡ some hinted
unfolding find
hinted_found = refl

payment_survives_example :
    (q : Payment) × (find 72
        (happen_all payment_id
          (hint json true watched [] ∷ reconcile chain node ∷ backfill_from chain node 3 ∷ [])
          store).payments
      ≡ some q)
    × Evolves hinted q
payment_survives_example =
    payment_survives payment_id
      (hint json true watched [] ∷ reconcile chain node ∷ backfill_from chain node 3 ∷ []) store 72
      hinted hinted_found

store-IsSettled : IsSettled 1 store
unfolding find
store-IsSettled c e i p f h q = ground arith

-- The step reconciles blocks 51 to 55, which leaves the hint at block 60 for a later one.
step_cursor :
    (step payment_id chain node store).0.cursors 1
    ≡ some (record { last_reconciled = 55; backfill_until = 0 })
unfolding step
step_cursor = refl

step_kept : find 72 (step payment_id chain node store).0.payments ≡ some hinted
unfolding step find
step_kept = refl

step-seen_above_example : 55 < 60
step-seen_above_example =
    step-seen_above payment_id chain node store cursor
      (record { last_reconciled = 55; backfill_until = 0 }) 72 hinted refl (omega arith)
      store-IsSettled step_cursor step_kept refl refl

handled_cursor : (handle payment_id json true watched [] store).0.cursors 1 ≡ some cursor
unfolding handle
handled_cursor = refl

handled_kept : find 72 (handle payment_id json true watched [] store).0.payments ≡ some hinted
unfolding handle find
handled_kept = refl
