-- ===== src/Ingest/Evolution.antt =====
-- How a payment row changes under any sequence of hints, reconciler steps and backfills
-- (deposit.go, reconciler.go, hint.go).
use compliance_gateway.Common.{
  ℕ, ◌-◌, ◌≡◌, ◌≢◌, refl, ap, ◌∙◌, inl, inr, Bool, true, false, none, some, List, [], ◌∷◌, arith,
  Bool-cases, Option-cases, if◌then◌else◌, ◌==◌, Result, ok, err, leb, ltb,
}
use compliance_gateway.Ingest.{
  Deposit, Ingest, confirmed, orphaned, Payment, Cursor, Store, find, upsert, update_all,
  upsert_confirmed, upsert_seen, reconfirm, id_of,
}
use compliance_gateway.Ingest.Reconciler.{
  Chain, Node, step, step_from, backfill, confirm_all, reconcile_range, orphan, fetch, first_block,
  last_block, open_cursor, set_cursor,
}
use compliance_gateway.Ingest.Reconciler.{is_seen, Err}
use compliance_gateway.Ingest.Hint.{Watched, handle, deliver, is_ignored}
use compliance_gateway.Ingest.Hint.Envelope.{Json, EnvelopeErr, decode_envelope}
use compliance_gateway.Text.{Text}

-- What may become of a row: the transfer stays (chain, transaction, token, payer, recipient, amount),
-- the stage is not touched, and `confirmed` and `reconstruction` are never taken back.
pub record Evolves (p q : Payment) : Type 0 where
  pub same_chain : q.deposit.chain_id ≡ p.deposit.chain_id
  pub same_tx : q.deposit.tx_hash ≡ p.deposit.tx_hash
  pub same_log : q.deposit.log_index ≡ p.deposit.log_index
  pub same_token : q.deposit.token ≡ p.deposit.token
  pub same_payer : q.deposit.payer ≡ p.deposit.payer
  pub same_recipient : q.deposit.to ≡ p.deposit.to
  pub same_amount : q.deposit.amount ≡ p.deposit.amount
  pub same_stage : q.stage ≡ p.stage
  pub stays_confirmed : p.ingest ≡ confirmed → q.ingest ≡ confirmed
  pub stays_reconstruction : p.reconstruction ≡ true → q.reconstruction ≡ true

Evolves-refl : (p : Payment) → Evolves p p
Evolves-refl p = ground arith

Evolves-trans : {p q r : Payment} → Evolves p q → Evolves q r → Evolves p r
Evolves-trans a b = ground arith

-- Every row of the first table has its successor in the second.
abbrev AllEvolve : List (ℕ × Payment) → List (ℕ × Payment) → Type 0
AllEvolve ps qs =
    (i : ℕ) (p : Payment) → find i ps ≡ some p → (q : Payment) × (find i qs ≡ some q) × Evolves p q

AllEvolve-refl : (ps : List (ℕ × Payment)) → AllEvolve ps ps
AllEvolve-refl ps i p e = (p, e, Evolves-refl p)

AllEvolve-trans :
    (ps qs rs : List (ℕ × Payment)) → AllEvolve ps qs → AllEvolve qs rs → AllEvolve ps rs
AllEvolve-trans ps qs rs f g i p e =
    let (q, e', a) = f i p e in let (r, e'', b) = g i q e' in (r, e'', Evolves-trans a b)

pub find-upsert :
    (id i : ℕ) (new : Payment) (u : Payment → Payment) (ps : List (ℕ × Payment))
    → find i (upsert id new u ps)
      ≡ (if id == i then some (elim (find id ps) [ none ↦ new | some p ↦ u p ]) else find i ps)
unfolding find upsert
find-upsert id i new u [] = ground arith
find-upsert id i new u ((j, p) ∷ ps) = ground (arith, find-upsert id i new u ps)

pub find-update_all :
    (i : ℕ) (f : Payment → Payment) (ps : List (ℕ × Payment))
    → find i (update_all f ps) ≡ elim (find i ps) [ none ↦ none | some p ↦ some (f p) ]
unfolding find update_all
find-update_all i f [] = refl
find-update_all i f ((j, p) ∷ ps) = ground (arith, find-update_all i f ps)

upsert-AllEvolve :
    (id : ℕ) (new : Payment) (u : Payment → Payment) (ps : List (ℕ × Payment))
    → ((p : Payment) → Evolves p (u p))
    → AllEvolve ps (upsert id new u ps)
upsert-AllEvolve id new u ps h i p e = elim (Bool-cases (id == i)) [
  | inl y ↦ (u p, ground (arith, find-upsert id i new u ps), h p)
  | inr n ↦ (p, ground (arith, find-upsert id i new u ps), Evolves-refl p)
]

update_all-AllEvolve :
    (f : Payment → Payment) (ps : List (ℕ × Payment))
    → ((p : Payment) → Evolves p (f p))
    → AllEvolve ps (update_all f ps)
update_all-AllEvolve f ps h i p e = (f p, ground (arith, find-update_all i f ps), h p)

AllEvolve-along : (ps qs rs : List (ℕ × Payment)) → rs ≡ qs → AllEvolve ps qs → AllEvolve ps rs
AllEvolve-along ps qs rs e f i p h = let (q, h', a) = f i p h in (q, ap (find i) e ∙ h', a)

AllEvolve-same : (ps qs : List (ℕ × Payment)) → qs ≡ ps → AllEvolve ps qs
AllEvolve-same ps qs e = AllEvolve-along ps ps qs e (AllEvolve-refl ps)

-- What reaches the payment table: a message, a step of the reconciler, a backfill.
pub data Event : Type 0 where
  hint : Json → Bool → Watched → Text → Event
  reconcile : Chain → Node → Event
  backfill_from : Chain → Node → ℕ → Event

module _ (payment_id : ℕ → ℕ → ℕ → ℕ) where
  unfoldable pub happen : Event → Store → Store
  happen (hint json written w raw) st = (handle payment_id json written w raw st).0
  happen (reconcile ch node) st = (step payment_id ch node st).0
  happen (backfill_from ch node from) st = (backfill payment_id ch node from st).0

  unfoldable pub happen_all : List Event → Store → Store
  unfolding happen
  happen_all [] st = st
  happen_all (e ∷ es) st = happen_all es (happen e st)

  confirm_all-AllEvolve :
      (until : ℕ) (ds : List Deposit) (ps : List (ℕ × Payment))
      → AllEvolve ps (confirm_all payment_id until ds ps)
  unfolding confirm_all upsert_confirmed
  confirm_all-AllEvolve until [] ps = AllEvolve-refl ps
  confirm_all-AllEvolve until (d ∷ ds) ps =
      AllEvolve-trans ps (upsert_confirmed payment_id d (leb d.block_number until) ps)
        (confirm_all payment_id until (d ∷ ds) ps)
        (upsert-AllEvolve (id_of payment_id d) _ (reconfirm payment_id d (leb d.block_number until))
          ps (λ p. ground arith))
        (confirm_all-AllEvolve until ds
          (upsert_confirmed payment_id d (leb d.block_number until) ps))

  orphaned-Evolves :
      (p : Payment) (b : Bool)
      → (b ≡ true → p.ingest ≢ confirmed)
      → Evolves p (if b then record p { ingest = orphaned } else p)
  orphaned-Evolves p true h = ground arith
  orphaned-Evolves p false h = Evolves-refl p

  is_seen-confirmed : (i : Ingest) → is_seen i ≡ true → i ≢ confirmed
  is_seen-confirmed i e = ground arith

  orphan-Evolves : (chain from to : ℕ) (p : Payment) → Evolves p (orphan chain from to p)
  orphan-Evolves chain from to p =
      orphaned-Evolves p _ (λ e. is_seen-confirmed p.ingest (ground arith))

  reconcile_range-AllEvolve :
      (ch : Chain) (c : Cursor) (from to : ℕ) (ds : List Deposit) (st : Store)
      → AllEvolve st.payments (reconcile_range payment_id ch c from to ds st).payments
  unfolding reconcile_range
  reconcile_range-AllEvolve ch c from to ds st =
      AllEvolve-trans st.payments (confirm_all payment_id c.backfill_until ds st.payments) _
        (confirm_all-AllEvolve c.backfill_until ds st.payments)
        (update_all-AllEvolve (orphan ch.chain_id from to) _ (orphan-Evolves ch.chain_id from to))

  stepped-AllEvolve :
      (ch : Chain) (c : Cursor) (from to safe : ℕ) (st : Store) (b : Bool)
      (r : Result Err (List Deposit))
      → AllEvolve st.payments
          (if◌then◌else◌ {A = Store × Result Err Bool} b
            (st, ok false)
            (elim r [
              | err e ↦ (st, err e)
              | ok deposits ↦
                  (reconcile_range payment_id ch c from to deposits st, ok (ltb to safe))
            ])).0.payments
  stepped-AllEvolve ch c from to safe st true r = AllEvolve-refl st.payments
  stepped-AllEvolve ch c from to safe st false (err e) = AllEvolve-refl st.payments
  stepped-AllEvolve ch c from to safe st false (ok ds) =
      reconcile_range-AllEvolve ch c from to ds st

  step_from-AllEvolve :
      (ch : Chain) (node : Node) (safe : ℕ) (c : Cursor) (st : Store)
      → AllEvolve st.payments (step_from payment_id ch node safe c st).0.payments
  unfolding step_from
  step_from-AllEvolve ch node safe c st =
      stepped-AllEvolve ch c (first_block c) (last_block ch safe (first_block c)) safe st _
        (fetch ch node (first_block c) (last_block ch safe (first_block c)))

  step-AllEvolve :
      (ch : Chain) (node : Node) (st : Store)
      → AllEvolve st.payments (step payment_id ch node st).0.payments
  unfolding step
  step-AllEvolve ch node st = elim (Option-cases node.block_number) [
    | inl e ↦ AllEvolve-same st.payments _ (ground arith)
    | inr (head, e) ↦ elim (Bool-cases (ltb head ch.confirmations)) [
      | inl y ↦ AllEvolve-same st.payments _ (ground arith)
      | inr n ↦
          let safe = head - ch.confirmations in
          let c = open_cursor ch.chain_id safe (st.cursors ch.chain_id) in
          AllEvolve-along st.payments _ _ (ground arith) (
            step_from-AllEvolve ch node safe c
              (record st { cursors = set_cursor ch.chain_id c st.cursors }))
    ]
  ]

  deliver-AllEvolve :
      (written : Bool) (w : Watched) (m : Result EnvelopeErr Deposit) (st : Store)
      → AllEvolve st.payments (deliver payment_id written w m st).0.payments
  unfolding deliver upsert_seen
  deliver-AllEvolve written w (err e) st = AllEvolve-refl st.payments
  deliver-AllEvolve written w (ok d) st = elim (Bool-cases (is_ignored w d)) [
    | inl y ↦ rw y (AllEvolve-refl st.payments)
    | inr n ↦ rw n (elim (Bool-cases written) [
      | inl y ↦ rw y (upsert-AllEvolve (id_of payment_id d) _ (λ p. p) _ Evolves-refl)
      | inr z ↦ rw z (AllEvolve-refl st.payments)
    ])
  ]

  happen-AllEvolve : (e : Event) (st : Store) → AllEvolve st.payments (happen e st).payments
  unfolding happen handle backfill upsert_seen
  happen-AllEvolve (hint json written w raw) st =
      deliver-AllEvolve written w (decode_envelope json raw) st
  happen-AllEvolve (reconcile ch node) st = step-AllEvolve ch node st
  happen-AllEvolve (backfill_from ch node from) st = AllEvolve-same st.payments _ (ground arith)

  happen_all-AllEvolve :
      (es : List Event) (st : Store) → AllEvolve st.payments (happen_all es st).payments
  unfolding happen_all
  happen_all-AllEvolve [] st = AllEvolve-refl st.payments
  happen_all-AllEvolve (e ∷ es) st =
      AllEvolve-trans st.payments (happen e st).payments (happen_all (e ∷ es) st).payments
        (happen-AllEvolve e st) (happen_all-AllEvolve es (happen e st))

  -- Whatever hints, reconciler steps and backfills come, in any order and from any chain and with any
  -- answers of the node: a payment that the table holds is still there under its id, its transfer and
  -- its stage are unchanged, and it stays `confirmed` and stays a reconstruction once it is one.
  pub payment_survives :
      (es : List Event) (st : Store) (i : ℕ) (p : Payment)
      → find i st.payments ≡ some p
      → (q : Payment) × (find i (happen_all es st).payments ≡ some q) × Evolves p q
  payment_survives es st i p e = happen_all-AllEvolve es st i p e
