-- ===== src/Ingest/Range.antt =====
-- What a chain's cursor promises of the hints at or below it (reconciler.go, hint.go).
use compliance_gateway.Common.{
  ℕ, ◌-◌, ◌<◌, ◌≡◌, refl, sym, ap, ◌∙◌, ◌⊎◌, inl, inr, Bool, true, false, some, List, [], ◌∷◌,
  arith, Bool-cases, Option-cases, if◌then◌else◌, ◌==◌, Result, ok, err, leb, ltb,
}
use compliance_gateway.Ingest.{
  Deposit, seen, confirmed, orphaned, Payment, Cursor, Store, find, update_all, upsert_confirmed,
  upsert_seen, reconfirm, id_of, checks_pending, passed,
}
use compliance_gateway.Ingest.Reconciler.{
  Chain, Node, Err, step, step_from, confirm_all, reconcile_range, orphan, fetch, first_block,
  last_block, set_cursor,
}
use compliance_gateway.Ingest.Hint.{Watched, handle, deliver, is_ignored}
use compliance_gateway.Ingest.Hint.Envelope.{Json, EnvelopeErr, decode_envelope}
use compliance_gateway.Text.{Text}
use compliance_gateway.Ingest.Evolution.{find-upsert, find-update_all}

-- Every row of the chain that is still `seen` lies above a block.
abbrev SeenAbove : ℕ → ℕ → List (ℕ × Payment) → Type 0
SeenAbove chain block ps =
    (i : ℕ) (p : Payment)
    → find i ps ≡ some p
    → p.deposit.chain_id ≡ chain
    → p.ingest ≡ seen
    → block < p.deposit.block_number

-- A chain without a cursor promises nothing.
abbrev pub IsSettled : ℕ → Store → Type 0
IsSettled chain st =
    (c : Cursor) → st.cursors chain ≡ some c → SeenAbove chain c.last_reconciled st.payments

module _ (payment_id : ℕ → ℕ → ℕ → ℕ) where
  upsert_confirmed-seen :
      (d : Deposit) (b : Bool) (ps : List (ℕ × Payment)) (i : ℕ) (p : Payment)
      → find i (upsert_confirmed payment_id d b ps) ≡ some p
      → p.ingest ≡ seen
      → find i ps ≡ some p
  unfolding upsert_confirmed
  upsert_confirmed-seen d b ps i p e s =
      let new : Payment = record {
        deposit = d;
        ingest = confirmed;
        stage = checks_pending;
        reconstruction = b;
      } in
      elim (Option-cases (find (id_of payment_id d) ps)) [
        | inl n ↦
            ground (arith, find-upsert (id_of payment_id d) i new (reconfirm payment_id d b) ps)
        | inr (q, y) ↦
            ground (arith, find-upsert (id_of payment_id d) i new (reconfirm payment_id d b) ps)
      ]

  confirm_all-seen :
      (until : ℕ) (ds : List Deposit) (ps : List (ℕ × Payment)) (i : ℕ) (p : Payment)
      → find i (confirm_all payment_id until ds ps) ≡ some p
      → p.ingest ≡ seen
      → find i ps ≡ some p
  unfolding confirm_all
  confirm_all-seen until [] ps i p e s = e
  confirm_all-seen until (d ∷ ds) ps i p e s =
      upsert_confirmed-seen d (leb d.block_number until) ps i p
        (confirm_all-seen until ds (upsert_confirmed payment_id d (leb d.block_number until) ps) i p
          e s)
        s

  orphan-seen :
      (chain from to : ℕ) (p q : Payment)
      → orphan chain from to p ≡ q
      → q.deposit.chain_id ≡ chain
      → q.ingest ≡ seen
      → (p ≡ q) × ((p.deposit.block_number < from) ⊎ (to < p.deposit.block_number))
  orphan-seen chain from to p q e h s = ground arith

  orphan_all-SeenAbove :
      (chain from to : ℕ) (ps : List (ℕ × Payment))
      → SeenAbove chain (from - 1) ps
      → 0 < from
      → SeenAbove chain to (update_all (orphan chain from to) ps)
  orphan_all-SeenAbove chain from to ps a l i p e h s = elim (Option-cases (find i ps)) [
    | inl n ↦ ground (arith, find-update_all i (orphan chain from to) ps)
    | inr (q, y) ↦
        let eq : orphan chain from to q ≡ p =
          ground (arith, find-update_all i (orphan chain from to) ps) in
        let (same, out) = orphan-seen chain from to q p eq h s in
        let above = a i q y (ap (λ r. r.deposit.chain_id) same ∙ h) (ap (λ r. r.ingest) same ∙ s) in
        let there = ap (λ r. r.deposit.block_number) same in ground arith
  ]

  reconcile_range-IsSettled :
      (ch : Chain) (c : Cursor) (from to : ℕ) (ds : List Deposit) (st : Store)
      → SeenAbove ch.chain_id (from - 1) st.payments
      → 0 < from
      → IsSettled ch.chain_id (reconcile_range payment_id ch c from to ds st)
  unfolding reconcile_range
  reconcile_range-IsSettled ch c from to ds st a l d e i p f h s =
      let at : d.last_reconciled ≡ to = ground arith in
      let above =
        orphan_all-SeenAbove ch.chain_id from to
          (confirm_all payment_id c.backfill_until ds st.payments)
          (λ j q g h' s'. a j q (confirm_all-seen c.backfill_until ds st.payments j q g s') h' s') l
          i p f h s in
      ground arith

  stepped-IsSettled :
      (ch : Chain) (c : Cursor) (from to safe : ℕ) (st : Store) (b : Bool)
      (r : Result Err (List Deposit))
      → SeenAbove ch.chain_id (from - 1) st.payments
      → 0 < from
      → IsSettled ch.chain_id st
      → IsSettled ch.chain_id
          (if◌then◌else◌ {A = Store × Result Err Bool} b
            (st, ok false)
            (elim r [
              | err e ↦ (st, err e)
              | ok deposits ↦
                  (reconcile_range payment_id ch c from to deposits st, ok (ltb to safe))
            ])).0
  stepped-IsSettled ch c from to safe st true r a l s = s
  stepped-IsSettled ch c from to safe st false (err e) a l s = s
  stepped-IsSettled ch c from to safe st false (ok ds) a l s =
      reconcile_range-IsSettled ch c from to ds st a l

  step_from-IsSettled :
      (ch : Chain) (node : Node) (safe : ℕ) (c : Cursor) (st : Store)
      → st.cursors ch.chain_id ≡ some c
      → c.last_reconciled < 18446744073709551615
      → IsSettled ch.chain_id st
      → IsSettled ch.chain_id (step_from payment_id ch node safe c st).0
  unfolding step_from
  step_from-IsSettled ch node safe c st e l s =
      stepped-IsSettled ch c (first_block c) (last_block ch safe (first_block c)) safe st _
        (fetch ch node (first_block c) (last_block ch safe (first_block c)))
        (λ i p f h q. let above = s c e i p f h q in ground arith) (ground arith) s

  IsSettled-along : (chain : ℕ) (a b : Store) → b ≡ a → IsSettled chain a → IsSettled chain b
  IsSettled-along chain a b e s c f i p g =
      s c (sym (ap (λ t. t.cursors chain) e) ∙ f) i p (sym (ap (λ t. find i t.payments) e) ∙ g)

  step-IsSettled :
      (ch : Chain) (node : Node) (st : Store) (c : Cursor)
      → st.cursors ch.chain_id ≡ some c
      → c.last_reconciled < 18446744073709551615
      → IsSettled ch.chain_id st
      → IsSettled ch.chain_id (step payment_id ch node st).0
  unfolding step
  step-IsSettled ch node st c e l s = elim (Option-cases node.block_number) [
    | inl n ↦ IsSettled-along ch.chain_id st (step payment_id ch node st).0 (ground arith) s
    | inr (head, n) ↦ elim (Bool-cases (ltb head ch.confirmations)) [
      | inl y ↦ IsSettled-along ch.chain_id st (step payment_id ch node st).0 (ground arith) s
      | inr y ↦
          let opened : Store = record st { cursors = set_cursor ch.chain_id c st.cursors } in
          IsSettled-along ch.chain_id
            (step_from payment_id ch node (head - ch.confirmations) c opened).0
            (step payment_id ch node st).0 (ground arith)
            (step_from-IsSettled ch node (head - ch.confirmations) c opened (ground arith) l
              (λ d f i p g h q. let above = s c e i p g h q in ground arith))
    ]
  ]

  hinted-above :
      (chain : ℕ) (d : Deposit) (st : Store) (p : Payment) (b : Bool) (c : Cursor)
      → st.cursors chain ≡ some c
      → passed (st.cursors d.chain_id) d.block_number ≡ b
      → p ≡ record {
        deposit = d;
        ingest = if b then orphaned else seen;
        stage = checks_pending;
        reconstruction = false;
      }
      → p.deposit.chain_id ≡ chain
      → p.ingest ≡ seen
      → c.last_reconciled < p.deposit.block_number
  hinted-above chain d st p b c e t g h q =
      let same = ap (λ r. r.deposit) g in
      let status = ap (λ r. r.ingest) g in
      let own : st.cursors d.chain_id ≡ some c =
        ap st.cursors (sym (ap (λ r. r.chain_id) same) ∙ h) ∙ e in
      let test : passed (some c) d.block_number ≡ b =
        ap (λ o. passed o d.block_number) (sym own) ∙ t in
      let number = ap (λ r. r.block_number) same in ground arith

  upsert_seen-IsSettled :
      (chain : ℕ) (d : Deposit) (st : Store)
      → IsSettled chain st
      → IsSettled chain (upsert_seen payment_id d st)
  unfolding upsert_seen
  upsert_seen-IsSettled chain d st s c e i p f h q =
      let new : Payment = record {
        deposit = d;
        ingest = if passed (st.cursors d.chain_id) d.block_number then orphaned else seen;
        stage = checks_pending;
        reconstruction = false;
      } in
      let found = find-upsert (id_of payment_id d) i new (λ r. r) st.payments in
      elim (Bool-cases (id_of payment_id d == i)) [
        | inl y ↦ elim (Option-cases (find i st.payments)) [
          | inl n ↦
              hinted-above chain d st p (passed (st.cursors d.chain_id) d.block_number) c e refl
                (ground arith) h q
          | inr (r, g) ↦ s c e i p (ground arith) h q
        ]
        | inr y ↦ s c e i p (ground arith) h q
      ]

  deliver-IsSettled :
      (chain : ℕ) (written : Bool) (w : Watched) (m : Result EnvelopeErr Deposit) (st : Store)
      → IsSettled chain st
      → IsSettled chain (deliver payment_id written w m st).0
  unfolding deliver
  deliver-IsSettled chain written w (err e) st s = s
  deliver-IsSettled chain written w (ok d) st s = elim (Bool-cases (is_ignored w d)) [
    | inl y ↦ rw y s
    | inr n ↦ rw n (elim (Bool-cases written) [
      | inl y ↦ rw y (upsert_seen-IsSettled chain d st s)
      | inr z ↦ rw z s
    ])
  ]

  -- A step of the reconciler keeps the promise of its chain's cursor: when the chain has a cursor
  -- below the last uint64 and every row of the chain that is still `seen` lies above it, then after
  -- the step, whatever the node answers and whether it fails or not, every row of the chain that is
  -- still `seen` lies above the cursor that the chain has then.
  pub step-seen_above :
      (ch : Chain) (node : Node) (st : Store) (c d : Cursor) (i : ℕ) (p : Payment)
      → st.cursors ch.chain_id ≡ some c
      → c.last_reconciled < 18446744073709551615
      → IsSettled ch.chain_id st
      → (step payment_id ch node st).0.cursors ch.chain_id ≡ some d
      → find i (step payment_id ch node st).0.payments ≡ some p
      → p.deposit.chain_id ≡ ch.chain_id
      → p.ingest ≡ seen
      → d.last_reconciled < p.deposit.block_number
  step-seen_above ch node st c d i p e l s f g h q = step-IsSettled ch node st c e l s d f i p g h q

  -- A message keeps the promise of every chain's cursor: when every row of a chain that is still
  -- `seen` lies above the chain's cursor, then so it does after any message, decodable or not, for
  -- this chain or another, and whether the database takes the row or not.
  pub handle-seen_above :
      (chain : ℕ) (json : Json) (written : Bool) (w : Watched) (raw : Text) (st : Store)
      (d : Cursor) (i : ℕ) (p : Payment)
      → IsSettled chain st
      → (handle payment_id json written w raw st).0.cursors chain ≡ some d
      → find i (handle payment_id json written w raw st).0.payments ≡ some p
      → p.deposit.chain_id ≡ chain
      → p.ingest ≡ seen
      → d.last_reconciled < p.deposit.block_number
  unfolding handle
  handle-seen_above chain json written w raw st d i p s f g h q =
      deliver-IsSettled chain written w (decode_envelope json raw) st s d f i p g h q
