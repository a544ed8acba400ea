-- ===== src/Ingest/Hint/Delivered.antt =====
-- hint.go: what an acknowledgement means, and a message that is delivered again.
use compliance_gateway.Common.{
  ℕ, ◌≡◌, ◌≢◌, refl, sym, ap, ◌∙◌, inl, inr, Bool, true, false, some, List, [], ◌∷◌, arith,
  Bool-cases, Result, ok, err, ◌==◌,
}
use compliance_gateway.Text.{Text}
use compliance_gateway.Ingest.{Deposit, Payment, Store, find, upsert, upsert_seen, id_of}
use compliance_gateway.Ingest.Hint.{ack, Watched, is_ignored, deliver, handle}
use compliance_gateway.Ingest.Hint.Envelope.{Json, EnvelopeErr, decode_envelope}

upsert_self :
    (id : ℕ) (new : Payment) (u : Payment → Payment) (ps : List (ℕ × Payment))
    → (p : Payment) × (find id (upsert id new u ps) ≡ some p)
unfolding find upsert
upsert_self id new u [] = (new, ground arith)
upsert_self id new u ((j, p) ∷ ps) = elim (Bool-cases (j == id)) [
  | inl y ↦ (u p, ground arith)
  | inr z ↦ let (q, h) = upsert_self id new u ps in (q, ground arith)
]

-- A row that is there is left as it is.
upsert_there :
    (id : ℕ) (new p : Payment) (ps : List (ℕ × Payment))
    → find id ps ≡ some p
    → upsert id new (λ q. q) ps ≡ ps
unfolding find upsert
upsert_there id new p [] h = cc
upsert_there id new p ((j, q) ∷ ps) h = elim (Bool-cases (j == id)) [
  | inl y ↦ ground arith
  | inr z ↦ ground (arith, upsert_there id new p ps (ground arith))
]

with_payments : Store → List (ℕ × Payment) → Store
with_payments st ps = record st { payments = ps }

module _ (payment_id : ℕ → ℕ → ℕ → ℕ) where
  upsert_seen_twice :
      (d : Deposit) (st : Store)
      → upsert_seen payment_id d (upsert_seen payment_id d st) ≡ upsert_seen payment_id d st
  unfolding upsert_seen
  upsert_seen_twice d st =
      let (p, h) = upsert_self (id_of payment_id d) _ (λ q. q) st.payments in
      ap (λ ps. record st { payments = ps }) (upsert_there (id_of payment_id d) _ p _ h)

  deliver_acked :
      (written : Bool) (ch : Watched) (d : Deposit) (st : Store)
      → is_ignored ch d ≡ false
      → (deliver payment_id written ch (ok d) st).1 ≡ ack
      → (p : Payment) × (find
            (id_of payment_id d)
            (deliver payment_id written ch (ok d) st).0.payments
          ≡ some p)
  unfolding deliver upsert_seen
  deliver_acked false ch d st i h = absurd (ground arith)
  deliver_acked true ch d st i h = rw i (upsert_self (id_of payment_id d) _ (λ q. q) st.payments)

  deliver_refused :
      (written : Bool) (ch : Watched) (m : Result EnvelopeErr Deposit) (st : Store)
      → (deliver payment_id written ch m st).1 ≢ ack
      → (deliver payment_id written ch m st).0 ≡ st
  unfolding deliver
  deliver_refused written ch (err e) st n = refl
  deliver_refused written ch (ok d) st n = ground arith

  deliver_twice :
      (written : Bool) (ch : Watched) (m : Result EnvelopeErr Deposit) (st : Store)
      → deliver payment_id true ch m (deliver payment_id written ch m st).0
        ≡ deliver payment_id true ch m st
  unfolding deliver
  deliver_twice written ch (err e) st = refl
  deliver_twice written ch (ok d) st = elim (Bool-cases (is_ignored ch d)) [
    | inl y ↦ rw y refl
    | inr n ↦ rw n (elim (Bool-cases written) [
      | inl y ↦ rw y (ap (λ (s : Store). (s, ack)) (upsert_seen_twice d st))
      | inr z ↦ rw z refl
    ])
  ]

  -- When a message that decodes to a deposit of the chain is acknowledged, the payment table has a row
  -- under the deposit's id.
  pub handle_acked :
      (json : Json) (written : Bool) (ch : Watched) (raw : Text) (d : Deposit) (st : Store)
      → decode_envelope json raw ≡ ok d
      → is_ignored ch d ≡ false
      → (handle payment_id json written ch raw st).1 ≡ ack
      → (p : Payment) × (find
            (id_of payment_id d)
            (handle payment_id json written ch raw st).0.payments
          ≡ some p)
  unfolding handle
  handle_acked json written ch raw d st e i h = rw e (
      deliver_acked written ch d st i
        (sym (ap (λ m. (deliver payment_id written ch m st).1) e) ∙ h))

  -- A message that is not acknowledged changes nothing.
  pub handle_refused :
      (json : Json) (written : Bool) (ch : Watched) (raw : Text) (st : Store)
      → (handle payment_id json written ch raw st).1 ≢ ack
      → (handle payment_id json written ch raw st).0 ≡ st
  unfolding handle
  handle_refused json written ch raw st n =
      deliver_refused written ch (decode_envelope json raw) st n

  -- A message that is delivered again, after any first outcome, ends as if it had been delivered once:
  -- with the same tables and the same acknowledgement as when the database takes the row at once.
  pub handle_twice :
      (json : Json) (written : Bool) (ch : Watched) (raw : Text) (st : Store)
      → handle payment_id json true ch raw (handle payment_id json written ch raw st).0
        ≡ handle payment_id json true ch raw st
  unfolding handle
  handle_twice json written ch raw st = deliver_twice written ch (decode_envelope json raw) st
