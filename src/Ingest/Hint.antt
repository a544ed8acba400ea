-- ===== src/Ingest/Hint.antt =====
-- hint.go: what `handle` does with one eventscale message. Whether the database takes the row is an
-- argument, `written`.
pub mod Envelope
pub mod Consumer
pub mod Delivered
pub mod Written
pub mod Attempts
use compliance_gateway.Common.{
  ℕ, Bool, true, false, not, ◌||◌, List, [], ◌∷◌, ◌==◌, if◌then◌else◌, Result, ok, err,
}
use compliance_gateway.Text.{Text}
use compliance_gateway.Ingest.{Deposit, Store, upsert_seen}
use Envelope.{Json, EnvelopeErr, decode_envelope}

-- How the message is acknowledged: `nak` asks for it again.
pub data Ack : Type 0 where
  term ack nak : Ack

-- The watched addresses of one chain.
pub record Watched : Type 0 where
  pub chain_id : ℕ
  pub tokens : List ℕ
  pub deposits : List ℕ

unfoldable pub has : ℕ → List ℕ → Bool
has a [] = false
has a (x ∷ xs) = x == a || has a xs

-- A deposit that is none of the chain's.
unfoldable pub is_ignored : Watched → Deposit → Bool
unfolding has
is_ignored ch d =
    not (has d.to ch.deposits) || (not (has d.token ch.tokens) || not (d.chain_id == ch.chain_id))

-- What is done with a message once it is decoded, or is not.
unfoldable pub deliver :
    (ℕ → ℕ → ℕ → ℕ) → Bool → Watched → Result EnvelopeErr Deposit → Store → Store × Ack
unfolding is_ignored upsert_seen
deliver payment_id written ch (err e) st = (st, term)
deliver payment_id written ch (ok d) st =
    if is_ignored ch d
    then (st, ack)
    else if written
    then (upsert_seen payment_id d st, ack)
    else (st, nak)

-- `handle`
unfoldable pub handle : (ℕ → ℕ → ℕ → ℕ) → Json → Bool → Watched → Text → Store → Store × Ack
unfolding deliver decode_envelope
handle payment_id json written ch raw st =
    deliver payment_id written ch (decode_envelope json raw) st
