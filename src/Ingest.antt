-- ===== src/Ingest.antt =====
-- compliance-backend/internal/ingest: deposits, from hints and from the reconciler, into the payment
-- table. The hash of a payment id belongs to go-ethereum and is the parameter `payment_id`.
pub mod Reconciler
pub mod Hint
pub mod Evolution
pub mod Range
use compliance_gateway.Common.{
  ℕ, ◌≤◌, Bool, true, false, ◌&&◌, ◌||◌, Option, none, some, List, [], ◌∷◌, leb, ◌==◌,
  if◌then◌else◌,
}

pub record Deposit : Type 0 where
  pub chain_id : ℕ
  pub tx_hash : ℕ
  pub log_index : ℕ
  pub block_number : ℕ
  pub block_hash : ℕ
  pub block_time : ℕ
  pub token : ℕ
  pub payer : ℕ
  pub to : ℕ
  pub amount : ℕ

pub data Ingest : Type 0 where
  seen confirmed orphaned : Ingest

pub data Stage : Type 0 where
  checks_pending checks_done in_review decided : Stage

-- A row of the table `payment`; `deposit` is what the row holds of the Transfer.
pub record Payment : Type 0 where
  pub deposit : Deposit
  pub ingest : Ingest
  pub stage : Stage
  pub reconstruction : Bool

-- A row of `chain_cursor`.
pub record Cursor : Type 0 where
  pub last_reconciled : ℕ
  pub backfill_until : ℕ

-- The two tables: payments by id, and cursors by chain.
pub record Store : Type 0 where
  pub payments : List (ℕ × Payment)
  pub cursors : ℕ → Option Cursor

unfoldable pub find : ℕ → List (ℕ × Payment) → Option Payment
find id [] = none
find id ((i, p) ∷ ps) = let rest = find id ps in if i == id then some p else rest

-- INSERT … ON CONFLICT (id) DO UPDATE: the row inserted, or the update of the row that is there.
unfoldable pub upsert : ℕ → Payment → (Payment → Payment) → List (ℕ × Payment) → List (ℕ × Payment)
upsert id new update [] = (id, new) ∷ []
upsert id new update ((i, p) ∷ ps) =
    let rest = upsert id new update ps in if i == id then (i, update p) ∷ ps else (i, p) ∷ rest

-- UPDATE of every row.
unfoldable pub update_all : (Payment → Payment) → List (ℕ × Payment) → List (ℕ × Payment)
update_all f [] = []
update_all f ((i, p) ∷ ps) = (i, f p) ∷ update_all f ps

-- Whether the reconciler has passed a block; a chain without a cursor counts as -1.
abbrev pub passed : Option Cursor → ℕ → Bool
passed none block = false
passed (some c) block = leb block c.last_reconciled

module _ (payment_id : ℕ → ℕ → ℕ → ℕ) where
  abbrev pub id_of : Deposit → ℕ
  id_of d = payment_id d.chain_id d.tx_hash d.log_index

  -- The update of a row that is already there: its block, and the status.
  abbrev pub reconfirm : Deposit → Bool → Payment → Payment
  reconfirm d reconstruction p = record p {
    deposit = record p.deposit {
      block_number = d.block_number;
      block_hash = d.block_hash;
      block_time = d.block_time;
    };
    ingest = confirmed;
    reconstruction = p.reconstruction || reconstruction;
  }

  -- `upsertConfirmed`
  unfoldable pub upsert_confirmed : Deposit → Bool → List (ℕ × Payment) → List (ℕ × Payment)
  unfolding upsert
  upsert_confirmed d reconstruction ps =
      upsert (id_of d)
        (record {
          deposit = d;
          ingest = confirmed;
          stage = checks_pending;
          reconstruction = reconstruction;
        })
        (reconfirm d reconstruction) ps

  -- `upsertSeen`
  unfoldable pub upsert_seen : Deposit → Store → Store
  unfolding upsert
  upsert_seen d st = record st {
    payments =
        upsert (id_of d)
          (record {
            deposit = d;
            ingest = if passed (st.cursors d.chain_id) d.block_number then orphaned else seen;
            stage = checks_pending;
            reconstruction = false;
          })
          (λ p. p) st.payments;
  }
