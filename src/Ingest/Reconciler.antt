-- ===== src/Ingest/Reconciler.antt =====
-- reconciler.go: `fetch`, `Step` and `Backfill`. What the node answers is a parameter of each call.
-- The statements of the database are taken to succeed, and block numbers to fit a bigint.
use compliance_gateway.Common.{
  ℕ, ◌+◌, ◌-◌, ◌%◌, min, Bool, true, false, ◌&&◌, ◌||◌, not, Option, none, some, List, [], ◌∷◌, leb,
  ltb, ◌==◌, if◌then◌else◌, Result, ok, err, ◌>>=◌, or_err,
}
use compliance_gateway.Ingest.{
  Deposit, Ingest, seen, orphaned, Payment, Cursor, Store, upsert_confirmed, update_all,
}

-- config.Chain, as far as the reconciler reads it.
pub record Chain : Type 0 where
  pub chain_id : ℕ
  pub confirmations : ℕ
  pub chunk : ℕ

pub record Log : Type 0 where
  pub address : ℕ
  pub topics : List ℕ
  pub content_length : ℕ  -- len(l.Data)
  pub content : ℕ  -- l.Data as a number
  pub block_number : ℕ
  pub block_hash : ℕ
  pub tx_hash : ℕ
  pub index : ℕ
  pub removed : Bool

pub record Header : Type 0 where
  pub hash : ℕ
  pub time : ℕ

-- What the node answers in one step: the head, the logs of a range, and headers by number.
pub record Node : Type 0 where
  pub block_number : Option ℕ
  pub filter_logs : ℕ → ℕ → Option (List Log)
  pub header_by_number : ℕ → Option Header

pub data Err : Type 0 where
  no_head no_logs no_header block_changed bad_from_block : Err

abbrev pub u64 : ℕ → ℕ
u64 n = n % 18446744073709551616

-- An address is the low 20 bytes of a topic.
abbrev pub to_address : ℕ → ℕ
to_address t = t % 1461501637330902918203684832716283019655932542976

deposit_of : Chain → Log → Header → ℕ → ℕ → Deposit
deposit_of ch l h payer to = record {
  chain_id = ch.chain_id;
  tx_hash = l.tx_hash;
  log_index = l.index;
  block_number = l.block_number;
  block_hash = l.block_hash;
  block_time = h.time;
  token = l.address;
  payer = to_address payer;
  to = to_address to;
  amount = l.content;
}

-- A log of three topics and one word that was not removed, with its payer and recipient.
transfer_of : Log → Option (ℕ × ℕ)
transfer_of l = elim l.topics [
  | _ ∷ payer ∷ to ∷ [] ↦
      if l.removed || not (l.content_length == 32) then none else some (payer, to)
  | _ ↦ none
]

-- The loop of `fetch`. The cache of headers does not change what a header is.
unfoldable pub read_logs : Chain → (ℕ → Option Header) → List Log → Result Err (List Deposit)
unfolding deposit_of transfer_of
read_logs ch header [] = ok []
read_logs ch header (l ∷ ls) =
    let rest = read_logs ch header ls in
    elim (transfer_of l) [
      | none ↦ rest
      | some (payer, to) ↦ elim (header l.block_number) [
        | none ↦ err no_header
        | some h ↦
            if h.hash == l.block_hash
            then rest >>= (λ ds. ok (deposit_of ch l h payer to ∷ ds))
            else err block_changed
      ]
    ]

unfoldable pub fetch : Chain → Node → ℕ → ℕ → Result Err (List Deposit)
unfolding read_logs
fetch ch node from to =
    or_err no_logs (node.filter_logs from to) >>= λ logs. read_logs ch node.header_by_number logs

abbrev pub is_seen : Ingest → Bool
is_seen seen = true
is_seen _ = false

-- The hints of a reconciled range that it did not confirm.
abbrev pub orphan : ℕ → ℕ → ℕ → Payment → Payment
orphan chain from to p =
    if p.deposit.chain_id == chain
      && (is_seen p.ingest && (leb from p.deposit.block_number && leb p.deposit.block_number to))
    then record p { ingest = orphaned }
    else p

abbrev pub set_cursor : ℕ → Cursor → (ℕ → Option Cursor) → ℕ → Option Cursor
set_cursor chain c cursors i = if i == chain then some c else cursors i

-- INSERT INTO chain_cursor … ON CONFLICT DO NOTHING
abbrev pub open_cursor : ℕ → ℕ → Option Cursor → Cursor
open_cursor chain safe none = record { last_reconciled = safe; backfill_until = 0 }
open_cursor chain safe (some c) = c

abbrev pub first_block : Cursor → ℕ
first_block c = u64 (c.last_reconciled + 1)

abbrev pub last_block : Chain → ℕ → ℕ → ℕ
last_block ch safe from = min safe (u64 (from + ch.chunk + 18446744073709551615))

module _ (payment_id : ℕ → ℕ → ℕ → ℕ) where
  unfoldable pub confirm_all : ℕ → List Deposit → List (ℕ × Payment) → List (ℕ × Payment)
  unfolding upsert_confirmed
  confirm_all until [] ps = ps
  confirm_all until (d ∷ ds) ps =
      confirm_all until ds (upsert_confirmed payment_id d (leb d.block_number until) ps)

  -- The transaction over one fetched range.
  unfoldable pub reconcile_range : Chain → Cursor → ℕ → ℕ → List Deposit → Store → Store
  unfolding confirm_all update_all
  reconcile_range ch c from to deposits st = record {
    payments =
        update_all (orphan ch.chain_id from to) (confirm_all c.backfill_until deposits st.payments);
    cursors = set_cursor ch.chain_id (record c { last_reconciled = to }) st.cursors;
  }

  -- From the cursor on: one range [last+1, min(safe, last+chunk)], if there is one.
  unfoldable pub step_from : Chain → Node → ℕ → Cursor → Store → Store × Result Err Bool
  unfolding fetch reconcile_range
  step_from ch node safe c st =
      let from = first_block c in
      let to = last_block ch safe from in
      if ltb safe from then (st, ok false) else elim (fetch ch node from to) [
        | err e ↦ (st, err e)
        | ok deposits ↦ (reconcile_range ch c from to deposits st, ok (ltb to safe))
      ]

  -- `Step`
  unfoldable pub step : Chain → Node → Store → Store × Result Err Bool
  unfolding step_from
  step ch node st = elim node.block_number [
    | none ↦ (st, err no_head)
    | some head ↦
        if ltb head ch.confirmations
        then (st, ok false)
        else let safe = head - ch.confirmations in
          let c = open_cursor ch.chain_id safe (st.cursors ch.chain_id) in
          step_from ch node safe c (record st { cursors = set_cursor ch.chain_id c st.cursors })
  ]

  -- `Backfill`
  unfoldable pub backfill : Chain → Node → ℕ → Store → Store × Result Err ℕ
  backfill ch node from_block st = elim node.block_number [
    | none ↦ (st, err no_head)
    | some head ↦
        if ltb head ch.confirmations || from_block == 0
        then (st, err bad_from_block)
        else let until = head - ch.confirmations in
          (
            record st {
              cursors =
                  set_cursor ch.chain_id
                    (record { last_reconciled = from_block - 1; backfill_until = until })
                    st.cursors;
            },
            ok until,
          )
  ]
