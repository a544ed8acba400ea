-- ===== src/Ingest/Hint/Envelope.antt =====
-- hint.go: `decodeEnvelope`. What encoding/json makes of the bytes is a parameter, and `SetString` of
-- math/big in base 10 is written out. A time before 1970 does not occur.
use compliance_gateway.Common.{
  ℕ, zero, suc, ◌+◌, ◌-◌, ◌*◌, ◌&&◌, Option, none, some, [], ◌∷◌, leb, ◌==◌, if◌then◌else◌, Result,
  ok, err, ◌>>=◌, ◌>>◌, or_err, require,
}
use compliance_gateway.Text.{Text, codes, text_eq}
use compliance_gateway.Ingest.{Deposit}

-- `envelope`: eventscale's message, with its data as the bytes that base64 stands for.
pub record Envelope : Type 0 where
  pub chain_id : ℕ
  pub contract : ℕ
  pub name : Text
  pub block_number : ℕ
  pub block_hash : ℕ
  pub tx_hash : ℕ
  pub log_index : ℕ
  pub timestamp : ℕ
  pub content : Text  -- `Data`

-- The event that the data holds.
pub record Transfer : Type 0 where
  pub from : ℕ
  pub to : ℕ
  pub value : Text  -- json.Number

-- encoding/json on the two types.
pub record Json : Type 0 where
  pub envelope : Text → Option Envelope
  pub transfer : Text → Option Transfer

pub data EnvelopeErr : Type 0 where
  bad_envelope not_transfer bad_event_data bad_value : EnvelopeErr

-- The digits of a number, most significant first, after those that were read.
unfoldable pub read_digits : ℕ → Text → Option ℕ
read_digits acc [] = some acc
read_digits acc (c ∷ cs) =
    let rest = read_digits (acc * 10 + (c - b'0')) cs in
    if leb b'0' c && leb c b'9' then rest else none

-- At least one digit.
unfoldable pub unsigned : Text → Option ℕ
unfolding read_digits
unsigned [] = none
unsigned (c ∷ cs) = read_digits 0 (c ∷ cs)

-- A number below 0, or its magnitude.
pub data Signed : Type 0 where
  minus plus : ℕ → Signed

-- SetString(…, 10)
unfoldable pub set_string : Text → Option Signed
unfolding unsigned
set_string [] = none
set_string (c ∷ cs) =
    if c == b'-'
    then elim (unsigned cs) [ none ↦ none | some n ↦ some (minus n) ]
    else if c == b'+'
    then elim (unsigned cs) [ none ↦ none | some n ↦ some (plus n) ]
    else elim (unsigned (c ∷ cs)) [ none ↦ none | some n ↦ some (plus n) ]

-- An amount that is not negative; -0 is 0.
unfoldable pub amount_of : Option Signed → Result EnvelopeErr ℕ
amount_of none = err bad_value
amount_of (some (plus n)) = ok n
amount_of (some (minus zero)) = ok 0
amount_of (some (minus (suc n))) = err bad_value

abbrev pub deposit_of : Envelope → Transfer → ℕ → Deposit
deposit_of e t amount = record {
  chain_id = e.chain_id;
  tx_hash = e.tx_hash;
  log_index = e.log_index;
  block_number = e.block_number;
  block_hash = e.block_hash;
  block_time = e.timestamp;
  token = e.contract;
  payer = t.from;
  to = t.to;
  amount = amount;
}

-- `decodeEnvelope`
unfoldable pub decode_envelope : Json → Text → Result EnvelopeErr Deposit
unfolding text_eq set_string amount_of
decode_envelope json raw = do
  e ← or_err bad_envelope (json.envelope raw)
  require (text_eq e.name (codes "Transfer")) not_transfer
  t ← or_err bad_event_data (json.transfer e.content)
  amount ← amount_of (set_string t.value)
  ok (deposit_of e t amount)
