-- ===== src/Ingest/Hint/Written.antt =====
-- hint.go: an envelope that was written for a deposit decodes to it.
use compliance_gateway.Common.{
  ℕ, ◌+◌, ◌-◌, ◌*◌, ◌≡◌, ◌≢◌, refl, ap, sym, ◌∙◌, some, [], ◌∷◌, arith, ok, append-nil,
}
use compliance_gateway.Text.{Text, codes, itoa}
use compliance_gateway.Text.Numerals.{leading, leading-itoa, itoa_ne}
use compliance_gateway.Ingest.{Deposit}
use compliance_gateway.Ingest.Hint.Envelope.{
  Envelope, Transfer, Json, read_digits, set_string, plus, amount_of, decode_envelope,
}

-- The envelope of a deposit around some data, and its event.
abbrev pub envelope_of : Deposit → Text → Envelope
envelope_of d content = record {
  chain_id = d.chain_id;
  contract = d.token;
  name = codes "Transfer";
  block_number = d.block_number;
  block_hash = d.block_hash;
  tx_hash = d.tx_hash;
  log_index = d.log_index;
  timestamp = d.block_time;
  content = content;
}

abbrev pub transfer_of : Deposit → Transfer
transfer_of d = record { from = d.payer; to = d.to; value = itoa d.amount }

read_digits-leading : (a n : ℕ) (s : Text) → leading a s ≡ (n, []) → read_digits a s ≡ some n
unfolding leading read_digits
read_digits-leading a n [] h = ground arith
read_digits-leading a n (c ∷ cs) h = ground (arith, read_digits-leading (a * 10 + (c - b'0')) n cs)

read_digits-itoa : (n : ℕ) → read_digits 0 (itoa n) ≡ some n
unfolding leading
read_digits-itoa n =
    read_digits-leading 0 n (itoa n)
      (ap (leading 0) (sym (append-nil (itoa n))) ∙ leading-itoa n [])

-- A numeral that starts with a sign has no leading digits.
set_string-read :
    (s : Text) (n : ℕ) → s ≢ [] → read_digits 0 s ≡ some n → set_string s ≡ some (plus n)
unfolding set_string read_digits
set_string-read [] n e h = absurd (e refl)
set_string-read (c ∷ cs) n e h = ground arith

-- Reading an envelope and its event that were written for a deposit gives the deposit back, whatever
-- bytes encoding/json takes for them.
pub decode_envelope-envelope_of :
    (json : Json) (raw content : Text) (d : Deposit)
    → json.envelope raw ≡ some (envelope_of d content)
    → json.transfer content ≡ some (transfer_of d)
    → decode_envelope json raw ≡ ok d
unfolding decode_envelope amount_of
decode_envelope-envelope_of json raw content d e t = rw e (
    rw t (
      rw (set_string-read (itoa d.amount) d.amount (itoa_ne d.amount) (read_digits-itoa d.amount))
        refl))
