-- ===== src/Examples/Hinting.antt =====
-- hint.go at a message, and at some attempts to consume.
use compliance_gateway.Common.{◌≡◌, ◌≢◌, refl, true, false, some, List, [], ◌∷◌, ok, err, ◌*◌}
use compliance_gateway.Text.{codes}
use compliance_gateway.Config.{Config, ChainConfig, Token}
use compliance_gateway.Ingest.{Payment, Store, find}
use compliance_gateway.Ingest.Hint.{handle, ack, is_ignored}
use compliance_gateway.Ingest.Hint.Envelope.{
  Json, decode_envelope, set_string, amount_of, bad_value,
}
use compliance_gateway.Ingest.Hint.Consumer.{Nats, degraded, healthy, consume, run, second}
use compliance_gateway.Ingest.Hint.Delivered.{handle_acked, handle_twice}
use compliance_gateway.Ingest.Hint.Written.{envelope_of, transfer_of, decode_envelope-envelope_of}
use compliance_gateway.Ingest.Hint.Attempts.{run-waits}
use compliance_gateway.Examples.Ingesting.{payment_id, deposit, store, watched, json}
use compliance_gateway.Examples.Serving.{processor_config}

abbrev empty_store : Store
empty_store = record store { payments = [] }

decoded : decode_envelope json [] ≡ ok deposit
unfolding decode_envelope
decoded = refl

own : is_ignored watched deposit ≡ false
unfolding is_ignored
own = refl

acked : (handle payment_id json true watched [] empty_store).1 ≡ ack
unfolding handle
acked = refl

handle_acked_example :
    (p : Payment) × (find 72 (handle payment_id json true watched [] empty_store).0.payments
      ≡ some p)
handle_acked_example =
    handle_acked payment_id json true watched [] deposit empty_store decoded own acked

-- The database refuses the row first.
handle_twice_example :
    handle payment_id json true watched [] (handle payment_id json false watched [] empty_store).0
    ≡ handle payment_id json true watched [] empty_store
handle_twice_example = handle_twice payment_id json false watched [] empty_store

-- encoding/json that always reads this envelope and its event.
abbrev writer : Json
writer = record {
  envelope = λ raw. some (envelope_of deposit (codes "{}"));
  transfer = λ content. some (transfer_of deposit);
}

decode_envelope-envelope_of_example : decode_envelope writer [] ≡ ok deposit
decode_envelope-envelope_of_example =
    decode_envelope-envelope_of writer [] (codes "{}") deposit refl refl

-- A value below 0, and one with a fraction, are refused.
negative : amount_of (set_string (codes "-1")) ≡ err bad_value
unfolding set_string amount_of
negative = refl

fraction : amount_of (set_string (codes "1.5")) ≡ err bad_value
unfolding set_string amount_of
fraction = refl

abbrev aliased : List Token → List Token
aliased [] = []
aliased (t ∷ ts) = record t { eventscale_alias = "eure" } ∷ aliased ts

abbrev hinted_chain : ChainConfig → ChainConfig
hinted_chain ch = record ch { eventscale_network = "base"; tokens = aliased ch.tokens }

abbrev hinted_chains : List ChainConfig → List ChainConfig
hinted_chains [] = []
hinted_chains (ch ∷ chs) = hinted_chain ch ∷ hinted_chains chs

abbrev hinting : Config
hinting = record processor_config {
  nats_url = "nats://localhost:4222";
  chains = hinted_chains processor_config.chains;
}

-- NATS runs every consumer, and closes the connection after a while.
abbrev nats : Nats
nats = record {
  connects = true;
  has_stream = true;
  creates = λ c. true;
  consumes = λ c. true;
  closes = true;
}

run-waits_example :
    (run codes hinting ((nats, false) ∷ (nats, false) ∷ (nats, true) ∷ [])).waited
    ≡ 2 * second ∷ second ∷ []
run-waits_example = run-waits codes hinting ((nats, false) ∷ (nats, false) ∷ (nats, true) ∷ []) refl

not_yet : degraded ≢ healthy
not_yet e = cc

now_healthy : (consume codes hinting nats degraded).1 ≡ healthy
unfolding consume
now_healthy = refl
