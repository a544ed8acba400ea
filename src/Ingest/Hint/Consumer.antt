-- ===== src/Ingest/Hint/Consumer.antt =====
-- hint.go: `NewHint`, `ConsumerName`, `consume` and `Run`. What NATS answers in one attempt is an
-- argument, and a duration is in nanoseconds.
use compliance_gateway.Common.{
  ℕ, ◌*◌, min, String, Bool, true, false, List, [], ◌∷◌, ◌++◌, str_eq, if◌then◌else◌, Result, ok,
  err, ◌>>=◌, ◌>>◌, require,
}
use compliance_gateway.Text.{Text, codes, itoa}
use compliance_gateway.Config.{Config, ChainConfig, Token}

pub data HintStatus : Type 0 where
  disabled degraded healthy : HintStatus  -- HintDisabled, HintDegraded, HintOK

pub data ConsumeErr : Type 0 where
  not_connected no_stream no_consumer nothing_configured connection_closed : ConsumeErr

-- `NewHint`
unfoldable pub new_status : Config → HintStatus
new_status cfg = if str_eq cfg.nats_url "" then disabled else degraded

-- A durable consumer: its name, and the subject that it filters.
pub record Consumer : Type 0 where
  pub durable : Text
  pub subject : Text

-- What NATS does in one attempt: whether it connects, gives JetStream, makes each consumer and runs
-- it, and whether the connection closes before the context ends.
pub record Nats : Type 0 where
  pub connects : Bool
  pub has_stream : Bool
  pub creates : Consumer → Bool
  pub consumes : Consumer → Bool
  pub closes : Bool

-- The consumers that run when the first error comes, if one does.
unfoldable pub start : Nats → List Consumer → Result ConsumeErr (List Consumer)
start nats [] = ok []
start nats (c ∷ cs) = do
  require (nats.creates c) no_consumer
  require (nats.consumes c) no_consumer
  rest ← start nats cs
  ok (c ∷ rest)

abbrev pub is_some_running : List Consumer → Bool
is_some_running [] = false
is_some_running (c ∷ cs) = true

abbrev pub second : ℕ
second = 1000000000

-- min(backoff*2, 30s)
unfoldable pub next_backoff : ℕ → ℕ
next_backoff backoff = min (backoff * 2) (30 * second)

-- What `Run` has done: the statuses that it set and the times it waited, the last ones first.
pub record RunState : Type 0 where
  pub status : HintStatus
  pub reported : List HintStatus
  pub backoff : ℕ
  pub waited : List ℕ

abbrev pub run_state : Config → RunState
run_state cfg = record { status = new_status cfg; reported = []; backoff = second; waited = [] }

-- While it waits the status is healthy; it returns when the connection closes or the context ends.
unfoldable pub waiting :
    Bool
    → HintStatus
    → Result ConsumeErr (List Consumer)
    → Result ConsumeErr (Unit {0}) × HintStatus
waiting closes status (err e) = (err e, status)
waiting closes status (ok running) = (if closes then err connection_closed else ok tt, healthy)

module _ (utf8 : String → Text) where
  -- `ConsumerName`
  unfoldable pub consumer_name : ℕ → String → Text
  consumer_name chain_id alias =
      codes "compliance-backend-" ++ (itoa chain_id ++ (codes "-" ++ utf8 alias))

  unfoldable pub consumer_of : ChainConfig → Token → Consumer
  unfolding consumer_name
  consumer_of ch t = record {
    durable = consumer_name ch.chain_id t.eventscale_alias;
    subject =
        codes "eventscale.events."
        ++ (utf8 ch.eventscale_network
            ++ (codes "." ++ (utf8 t.eventscale_alias ++ codes ".Transfer")));
  }

  unfoldable pub token_consumers : ChainConfig → List Token → List Consumer
  unfolding consumer_of
  token_consumers ch [] = []
  token_consumers ch (t ∷ ts) =
      let rest = token_consumers ch ts in
      if str_eq t.eventscale_alias "" then rest else consumer_of ch t ∷ rest

  -- The consumers of the configuration, in the order in which they are made.
  unfoldable pub consumers : List ChainConfig → List Consumer
  unfolding token_consumers
  consumers [] = []
  consumers (ch ∷ chs) =
      let rest = consumers chs in
      if str_eq ch.eventscale_network "" then rest else token_consumers ch ch.tokens ++ rest

  -- `consume` up to where it waits: the consumers that run.
  unfoldable pub started : Config → Nats → Result ConsumeErr (List Consumer)
  unfolding consumers start
  started cfg nats = do
    require nats.connects not_connected
    require nats.has_stream no_stream
    running ← start nats (consumers cfg.chains)
    require (is_some_running running) nothing_configured
    ok running

  -- `consume`: its error, and the status while it waits.
  unfoldable pub consume : Config → Nats → HintStatus → Result ConsumeErr (Unit {0}) × HintStatus
  unfolding started waiting
  consume cfg nats status = waiting nats.closes status (started cfg nats)

  -- One turn of the loop; the context may have ended when `consume` returns.
  unfoldable pub turn : Config → Nats → Bool → RunState → RunState
  unfolding consume next_backoff
  turn cfg nats ended s =
      let shown = (consume cfg nats s.status).1 in
      if ended
      then record s { status = degraded; reported = degraded ∷ shown ∷ s.reported }
      else record {
        status = degraded;
        reported = degraded ∷ shown ∷ s.reported;
        backoff = next_backoff s.backoff;
        waited = s.backoff ∷ s.waited;
      }

  -- The attempts until the context ends, each with whether it has ended when `consume` returns. After
  -- the last one it has ended while `Run` waited.
  unfoldable pub attempts : Config → List (Nats × Bool) → RunState → RunState
  unfolding turn
  attempts cfg [] s = s
  attempts cfg ((nats, ended) ∷ rest) s =
      let later = attempts cfg rest (turn cfg nats ended s) in
      if ended then turn cfg nats ended s else later

  -- `Run`
  unfoldable pub run : Config → List (Nats × Bool) → RunState
  unfolding attempts new_status
  run cfg ns = if str_eq cfg.nats_url "" then run_state cfg else attempts cfg ns (run_state cfg)
