-- ===== src/Ingest/Hint/Attempts.antt =====
-- hint.go: how long `Run` waits between its attempts, and when it reports that the hint is healthy.
use compliance_gateway.Common.{
  ℕ, zero, suc, ◌+◌, ◌*◌, ◌^◌, ◌≡◌, ◌≢◌, refl, ap, ◌∙◌, min, String, Bool, true, false, List, [],
  ◌∷◌, arith, Result, ok, err, str_eq, Holds, holds, bind_Holds, require-Holds, Holds-ok,
}
use compliance_gateway.Text.{Text}
use compliance_gateway.Config.{Config}
use compliance_gateway.Ingest.Hint.Consumer.{
  HintStatus, disabled, healthy, Consumer, Nats, consumers, start, started, consume, second,
  next_backoff, RunState, turn, attempts, run, new_status, ConsumeErr, no_consumer, not_connected,
  no_stream, nothing_configured, is_some_running, waiting,
}

-- The n-th wait: it doubles from a second on, up to half a minute.
abbrev pub wait_of : ℕ → ℕ
wait_of n = min (2 ^ n * second) (30 * second)

-- The first n waits, the last one first.
abbrev pub waits : ℕ → List ℕ
waits zero = []
waits (suc n) = wait_of n ∷ waits n

next_backoff-wait_of : (n : ℕ) → next_backoff (wait_of n) ≡ wait_of (suc n)
unfolding next_backoff
next_backoff-wait_of n = omega arith

start_ok : (nats : Nats) (cs : List Consumer) → Holds (λ rs. rs ≡ cs) (start nats cs)
unfolding start
start_ok nats [] = holds refl
start_ok nats (c ∷ cs) = require-Holds (nats.creates c) no_consumer _ λ _.
    require-Holds (nats.consumes c) no_consumer _ λ _.
      bind_Holds (start nats cs) _
        λ rest e. holds (ap (λ (l : List Consumer). c ∷ l) (Holds-ok (start_ok nats cs) e))

some_running : (rs cs : List Consumer) → is_some_running rs ≡ true → rs ≡ cs → cs ≢ []
some_running [] cs h e f = cc
some_running (r ∷ rs) cs h e f = cc

waiting_healthy :
    (closes : Bool) (status : HintStatus) (r : Result ConsumeErr (List Consumer))
    → status ≢ healthy
    → (waiting closes status r).1 ≡ healthy
    → (rs : List Consumer) × (r ≡ ok rs)
unfolding waiting
waiting_healthy closes status (err e) n h = absurd (n h)
waiting_healthy closes status (ok rs) n h = (rs, refl)

module _ (utf8 : String → Text) (cfg : Config) where
  -- The attempts before the one during which the context ends.
  abbrev pub failures : List (Nats × Bool) → ℕ
  failures [] = 0
  failures ((nats, true) ∷ rest) = 0
  failures ((nats, false) ∷ rest) = suc (failures rest)

  attempts-waits :
      (ns : List (Nats × Bool)) (s : RunState) (n : ℕ)
      → s.backoff ≡ wait_of n
      → s.waited ≡ waits n
      → (attempts utf8 cfg ns s).waited ≡ waits (n + failures ns)
  unfolding attempts turn
  attempts-waits [] s n b w = w ∙ ap waits (omega arith)
  attempts-waits ((nats, true) ∷ rest) s n b w = w ∙ ap waits (omega arith)
  attempts-waits ((nats, false) ∷ rest) s n b w =
      attempts-waits rest (turn utf8 cfg nats false s) (suc n)
        (ap next_backoff b ∙ next_backoff-wait_of n)
        (ap (λ (t : ℕ). t ∷ s.waited) b ∙ ap (λ (l : List ℕ). wait_of n ∷ l) w)
      ∙ ap waits (omega arith)

  -- With a NATS URL, `Run` waits once after each attempt that ends before the context does: one
  -- second first, then twice as long each time, and never more than thirty seconds.
  pub run-waits :
      (ns : List (Nats × Bool))
      → str_eq cfg.nats_url "" ≡ false
      → (run utf8 cfg ns).waited ≡ waits (failures ns)
  unfolding run
  run-waits ns e = rw e (attempts-waits ns _ 0 (omega arith) refl ∙ ap waits (omega arith))

  -- Without one it does nothing, and the status stays disabled.
  pub run_disabled :
      (ns : List (Nats × Bool))
      → str_eq cfg.nats_url "" ≡ true
      → (run utf8 cfg ns).status ≡ disabled
  unfolding run new_status
  run_disabled ns e = ground arith

  started_ok :
      (nats : Nats)
      → Holds
          (λ rs. (rs ≡ consumers utf8 cfg.chains) × (consumers utf8 cfg.chains ≢ []))
          (started utf8 cfg nats)
  unfolding started
  started_ok nats = require-Holds nats.connects not_connected _ λ _.
      require-Holds nats.has_stream no_stream _ λ _.
        bind_Holds (start nats (consumers utf8 cfg.chains)) _ λ rs e.
          require-Holds (is_some_running rs) nothing_configured _ λ h.
            let same = Holds-ok (start_ok nats (consumers utf8 cfg.chains)) e in
            holds (same, some_running rs _ h same)

  -- When an attempt turns the status to healthy, there is a consumer for every token with an alias on
  -- every chain with an eventscale network, in the order of the configuration, and at least one.
  pub consume-healthy :
      (nats : Nats) (status : HintStatus)
      → status ≢ healthy
      → (consume utf8 cfg nats status).1 ≡ healthy
      → (started utf8 cfg nats ≡ ok (consumers utf8 cfg.chains)) × (consumers utf8 cfg.chains ≢ [])
  unfolding consume
  consume-healthy nats status n h =
      let (rs, e) = waiting_healthy nats.closes status (started utf8 cfg nats) n h in
      let (same, some_consumer) = Holds-ok (started_ok nats) e in (e ∙ ap ok same, some_consumer)
