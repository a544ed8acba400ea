-- ===== src/Checks/Complete.antt =====
-- checks.go: no check is dropped, and none that failed looks like one that passed.
use compliance_gateway.Common.{◌≡◌, refl, ℕ, Option, none, some, List, [], ◌∷◌, Result, err, arith}
use compliance_gateway.Text.{Text, codes, text_eq}
use compliance_gateway.Evidence.Value.{text, get}
use compliance_gateway.Checks.{
  CheckResult, Reply, returned, panicked, timed_out, run_one, run_all, unavailable,
}

abbrev pub kinds_of : List CheckResult → List Text
kinds_of [] = []
kinds_of (r ∷ rs) = r.kind ∷ kinds_of rs

abbrev pub requested : List (Text × Reply) → List Text
requested [] = []
requested ((k, r) ∷ cs) = k ∷ requested cs

module _ (put : List ℕ → Result Text Text) (now : Text) where
  run_one-kind : (kind : Text) (reply : Reply) → (run_one put now kind reply).kind ≡ kind
  unfolding run_one unavailable
  run_one-kind kind (panicked v) = refl
  run_one-kind kind (timed_out e) = refl
  run_one-kind kind (returned r b (some e)) = refl
  run_one-kind kind (returned r none none) = refl
  run_one-kind kind (returned r (some b) none) = ground arith

  -- Whatever the checks reply, every check has one result, in its place and under its own kind.
  pub run_all-kinds : (cs : List (Text × Reply)) → kinds_of (run_all put now cs) ≡ requested cs
  unfolding run_all
  run_all-kinds [] = refl
  run_all-kinds ((k, r) ∷ cs) = rw (run_one-kind k r, run_all-kinds cs) refl

  -- A reply that is an error, a panic or a timeout, or whose raw response cannot be stored.
  pub data Failed : Reply → Type 0 where
    panic_failed : (v : Text) → Failed (panicked v)
    time_failed : (e : Text) → Failed (timed_out e)
    run_failed : (r : CheckResult) (b : Option (List ℕ)) (e : Text) → Failed (returned r b (some e))
    put_failed :
        (r : CheckResult) (b : List ℕ) (e : Text)
        → put b ≡ err e
        → Failed (returned r (some b) none)

  -- A check that failed in any way has the outcome UNAVAILABLE, and its section says so too.
  pub run_one-Failed :
      (kind : Text) (reply : Reply)
      → Failed reply
      → ((run_one put now kind reply).outcome ≡ codes "UNAVAILABLE")
        × (get (codes "result") (run_one put now kind reply).section
            ≡ some (text (codes "UNAVAILABLE")))
  unfolding run_one unavailable get text_eq
  run_one-Failed kind reply (panic_failed v) = (refl, refl)
  run_one-Failed kind reply (time_failed e) = (refl, refl)
  run_one-Failed kind reply (run_failed r b e) = (refl, refl)
  run_one-Failed kind reply (put_failed r b e h) = rw (h, run_one) (refl, refl)
