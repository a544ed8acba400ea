-- ===== src/Decision/Transition/Histories.antt =====
-- What holds of every decision history that `replay` (transition.go) accepts.
use compliance_gateway.Common.{
  ℕ, Bool, true, false, ◌≡◌, refl, ◌≢◌, none, arith, ◌⊎◌, List, [], ◌∷◌, ◌++◌, ◌||◌, ◌==◌,
  if◌then◌else◌,
}
use compliance_gateway.Decision.{credit, freeze, return}
use compliance_gateway.Decision.Transition.{
  Status, State, pending, held, credited, returned, next, replay_from, replay, initial,
}

-- An accepted history is accepted step by step.
pub replay_from-cons :
    (s : State) (k : ℕ) (ks : List ℕ)
    → (replay_from s (k ∷ ks)).1 ≡ none
    → ((next s k).1 ≡ none) × (replay_from s (k ∷ ks) ≡ replay_from (next s k).0 ks)
unfolding replay_from
replay_from-cons s k ks h = ground arith

pub replay_from-append :
    (s : State) (xs ys : List ℕ)
    → (replay_from s (xs ++ ys)).1 ≡ none
    → ((replay_from s xs).1 ≡ none)
      × (replay_from s (xs ++ ys) ≡ replay_from (replay_from s xs).0 ys)
unfolding replay_from
replay_from-append s [] ys h = (refl, refl)
replay_from-append s (x ∷ xs) ys h = ground (arith, replay_from-append (next s x).0 xs ys)

-- One more accepted decision.
pub replay_from-snoc :
    (s : State) (ks : List ℕ) (k : ℕ)
    → (replay_from s ks).1 ≡ none
    → replay_from s (ks ++ k ∷ []) ≡ next (replay_from s ks).0 k
unfolding replay_from
replay_from-snoc s [] k h = ground arith
replay_from-snoc s (x ∷ xs) k h = ground (arith, replay_from-snoc (next s x).0 xs k)

-- A frozen payment is held or credited.
abbrev IsQuiet : State → Type 0
IsQuiet s = (s.frozen ≡ true) × (s.status ≢ returned)

next-IsQuiet : (s : State) (k : ℕ) → IsQuiet s → IsQuiet (next s k).0
unfolding next
next-IsQuiet s k q = ground arith

replay_from-IsQuiet : (s : State) (ks : List ℕ) → IsQuiet s → IsQuiet (replay_from s ks).0
unfolding replay_from
replay_from-IsQuiet s [] q = q
replay_from-IsQuiet s (k ∷ ks) q =
    ground (arith, next-IsQuiet s k, replay_from-IsQuiet (next s k).0 ks)

freeze-IsQuiet : (s : State) → (next s freeze).1 ≡ none → IsQuiet (next s freeze).0
unfolding next
freeze-IsQuiet s h = ground arith

-- An accepted history with a FREEZE in it leaves the payment frozen and never returned, whatever
-- was decided before and after.
pub frozen-not-returned :
    (before after : List ℕ)
    → (replay (before ++ freeze ∷ after)).1 ≡ none
    → ((replay (before ++ freeze ∷ after)).0.frozen ≡ true)
      × ((replay (before ++ freeze ∷ after)).0.status ≢ returned)
unfolding replay
frozen-not-returned before after h =
    let mid = (replay_from initial before).0 in
    let e = (replay_from-append initial before (freeze ∷ after) h).1 in
    ground (
      arith,
      e,
      replay_from-cons mid freeze after,
      freeze-IsQuiet mid,
      replay_from-IsQuiet (next mid freeze).0 after,
    )

next-after_terminal :
    (s : State) (k j : ℕ)
    → (k ≡ credit) ⊎ (k ≡ return)
    → (next s k).1 ≡ none
    → (next (next s k).0 j).1 ≢ none
unfolding next
next-after_terminal s k j d h = ground arith

-- A CREDIT or a RETURN can only be the last decision of an accepted history.
pub terminal_is_last :
    (before : List ℕ) (k j : ℕ) (after : List ℕ)
    → (k ≡ credit) ⊎ (k ≡ return)
    → (replay (before ++ k ∷ j ∷ after)).1 ≢ none
unfolding replay
terminal_is_last before k j after d h =
    let mid = (replay_from initial before).0 in
    let e = (replay_from-append initial before (k ∷ j ∷ after) h).1 in
    ground (
      arith,
      e,
      replay_from-cons mid k (j ∷ after),
      replay_from-cons (next mid k).0 j after,
      next-after_terminal mid k j d,
    )

-- The status that the latest decision gives.
abbrev status_of : ℕ → Status
status_of k = if k == credit then credited else if k == return then returned else held

abbrev pub status_after : Status → List ℕ → Status
status_after st [] = st
status_after st (k ∷ ks) = status_after (status_of k) ks

abbrev pub ever_frozen : List ℕ → Bool
ever_frozen [] = false
ever_frozen (k ∷ ks) = k == freeze || ever_frozen ks

next_lem :
    (s : State) (k : ℕ)
    → (next s k).1 ≡ none
    → (next s k).0 ≡ record { status = status_of k; frozen = s.frozen || k == freeze }
unfolding next
next_lem s k h = ground arith

replay_from_lem :
    (s : State) (ks : List ℕ)
    → (replay_from s ks).1 ≡ none
    → (replay_from s ks).0
      ≡ record { status = status_after s.status ks; frozen = s.frozen || ever_frozen ks }
unfolding replay_from
replay_from_lem s [] h = ground arith
replay_from_lem s (k ∷ ks) h = ground (arith, next_lem s k, replay_from_lem (next s k).0 ks)

-- The state of an accepted history is told by its last decision (held, credited or returned) and by
-- whether a FREEZE is in it.
pub replay_lem :
    (ks : List ℕ)
    → (replay ks).1 ≡ none
    → (replay ks).0 ≡ record { status = status_after pending ks; frozen = ever_frozen ks }
unfolding replay
replay_lem ks h = replay_from_lem initial ks h
