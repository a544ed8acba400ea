-- ===== src/Decision/Transition.antt =====
-- compliance-backend/internal/decision/transition.go: the state of one payment after its decisions.
pub mod Table
pub mod Histories
use compliance_gateway.Common.{
  ℕ, Bool, true, false, ◌&&◌, ◌||◌, Option, none, some, List, [], ◌∷◌, ◌==◌, if◌then◌else◌,
}
use compliance_gateway.Decision.{credit, hold, freeze, return}

-- `None` of the source is the pending payment.
pub data Status : Type 0 where
  pending held credited returned : Status

pub record State : Type 0 where
  pub status : Status
  pub frozen : Bool

pub data Err : Type 0 where
  terminal frozen unknown_kind : Err

-- The zero value of `State`.
abbrev pub initial : State
initial = record { status = pending; frozen = false }

abbrev pub is_terminal : Status → Bool
is_terminal credited = true
is_terminal returned = true
is_terminal _ = false

-- On an error the state comes back unchanged beside it.
unfoldable pub next : State → ℕ → State × Option Err
next s kind =
    if is_terminal s.status
    then (s, some Err.terminal)
    else if s.frozen && (kind == return || kind == hold)
    then (s, some Err.frozen)
    else if kind == 1
    then (record { status = credited; frozen = s.frozen }, none)
    else if kind == 4
    then (record { status = returned; frozen = false }, none)
    else if kind == 2
    then (record { status = held; frozen = false }, none)
    else if kind == 3
    then (record { status = held; frozen = true }, none)
    else (s, some unknown_kind)

-- The loop stops at the first error.
unfoldable pub replay_from : State → List ℕ → State × Option Err
replay_from s [] = (s, none)
replay_from s (k ∷ ks) =
    let rest = replay_from (next s k).0 ks in
    elim (next s k).1 [ none ↦ rest | some e ↦ ((next s k).0, some e) ]

unfoldable pub replay : List ℕ → State × Option Err
unfolding replay_from
replay ks = replay_from initial ks
