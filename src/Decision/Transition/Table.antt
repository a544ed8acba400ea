-- ===== src/Decision/Transition/Table.antt =====
-- The transition table of transition.go as a relation, and `next` as its decision procedure.
use compliance_gateway.Common.{
  ap, subst, ℕ, true, false, ◌≡◌, refl, ◌↔◌, Option, none, some, arith, ◌⊎◌, ◌<◌,
}
use compliance_gateway.Decision.{credit, hold, freeze, return}
use compliance_gateway.Decision.Transition.{
  Status, State, pending, held, credited, returned, next, is_terminal, Err, unknown_kind,
}

-- A payment that may still be decided on.
pub data IsOpen : Status → Type 0 where
  pending_open : IsOpen pending
  held_open : IsOpen held

-- The table, one constructor for each kind: what the kind asks of the state, and what it gives.
pub data Step (s : State) (k : ℕ) (t : State) : Type 0 where
  crediting :
      IsOpen s.status
      → k ≡ credit
      → t ≡ record { status = credited; frozen = s.frozen }
      → Step s k t
  holding :
      IsOpen s.status
      → s.frozen ≡ false
      → k ≡ hold
      → t ≡ record { status = held; frozen = false }
      → Step s k t
  freezing : IsOpen s.status → k ≡ freeze → t ≡ record { status = held; frozen = true } → Step s k t
  returning :
      IsOpen s.status
      → s.frozen ≡ false
      → k ≡ return
      → t ≡ record { status = returned; frozen = false }
      → Step s k t

next-Step : (s : State) (k : ℕ) → (next s k).1 ≡ none → Step s k (next s k).0
unfolding next
next-Step s k h = grind (arith, pending_open, held_open, crediting, holding, freezing, returning)

open_not_terminal : {st : Status} → IsOpen st → is_terminal st ≡ false
open_not_terminal pending_open = refl
open_not_terminal held_open = refl

Step-next : (s t : State) (k : ℕ) → Step s k t → next s k ≡ (t, none)
unfolding next
Step-next s t k (crediting o e f) = ground (arith, open_not_terminal o)
Step-next s t k (holding o z e f) = ground (arith, open_not_terminal o)
Step-next s t k (freezing o e f) = ground (arith, open_not_terminal o)
Step-next s t k (returning o z e f) = ground (arith, open_not_terminal o)

-- A decision is accepted with a new state exactly when the table has that step.
pub next_iff_Step : (s t : State) (k : ℕ) → (next s k ≡ (t, none)) ↔ Step s k t
next_iff_Step s t k = (
  λ h.
      subst (λ (p : State × Option Err). Step s k p.0) h
        (next-Step s k (ap (λ (p : State × Option Err). p.1) h)),
  Step-next s t k,
)

-- Why a decision is refused, for each error.
abbrev pub Refuses : Err → State → ℕ → Type 0
Refuses Err.terminal s k = (s.status ≡ credited) ⊎ (s.status ≡ returned)
Refuses Err.frozen s k = IsOpen s.status × (s.frozen ≡ true) × ((k ≡ hold) ⊎ (k ≡ return))
Refuses unknown_kind s k = IsOpen s.status × ((k < credit) ⊎ (return < k))

-- A refused decision leaves the state as it was, and its error names the reason.
pub next-error :
    (s : State) (k : ℕ) (e : Err) → (next s k).1 ≡ some e → ((next s k).0 ≡ s) × Refuses e s k
unfolding next
next-error s k e h = grind (arith, pending_open, held_open)
