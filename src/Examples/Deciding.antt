-- ===== src/Examples/Deciding.antt =====
-- decision.go, transition.go and verify.go at concrete inputs.
use compliance_gateway.Common.{
  ℕ, zero, suc, ◌≡◌, ◌≢◌, refl, ◌↔◌, Option, none, some, List, [], ◌∷◌, ◌++◌, inl, true, false,
}
use compliance_gateway.Decision.{credit, hold, freeze, return, permits}
use compliance_gateway.Decision.Transition.{State, held, returned, next, replay, initial, Err}
use compliance_gateway.Decision.Transition.Table.{Step, next_iff_Step}
use compliance_gateway.Decision.Transition.Histories.{frozen-not-returned, terminal_is_last}
use compliance_gateway.Common.{ok}
use compliance_gateway.Decision.Verify.{
  TypedData, ruleset_approval, Officer, verify_officer, normalize_v,
}
use compliance_gateway.Decision.Verify.Laws.{FirstAt, IsSignedBy, verify_officer_iff}

-- HOLD, FREEZE, CREDIT.
history_accepted : (replay (hold ∷ freeze ∷ credit ∷ [])).1 ≡ none
unfolding replay next
history_accepted = refl

frozen-not-returned_example :
    ((replay (hold ∷ freeze ∷ credit ∷ [])).0.frozen ≡ true)
    × ((replay (hold ∷ freeze ∷ credit ∷ [])).0.status ≢ returned)
frozen-not-returned_example = frozen-not-returned (hold ∷ []) (credit ∷ []) history_accepted

terminal_is_last_example : (replay (hold ∷ credit ∷ return ∷ [])).1 ≢ none
terminal_is_last_example = terminal_is_last (hold ∷ []) credit return [] (inl refl)

abbrev frozen_state : State
frozen_state = record { status = held; frozen = true }

next_iff_Step_example :
    (next initial hold ≡ (record { status = held; frozen = false }, none))
    ↔ Step initial hold (record { status = held; frozen = false })
next_iff_Step_example = next_iff_Step initial (record { status = held; frozen = false }) hold

return_refused : (next frozen_state return).1 ≡ some Err.frozen
unfolding next
return_refused = refl

-- Every document has the digest 7, and a signature recovers to its first byte.
abbrev digest : TypedData → Option ℕ
digest td = some 7

abbrev first_byte : ℕ → List ℕ → Option ℕ
first_byte h [] = none
first_byte h (b ∷ bs) = some b

abbrev times : ℕ → ℕ → List ℕ
times zero b = []
times (suc n) b = b ∷ times n b

-- The signature of address 9, with v = 28.
abbrev sig : List ℕ
sig = 9 ∷ (times 63 0 ++ 28 ∷ [])

abbrev document : TypedData
document = ruleset_approval 3 "v1" 100

abbrev junior : Officer
junior = record { address = 9; officer_id = "junior"; mask = 2 }

abbrev senior : Officer
senior = record { address = 9; officer_id = "senior"; mask = 15 }

signed : IsSignedBy digest first_byte document sig 9
unfolding normalize_v
signed = (7, refl, refl, refl)

verify_officer_iff_example :
    (verify_officer digest first_byte document sig hold (junior ∷ senior ∷ []) ≡ ok junior) ↔ (
      IsSignedBy digest first_byte document sig 9
      × FirstAt 9 junior (junior ∷ senior ∷ [])
      × (permits 2 hold ≡ true))
verify_officer_iff_example =
    verify_officer_iff digest first_byte document sig hold (junior ∷ senior ∷ []) junior
