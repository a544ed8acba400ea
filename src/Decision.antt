-- ===== src/Decision.antt =====
-- compliance-backend/internal/decision: decision kinds, names and signer masks (decision.go).
-- The transition table and the signature checks are in the modules below.
pub mod Transition
pub mod Masks
pub mod Verify
pub mod Signer
use Prim.Native.Nat.{bit_and}
use compliance_gateway.Common.{
  ℕ, ◌-◌, ◌%◌, ◌^◌, String, Bool, not, ◌&&◌, Option, none, some, leb, ◌==◌, if◌then◌else◌, str_eq,
}

abbrev pub credit : ℕ
credit = 1

abbrev pub hold : ℕ
hold = 2

abbrev pub freeze : ℕ
freeze = 3

abbrev pub return : ℕ
return = 4

-- A lookup of a missing key in `names` gives the empty string.
unfoldable pub name : ℕ → String
name k =
    if k == credit
    then "CREDIT"
    else if k == hold
    then "HOLD"
    else if k == freeze
    then "FREEZE"
    else if k == return
    then "RETURN"
    else ""

-- The four names differ, so the order in which the map is walked does not matter.
unfoldable pub kind : String → Option ℕ
kind n =
    if str_eq "CREDIT" n
    then some credit
    else if str_eq "HOLD" n
    then some hold
    else if str_eq "FREEZE" n
    then some freeze
    else if str_eq "RETURN" n
    then some return
    else none

-- `1 << (kind - 1)` on uint8.
abbrev pub kind_bit : ℕ → ℕ
kind_bit k = 2 ^ (k - 1) % 256

unfoldable pub permits : ℕ → ℕ → Bool
permits mask k = leb credit k && leb k return && not (bit_and mask (kind_bit k) == 0)
