-- ===== src/Decision/Masks.antt =====
-- Signer masks and decision names (decision.go: `Permits`, `Kind`, `Name`).

use compliance_gateway.Common.{
  ℕ, zero, suc, ◌+◌, ◌≤◌, ◌<◌, ◌≡◌, ◌↔◌, refl, subst, Bool, true, ◌&&◌, some, arith, if◌then◌else◌,
  ◌==◌, ==_iff, String, eq_iff,
}
use compliance_gateway.Decision.{credit, hold, freeze, return, permits, name, kind}

-- Evaluates a test at every number below a bound.
all_below : ℕ → (ℕ → Bool) → Bool
all_below zero p = true
all_below (suc n) p = p n && all_below n p

all_below_lem : (n : ℕ) (p : ℕ → Bool) (x : ℕ) → all_below n p ≡ true → x < n → p x ≡ true
unfolding all_below
all_below_lem zero p x h lt = absurd (omega arith)
all_below_lem (suc n) p x h lt = ground (arith, all_below_lem n p x)

-- The mask that allows exactly the kinds that `p` allows.
abbrev pub mask_of : (ℕ → Bool) → ℕ
mask_of p =
    (if p credit then 1 else 0)
    + (if p hold then 2 else 0)
    + (if p freeze then 4 else 0)
    + (if p return then 8 else 0)

mask_table : all_below 16 (λ m. mask_of (permits m) == m) ≡ true
unfolding all_below permits
mask_table = refl

-- A configured mask (at most 0x0F) is told by the kinds that it permits.
pub mask_of-permits : (m : ℕ) → m ≤ 15 → mask_of (permits m) ≡ m
mask_of-permits m h = (==_iff _ m).0 (all_below_lem 16 _ m mask_table (omega arith))

-- No mask permits a number that is not one of the four kinds.
pub permits-kind : (m k : ℕ) → permits m k ≡ true → (credit ≤ k) × (k ≤ return)
unfolding permits
permits-kind m k h = ground arith

pub kind-name : (k : ℕ) → credit ≤ k → k ≤ return → kind (name k) ≡ some k
unfolding kind name
kind-name zero lo hi = absurd (omega arith)
kind-name (suc zero) lo hi = refl
kind-name (suc (suc zero)) lo hi = refl
kind-name (suc (suc (suc zero))) lo hi = refl
kind-name (suc (suc (suc (suc zero)))) lo hi = refl
kind-name (suc (suc (suc (suc (suc k))))) lo hi = absurd (omega arith)

pub name-kind : (n : String) (k : ℕ) → kind n ≡ some k → (name k ≡ n) × (credit ≤ k) × (k ≤ return)
unfolding kind name
name-kind n k h =
    ground (arith, eq_iff "CREDIT" n, eq_iff "HOLD" n, eq_iff "FREEZE" n, eq_iff "RETURN" n)

-- The four kinds and their names correspond one to one, and no other text is a kind.
pub kind_iff :
    (n : String) (k : ℕ) → (kind n ≡ some k) ↔ ((name k ≡ n) × (credit ≤ k) × (k ≤ return))
kind_iff n k =
    (name-kind n k, λ h. subst (λ (m : String). kind m ≡ some k) h.0 (kind-name k h.1 h.2))
