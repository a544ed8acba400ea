-- ===== src/Pipeline/Books/Approved.antt =====
-- An approved ruleset through every effect.
use compliance_gateway.Common.{Option, ℕ, ◌≡◌, ◌≢◌, true, some, List, [], ◌∷◌, ◌++◌, arith}
use compliance_gateway.Text.{Text}
use compliance_gateway.Text.Laws.{text_eq_eq}
use compliance_gateway.Pipeline.Store.{RulesetRow}
use compliance_gateway.Pipeline.Rulesets.{find_ruleset, update_ruleset, approve}
use compliance_gateway.Pipeline.Books.{
  Books, Effect, records, drafts, approves, Effects, unchanged, step,
}

find_ruleset-append :
    (v : Text) (xs ys : List RulesetRow) (r : RulesetRow)
    → find_ruleset v xs ≡ some r
    → find_ruleset v (xs ++ ys) ≡ some r
unfolding find_ruleset
find_ruleset-append v [] ys r h = cc
find_ruleset-append v (x ∷ xs) ys r h = ground (arith, find_ruleset-append v xs ys r)

-- An update of the rows of another version leaves what is found.
find_ruleset-update_ruleset :
    (v w : Text) (by : ℕ) (sig : List ℕ) (from : ℕ) (rs : List RulesetRow) (r : RulesetRow)
    → v ≢ w
    → find_ruleset v rs ≡ some r
    → find_ruleset v (update_ruleset w (approve by sig from) rs) ≡ some r
unfolding find_ruleset update_ruleset
find_ruleset-update_ruleset v w by sig from [] r n h = cc
find_ruleset-update_ruleset v w by sig from (x ∷ xs) r n h = ground (
  arith,
  text_eq_eq x.version w,
  text_eq_eq x.version v,
  find_ruleset-update_ruleset v w by sig from xs r n,
)

module _ (sha : List ℕ → Text) (sign : Text → Option Text) where
  Effect-approved :
      (v : Text) (r : RulesetRow) {b c : Books}
      → Effect sha sign b c
      → r.approved ≡ true
      → find_ruleset v b.rulesets ≡ some r
      → find_ruleset v c.rulesets ≡ some r
  Effect-approved v r (records id d k w f) t h = h
  Effect-approved v r {b} (drafts d e a) t h = find_ruleset-append v b.rulesets (d ∷ []) r h
  Effect-approved v r {b} (approves w by sig from q e a) t h =
      find_ruleset-update_ruleset v w by sig from b.rulesets r (λ p. absurd cc) h

  -- An approved ruleset stays what it is.
  pub Effects-approved :
      (v : Text) (r : RulesetRow) {b c : Books}
      → Effects sha sign b c
      → r.approved ≡ true
      → find_ruleset v b.rulesets ≡ some r
      → find_ruleset v c.rulesets ≡ some r
  Effects-approved v r unchanged t h = h
  Effects-approved v r (step e s) t h = Effects-approved v r s t (Effect-approved v r e t h)
