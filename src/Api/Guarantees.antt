-- ===== src/Api/Guarantees.antt =====
-- What holds of the tables after any sequence of steps of the service, from an empty database on.
use compliance_gateway.Common.{ℕ, ◌≡◌, ◌≢◌, sym, subst, true, none, some, List, [], ◌∷◌, ◌++◌, All}
use compliance_gateway.Text.{Text}
use compliance_gateway.Decision.{freeze}
use compliance_gateway.Decision.Transition.{replay, returned}
use compliance_gateway.Decision.Transition.Histories.{frozen-not-returned}
use compliance_gateway.Pipeline.{kinds}
use compliance_gateway.Pipeline.Env.{Env}
use compliance_gateway.Pipeline.Store.{Db, PackRow, RulesetRow, past_of}
use compliance_gateway.Pipeline.Rulesets.{find_ruleset}
use compliance_gateway.Pipeline.Books.{books, IsSealed}
use compliance_gateway.Pipeline.Books.Sealed.{Effects-IsSealed}
use compliance_gateway.Pipeline.Books.Histories.{
  IsHistory, empty-IsHistory, Effects-IsHistory, IsExtended, Effects-IsExtended,
}
use compliance_gateway.Pipeline.Books.Journal.{
  HasJournal, empty_HasJournal, Effects-HasJournal, Effects-packs,
}
use compliance_gateway.Pipeline.Books.Approved.{Effects-approved}
use compliance_gateway.Api.{Decoders}
use compliance_gateway.Api.Steps.{Steps, Steps-Effects}

-- No decision and no pack yet; the journal's head is the migration's row.
abbrev pub IsNew : Text → Db → Type 0
IsNew genesis db =
    ((i : ℕ) → db.decisions i ≡ []) × (db.packs ≡ []) × (db.head_seq ≡ 0) × (db.head_hash ≡ genesis)

-- After any steps from a new database, the stored decisions of every payment have the nonces 1, 2, …
-- in the order in which they were stored, are fewer than 2^63, and replay without an error.
pub Steps-IsHistory :
    (env : Env) (d : Decoders) (genesis : Text) (a b : Db)
    → IsNew genesis a
    → Steps env d a b
    → (i : ℕ) → IsHistory (b.decisions i)
Steps-IsHistory env d genesis a b n s i =
    Effects-IsHistory env.sha env.sign (Steps-Effects env d s)
      (λ j. subst IsHistory (sym (n.0 j)) empty-IsHistory) i

-- After any steps from a new database, a payment with a FREEZE among its stored decisions is frozen
-- and not returned, whatever was decided after the FREEZE.
pub Steps-frozen :
    (env : Env) (d : Decoders) (genesis : Text) (a b : Db) (i : ℕ) (before after : List ℕ)
    → IsNew genesis a
    → Steps env d a b
    → kinds (past_of (b.decisions i)) ≡ before ++ freeze ∷ after
    → ((replay (kinds (past_of (b.decisions i)))).0.frozen ≡ true)
      × ((replay (kinds (past_of (b.decisions i)))).0.status ≢ returned)
Steps-frozen env d genesis a b i before after n s e =
    let h = (Steps-IsHistory env d genesis a b n s i).2 in
    subst (λ ks. ((replay ks).0.frozen ≡ true) × ((replay ks).0.status ≢ returned)) (sym e)
      (frozen-not-returned before after (subst (λ ks. (replay ks).1 ≡ none) e h))

-- After any steps from a new database, the packs form one chain of hashes: each has the number of
-- packs up to it as its place and hashes over its predecessor and its own master root, the first over
-- the head of the new database; the journal's head has the number of the packs and the hash of the
-- newest one.
pub Steps-HasJournal :
    (env : Env) (d : Decoders) (genesis : Text) (a b : Db)
    → IsNew genesis a
    → Steps env d a b
    → HasJournal env.sha genesis (books b)
Steps-HasJournal env d genesis a b (_, p, q, h) s =
    Effects-HasJournal env.sha env.sign genesis (Steps-Effects env d s)
      (empty_HasJournal env.sha genesis (books a) p q h)

-- No step loses, changes or reorders a stored decision or a pack: the later decisions of a payment
-- stand after the earlier ones, and the later packs before the earlier ones in the journal.
pub Steps-IsExtended :
    (env : Env) (d : Decoders) (a b : Db)
    → Steps env d a b
    → ((i : ℕ) → IsExtended (a.decisions i) (b.decisions i))
      × ((new : List PackRow) × (b.packs ≡ new ++ a.packs))
Steps-IsExtended env d a b s = (
  Effects-IsExtended env.sha env.sign (Steps-Effects env d s),
  Effects-packs env.sha env.sign (Steps-Effects env d s),
)

-- A ruleset that is approved is found unchanged after any steps: its rules, its approver and the time
-- from which it is effective never change.
pub Steps-approved :
    (env : Env) (d : Decoders) (v : Text) (r : RulesetRow) (a b : Db)
    → find_ruleset v a.rulesets ≡ some r
    → r.approved ≡ true
    → Steps env d a b
    → find_ruleset v b.rulesets ≡ some r
Steps-approved env d v r a b h t s =
    Effects-approved env.sha env.sign v r (Steps-Effects env d s) t h

-- After any steps from a new database, every stored pack agrees with its own data: its JWS is the
-- signature over the canonical JSON of its data, and its two roots are those of its data and salts.
pub Steps-IsSealed :
    (env : Env) (d : Decoders) (genesis : Text) (a b : Db)
    → IsNew genesis a
    → Steps env d a b
    → All (IsSealed env.sha env.sign) b.packs
Steps-IsSealed env d genesis a b (_, p, _, _) s =
    Effects-IsSealed env.sha env.sign (Steps-Effects env d s)
      (subst (All (IsSealed env.sha env.sign)) (sym p) tt)
