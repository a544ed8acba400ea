-- ===== src/Pipeline/Rulesets.antt =====
-- rulesets.go, and the triggers of 001_init.sql on the table `ruleset`.
use compliance_gateway.Common.{
  ℕ, ◌*◌, true, false, not, ◌&&◌, Option, none, some, List, [], ◌∷◌, ◌++◌, leb, ltb, any, Result,
  ok, err, ◌>>=◌, ◌>>◌, or_err, require, map_err, if◌then◌else◌,
}
use compliance_gateway.Text.{Text, text_eq}
use compliance_gateway.Rules.Parse.{Parsed, parse}
use compliance_gateway.Decision.Verify.{TypedData, ruleset_approval, verify_approval}
use compliance_gateway.Pipeline.{Err, not_found, conflict, forbidden, bad_request, internal}
use compliance_gateway.Pipeline.Env.{Env}
use compliance_gateway.Pipeline.Store.{Db, RulesetRow}

unfoldable pub find_ruleset : Text → List RulesetRow → Option RulesetRow
unfolding text_eq
find_ruleset v [] = none
find_ruleset v (r ∷ rs) =
    let rest = find_ruleset v rs in if text_eq r.version v then some r else rest

-- UPDATE … WHERE version = …
unfoldable pub update_ruleset : Text → (RulesetRow → RulesetRow) → List RulesetRow → List RulesetRow
unfolding text_eq
update_ruleset v f [] = []
update_ruleset v f (r ∷ rs) = (if text_eq r.version v then f r else r) ∷ update_ruleset v f rs

abbrev pub draft : Env → Parsed → RulesetRow
draft env p = record {
  version = env.utf8 p.rules.version;
  canonical = p.canonical;
  ruleset_hash = p.hash;
  approved_by = none;
  approval_sig = [];
  effective_from = 0;
  approved = false;
}

-- INSERT … ON CONFLICT (version) DO UPDATE … RETURNING ruleset_hash: the stored hash. The update of a
-- row that is there fires the trigger, which refuses it when the row is approved.
abbrev pub insert_over : RulesetRow → Db → Option RulesetRow → Result Err (Text × Db)
insert_over d db (some r) = if r.approved then err internal else ok (r.ruleset_hash, db)
insert_over d db none = do
  require (not (any (λ r. text_eq r.ruleset_hash d.ruleset_hash) db.rulesets)) internal
  ok (d.ruleset_hash, record db { rulesets = db.rulesets ++ d ∷ [] })

unfoldable pub insert_ruleset : RulesetRow → Db → Result Err (Text × Db)
unfolding find_ruleset
insert_ruleset d db = insert_over d db (find_ruleset d.version db.rulesets)

-- What follows the statement, which a later error does not undo: there is no transaction.
abbrev pub after_insert : Env → Parsed → Db → Result Err (Text × Db) → Result Err (Text × Text) × Db
after_insert env p db (err e) = (err e, db)
after_insert env p db (ok stored) =
    (require (text_eq stored.0 p.hash) conflict >> ok (env.utf8 p.rules.version, p.hash), stored.1)

abbrev pub after_parse : Env → Db → Option Parsed → Result Err (Text × Text) × Db
after_parse env db none = (err bad_request, db)
after_parse env db (some p) = after_insert env p db (insert_ruleset (draft env p) db)

-- `ImportRuleset`: its answer, and the tables as they are then, also after an error.
unfoldable pub import_ruleset : Env → Text → Db → Result Err (Text × Text) × Db
unfolding parse insert_ruleset
import_ruleset env raw db =
    after_parse env db (parse env.decode_ruleset env.decode env.set_string env.sha raw)

abbrev pub approval_document : Env → RulesetRow → ℕ → TypedData
approval_document env r effective_from =
    ruleset_approval (env.to_hash r.ruleset_hash) (env.string_of r.version) effective_from

-- `ApprovalTypedData`
unfoldable pub approval_typed_data : Env → Text → ℕ → Db → Result Err TypedData
unfolding find_ruleset
approval_typed_data env version effective_from db = do
  r ← or_err not_found (find_ruleset version db.rulesets)
  ok (approval_document env r effective_from)

abbrev pub approve : ℕ → List ℕ → ℕ → RulesetRow → RulesetRow
approve by sig effective_from r = record r {
  approved_by = some by;
  approval_sig = sig;
  effective_from = effective_from;
  approved = true;
}

-- `ApproveRuleset`, from a time in seconds.
unfoldable pub approve_ruleset : Env → Text → ℕ → List ℕ → Db → Result Err (ℕ × Db)
unfolding find_ruleset update_ruleset verify_approval
approve_ruleset env version effective_from sig db = do
  r ← or_err not_found (find_ruleset version db.rulesets)
  require (not r.approved) conflict
  by ←
      map_err (λ _. forbidden)
        (verify_approval env.digest env.sig_to_address (approval_document env r effective_from) sig
          env.config.mlro)
  ok (
    by,
    record db { rulesets = update_ruleset version (approve by sig effective_from) db.rulesets },
  )

-- approved_at IS NOT NULL AND effective_from <= at ORDER BY effective_from DESC LIMIT 1; `at` is in
-- nanoseconds.
unfoldable pub effective_at : ℕ → List RulesetRow → Option RulesetRow
effective_at at [] = none
effective_at at (r ∷ rs) =
    let rest = effective_at at rs in
    if r.approved && leb (r.effective_from * 1000000000) at
    then elim rest [
      | none ↦ some r
      | some s ↦ if ltb r.effective_from s.effective_from then some s else some r
    ]
    else rest
