-- ===== src/Pipeline/Books/Governing.antt =====
-- rulesets.go: what an import and an approval do to the rulesets.
use compliance_gateway.Common.{
  Result, err, ok, ℕ, ◌≡◌, refl, Bool, true, false, not, Option, none, some, List, any, or_err,
  or_err_ok, map_err, Holds, holds, fails, Holds-ok, bind_Holds, require-Holds, arith, if_Holds,
}
use compliance_gateway.Text.{Text, text_eq}
use compliance_gateway.Rules.Parse.{Parsed}
use compliance_gateway.Decision.Verify.{verify_approval}
use compliance_gateway.Pipeline.{Err, not_found, conflict, forbidden, internal}
use compliance_gateway.Pipeline.Env.{Env}
use compliance_gateway.Pipeline.Store.{Db, RulesetRow}
use compliance_gateway.Pipeline.Rulesets.{
  find_ruleset, insert_over, insert_ruleset, after_insert, after_parse, import_ruleset, draft,
  approve_ruleset, approval_document,
}
use compliance_gateway.Pipeline.Books.{Effects, unchanged, step, drafts, approves, books}

not-true : (b : Bool) → not b ≡ true → b ≡ false
not-true b h = ground arith

module _ (sha : List ℕ → Text) (sign : Text → Option Text) where
  insert_over-Holds :
      (d : RulesetRow) (db : Db) (o : Option RulesetRow)
      → d.approved ≡ false
      → find_ruleset d.version db.rulesets ≡ o
      → Holds (λ out. Effects sha sign (books db) (books out.1)) (insert_over d db o)
  insert_over-Holds d db (some r) a e = if_Holds r.approved _ _ (λ _. fails) (λ _. holds unchanged)
  insert_over-Holds d db none a e =
      require-Holds (not (any (λ r. text_eq r.ruleset_hash d.ruleset_hash) db.rulesets)) internal _
        λ _. holds (step (drafts d e a) unchanged)

  pub insert_ruleset-Holds :
      (d : RulesetRow) (db : Db)
      → d.approved ≡ false
      → Holds (λ out. Effects sha sign (books db) (books out.1)) (insert_ruleset d db)
  unfolding insert_ruleset
  insert_ruleset-Holds d db a = insert_over-Holds d db (find_ruleset d.version db.rulesets) a refl

after_insert-Effects :
    (env : Env) (p : Parsed) (db : Db) (r : Result Err (Text × Db))
    → Holds (λ out. Effects env.sha env.sign (books db) (books out.1)) r
    → Effects env.sha env.sign (books db) (books (after_insert env p db r).1)
after_insert-Effects env p db (err e) h = unchanged
after_insert-Effects env p db (ok stored) h = Holds-ok h refl

after_parse-Effects :
    (env : Env) (db : Db) (o : Option Parsed)
    → Effects env.sha env.sign (books db) (books (after_parse env db o).1)
after_parse-Effects env db none = unchanged
after_parse-Effects env db (some p) =
    after_insert-Effects env p db (insert_ruleset (draft env p) db)
      (insert_ruleset-Holds env.sha env.sign (draft env p) db refl)

pub import_ruleset-Effects :
    (env : Env) (raw : Text) (db : Db)
    → Effects env.sha env.sign (books db) (books (import_ruleset env raw db).1)
unfolding import_ruleset
import_ruleset-Effects env raw db = after_parse-Effects env db _

pub approve_ruleset-Holds :
    (env : Env) (version : Text) (from : ℕ) (sig : List ℕ) (db : Db)
    → Holds
        (λ out. Effects env.sha env.sign (books db) (books out.1))
        (approve_ruleset env version from sig db)
unfolding approve_ruleset
approve_ruleset-Holds env version from sig db =
    let found = find_ruleset version db.rulesets in
    bind_Holds (or_err not_found found) _ λ r e. require-Holds (not r.approved) conflict _ λ a.
      let doc = approval_document env r from in
      let checked = verify_approval env.digest env.sig_to_address doc sig env.config.mlro in
      bind_Holds (map_err (λ _. forbidden) checked) _ λ by _. holds (
        step (approves version by sig from r (or_err_ok not_found found e) (not-true r.approved a))
          unchanged)
