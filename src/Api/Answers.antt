-- ===== src/Api/Answers.antt =====
-- What a client can tell from an answer.
use compliance_gateway.Common.{
  require, ◌>>◌, inl, inr, false, ℕ, ◌≡◌, refl, Bool, true, ◌&&◌, Option, none, some, List, [], ◌∷◌,
  ◌++◌, leb, ltb, Result, ok, err, not, any, Holds, holds, always_Holds, Bool-cases, arith,
}
use compliance_gateway.Text.{Text, text_eq}
use compliance_gateway.Text.Laws.{text_eq_refl}
use compliance_gateway.Decision.{kind}
use compliance_gateway.Evidence.Value.{object}
use compliance_gateway.Evidence.Canon.{canon}
use compliance_gateway.Rules.Parse.{Parsed}
use compliance_gateway.Pipeline.{Err, conflict}
use compliance_gateway.Pipeline.Env.{Env, Moment}
use compliance_gateway.Pipeline.Store.{Db, RulesetRow}
use compliance_gateway.Pipeline.Officer.{officer_typed_data, officer_decide}
use compliance_gateway.Pipeline.Rulesets.{
  find_ruleset, draft, insert_over, insert_ruleset, after_insert, after_parse, import_ruleset,
  approval_typed_data, approve_ruleset,
}
use compliance_gateway.Pipeline.Queries.{project_pack}
use compliance_gateway.Pipeline.Views.{payment_view}
use compliance_gateway.Api.{
  imported, Decoders, Response, Request, cases_request, payment_request, cases_handler,
  payment_handler, typed_data_request, decide_request, import_request, approve_request,
  project_request, answer, given, payment_ref, limited, typed_data, decide, effective_from,
  import_handler, approve_handler, project_handler, copy_response, route, is_authorized, handle,
}

abbrev pub is_client_error : ℕ → Bool
is_client_error s = leb 400 s && ltb s 500

-- An answer with a status of 400 to 499 goes with unchanged tables.
abbrev IsQuiet : Db → Response × Db → Type 0
IsQuiet db x = is_client_error x.0.status ≡ true → x.1 ≡ db

answer-IsQuiet {ℓ} :
    {A : Type ℓ} (db : Db) (q : Result Err A) (f : A → Response × Db)
    → Holds (λ a. IsQuiet db (f a)) q
    → IsQuiet db (answer db q f)
answer-IsQuiet db (err e) f h = λ _. refl
answer-IsQuiet db (ok a) f (holds h) = h

given-IsQuiet {ℓ} :
    {A : Type ℓ} (db : Db) (o : Option A) (f : A → Response × Db)
    → ((a : A) → IsQuiet db (f a))
    → IsQuiet db (given db o f)
given-IsQuiet db none f h = λ _. refl
given-IsQuiet db (some a) f h = h a

find_ruleset-append :
    (d : RulesetRow) (rs : List RulesetRow)
    → find_ruleset d.version rs ≡ none
    → find_ruleset d.version (rs ++ d ∷ []) ≡ some d
unfolding find_ruleset
find_ruleset-append d [] h = rw (text_eq_refl d.version) refl
find_ruleset-append d (x ∷ xs) h = ground (arith, find_ruleset-append d xs)

-- After an error nothing has changed; and what was imported is there for its approval document.
abbrev IsImported : Db → Result Err (Text × Text) × Db → Type 0
IsImported db (err e, db') = db' ≡ db
IsImported db (ok v, db') = (r : RulesetRow) × (find_ruleset v.0 db'.rulesets ≡ some r)

IsImported-over :
    (db : Db) (b : Bool) (v : Text × Text) (r : RulesetRow)
    → find_ruleset v.0 db.rulesets ≡ some r
    → IsImported db (require b conflict >> ok v, db)
IsImported-over db true v r e = (r, e)
IsImported-over db false v r e = refl

IsImported-new :
    (db db' : Db) (b : Bool) (v : Text × Text) (r : RulesetRow)
    → b ≡ true
    → find_ruleset v.0 db'.rulesets ≡ some r
    → IsImported db (require b conflict >> ok v, db')
IsImported-new db db' true v r y e = (r, e)
IsImported-new db db' false v r y e = cc

insert_over-IsImported :
    (env : Env) (p : Parsed) (db : Db) (o : Option RulesetRow)
    → find_ruleset (env.utf8 p.rules.version) db.rulesets ≡ o
    → IsImported db (after_insert env p db (insert_over (draft env p) db o))
insert_over-IsImported env p db (some r) e = elim (Bool-cases r.approved) [
  | inl y ↦ rw y refl
  | inr z ↦ rw z (IsImported-over db (text_eq r.ruleset_hash p.hash) _ r e)
]
insert_over-IsImported env p db none e =
    let unique = not (any (λ r. text_eq r.ruleset_hash p.hash) db.rulesets) in
    elim (Bool-cases unique) [
      | inl y ↦ rw y (
          IsImported-new db _ (text_eq p.hash p.hash) (env.utf8 p.rules.version, p.hash)
            (draft env p) (text_eq_refl p.hash) (find_ruleset-append (draft env p) db.rulesets e))
      | inr z ↦ rw z refl
    ]

after_parse-IsImported :
    (env : Env) (db : Db) (o : Option Parsed) → IsImported db (after_parse env db o)
unfolding insert_ruleset
after_parse-IsImported env db none = refl
after_parse-IsImported env db (some p) = insert_over-IsImported env p db _ refl

import_ruleset-IsImported :
    (env : Env) (raw : Text) (db : Db) → IsImported db (import_ruleset env raw db)
unfolding import_ruleset
import_ruleset-IsImported env raw db = after_parse-IsImported env db _

copy_IsQuiet : (db db' : Db) (o : Option Text) → IsQuiet db (copy_response o, db')
copy_IsQuiet db db' none h = cc
copy_IsQuiet db db' (some b) h = cc

module _ (env : Env) (m : Moment) (d : Decoders) where
  approval_IsQuiet :
      (v : Text) (from : ℕ) (db db' : Db) (f : _ → Response × Db)
      → ((r : RulesetRow) × (find_ruleset v db'.rulesets ≡ some r))
      → ((doc : _) → IsQuiet db (f doc))
      → IsQuiet db (answer db' (approval_typed_data env v from db') f)
  unfolding approval_typed_data
  approval_IsQuiet v from db db' f (r, e) h = rw e (h _)

  import_IsQuiet :
      (from : ℕ) (db : Db) (out : Result Err (Text × Text) × Db)
      → IsImported db out
      → IsQuiet db (
          answer out.1 out.0 λ v.
            answer out.1
              (approval_typed_data env v.0 from out.1)
              λ doc. (record { status = 201; body = imported v.0 v.1 from doc }, out.1))
  import_IsQuiet from db (err e, db') h = λ _. h
  import_IsQuiet from db (ok v, db') h = approval_IsQuiet v.0 from db db' _ h λ _ w. cc

  route-IsQuiet : (q : Request) (db : Db) → IsQuiet db (route env m d q db)
  unfolding route cases_handler payment_handler typed_data decide import_handler approve_handler
      project_handler
  route-IsQuiet cases_request db = λ _. refl
  route-IsQuiet (payment_request ref) db =
      given-IsQuiet db (payment_ref d ref) _
        λ id. answer-IsQuiet db (payment_view id db) _ (always_Holds λ _ _. refl)
  route-IsQuiet (typed_data_request ref name) db = given-IsQuiet db (payment_ref d ref) _ λ id.
      given-IsQuiet db (kind name) _
        λ k. answer-IsQuiet db (officer_typed_data env m id k db) _ (always_Holds λ _ h. cc)
  route-IsQuiet (decide_request ref body) db = given-IsQuiet db (payment_ref d ref) _ λ id.
      given-IsQuiet db (d.decide_body (limited body)) _ λ b.
        given-IsQuiet db (kind b.decision) _ λ k.
          answer-IsQuiet db (officer_decide env m id k b.signature b.rationale db) _
            (always_Holds λ _ h. cc)
  route-IsQuiet (import_request query body) db =
      given-IsQuiet db (effective_from env m d query) _ λ from.
        import_IsQuiet from db (import_ruleset env (limited body) db)
          (import_ruleset-IsImported env (limited body) db)
  route-IsQuiet (approve_request version body) db =
      given-IsQuiet db (d.approve_body (limited body)) _ λ b.
        answer-IsQuiet db (approve_ruleset env version b.effective_from b.signature db) _
          (always_Holds λ _ h. cc)
  route-IsQuiet (project_request pack_id body) db =
      given-IsQuiet db (d.project_body (limited body)) _ λ r.
        answer-IsQuiet db (project_pack env m pack_id r db) _
          (always_Holds λ out. copy_IsQuiet db out.1 (canon (object out.0)))

-- A request that is answered with a client error, a status of 400 to 499, has changed nothing: also
-- an import of a ruleset, whose statement is not undone by a later error, answers so only when the
-- statement has stored nothing.
pub handle_client_error :
    (env : Env) (m : Moment) (d : Decoders) (token header : Text) (q : Request) (db : Db)
    → is_client_error (handle env m d token header q db).0.status ≡ true
    → (handle env m d token header q db).1 ≡ db
unfolding handle
handle_client_error env m d token header q db = elim (Bool-cases (is_authorized token header)) [
  | inl e ↦ rw e (route-IsQuiet env m d q db)
  | inr e ↦ rw e (λ _. refl)
]
