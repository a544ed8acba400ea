-- ===== src/Api/Steps.antt =====
-- The service as steps: ticks of the pipeline, requests to the API, and changes of the payments by
-- the ingest, in any order and with any outcome. What the steps do is told by their effects.
use compliance_gateway.Common.{
  ℕ, sym, subst, Bool-cases, inl, inr, map_err, Option, none, some, List, Result, ok, err, or_err,
  not, Holds, holds, Holds-map, bind_Holds, always_Holds, require-Holds, if◌then◌else◌, String,
}
use compliance_gateway.Text.{Text, lookup, codes}
use compliance_gateway.Decision.{kind}
use compliance_gateway.Ingest.{Payment}
use compliance_gateway.Evidence.Projection.{Recipient, project}
use compliance_gateway.Evidence.Profiles.{profiles, refused_profiles}
use compliance_gateway.Pipeline.{Err, internal, bad_request, conflict}
use compliance_gateway.Pipeline.Env.{Env, Moment}
use compliance_gateway.Pipeline.Store.{Db, is_bigint, lock_payment}
use compliance_gateway.Pipeline.Issue.{prepare_next}
use compliance_gateway.Pipeline.Officer.{officer_typed_data, officer_decide}
use compliance_gateway.Pipeline.Rulesets.{import_ruleset, approval_typed_data, approve_ruleset}
use compliance_gateway.Pipeline.Queries.{project_pack, load_pack, is_refused}
use compliance_gateway.Pipeline.Views.{payment_view}
use compliance_gateway.Pipeline.Advance.{tick}
use compliance_gateway.Pipeline.Books.{Effects, Effects-trans, unchanged, step, books}
use compliance_gateway.Pipeline.Books.Deciding.{officer_decide-Holds}
use compliance_gateway.Pipeline.Books.Governing.{import_ruleset-Effects, approve_ruleset-Holds}
use compliance_gateway.Pipeline.Books.Ticking.{tick-Effects}
use compliance_gateway.Api.{
  Decoders, Response, Request, cases_request, payment_request, cases_handler, payment_handler,
  typed_data_request, decide_request, import_request, approve_request, project_request, answer,
  given, fail, payment_ref, limited, typed_data, decide, effective_from, import_handler,
  approve_handler, project_handler, route, is_authorized, handle,
}

pub data Step (env : Env) (d : Decoders) (db : Db) : Db → Type 0 where
  ticks : (m : Moment) → Step env d db (tick env m db).0
  serves :
      (m : Moment) (token header : Text) (q : Request)
      → Step env d db (handle env m d token header q db).1
  ingests : (ps : List (ℕ × Payment)) → Step env d db (record db { payments = ps })

pub data Steps (env : Env) (d : Decoders) : Db → Db → Type 0 where
  done : {db : Db} → Steps env d db db
  next : {a b c : Db} → Step env d a b → Steps env d b c → Steps env d a c

module _ (sha : List ℕ → Text) (sign : Text → Option Text) where
  answer-Effects {ℓ} :
      {A : Type ℓ} (db : Db) (q : Result Err A) (f : A → Response × Db)
      → Holds (λ a. Effects sha sign (books db) (books (f a).1)) q
      → Effects sha sign (books db) (books (answer db q f).1)
  answer-Effects db (err e) f h = unchanged
  answer-Effects db (ok a) f (holds h) = h

  given-Effects {ℓ} :
      {A : Type ℓ} (db : Db) (o : Option A) (f : A → Response × Db)
      → ((a : A) → Effects sha sign (books db) (books (f a).1))
      → Effects sha sign (books db) (books (given db o f).1)
  given-Effects db none f h = unchanged
  given-Effects db (some a) f h = h a

officer_typed_data-Holds :
    (env : Env) (m : Moment) (id kind : ℕ) (db : Db)
    → Holds
        (λ out. Effects env.sha env.sign (books db) (books out.1))
        (officer_typed_data env m id kind db)
unfolding officer_typed_data
officer_typed_data-Holds env m id kind db = bind_Holds (lock_payment id db) _ λ r _.
    bind_Holds (prepare_next env m r kind db) _ λ p _.
      require-Holds (is_bigint p.0.nonce) internal _
        λ _. require-Holds (is_bigint p.0.deadline) internal _ λ _. holds unchanged

project_pack-Holds :
    (env : Env) (m : Moment) (id : Text) (r : Recipient) (db : Db)
    → Holds (λ out. Effects env.sha env.sign (books db) (books out.1)) (project_pack env m id r db)
unfolding project_pack
project_pack-Holds env m id r db = bind_Holds (or_err bad_request (profiles r.profile)) _ λ ps _.
    bind_Holds (load_pack env id 0 db) _ λ k _.
      require-Holds (not (is_refused (lookup r.profile (refused_profiles k.content)))) conflict _
        λ _.
          bind_Holds
            (map_err (λ _. bad_request) (project env.sha env.blank k r (env.rfc3339 m.now))) _
            λ c _. holds unchanged

module _ (env : Env) (m : Moment) (d : Decoders) where
  typed_data-Effects :
      (ref : Text) (name : String) (db : Db)
      → Effects env.sha env.sign (books db) (books (typed_data env m d ref name db).1)
  unfolding typed_data
  typed_data-Effects ref name db = given-Effects env.sha env.sign db (payment_ref d ref) _ λ id.
      given-Effects env.sha env.sign db (kind name) _ λ k.
        answer-Effects env.sha env.sign db (officer_typed_data env m id k db) _
          (officer_typed_data-Holds env m id k db)

  decide-Effects :
      (ref body : Text) (db : Db)
      → Effects env.sha env.sign (books db) (books (decide env m d ref body db).1)
  unfolding decide
  decide-Effects ref body db = given-Effects env.sha env.sign db (payment_ref d ref) _ λ id.
      given-Effects env.sha env.sign db (d.decide_body (limited body)) _ λ b.
        given-Effects env.sha env.sign db (kind b.decision) _ λ k.
          answer-Effects env.sha env.sign db (officer_decide env m id k b.signature b.rationale db)
            _
            (Holds-map (officer_decide-Holds env m id k b.signature b.rationale db)
              λ out w. step w.7 unchanged)

  import_handler-Effects :
      (query body : Text) (db : Db)
      → Effects env.sha env.sign (books db) (books (import_handler env m d query body db).1)
  unfolding import_handler
  import_handler-Effects query body db =
      given-Effects env.sha env.sign db (effective_from env m d query) _ λ from.
        let out = import_ruleset env (limited body) db in
        Effects-trans env.sha env.sign (import_ruleset-Effects env (limited body) db) (
          answer-Effects env.sha env.sign out.1 out.0 _ (
            always_Holds λ v.
              answer-Effects env.sha env.sign out.1 (approval_typed_data env v.0 from out.1) _
                (always_Holds λ _. unchanged)))

  approve_handler-Effects :
      (version body : Text) (db : Db)
      → Effects env.sha env.sign (books db) (books (approve_handler env m d version body db).1)
  unfolding approve_handler
  approve_handler-Effects version body db =
      given-Effects env.sha env.sign db (d.approve_body (limited body)) _ λ b.
        answer-Effects env.sha env.sign db
          (approve_ruleset env version b.effective_from b.signature db) _
          (approve_ruleset-Holds env version b.effective_from b.signature db)

  project_handler-Effects :
      (pack_id body : Text) (db : Db)
      → Effects env.sha env.sign (books db) (books (project_handler env m d pack_id body db).1)
  unfolding project_handler
  project_handler-Effects pack_id body db =
      given-Effects env.sha env.sign db (d.project_body (limited body)) _ λ r.
        answer-Effects env.sha env.sign db (project_pack env m pack_id r db) _
          (project_pack-Holds env m pack_id r db)

  route-Effects :
      (q : Request) (db : Db) → Effects env.sha env.sign (books db) (books (route env m d q db).1)
  unfolding route cases_handler payment_handler
  route-Effects cases_request db = unchanged
  route-Effects (payment_request ref) db =
      given-Effects env.sha env.sign db (payment_ref d ref) _ λ id.
        answer-Effects env.sha env.sign db (payment_view id db) _ (always_Holds λ _. unchanged)
  route-Effects (typed_data_request ref name) db = typed_data-Effects ref name db
  route-Effects (decide_request ref body) db = decide-Effects ref body db
  route-Effects (import_request query body) db = import_handler-Effects query body db
  route-Effects (approve_request version body) db = approve_handler-Effects version body db
  route-Effects (project_request pack_id body) db = project_handler-Effects pack_id body db

handle-Effects :
    (env : Env) (m : Moment) (d : Decoders) (token header : Text) (q : Request) (db : Db)
    → Effects env.sha env.sign (books db) (books (handle env m d token header q db).1)
unfolding handle
handle-Effects env m d token header q db = elim (Bool-cases (is_authorized token header)) [
  | inl e ↦
      subst
        (λ b.
          Effects env.sha env.sign (books db)
            (books (if b then route env m d q db else (fail 401 (codes "unauthorized"), db)).1))
        (sym e) (route-Effects env m d q db)
  | inr e ↦
      subst
        (λ b.
          Effects env.sha env.sign (books db)
            (books (if b then route env m d q db else (fail 401 (codes "unauthorized"), db)).1))
        (sym e) unchanged
]

-- Whatever the service does in one step, to the decisions, the journal and the rulesets it is a
-- sequence of allowed effects: a decision that continues its payment's history, recorded with a pack
-- that follows the journal's head; a new draft ruleset; the approval of a ruleset that was not.
pub Step-Effects :
    (env : Env) (d : Decoders) (db db' : Db)
    → Step env d db db'
    → Effects env.sha env.sign (books db) (books db')
Step-Effects env d db db' (ticks m) = tick-Effects env m db
Step-Effects env d db db' (serves m token header q) = handle-Effects env m d token header q db
Step-Effects env d db db' (ingests ps) = unchanged

pub Steps-Effects :
    (env : Env) (d : Decoders) {db db' : Db}
    → Steps env d db db'
    → Effects env.sha env.sign (books db) (books db')
Steps-Effects env d done = unchanged
Steps-Effects env d (next {a} {b} s t) =
    Effects-trans env.sha env.sign (Step-Effects env d a b s) (Steps-Effects env d t)
