-- ===== src/Api.antt =====
-- compliance-backend/internal/api: the bearer token, the status of each error, and the handlers that
-- act on the pipeline. Decoding of bodies, times and hexadecimal texts is a parameter, and the detail
-- text of an error is left out. `healthz`, which asks the service for its health, is not
-- here.
pub mod Steps
pub mod Guarantees
pub mod Verified
pub mod Answers
use compliance_gateway.Common.{
  ℕ, zero, suc, String, Bool, Option, none, some, List, [], ◌∷◌, length, ◌==◌, if◌then◌else◌,
  Result, ok, err,
}
use compliance_gateway.Text.{Text, codes, text_eq, is_prefix}
use compliance_gateway.Decision.{kind}
use compliance_gateway.Decision.Verify.{TypedData}
use compliance_gateway.Evidence.Value.{object, Fields}
use compliance_gateway.Evidence.Canon.{canon}
use compliance_gateway.Evidence.Projection.{Recipient}
use compliance_gateway.Pipeline.{Err, not_found, conflict, forbidden, bad_request, internal}
use compliance_gateway.Pipeline.Env.{Env, Moment}
use compliance_gateway.Pipeline.Store.{Db}
use compliance_gateway.Pipeline.Officer.{officer_typed_data, officer_decide}
use compliance_gateway.Pipeline.Rulesets.{import_ruleset, approval_typed_data, approve_ruleset}
use compliance_gateway.Pipeline.Queries.{project_pack}
use compliance_gateway.Pipeline.Views.{Case, cases, PaymentView, payment_view}

-- The bodies that are decoded.
pub record DecideBody : Type 0 where
  pub decision : String
  pub signature : List ℕ
  pub rationale : Text

pub record ApproveBody : Type 0 where
  pub effective_from : ℕ
  pub signature : List ℕ

-- The decoders of the standard library and of go-ethereum; a body with an unknown field is refused.
pub record Decoders : Type 0 where
  pub hex : Text → Option (List ℕ)  -- hexutil.Decode
  pub bytes_to_hash : List ℕ → ℕ
  pub time : Text → Option ℕ  -- time.Parse, in seconds
  pub now_seconds : ℕ → ℕ
  pub decide_body : Text → Option DecideBody
  pub approve_body : Text → Option ApproveBody
  pub project_body : Text → Option Recipient

pub data Body : Type 0 where
  failure : Text → Body  -- the error's code
  document : TypedData → Body
  decided : (pack_id : Text) (version : ℕ) → Body
  imported : (version hash : Text) (effective_from : ℕ) → TypedData → Body
  approved : (version : Text) (by : ℕ) → Body
  projection : Text → Body
  open_cases : List Case → Body
  payment_body : PaymentView → Body

pub record Response : Type 0 where
  pub status : ℕ
  pub body : Body

-- `fail`
abbrev pub fail : ℕ → Text → Response
fail status code = record { status = status; body = failure code }

-- `failErr`
unfoldable pub fail_err : Err → Response
fail_err not_found = fail 404 (codes "not_found")
fail_err conflict = fail 409 (codes "conflict")
fail_err forbidden = fail 403 (codes "forbidden")
fail_err bad_request = fail 400 (codes "bad_request")
fail_err internal = fail 500 (codes "internal")

abbrev pub bad : Response
bad = fail 400 (codes "bad_request")

-- The answer of an operation that changes the tables.
abbrev pub answer {ℓ} : {A : Type ℓ} → Db → Result Err A → (A → Response × Db) → Response × Db
answer db (err e) f = (fail_err e, db)
answer db (ok a) f = f a

-- Bad Request when something is not readable.
abbrev pub given {ℓ} : {A : Type ℓ} → Db → Option A → (A → Response × Db) → Response × Db
given db none f = (bad, db)
given db (some a) f = f a

-- io.LimitReader
abbrev pub limit : ℕ → Text → Text
limit zero t = []
limit (suc n) [] = []
limit (suc n) (c ∷ cs) = c ∷ limit n cs

-- The body that is read, at most 1 MiB of it.
abbrev pub limited : Text → Text
limited body = limit 1048576 body

unfoldable pub after_prefix : Text → Text → Option Text
after_prefix [] t = some t
after_prefix (c ∷ cs) [] = none
after_prefix (c ∷ cs) (d ∷ ds) = let rest = after_prefix cs ds in if c == d then rest else none

-- `auth`, of the Authorization header.
unfoldable pub is_authorized : Text → Text → Bool
unfolding after_prefix text_eq
is_authorized token header = elim (after_prefix (codes "Bearer ") header) [
  | none ↦ Bool.false
  | some got ↦ text_eq got token
]

abbrev pub bytes_ref : (List ℕ → ℕ) → List ℕ → Option ℕ
bytes_ref f b = if length b == 32 then some (f b) else none

-- `paymentRef`
abbrev pub payment_ref : Decoders → Text → Option ℕ
payment_ref d ref = elim (d.hex ref) [ none ↦ none | some b ↦ bytes_ref d.bytes_to_hash b ]

-- Canonical bytes, or the error of `Canon`.
abbrev pub copy_response : Option Text → Response
copy_response none = fail 500 (codes "internal")
copy_response (some b) = record { status = 201; body = projection b }

module _ (env : Env) (m : Moment) (d : Decoders) where
  -- `cases`
  unfoldable pub cases_handler : Db → Response × Db
  unfolding cases
  cases_handler db = (record { status = 200; body = open_cases (cases env db) }, db)

  -- `payment`
  unfoldable pub payment_handler : Text → Db → Response × Db
  unfolding payment_view fail_err
  payment_handler ref db =
      given db (payment_ref d ref) λ id.
        answer db (payment_view id db) λ v. (record { status = 200; body = payment_body v }, db)

  -- `typedData`
  unfoldable pub typed_data : Text → String → Db → Response × Db
  unfolding officer_typed_data kind fail_err
  typed_data ref name db = given db (payment_ref d ref) λ id. given db (kind name) λ k.
      answer db (officer_typed_data env m id k db)
        λ out. (record { status = 200; body = document out.0 }, out.1)

  -- `decide`
  unfoldable pub decide : Text → Text → Db → Response × Db
  unfolding officer_decide kind fail_err
  decide ref body db = given db (payment_ref d ref) λ id.
      given db (d.decide_body (limited body)) λ b. given db (kind b.decision) λ k.
        answer db (officer_decide env m id k b.signature b.rationale db)
          λ out. (record { status = 201; body = decided out.0.0 out.0.1 }, out.1)

  -- The time from which a ruleset is to be effective: now, unless the query names one.
  unfoldable pub effective_from : Text → Option ℕ
  unfolding text_eq
  effective_from q = if text_eq q [] then some (d.now_seconds m.now) else d.time q

  -- `importRuleset`: the import stands whether its approval document is made or not.
  unfoldable pub import_handler : Text → Text → Db → Response × Db
  unfolding effective_from import_ruleset approval_typed_data fail_err
  import_handler query body db = given db (effective_from query) λ from.
      let out = import_ruleset env (limited body) db in
      answer out.1 out.0 λ v.
        answer out.1 (approval_typed_data env v.0 from out.1)
          λ doc. (record { status = 201; body = imported v.0 v.1 from doc }, out.1)

  -- `approveRuleset`
  unfoldable pub approve_handler : Text → Text → Db → Response × Db
  unfolding approve_ruleset fail_err
  approve_handler version body db = given db (d.approve_body (limited body)) λ b.
      answer db (approve_ruleset env version b.effective_from b.signature db)
        λ out. (record { status = 200; body = approved version out.0 }, out.1)

  -- `project`
  unfoldable pub project_handler : Text → Text → Db → Response × Db
  unfolding project_pack canon fail_err
  project_handler pack_id body db = given db (d.project_body (limited body)) λ r.
      answer db (project_pack env m pack_id r db)
        λ out. (copy_response (canon (object out.0)), out.1)

-- The requests behind the token.
pub data Request : Type 0 where
  cases_request : Request
  payment_request : (ref : Text) → Request
  typed_data_request : (ref : Text) (decision : String) → Request
  decide_request : (ref body : Text) → Request
  import_request : (query body : Text) → Request
  approve_request : (version body : Text) → Request
  project_request : (pack_id body : Text) → Request

-- `Handler`, of these routes without the token.
unfoldable pub route : Env → Moment → Decoders → Request → Db → Response × Db
unfolding cases_handler payment_handler typed_data decide import_handler approve_handler
    project_handler
route env m d cases_request db = cases_handler env m d db
route env m d (payment_request ref) db = payment_handler env m d ref db
route env m d (typed_data_request ref name) db = typed_data env m d ref name db
route env m d (decide_request ref body) db = decide env m d ref body db
route env m d (import_request query body) db = import_handler env m d query body db
route env m d (approve_request version body) db = approve_handler env m d version body db
route env m d (project_request pack_id body) db = project_handler env m d pack_id body db

unfoldable pub handle : Env → Moment → Decoders → Text → Text → Request → Db → Response × Db
unfolding is_authorized route
handle env m d token header q db =
    if is_authorized token header then route env m d q db else (fail 401 (codes "unauthorized"), db)
