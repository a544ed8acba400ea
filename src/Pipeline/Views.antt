-- ===== src/Pipeline/Views.antt =====
-- queries.go: `Cases` and `Payment`, which only read. The JSON of what they give is left out.
use compliance_gateway.Common.{
  ℕ, String, Bool, ◌&&◌, Option, none, some, List, [], ◌∷◌, leb, ◌==◌, if◌then◌else◌, Result, ok,
  ◌>>=◌, or_err,
}
use compliance_gateway.Text.{Text, text_le}
use compliance_gateway.Decision.{name}
use compliance_gateway.Ingest.{Payment, in_review, find}
use compliance_gateway.Pipeline.{PastDecision, Row, Err, not_found}
use compliance_gateway.Pipeline.Env.{Env}
use compliance_gateway.Pipeline.Store.{
  Db, CheckRow, RecommendationRow, PackRow, row_of, load_decisions,
}
use compliance_gateway.Pipeline.Sections.{last_decision}
use compliance_gateway.Pipeline.Checking.{same_stage, is_confirmed}

-- `Case`
pub record Case : Type 0 where
  pub payment_ref : Text
  pub chain_id : ℕ
  pub payer : Text
  pub deposit : Text
  pub amount : ℕ
  pub recommendation : Text
  pub reasons : List Text
  pub policy_ref : Text
  pub last_decision : Option String
  pub block_time : ℕ

abbrev pub name_of : Option PastDecision → Option String
name_of none = none
name_of (some d) = some (name d.kind)

unfoldable pub case_of : Env → Db → Row → RecommendationRow → Case
unfolding name last_decision load_decisions
case_of env db r rec = record {
  payment_ref = env.hash_hex r.id;
  chain_id = r.chain_id;
  payer = env.address_hex r.payer;
  deposit = env.address_hex r.deposit;
  amount = r.amount;
  recommendation = rec.recommendation;
  reasons = rec.reasons;
  policy_ref = rec.policy_ref;
  last_decision = name_of (last_decision (load_decisions r.id db));
  block_time = r.block_time;
}

-- ORDER BY block_time
unfoldable pub insert_case : Case → List Case → List Case
insert_case c [] = c ∷ []
insert_case c (e ∷ es) =
    let rest = insert_case c es in if leb c.block_time e.block_time then c ∷ e ∷ es else e ∷ rest

abbrev pub is_case : Payment → Bool
is_case p = same_stage p.stage in_review && is_confirmed p.ingest

unfoldable pub cases_of : Env → Db → List (ℕ × Payment) → List Case
unfolding case_of insert_case
cases_of env db [] = []
cases_of env db ((i, p) ∷ ps) =
    let rest = cases_of env db ps in
    elim (db.recommendations i) [
      | none ↦ rest
      | some rec ↦ if is_case p then insert_case (case_of env db (row_of i p) rec) rest else rest
    ]

-- `Cases`
unfoldable pub cases : Env → Db → List Case
unfolding cases_of
cases env db = cases_of env db db.payments

-- What `Payment` gives: the payment, and its rows in the other tables.
pub record PaymentView : Type 0 where
  pub payment : Payment
  pub checks : List CheckRow
  pub recommendation : Option RecommendationRow
  pub decisions : List PastDecision
  pub packs : List PackRow

-- ORDER BY kind
unfoldable pub insert_check : CheckRow → List CheckRow → List CheckRow
unfolding text_le
insert_check c [] = c ∷ []
insert_check c (e ∷ es) =
    let rest = insert_check c es in if text_le c.kind e.kind then c ∷ e ∷ es else e ∷ rest

unfoldable pub order_by_kind : List CheckRow → List CheckRow
unfolding insert_check
order_by_kind [] = []
order_by_kind (c ∷ cs) = insert_check c (order_by_kind cs)

-- ORDER BY pack_version
unfoldable pub insert_by_version : PackRow → List PackRow → List PackRow
insert_by_version k [] = k ∷ []
insert_by_version k (j ∷ js) =
    let rest = insert_by_version k js in if leb k.version j.version then k ∷ j ∷ js else j ∷ rest

unfoldable pub packs_of : ℕ → List PackRow → List PackRow
unfolding insert_by_version
packs_of id [] = []
packs_of id (k ∷ ks) =
    let rest = packs_of id ks in if k.payment == id then insert_by_version k rest else rest

-- `Payment`
unfoldable pub payment_view : ℕ → Db → Result Err PaymentView
unfolding find order_by_kind load_decisions packs_of
payment_view id db = do
  p ← or_err not_found (find id db.payments)
  ok (record {
    payment = p;
    checks = order_by_kind (db.checks id);
    recommendation = db.recommendations id;
    decisions = load_decisions id db;
    packs = packs_of id db.packs;
  })
