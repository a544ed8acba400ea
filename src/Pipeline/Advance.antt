-- ===== src/Pipeline/Advance.antt =====
-- pipeline.go: `recommend`, `recommendAll` and `Tick`, which commit one payment at a time.
use compliance_gateway.Common.{
  ℕ, Bool, true, false, ◌&&◌, ◌||◌, Option, none, some, List, [], ◌∷◌, ◌==◌, any, if◌then◌else◌,
  Result, ok, err, ◌>>=◌, or_err, String,
}
use compliance_gateway.Text.{Text, codes, text_eq}
use compliance_gateway.Decision.{credit, hold, kind}
use compliance_gateway.Rules.{Inputs, Recommendation, recommend}
use compliance_gateway.Rules.Parse.{parse, inputs_map, inputs_hash}
use compliance_gateway.Checks.{unavailable_text}
use compliance_gateway.Evidence.Builder.{Snapshot}
use compliance_gateway.Ingest.{checks_done, in_review, find}
use compliance_gateway.Pipeline.{Row, Err, internal}
use compliance_gateway.Pipeline.Env.{Env, Moment}
use compliance_gateway.Pipeline.Store.{Db, CheckRow, RecommendationRow, SnapshotRow, at, set_stage}
use compliance_gateway.Pipeline.Issue.{decide_auto}
use compliance_gateway.Pipeline.Rulesets.{effective_at}
use compliance_gateway.Pipeline.Snapshot.{EffectiveRuleset, Advice, check_of, snapshot}
use compliance_gateway.Pipeline.Checking.{
  same_stage, amount_eur, check_kinds, due, advice_due, each_row, run_checks,
}

-- `outcome`
abbrev pub outcome : Text → List CheckRow → Text
outcome kind cs = elim (check_of kind cs) [ none ↦ unavailable_text | some c ↦ c.outcome ]

abbrev pub inputs_of : Env → List CheckRow → Text → Inputs
inputs_of env cs eur = record {
  kyt = env.string_of (outcome (codes "kyt") cs);
  sanctions = env.string_of (outcome (codes "sanctions") cs);
  structuring = env.string_of (outcome (codes "structuring") cs);
  issuer = env.string_of (outcome (codes "issuer") cs);
  any_unavailable = any (λ k. text_eq (outcome k cs) unavailable_text) check_kinds;
  amount_eur = env.string_of eur;
}

-- `rulesetAt`; a stored ruleset that does not parse is an error.
unfoldable pub ruleset_at : Env → ℕ → Db → Result Err (Option EffectiveRuleset)
unfolding effective_at parse
ruleset_at env at db = elim (effective_at at db.rulesets) [
  | none ↦ ok none
  | some r ↦ elim (parse env.decode_ruleset env.decode env.set_string env.sha r.canonical) [
    | none ↦ err internal
    | some p ↦ ok (
        some (record {
          rules = p.rules;
          version = r.version;
          hash = r.ruleset_hash;
          approved_by = elim r.approved_by [ none ↦ 0 | some a ↦ a ];
          effective_from = r.effective_from;
        }))
  ]
]

abbrev pub all_utf8 : (String → Text) → List String → List Text
all_utf8 utf8 [] = []
all_utf8 utf8 (s ∷ ss) = utf8 s ∷ all_utf8 utf8 ss

abbrev pub no_ruleset : Advice
no_ruleset = record {
  recommendation = codes "HOLD";
  reasons = codes "NO_RULESET" ∷ [];
  policy_ref = codes "none";
  rule_id = codes "none";
  auto = false;
}

abbrev pub advice_of : Env → Recommendation → Advice
advice_of env a = record {
  recommendation = env.utf8 a.recommendation;
  reasons = all_utf8 env.utf8 a.reasons;
  policy_ref = env.utf8 a.policy_ref;
  rule_id = env.utf8 a.rule_id;
  auto = a.auto;
}

-- The recommendation; a panic is an error.
unfoldable pub advise : Env → Option EffectiveRuleset → Inputs → Result Err Advice
unfolding recommend
advise env none i = ok no_ruleset
advise env (some e) i =
    or_err internal (recommend env.set_string e.rules i) >>= λ a. ok (advice_of env a)

abbrev pub version_or_null : Option EffectiveRuleset → Option Text
version_or_null none = none
version_or_null (some e) = some e.version

abbrev pub is_some : Option EffectiveRuleset → Bool
is_some none = false
is_some (some e) = true

abbrev pub recommendation_row :
    Env → Moment → Option EffectiveRuleset → Advice → Inputs → RecommendationRow
recommendation_row env m eff a i = record {
  ruleset_version = version_or_null eff;
  recommendation = a.recommendation;
  reasons = a.reasons;
  policy_ref = a.policy_ref;
  auto = a.auto;
  inputs = inputs_map env.utf8 i;
  inputs_hash = inputs_hash env.utf8 env.sha i;
  engine_version = env.engine_version;
  created_at = m.now;
}

abbrev pub snapshot_row : Text → Snapshot → SnapshotRow
snapshot_row pack_id s = record {
  pack_id = pack_id;
  content = s.content;
  salts = s.salts;
  evidence_root = s.evidence_root;
}

-- INSERT INTO recommendation, unique for the payment.
unfoldable pub insert_recommendation : ℕ → RecommendationRow → Db → Result Err Db
insert_recommendation id r db = elim (db.recommendations id) [
  | some old ↦ err internal
  | none ↦ ok (record db { recommendations = at id (some r) db.recommendations })
]

-- INSERT INTO evidence_snapshot, unique for the payment; a pack id is random.
unfoldable pub insert_snapshot : ℕ → SnapshotRow → Db → Result Err Db
insert_snapshot id s db = elim (db.snapshots id) [
  | some old ↦ err internal
  | none ↦ ok (record db { snapshots = at id (some s) db.snapshots })
]

-- The kind that a recommendation names, 0 for none.
abbrev pub kind_of : Env → Advice → ℕ
kind_of env a = elim (kind (env.string_of a.recommendation)) [ none ↦ 0 | some k ↦ k ]

-- Only an automatic CREDIT or HOLD under a ruleset is decided without an officer.
abbrev pub is_automatic : Option EffectiveRuleset → Advice → ℕ → Bool
is_automatic eff a k = is_some eff && (a.auto && (k == credit || k == hold))

-- The decision, or the case for an officer.
unfoldable pub settle : Env → Moment → Row → Option EffectiveRuleset → Advice → Db → Result Err Db
unfolding decide_auto kind
settle env m r eff a db =
    if is_automatic eff a (kind_of env a)
    then decide_auto env m r (kind_of env a) a.policy_ref a.reasons db >>= (λ out. ok out.1)
    else ok (record db { payments = set_stage r.id in_review db.payments })

-- The body of `recommend`.
unfoldable pub advise_payment : Env → Moment → Row → Db → Result Err Db
unfolding amount_eur ruleset_at advise snapshot settle insert_recommendation insert_snapshot
advise_payment env m r db = do
  eur ← amount_eur env r
  eff ← ruleset_at env r.block_time db
  let i = inputs_of env (db.checks r.id) eur
  a ← advise env eff i
  db1 ← insert_recommendation r.id (recommendation_row env m eff a i) db
  s ← snapshot env m r (db.checks r.id) eur eff a i
  db2 ← insert_snapshot r.id (snapshot_row m.uuid s) db1
  settle env m r eff a db2

-- `recommend`, of a payment that is still at this stage.
unfoldable pub recommend_payment : Env → Moment → Row → Db → Result Err Db
unfolding advise_payment find
recommend_payment env m r db = do
  p ← or_err internal (find r.id db.payments)
  if same_stage p.stage checks_done then advise_payment env m r db else ok db

-- `recommendAll`
unfoldable pub recommend_all : Env → Moment → Db → Db × Option Err
unfolding due recommend_payment each_row
recommend_all env m db = each_row (recommend_payment env m) (due advice_due db) db

abbrev pub tick_after : Env → Moment → Db × Option Err → Db × Option Err
tick_after env m (db, some e) = (db, some e)
tick_after env m (db, none) = recommend_all env m db

-- `Tick`
unfoldable pub tick : Env → Moment → Db → Db × Option Err
unfolding run_checks recommend_all
tick env m db = tick_after env m (run_checks env m db)
