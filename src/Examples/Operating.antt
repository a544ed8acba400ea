-- ===== src/Examples/Operating.antt =====
-- Single operations of the pipeline and of the API, on the tables of the served payment.
use compliance_gateway.Common.{
  ℕ, ◌≡◌, ◌++◌, refl, true, false, Option, none, some, [], ◌∷◌, Result, ok, err, All,
}
use compliance_gateway.Text.{text_le, hex_encode, Text, codes, split, lookup, put, hex_decode}
use compliance_gateway.Decision.{name, freeze, permits}
use compliance_gateway.Decision.Verify.{find_officer}
use compliance_gateway.Evidence.Value.{Fields, end, field, text, object, get, set, withheld}
use compliance_gateway.Evidence.Canon.{canon}
use compliance_gateway.Evidence.Tree.{hash_fields, hash_items, leaf}
use compliance_gateway.Evidence.Decode.{is_numeral}
use compliance_gateway.Evidence.Builder.{build_pack}
use compliance_gateway.Evidence.Projection.{Recipient, project, withhold}
use compliance_gateway.Ingest.{checks_pending}
use compliance_gateway.Rules.{Ruleset, contains}
use compliance_gateway.Rules.Parse.{Parsed, parse}
use compliance_gateway.Pipeline.{Row, Err}
use compliance_gateway.Pipeline.Env.{Env}
use compliance_gateway.Pipeline.Store.{
  Db, PackRow, DecisionRow, RulesetRow, row_of, insert_pack, latest_pack,
}
use compliance_gateway.Pipeline.Sections.{rest}
use compliance_gateway.Pipeline.Issue.{issue_pack}
use compliance_gateway.Pipeline.Officer.{officer_decide}
use compliance_gateway.Pipeline.Rulesets.{find_ruleset}
use compliance_gateway.Pipeline.Snapshot.{EffectiveRuleset, Advice}
use compliance_gateway.Pipeline.Checking.{run_checks, due, checks_due}
use compliance_gateway.Pipeline.Advance.{settle, tick}
use compliance_gateway.Pipeline.Queries.{pack_of, project_pack, projection_row}
use compliance_gateway.Pipeline.Books.Deciding.{Answer, IsRecorded, officer_decide_ok}
use compliance_gateway.Pipeline.Progress.{IsChecked, run_checks-IsChecked}
use compliance_gateway.Pipeline.Automatic.{IsSettled, settle_lem}
use compliance_gateway.Pipeline.Disclosures.{IsLatest, IsTold, project_pack_ok}
use compliance_gateway.Api.{handle, effective_from, limited}
use compliance_gateway.Api.Steps.{ticks, next, done}
use compliance_gateway.Api.Guarantees.{Steps-approved}
use compliance_gateway.Examples.Recommending.{credit_rest}
use compliance_gateway.Examples.Serving.{
  zeros, uuid, env, moment, times, decoders, waiting, database, asked,
}

-- What came back, or the tables unchanged.
abbrev done_or {ℓ} : {A : Type ℓ} → A → Result Err A → A
done_or a (ok b) = b
done_or a (err e) = a

abbrev decided : (Text × ℕ) × Db
decided =
    done_or (([], 0), asked) (officer_decide env moment 1 freeze (times 65) (codes "seen") asked)

officer_accepted :
    officer_decide env moment 1 freeze (times 65) (codes "seen") asked ≡ ok (decided.0, decided.1)
unfolding officer_decide issue_pack rest build_pack is_numeral hex_encode latest_pack insert_pack
    find_officer permits set withheld hash_fields leaf lookup put hex_decode hash_items handle
officer_accepted = refl

officer_decide_ok_example :
    (r : Row) × (a : Answer env moment freeze (times 65) r asked) × (d : DecisionRow) × (r.id ≡ 1)
    × IsRecorded env moment freeze (times 65) r asked a d
    × (decided.1.decisions 1 ≡ asked.decisions 1 ++ d ∷ [])
    × ((j : ℕ) → decided.1.pending 1 j ≡ none)
officer_decide_ok_example =
    officer_decide_ok env moment 1 freeze (times 65) (codes "seen") asked decided.1 decided.0
      officer_accepted

abbrev row : Row
row = row_of 1 waiting

abbrev one_rule : Ruleset
one_rule = record { version = "v1"; rules = credit_rest ∷ [] }

abbrev in_effect : Option EffectiveRuleset
in_effect = some (record {
  rules = one_rule;
  version = codes "v1";
  hash = zeros;
  approved_by = 4;
  effective_from = 0;
})

abbrev held : Advice
held = record {
  recommendation = codes "HOLD";
  reasons = [];
  policy_ref = codes "v1/r";
  rule_id = codes "r";
  auto = true;
}

abbrev settled : Db
settled = done_or database (settle env moment row in_effect held database)

held_automatically : settle env moment row in_effect held database ≡ ok settled
unfolding settle text_le name issue_pack rest build_pack is_numeral hex_encode latest_pack
    insert_pack set withheld hash_fields leaf lookup put hex_decode hash_items canon get
held_automatically = refl

settle_lem_example : IsSettled env row in_effect held database settled
settle_lem_example = settle_lem env moment row in_effect held database settled held_automatically

abbrev arrived : Db
arrived = record database { payments = (1, record waiting { stage = checks_pending }) ∷ [] }

abbrev checked : Db
checked = (run_checks env moment arrived).0

no_error : run_checks env moment arrived ≡ (checked, none)
unfolding run_checks
no_error = refl

run_checks-IsChecked_example :
    All (λ (r : Row). IsChecked r.id checked.payments) (due checks_due arrived)
run_checks-IsChecked_example = run_checks-IsChecked env moment arrived checked no_error

abbrev first_pack : PackRow
first_pack = record {
  pack_id = uuid;
  version = 1;
  payment = 1;
  seq = 1;
  content =
      field (codes "decision") (object (field (codes "decision") (text (codes "FREEZE")) end)) end;
  salts = [];
  master_root = zeros;
  evidence_root = zeros;
  jws = [];
  prev_pack_hash = zeros;
  pack_hash = zeros;
}

abbrev packed : Db
packed = record database { packs = first_pack ∷ [] }

abbrev auditor : Recipient
auditor = record { profile = codes "AUDITOR"; prepared_for = codes "Bob"; purpose = codes "audit" }

abbrev disclosed : Fields × Db
disclosed = done_or (end, packed) (project_pack env moment uuid auditor packed)

-- An auditor may read the frozen payment's pack.
audited : project_pack env moment uuid auditor packed ≡ ok (disclosed.0, disclosed.1)
unfolding project_pack lookup withhold split canon
audited = refl

project_pack_ok_example :
    (k : PackRow) × IsLatest uuid k packed.packs
    × (¬ IsTold k.content auditor.profile)
    × (project (λ bytes. zeros) (λ t. false) (pack_of env k) auditor [] ≡ ok disclosed.0)
    × (disclosed.1 ≡ record packed {
      projections =
          packed.projections ++ projection_row uuid (pack_of env k) auditor disclosed.0 ∷ [];
    })
project_pack_ok_example =
    project_pack_ok env moment uuid auditor packed disclosed.1 disclosed.0 audited

abbrev in_force : RulesetRow
in_force = record {
  version = codes "v1";
  canonical = codes "{}";
  ruleset_hash = zeros;
  approved_by = some 4;
  approval_sig = [];
  effective_from = 0;
  approved = true;
}

abbrev governed : Db
governed = record database { rulesets = in_force ∷ [] }

v1_found : find_ruleset (codes "v1") governed.rulesets ≡ some in_force
unfolding find_ruleset
v1_found = refl

Steps-approved_example :
    find_ruleset (codes "v1") (tick env moment governed).0.rulesets ≡ some in_force
Steps-approved_example =
    Steps-approved env decoders (codes "v1") in_force governed (tick env moment governed).0 v1_found
      refl (next (ticks moment) done)

abbrev pub rules_env : Env
rules_env = record env { decode_ruleset = λ raw. some one_rule; decode = λ raw. some end }

abbrev pub parsed : Parsed
parsed = record { rules = one_rule; canonical = codes "{}"; hash = zeros }

now_effective : effective_from rules_env moment decoders [] ≡ some 1000
unfolding effective_from
now_effective = refl

v1_parsed :
    parse rules_env.decode_ruleset rules_env.decode rules_env.set_string rules_env.sha
      (limited (codes "{}"))
    ≡ some parsed
unfolding parse contains
v1_parsed = refl
