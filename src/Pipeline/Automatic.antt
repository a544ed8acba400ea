-- ===== src/Pipeline/Automatic.antt =====
-- pipeline.go, the end of `recommend`: which decisions are taken without an officer.
use compliance_gateway.Common.{
  ℕ, ◌≡◌, refl, sym, ap, subst, ◌⊎◌, inl, inr, true, suc, some, ◌∙◌, Option, none, List, [], ◌∷◌,
  ◌++◌, ok, or_err, Holds, holds, Holds-ok, Holds-map, bind_Holds, if_Holds, arith,
}
use compliance_gateway.Text.{Text, codes}
use compliance_gateway.Decision.{credit, hold, kind, name}
use compliance_gateway.Decision.Masks.{name-kind}
use compliance_gateway.Ingest.{Payment, find, in_review}
use compliance_gateway.Pipeline.{Row, internal}
use compliance_gateway.Pipeline.Env.{Env, Moment}
use compliance_gateway.Pipeline.Store.{Db, DecisionRow, at, set_stage}
use compliance_gateway.Pipeline.Issue.{decide_auto, prepare_next}
use compliance_gateway.Pipeline.Snapshot.{EffectiveRuleset, Advice}
use compliance_gateway.Pipeline.Advance.{is_automatic, kind_of, settle, is_some}
use compliance_gateway.Pipeline.Books.Recording.{record_decision-Holds, prepare_next_ok}

-- A decision by the policy key.
abbrev pub IsByPolicy : Env → DecisionRow → Type 0
IsByPolicy env d =
    (d.decision.mode ≡ codes "AUTO_BY_POLICY")
    × (d.decision.signer ≡ env.policy_address)
    × (d.decision.officer_id ≡ none)

decide_auto-Holds :
    (env : Env) (m : Moment) (r : Row) (kind : ℕ) (policy_ref : Text) (reasons : List Text)
    (db : Db)
    → Holds
        (λ out.
          (d : DecisionRow) × (d.decision.kind ≡ kind)
          × IsByPolicy env d
          × (out.1.decisions ≡ at r.id (db.decisions r.id ++ d ∷ []) db.decisions))
        (decide_auto env m r kind policy_ref reasons db)
unfolding decide_auto
decide_auto-Holds env m r kind policy_ref reasons db =
    bind_Holds (prepare_next env m r kind db) _ λ p e.
      bind_Holds (or_err internal (env.digest p.1)) _ λ h _.
        bind_Holds (or_err internal (env.policy_sign h)) _ λ sig _.
          Holds-map (record_decision-Holds env m r p.0 p.1 _ db) λ out w. (
            _,
            (prepare_next_ok env m r kind db p.0 p.1 e).0,
            (refl, refl, refl),
            ap (λ x. x.decisions) w.4,
          )

-- The decision that the recommendation names, if it may be automatic.
abbrev pub IsNamed : Env → Advice → ℕ → Type 0
IsNamed env a k =
    ((env.string_of a.recommendation ≡ "CREDIT") × (k ≡ 1))
    ⊎ ((env.string_of a.recommendation ≡ "HOLD") × (k ≡ 2))

-- No officer is asked: a ruleset is in effect, its rule is automatic, and the kind is the named one.
abbrev pub IsAutomatic : Env → Option EffectiveRuleset → Advice → ℕ → Type 0
IsAutomatic env eff a k = (is_some eff ≡ true) × (a.auto ≡ true) × IsNamed env a k

kind_credit : kind "CREDIT" ≡ some 1
unfolding kind
kind_credit = refl

kind_hold : kind "HOLD" ≡ some 2
unfolding kind
kind_hold = refl

kind_number :
    (env : Env) (a : Advice) (k : ℕ)
    → kind (env.string_of a.recommendation) ≡ some k
    → kind_of env a ≡ k
kind_number env a k e = rw (kind_of, e) refl

of_name : (env : Env) (a : Advice) (k : ℕ) → IsNamed env a k → kind_of env a ≡ k
of_name env a k (inl (e, same)) = kind_number env a 1 (ap kind e ∙ kind_credit) ∙ sym same
of_name env a k (inr (e, same)) = kind_number env a 2 (ap kind e ∙ kind_hold) ∙ sym same

automatic_kind :
    (eff : Option EffectiveRuleset) (a : Advice) (k : ℕ)
    → is_automatic eff a k ≡ true
    → (is_some eff ≡ true) × (a.auto ≡ true) × ((k ≡ credit) ⊎ (k ≡ hold))
automatic_kind eff a k h = ground arith

number_of : (o : Option ℕ) (k : ℕ) → elim o [ none ↦ 0 | some j ↦ j ] ≡ suc k → o ≡ some (suc k)
number_of none k h = ground arith
number_of (some j) k h = ap some h

to_name :
    (env : Env) (a : Advice) (k : ℕ)
    → kind_of env a ≡ k
    → (k ≡ credit) ⊎ (k ≡ hold)
    → IsNamed env a k
unfolding name
to_name env a k e (inl c) =
    inl (sym (name-kind (env.string_of a.recommendation) 1 (number_of _ 0 (e ∙ c))).0, c)
to_name env a k e (inr c) =
    inr (sym (name-kind (env.string_of a.recommendation) 2 (number_of _ 1 (e ∙ c))).0, c)

is_automatic-IsAutomatic :
    (env : Env) (eff : Option EffectiveRuleset) (a : Advice)
    → is_automatic eff a (kind_of env a) ≡ true
    → IsAutomatic env eff a (kind_of env a)
is_automatic-IsAutomatic env eff a h =
    let (s, u, c) = automatic_kind eff a (kind_of env a) h in
    (s, u, to_name env a (kind_of env a) refl c)

IsAutomatic-automatic :
    (env : Env) (eff : Option EffectiveRuleset) (a : Advice) (k : ℕ)
    → IsAutomatic env eff a k
    → is_automatic eff a (kind_of env a) ≡ true
IsAutomatic-automatic env eff a k (s, u, n) =
    rw (of_name env a k n)
      (rw s (rw u (elim n [ inl (_, c) ↦ rw c refl | inr (_, c) ↦ rw c refl ])))

-- The payment waits for an officer.
abbrev pub reviewed : Option Payment → Option Payment
reviewed none = none
reviewed (some p) = some (record p { stage = in_review })

find-set_stage :
    (id : ℕ) (ps : List (ℕ × Payment)) → find id (set_stage id in_review ps) ≡ reviewed (find id ps)
unfolding find set_stage
find-set_stage id [] = refl
find-set_stage id ((i, p) ∷ ps) = ground (arith, find-set_stage id ps)

abbrev pub IsSettled : Env → Row → Option EffectiveRuleset → Advice → Db → Db → Type 0
IsSettled env r eff a db db' =
    ((d : DecisionRow) × IsByPolicy env d
      × IsAutomatic env eff a d.decision.kind
      × (db'.decisions ≡ at r.id (db.decisions r.id ++ d ∷ []) db.decisions))
    ⊎ (((k : ℕ) → ¬ IsAutomatic env eff a k)
        × (find r.id db'.payments ≡ reviewed (find r.id db.payments))
        × (db' ≡ record db { payments = db'.payments }))

settle-Holds :
    (env : Env) (m : Moment) (r : Row) (eff : Option EffectiveRuleset) (a : Advice) (db : Db)
    → Holds (IsSettled env r eff a db) (settle env m r eff a db)
unfolding settle
settle-Holds env m r eff a db =
    let k = kind_of env a in
    if_Holds (is_automatic eff a k) _ _
      (λ t. bind_Holds (decide_auto env m r k a.policy_ref a.reasons db) _ λ out e.
        let (d, g, p, w) = Holds-ok (decide_auto-Holds env m r k a.policy_ref a.reasons db) e in
        holds (
          inl (
            d,
            p,
            subst (IsAutomatic env eff a) (sym g) (is_automatic-IsAutomatic env eff a t),
            w,
          )))
      (λ f. holds (
        inr (
          (λ j i. ground (arith, IsAutomatic-automatic env eff a j i)),
          find-set_stage r.id db.payments,
          refl,
        )))

-- A recommendation is decided by the policy key exactly when it is a CREDIT or a HOLD, the ruleset in
-- effect has been found and its rule says that it is automatic: then one decision of the recommended
-- kind is added to the payment's. In every other case the payment is in review afterwards, and nothing
-- else but the payments has changed.
pub settle_lem :
    (env : Env) (m : Moment) (r : Row) (eff : Option EffectiveRuleset) (a : Advice) (db db' : Db)
    → settle env m r eff a db ≡ ok db'
    → IsSettled env r eff a db db'
settle_lem env m r eff a db db' h = Holds-ok (settle-Holds env m r eff a db) h
