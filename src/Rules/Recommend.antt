-- ===== src/Rules/Recommend.antt =====
-- rules.go, `Recommend`: a validated ruleset gives a recommendation for every input, that of its
-- first matching rule.
use compliance_gateway.Common.{
  ℕ, ◌+◌, ◌≡◌, ◌≢◌, refl, ap, sym, ◌∙◌, inl, inr, String, true, false, ◌||◌, Option, some, List, [],
  ◌∷◌, if◌then◌else◌, Any, All, str_eq, eq_iff, arith, Bool-cases,
}
use compliance_gateway.Common.{subst}
use compliance_gateway.Rules.{rules_errors, no_version}
use compliance_gateway.Rat.{Rat}
use compliance_gateway.Rules.{bad_id, bad_recommend, no_reasons}
use compliance_gateway.Rules.{
  Inputs, match_all, recommend, recommend_from, recommendation_of, Rule, Ruleset, decisions,
  contains, condition_errors, rule_errors, last_errors, validate,
}
use compliance_gateway.Rules.Wellformed.{ConditionOk, contains-Any}
use compliance_gateway.Rules.Matching.{++-nil, match_all_total, condition_errors-none}

module _ (set_string : String → Option Rat) where
  -- What validation gives for one rule.
  pub record RuleOk (r : Rule) : Type 0 where
    pub named : r.id ≢ ""
    pub recommends : Any (λ d. d ≡ r.recommend) decisions
    pub reasoned : r.reasons ≢ []
    pub conditions : All (ConditionOk set_string) r.when

  -- `r` is the first rule whose conditions all match.
  pub data FirstMatch (i : Inputs) (r : Rule) : List Rule → Type 0 where
    here : {rs : List Rule} → match_all set_string r.when i ≡ some true → FirstMatch i r (r ∷ rs)
    there :
        {q : Rule} {rs : List Rule}
        → match_all set_string q.when i ≡ some false
        → FirstMatch i r rs
        → FirstMatch i r (q ∷ rs)

  -- The errors of the first rule, and those of the others.
  rule_errors-none :
      (i : ℕ) (ids : List String) (r : Rule) (rs : List Rule)
      → rule_errors set_string i ids (r ∷ rs) ≡ []
      → RuleOk r
        × (contains ids r.id ≡ false)
        × (rule_errors set_string (i + 1) (r.id ∷ ids) rs ≡ [])
  unfolding rule_errors
  rule_errors-none i ids r rs h =
      let (a, h1) =
        ++-nil (if str_eq "" r.id || contains ids r.id then bad_id i ∷ [] else []) _ h in
      let (b, h2) =
        ++-nil (if contains decisions r.recommend then [] else bad_recommend i ∷ []) _ h1 in
      let (c, h3) = ++-nil (elim r.reasons [ [] ↦ no_reasons i ∷ [] | _ ∷ _ ↦ [] ]) _ h2 in
      let (d, e) = ++-nil (condition_errors set_string i 0 r.when) _ h3 in
      (
        record {
          named = ground (arith, eq_iff "" r.id);
          recommends = contains-Any decisions r.recommend (ground arith);
          reasoned = ground arith;
          conditions = condition_errors-none set_string i 0 r.when d;
        },
        ground arith,
        e,
      )

  -- The last rule has no conditions.
  pub HasDefault : List Rule → Type 0
  HasDefault [] = ⊥
  HasDefault (r ∷ []) = r.when ≡ []
  HasDefault (r ∷ s ∷ rs) = HasDefault (s ∷ rs)

  last_errors-none :
      (r : Rule) (rs : List Rule) → last_errors set_string (r ∷ rs) ≡ [] → HasDefault (r ∷ rs)
  unfolding last_errors HasDefault
  last_errors-none r [] h = ground arith
  last_errors-none r (s ∷ rs) h = last_errors-none s rs h

  recommend_default :
      (version : String) (i : Inputs) (r : Rule)
      → r.when ≡ []
      → (match_all set_string r.when i ≡ some true)
  unfolding match_all
  recommend_default version i r d = rw d

  -- The first matching rule is the one recommended, and only that one.
  FirstMatch-recommend :
      (version : String) (i : Inputs) (r : Rule) {rs : List Rule}
      → FirstMatch i r rs
      → recommend_from set_string version rs i ≡ some (recommendation_of set_string version r)
  unfolding recommend_from
  FirstMatch-recommend version i r (here m) = ground arith
  FirstMatch-recommend version i r (there m f) = ground (arith, FirstMatch-recommend version i r f)

  first_match :
      (i : Inputs) (k : ℕ) (ids : List String) (r : Rule) (rs : List Rule)
      → rule_errors set_string k ids (r ∷ rs) ≡ []
      → HasDefault (r ∷ rs)
      → (q : Rule) × FirstMatch i q (r ∷ rs) × RuleOk q
  unfolding HasDefault
  first_match i k ids r [] h d =
      (r, here (recommend_default "" i r d), (rule_errors-none k ids r [] h).0)
  first_match i k ids r (s ∷ rs) h d =
      let (o, _, rest) = rule_errors-none k ids r (s ∷ rs) h in
      let (q, f, p) = first_match i (k + 1) (r.id ∷ ids) s rs rest d in
      let (b, m) = match_all_total set_string i r.when o.conditions in
      elim (Bool-cases b) [
        | inl t ↦ (r, here (m ∙ ap some t), o)
        | inr t ↦ (q, there (m ∙ ap some t) f, p)
      ]

  split_rules :
      (rules : List Rule)
      → rules_errors set_string rules ≡ []
      → (r : Rule) × (rest : List Rule) × (rules ≡ r ∷ rest)
        × (rule_errors set_string 0 [] (r ∷ rest) ≡ [])
        × HasDefault (r ∷ rest)
  unfolding rules_errors
  split_rules [] h = absurd (ground arith)
  split_rules (r ∷ rest) h =
      let (a, b) = ++-nil (rule_errors set_string 0 [] (r ∷ rest)) _ h in
      (r, rest, refl, a, last_errors-none r rest b)

  -- A ruleset that passes validation recommends for every input: the first rule whose conditions all
  -- match is found without a panic, it is well formed, and its kind, reasons and reference are the
  -- answer.
  pub recommend_total :
      (rs : Ruleset) (i : Inputs)
      → validate set_string rs ≡ []
      → (q : Rule) × FirstMatch i q rs.rules
        × RuleOk q
        × (recommend set_string rs i ≡ some (recommendation_of set_string rs.version q))
  unfolding validate recommend
  recommend_total rs i h =
      let (_, h') = ++-nil (if str_eq "" rs.version then no_version ∷ [] else []) _ h in
      let (r, rest, e, v, d) = split_rules rs.rules h' in
      let (q, f, o) = first_match i 0 [] r rest v d in
      let g = subst (FirstMatch i q) (sym e) f in (q, g, o, FirstMatch-recommend rs.version i q g)

  -- The ids of the rules, pairwise different.
  pub DistinctIds : List Rule → Type 0
  DistinctIds [] = Unit
  DistinctIds (r ∷ rs) = All (λ q. r.id ≢ q.id) rs × DistinctIds rs

  seen_ids :
      (k : ℕ) (ids : List String) (x : String) (rs : List Rule)
      → contains ids x ≡ true
      → rule_errors set_string k ids rs ≡ []
      → All (λ q. x ≢ q.id) rs
  unfolding contains
  seen_ids k ids x [] c h = tt
  seen_ids k ids x (r ∷ rs) c h =
      let (o, new, rest) = rule_errors-none k ids r rs h in
      (
        λ e. ground (arith, c, new, ap (contains ids) e),
        seen_ids (k + 1) (r.id ∷ ids) x rs (ground arith) rest,
      )

  distinct_ids :
      (k : ℕ) (ids : List String) (rs : List Rule)
      → rule_errors set_string k ids rs ≡ []
      → DistinctIds rs
  unfolding DistinctIds contains
  distinct_ids k ids [] h = tt
  distinct_ids k ids (r ∷ rs) h =
      let (o, new, rest) = rule_errors-none k ids r rs h in
      (
        seen_ids (k + 1) (r.id ∷ ids) r.id rs (ground (arith, eq_iff r.id r.id)) rest,
        distinct_ids (k + 1) (r.id ∷ ids) rs rest,
      )

  -- In a ruleset that passes validation no two rules share an id, so the id in a policy reference
  -- names one rule.
  pub validate-DistinctIds : (rs : Ruleset) → validate set_string rs ≡ [] → DistinctIds rs.rules
  unfolding validate
  validate-DistinctIds rs h =
      let (_, h') = ++-nil (if str_eq "" rs.version then no_version ∷ [] else []) _ h in
      let (r, rest, e, v, d) = split_rules rs.rules h' in
      subst DistinctIds (sym e) (distinct_ids 0 [] (r ∷ rest) v)
