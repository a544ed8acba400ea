-- ===== src/Checks/Kyt.antt =====
-- kyt.go: the score of an address from GoPlus's flags. The request and its decoding are a parameter:
-- the decoded flags, or nothing when the response is not usable.
use compliance_gateway.Common.{
  ℕ, ◌≤◌, ◌≡◌, ◌↔◌, inl, inr, Bool, true, false, none, some, [], ◌∷◌, leb, if◌then◌else◌, Any,
  first, later, arith, Bool-cases, max,
}
use compliance_gateway.Text.{Text, TextMap, codes, text_eq, lookup, itoa}
use compliance_gateway.Evidence.Value.{null, text, array, object, Items, nil, cons, end, field}
use compliance_gateway.Checks.{CheckResult}

-- The weights, in the byte order of the flags, which is the order that sorting the raised flags gives.
abbrev pub goplus_weights : TextMap ℕ
goplus_weights =
    (codes "blacklist_doubt", 50)
    ∷ (codes "blackmail_activities", 70)
    ∷ (codes "cybercrime", 70)
    ∷ (codes "darkweb_transactions", 80)
    ∷ (codes "fake_kyc", 40)
    ∷ (codes "financial_crime", 70)
    ∷ (codes "honeypot_related_address", 30)
    ∷ (codes "mixer", 80)
    ∷ (codes "money_laundering", 90)
    ∷ (codes "phishing_activities", 60)
    ∷ (codes "sanctioned", 100)
    ∷ (codes "stealing_attack", 90)
    ∷ []

unfoldable pub risk_level : ℕ → Text
risk_level score =
    if leb 80 score
    then codes "SEVERE"
    else if leb 60 score
    then codes "HIGH"
    else if leb 30 score
    then codes "MEDIUM"
    else codes "LOW"

abbrev pub is_raised : TextMap Text → Text → Bool
is_raised flags f = elim (lookup f flags) [ none ↦ false | some v ↦ text_eq v (codes "1") ]

-- The loop over the weights.
unfoldable pub raised : TextMap Text → TextMap ℕ → TextMap ℕ
raised flags [] = []
raised flags ((f, w) ∷ ws) =
    let rest = raised flags ws in if is_raised flags f then (f, w) ∷ rest else rest

unfoldable pub score_of : TextMap ℕ → ℕ
score_of [] = 0
score_of ((f, w) ∷ ws) = max (score_of ws) w

abbrev pub categories : TextMap ℕ → Items
categories [] = nil
categories ((f, w) ∷ ws) = cons (text f) (categories ws)

abbrev pub alerts : TextMap ℕ → Items
alerts [] = nil
alerts ((f, w) ∷ ws) =
    cons
      (object
        (field (codes "category") (text f) (field (codes "severity") (text (risk_level w)) end)))
      (alerts ws)

-- `GoPlus.Run`, on a usable response.
unfoldable pub goplus_run : Text → TextMap Text → CheckResult
unfolding raised score_of risk_level
goplus_run now flags =
    let up = raised flags goplus_weights in
    let level = risk_level (score_of up) in
    record {
      kind = [];
      provider = codes "GoPlus";
      product = codes "address_security (demo, not for production)";
      outcome = level;
      section = field (codes "provider") (text (codes "GoPlus")) (
          field (codes "product") (text (codes "address_security (demo, not for production)")) (
            field (codes "api_version") (text (codes "v1 address_security, chain_id=1")) (
              field (codes "external_ref") null (
                field (codes "screened_at") (text now) (
                  field (codes "risk_level") (text level) (
                    field (codes "categories") (array (categories up)) (
                      field (codes "alerts") (array (alerts up)) (
                        field (codes "exposures") (array nil)
                          (field (codes "score") (text (itoa (score_of up))) end)))))))));
      raw_sha256 = [];
      performed_at = some now;
    }

-- Some raised flag has at least this weight.
abbrev HasRaised : ℕ → TextMap Text → TextMap ℕ → Type 0
HasRaised n flags ws = Any (λ (p : Text × ℕ). (is_raised flags p.0 ≡ true) × (n ≤ p.1)) ws

score-HasRaised :
    (n : ℕ) (flags : TextMap Text) (ws : TextMap ℕ)
    → 1 ≤ n
    → n ≤ score_of (raised flags ws)
    → HasRaised n flags ws
unfolding raised score_of
score-HasRaised n flags [] l h = absurd (omega arith)
score-HasRaised n flags ((f, w) ∷ ws) l h = elim (Bool-cases (is_raised flags f)) [
  | inl y ↦ elim (Bool-cases (leb n w)) [
    | inl a ↦ first (y, ground arith)
    | inr b ↦ later (score-HasRaised n flags ws l (ground arith))
  ]
  | inr e ↦ later (score-HasRaised n flags ws l (ground arith))
]

HasRaised-score :
    (n : ℕ) (flags : TextMap Text) {ws : TextMap ℕ}
    → HasRaised n flags ws
    → n ≤ score_of (raised flags ws)
unfolding raised score_of
HasRaised-score n flags (first h) = ground arith
HasRaised-score n flags (later m) = ground (arith, HasRaised-score n flags m)

-- The score reaches a bound above 0 exactly when some flag of the table is raised and its weight
-- reaches the bound.
pub score_iff :
    (n : ℕ) (flags : TextMap Text) (ws : TextMap ℕ)
    → 1 ≤ n
    → (n ≤ score_of (raised flags ws))
      ↔ Any (λ (p : Text × ℕ). (is_raised flags p.0 ≡ true) × (n ≤ p.1)) ws
score_iff n flags ws l = (score-HasRaised n flags ws l, HasRaised-score n flags)
