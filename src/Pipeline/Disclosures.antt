-- ===== src/Pipeline/Disclosures.antt =====
-- queries.go, `Project`: what is given out is allowed and logged.
use compliance_gateway.Common.{
  ◌≡◌, refl, true, not, Option, none, some, ◌∷◌, [], ◌++◌, ok, or_err, map_err, map_err_ok, Holds,
  holds, Holds-ok, bind_Holds, require-Holds, Any, first, later, All, ◌≤◌, ◌≢◌, Bool-cases, ltb, ℕ,
  ap, ◌∙◌, false, if◌then◌else◌, sym, subst, bind_ok, or_err_ok, Result, require, inl, inr, ◌⊎◌,
  arith, List,
}
use compliance_gateway.Text.{Text, lookup, codes, text_eq}
use compliance_gateway.Text.Laws.{text_eq_iff, text_eq_eq}
use compliance_gateway.Evidence.Value.{Fields}
use compliance_gateway.Evidence.Builder.{Pack}
use compliance_gateway.Evidence.Profiles.{Reason, profiles, refused_profiles, field_is}
use compliance_gateway.Evidence.Projection.{Recipient, project}
use compliance_gateway.Pipeline.{Err, not_found, conflict, bad_request}
use compliance_gateway.Pipeline.Env.{Env, Moment}
use compliance_gateway.Pipeline.Store.{Db, PackRow, latest_pack}
use compliance_gateway.Pipeline.Queries.{
  is_uuid, is_refused, load_pack, pack_of, project_pack, projection_row,
}

not_refused : (o : Option Reason) → not (is_refused o) ≡ true → o ≡ none
not_refused none h = refl
not_refused (some why) h = cc

-- The row is one of the pack's, and none of them has a greater version.
abbrev pub IsLatest : Text → PackRow → List PackRow → Type 0
IsLatest id k ks =
    (k.pack_id ≡ id) × Any (λ j. j ≡ k) ks × All (λ j. j.pack_id ≡ id → j.version ≤ k.version) ks

abbrev greater : PackRow → Option PackRow → Option PackRow
greater k o = elim o [ none ↦ some k | some l ↦ if ltb k.version l.version then some l else some k ]

step_here :
    (id : Text) (k : PackRow) (ks : List PackRow)
    → text_eq k.pack_id id ≡ true
    → latest_pack id (k ∷ ks) ≡ greater k (latest_pack id ks)
unfolding latest_pack
step_here id k ks y = rw y refl

step_past :
    (id : Text) (k : PackRow) (ks : List PackRow)
    → text_eq k.pack_id id ≡ false
    → latest_pack id (k ∷ ks) ≡ latest_pack id ks
unfolding latest_pack
step_past id k ks z = rw z refl

greater_later : (k l : PackRow) → ltb k.version l.version ≡ true → greater k (some l) ≡ some l
greater_later k l y = rw y refl

greater_first : (k l : PackRow) → ltb k.version l.version ≡ false → greater k (some l) ≡ some k
greater_first k l z = rw z refl

greater_some : (k : PackRow) (o : Option PackRow) → greater k o ≢ none
greater_some k none h = cc
greater_some k (some l) h = ground arith

-- No pack has a greater version.
abbrev IsBelow : Text → ℕ → List PackRow → Type 0
IsBelow id v ks = All (λ j. j.pack_id ≡ id → j.version ≤ v) ks

none-IsBelow : (id : Text) (v : ℕ) (ks : List PackRow) → latest_pack id ks ≡ none → IsBelow id v ks
unfolding latest_pack
none-IsBelow id v [] h = tt
none-IsBelow id v (k ∷ ks) h = elim (Bool-cases (text_eq k.pack_id id)) [
  | inl y ↦ absurd (greater_some k (latest_pack id ks) (sym (step_here id k ks y) ∙ h))
  | inr z ↦ (
    (λ e. absurd (ground (arith, z, text_eq_iff k.pack_id id))),
    none-IsBelow id v ks (sym (step_past id k ks z) ∙ h),
  )
]

raise : (id : Text) (u v : ℕ) (ks : List PackRow) → u ≤ v → IsBelow id u ks → IsBelow id v ks
raise id u v [] l h = tt
raise id u v (k ∷ ks) l h = ((λ e. let b = h.0 e in omega (arith)), raise id u v ks l h.1)

same_row : {k l : PackRow} → some k ≡ some l → k ≡ l
same_row e = cc

greatest :
    (id : Text) (j k : PackRow) (ks : List PackRow) (o : Option PackRow)
    → j.pack_id ≡ id
    → latest_pack id ks ≡ o
    → ((l : PackRow) → o ≡ some l → IsLatest id l ks)
    → greater j o ≡ some k
    → IsLatest id k (j ∷ ks)
greatest id j k ks none p e ih h =
    subst (λ x. IsLatest id x (j ∷ ks)) (same_row h)
      (p, first refl, ((λ _. omega arith), none-IsBelow id j.version ks e))
greatest id j k ks (some l) p e ih h =
    let (q, m, b) = ih l refl in
    elim (Bool-cases (ltb j.version l.version)) [
      | inl y ↦
          subst (λ x. IsLatest id x (j ∷ ks)) (same_row (sym (greater_later j l y) ∙ h))
            (q, later m, ((λ _. ground arith), b))
      | inr z ↦
          subst (λ x. IsLatest id x (j ∷ ks)) (same_row (sym (greater_first j l z) ∙ h))
            (p, first refl, ((λ _. omega arith), raise id l.version j.version ks (ground arith) b))
    ]

latest_pack-IsLatest :
    (id : Text) (ks : List PackRow) (k : PackRow) → latest_pack id ks ≡ some k → IsLatest id k ks
unfolding latest_pack
latest_pack-IsLatest id [] k h = cc
latest_pack-IsLatest id (j ∷ ks) k h = elim (Bool-cases (text_eq j.pack_id id)) [
  | inl y ↦
      greatest id j k ks (latest_pack id ks) (text_eq_eq j.pack_id id y) refl
        (λ l e. latest_pack-IsLatest id ks l e) (sym (step_here id j ks y) ∙ h)
  | inr z ↦
      let (p, m, b) = latest_pack-IsLatest id ks k (sym (step_past id j ks z) ∙ h) in
      (p, later m, ((λ e. absurd (ground (arith, z, text_eq_iff j.pack_id id))), b))
]

same_pack : {a b : Pack} → ◌≡◌ {A = Result Err Pack} (ok a) (ok b) → a ≡ b
same_pack e = cc

load_pack-IsLatest :
    (env : Env) (id : Text) (db : Db) (k : Pack)
    → load_pack env id 0 db ≡ ok k
    → (row : PackRow) × IsLatest id row db.packs × (pack_of env row ≡ k)
unfolding load_pack
load_pack-IsLatest env id db k h =
    let (_, _, e) = bind_ok (require (is_uuid id) not_found) _ h in
    let (row, f, g) = bind_ok (or_err not_found (latest_pack id db.packs)) _ e in
    (
      row,
      latest_pack-IsLatest id db.packs row (or_err_ok not_found (latest_pack id db.packs) f),
      same_pack g,
    )

-- The profiles of which a copy would tell of a freeze or of a match.
abbrev pub IsTold : Fields → Text → Type 0
IsTold fs profile =
    ((profile ≡ codes "OFF_RAMP") ⊎ (profile ≡ codes "BANK"))
    × ((field_is fs (codes "decision") (codes "decision") (codes "FREEZE") ≡ true)
        ⊎ (field_is fs (codes "sanctions") (codes "result") (codes "TRUE_MATCH") ≡ true))

IsTold-refused :
    (fs : Fields) (profile : Text) → IsTold fs profile → lookup profile (refused_profiles fs) ≢ none
unfolding refused_profiles lookup text_eq
IsTold-refused fs profile (inl e, w) = rw e (λ h. ground arith)
IsTold-refused fs profile (inr e, w) = rw e (λ h. ground arith)

abbrev IsDisclosure : Env → Moment → Text → Recipient → Db → Fields → Db → Type 0
IsDisclosure env m id r db copy db' =
    (k : PackRow) × IsLatest id k db.packs
    × (¬ IsTold k.content r.profile)
    × (project env.sha env.blank (pack_of env k) r (env.rfc3339 m.now) ≡ ok copy)
    × (db' ≡ record db {
      projections = db.projections ++ projection_row id (pack_of env k) r copy ∷ [];
    })

project_pack-Holds :
    (env : Env) (m : Moment) (id : Text) (r : Recipient) (db : Db)
    → Holds (λ out. IsDisclosure env m id r db out.0 out.1) (project_pack env m id r db)
unfolding project_pack
project_pack-Holds env m id r db = bind_Holds (or_err bad_request (profiles r.profile)) _ λ ps _.
    bind_Holds (load_pack env id 0 db) _ λ k e.
      let (row, l, same) = load_pack-IsLatest env id db k e in
      require-Holds (not (is_refused (lookup r.profile (refused_profiles k.content)))) conflict _
        λ n.
          let projected = project env.sha env.blank k r (env.rfc3339 m.now) in
          bind_Holds (map_err (λ _. bad_request) projected) _ λ c p. holds (
            row,
            l,
            subst (λ x. ¬ IsTold x.content r.profile) (sym same)
                (λ t.
                  IsTold-refused k.content r.profile t
                    (not_refused (lookup r.profile (refused_profiles k.content)) n)),
            subst (λ x. project env.sha env.blank x r (env.rfc3339 m.now) ≡ ok c) (sym same)
                (map_err_ok (λ _. bad_request) projected p),
            ap (λ x. record db { projections = db.projections ++ projection_row id x r c ∷ [] })
                (sym same),
          )

-- A copy that is given out is the projection of the stored pack with this id that has the greatest
-- version. It is not for an off-ramp or a bank when the pack's decision is a FREEZE or its sanctions
-- screening a TRUE_MATCH. It has been logged with the pack's version, the recipient and the copy's
-- hash, and nothing else has changed.
pub project_pack_ok :
    (env : Env) (m : Moment) (id : Text) (r : Recipient) (db db' : Db) (copy : Fields)
    → project_pack env m id r db ≡ ok (copy, db')
    → (k : PackRow) × IsLatest id k db.packs
      × (¬ IsTold k.content r.profile)
      × (project env.sha env.blank (pack_of env k) r (env.rfc3339 m.now) ≡ ok copy)
      × (db' ≡ record db {
        projections = db.projections ++ projection_row id (pack_of env k) r copy ∷ [];
      })
project_pack_ok env m id r db db' copy h = Holds-ok (project_pack-Holds env m id r db) h
