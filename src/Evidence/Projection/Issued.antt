-- ===== src/Evidence/Projection/Issued.antt =====
-- projection.go (`Project`), profiles.go: every issued copy reproduces the pack's master root.

use compliance_gateway.Common.{
  ℕ, ◌≡◌, refl, Bool, true, false, not, ◌||◌, Option, none, some, List, [], ◌∷◌, if◌then◌else◌,
  arith, all, Result, ok, subst, bind_ok, or_err, or_err_ok, require,
}
use compliance_gateway.Text.{Text, codes, text_eq, split}
use compliance_gateway.Evidence.Value.{object, Fields, get, set}
use compliance_gateway.Evidence.Canon.{canon}
use compliance_gateway.Evidence.Tree.{master_root}
use compliance_gateway.Evidence.Builder.{Pack}
use compliance_gateway.Evidence.Profiles.{profiles, bank, off_ramp}
use compliance_gateway.Evidence.Projection.{
  withhold_all, Copy, ProjectErr, Recipient, project, copy_fields, integrity_fields, salts_fields,
}
use compliance_gateway.Evidence.Projection.Maps.{PlainTree}
use compliance_gateway.Evidence.Projection.{unknown_profile, recipient_required, not_canonical}
use compliance_gateway.Evidence.Projection.Disclosure.{segment_ok, withhold_all_root}

abbrev paths_ok : List Text → Bool
paths_ok = all (λ q. all segment_ok (split q))

either :
    (b : Bool) (x : List Text) (rest : Option (List Text)) (paths : List Text)
    → paths_ok x ≡ true
    → (rest ≡ some paths → paths_ok paths ≡ true)
    → (if b then some x else rest) ≡ some paths
    → paths_ok paths ≡ true
either true x rest paths h k e = ground arith
either false x rest paths h k e = k e

off_ramp_ok : paths_ok off_ramp ≡ true
unfolding split text_eq
off_ramp_ok = refl

bank_ok : paths_ok bank ≡ true
unfolding split text_eq
bank_ok = refl

auditor_ok : paths_ok (codes "travel_rule.originator" ∷ codes "travel_rule.beneficiary" ∷ []) ≡ true
unfolding split text_eq
auditor_ok = refl

nothing :
    (paths : List Text) → ◌≡◌ {A = Option (List Text)} none (some paths) → paths_ok paths ≡ true
nothing paths e = cc

-- The paths of every profile are made of ordinary segments.
profiles_ok : (p : Text) (paths : List Text) → profiles p ≡ some paths → paths_ok paths ≡ true
unfolding profiles
profiles_ok p paths = either (text_eq p (codes "MASTER")) [] _ paths refl (
    either (text_eq p (codes "FIU_SUPERVISOR")) [] _ paths refl (
      either (text_eq p (codes "OFF_RAMP")) off_ramp _ paths off_ramp_ok (
        either (text_eq p (codes "BANK")) bank _ paths bank_ok (
          either (text_eq p (codes "AUDITOR"))
            (codes "travel_rule.originator" ∷ codes "travel_rule.beneficiary" ∷ []) none paths
            auditor_ok (nothing paths)))))

ok_eq : {x y : Fields} → ◌≡◌ {A = Result ProjectErr Fields} (ok x) (ok y) → x ≡ y
ok_eq e = cc

copied :
    (sha : List ℕ → Text) (p : Pack) (r : Recipient) (now : Text) (c : Copy) (h : Text)
    → (get
          (codes "data")
          (set (codes "integrity") (object (integrity_fields sha p h)) (copy_fields sha p r now c))
        ≡ some (object c.content))
      × (get (codes "salts") (
            set (codes "integrity") (object (integrity_fields sha p h)) (copy_fields sha p r now c))
          ≡ some (object (salts_fields c.salts)))
unfolding get set text_eq
copied sha p r now c h = (refl, refl)

module _ (sha : List ℕ → Text) (blank : Text → Bool) where
  -- When the keys of a pack's data are pairwise different in each map, not empty and without dots,
  -- where the maps at a key `inputs` may be any, a copy that is issued holds data and salts whose
  -- master root is the pack's, whatever its profile withholds.
  pub project-master_root :
      (p : Pack) (r : Recipient) (now : Text) (out : Fields)
      → PlainTree p.content
      → project sha blank p r now ≡ ok out
      → (c : Copy) × (get (codes "data") out ≡ some (object c.content))
        × (get (codes "salts") out ≡ some (object (salts_fields c.salts)))
        × (master_root sha c.content c.salts ≡ master_root sha p.content p.salts)
  unfolding project
  project-master_root p r now out t e =
      let (paths, e1, k1) = bind_ok (or_err unknown_profile (profiles r.profile)) _ e in
      let (_, e2, k2) =
        bind_ok (require (not (blank r.prepared_for || blank r.purpose)) recipient_required) _ k1 in
      let (c, e3, k3) =
        bind_ok (withhold_all sha (record { content = p.content; salts = p.salts }) paths) _ k2 in
      let (b, e4, k4) =
        bind_ok (or_err not_canonical (canon (object (copy_fields sha p r now c)))) _ k3 in
      (
        c,
        subst (λ o. get (codes "data") o ≡ some (object c.content)) (ok_eq k4)
            (copied sha p r now c (sha b)).0,
        subst (λ o. get (codes "salts") o ≡ some (object (salts_fields c.salts))) (ok_eq k4)
            (copied sha p r now c (sha b)).1,
        withhold_all_root sha _ c paths
            (profiles_ok r.profile paths (or_err_ok unknown_profile (profiles r.profile) e1)) t e3,
      )
