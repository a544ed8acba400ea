-- ===== src/Evidence/Builder/Kept.antt =====
-- builder.go: the evidence root of a pack that is built on a snapshot.
use compliance_gateway.Common.{
  ℕ, ◌≡◌, ◌≢◌, refl, ap, sym, ◌∙◌, inl, inr, Bool, true, false, Option, none, some, List, [], ◌∷◌,
  Result, ok, err, or_err, ◌>>=◌, ◌>>◌, require, arith, Option-cases, if◌then◌else◌, All,
}
use compliance_gateway.Text.{Text, TextMap, codes, text_eq, lookup}
use compliance_gateway.Text.Laws.{text_eq_iff, under}
use compliance_gateway.Text.Paths.{IsPlain, under-apart, plain-IsApart}
use compliance_gateway.Evidence.Value.{Value, null, object, Fields, end, field, get}
use compliance_gateway.Evidence.Tree.{
  Salting, evidence_keys, node, add_field, key_hashes, hash_fields, evidence_root, master_root,
}
use compliance_gateway.Evidence.Canon.{canon}
use compliance_gateway.Evidence.Decode.{decode}
use compliance_gateway.Evidence.Tree.Stable.{AgreeUnder, node_stable}
use compliance_gateway.Evidence.Projection.Branches.{PlainKeys}
use compliance_gateway.Evidence.Builder.{
  Snapshot, has_all, carry, pack_content, salt_section, salt_sections, build_pack, pack_hash,
  normalize, BuildErr, root_changed, not_canonical, not_decoded, no_root, not_signed, bad_hash,
}
use compliance_gateway.Evidence.Builder.Outside.{salt_outside, carry_outside}
use compliance_gateway.Evidence.Builder.Content.{
  IsMap, IsOwn, get-pack_content, PlainKeys-pack_content,
}

absent : {u : Value} → none ≡ some u → ⊥
absent e = cc

differ :
    (evidence : Fields) {k e : Text} {u : Value}
    → get k evidence ≡ none
    → get e evidence ≡ some u
    → k ≢ e
differ evidence n g same = absent (sym n ∙ ap (λ x. get x evidence) same ∙ g)

-- The salting, where no evidence has the section's name.
skipped :
    (f : Salting → Option Text) (o : Option Value) (evidence : Fields) (k : Text) (s t : Salting)
    → (get k evidence ≡ none → f t ≡ f s)
    → get k evidence ≡ o
    → f (elim o [ some w ↦ s | none ↦ t ]) ≡ f s
skipped f (some w) evidence k s t l e = refl
skipped f none evidence k s t l e = l e

module _ (fresh : ℕ → Text) (evidence : Fields) (prev : TextMap Text) where
  -- Salting a section that is no evidence leaves the salts of the evidence.
  section_outside :
      (k : Text) (v : Value) (s : Salting) (e j : Text) (u : Value)
      → IsPlain k
      → IsPlain e
      → get e evidence ≡ some u
      → under e j ≡ true
      → lookup j (salt_section fresh evidence prev k v s).salts ≡ lookup j s.salts
  unfolding salt_section
  section_outside [] v s e j u p q g h = absurd (p.0 refl)
  section_outside (c ∷ k) v s e j u p q g h =
      skipped (λ x. lookup j x.salts) (get (c ∷ k) evidence) evidence (c ∷ k) s _
        (λ n.
          let apart =
            under-apart (c ∷ k) e j (plain-IsApart (c ∷ k) e (differ evidence n g) p.1 q.1) h in
          salt_outside fresh j v c k _ apart
          ∙ elim (text_eq (c ∷ k) (codes "decision"))
              as (λ b.
                lookup j (if b then s else record s { salts = carry v prev (c ∷ k) s.salts }).salts
                ≡ lookup j s.salts) [
                  | true ↦ refl
                  | false ↦ carry_outside prev j v c k s.salts apart
                ])
        refl

  sections_outside :
      (fs : Fields) (s : Salting) (e j : Text) (u : Value)
      → PlainKeys fs
      → IsPlain e
      → get e evidence ≡ some u
      → under e j ≡ true
      → lookup j (salt_sections fresh evidence prev fs s).salts ≡ lookup j s.salts
  unfolding salt_sections
  sections_outside end s e j u p q g h = refl
  sections_outside (field k v fs) s e j u (p, ps) q g h =
      sections_outside fs (salt_section fresh evidence prev k v s) e j u ps q g h
      ∙ section_outside k v s e j u p q g h

-- Every section of the evidence is the caller's own, and there.
abbrev Present : List Text → Fields → Type 0
Present [] fs = Unit
Present (k ∷ ks) fs = ((v : Value) × (get k fs ≡ some v)) × Present ks fs

has_all-Present : (ks : List Text) (fs : Fields) → has_all ks fs ≡ true → Present ks fs
unfolding has_all
has_all-Present [] fs h = tt
has_all-Present (k ∷ ks) fs h = elim (Option-cases (get k fs)) [
  | inl n ↦ ground arith
  | inr (v, e) ↦ ((v, e), has_all-Present ks fs (ground arith))
]

evidence_keys-IsOwn : All IsOwn evidence_keys
unfolding text_eq
evidence_keys-IsOwn = (
  (((λ e. cc), refl), refl, refl),
  (
    (((λ e. cc), refl), refl, refl),
    (
      (((λ e. cc), refl), refl, refl),
      (
        (((λ e. cc), refl), refl, refl),
        (
          (((λ e. cc), refl), refl, refl),
          (
            (((λ e. cc), refl), refl, refl),
            (
              (((λ e. cc), refl), refl, refl),
              (
                (((λ e. cc), refl), refl, refl),
                ((((λ e. cc), refl), refl, refl), ((((λ e. cc), refl), refl, refl), tt)),
              ),
            ),
          ),
        ),
      ),
    ),
  ),
)

err_inj {ℓ} : {B : Type ℓ} {r : Result BuildErr B} {e x : BuildErr} → r ≡ err e → r ≡ err x → e ≡ x
err_inj same other = cc

-- A step with another error, before steps that do not end in this one.
step {ℓ} :
    {A : Type 0} {B : Type ℓ} {e x : BuildErr} (o : Option A) (f : A → Result BuildErr B)
    → e ≢ x
    → ((a : A) → o ≡ some a → f a ≢ err x)
    → (or_err e o >>= f) ≢ err x
step none f n h same = n (err_inj refl same)
step (some a) f n h same = h a refl same

check_step {ℓ} :
    {B : Type ℓ} {x : BuildErr} (b : Bool) (r : Result BuildErr B)
    → b ≡ true
    → r ≢ err x
    → (require b x >> r) ≢ err x
check_step true r y h = h
check_step false r y h = ground arith

done {ℓ} : {B : Type ℓ} {x : BuildErr} (b : B) → ok b ≢ err x
done b same = cc

decoded : not_decoded ≢ root_changed
decoded same = cc

canonical : not_canonical ≢ root_changed
canonical same = cc

rooted : no_root ≢ root_changed
rooted same = cc

signed : not_signed ≢ root_changed
signed same = cc

hashed : bad_hash ≢ root_changed
hashed same = cc

or_err-ne : {A : Type 0} {e x : BuildErr} (o : Option A) → e ≢ x → or_err e o ≢ err x
or_err-ne none n same = n (err_inj refl same)
or_err-ne (some a) n same = cc

normalize-ne :
    {x : BuildErr} (fs : Fields) → not_canonical ≢ x → not_decoded ≢ x → normalize fs ≢ err x
unfolding normalize
normalize-ne fs n k = step (canon (object fs)) _ n (λ b _. or_err-ne (decode b) k)

result_step {ℓ} :
    {A : Type 0} {B : Type ℓ} {x : BuildErr} (r : Result BuildErr A) (f : A → Result BuildErr B)
    → r ≢ err x
    → ((a : A) → r ≡ ok a → f a ≢ err x)
    → (r >>= f) ≢ err x
result_step (ok a) f n h = h a refl
result_step (err e) f n h = λ same. n (ap err (err_inj refl same))

some_inj : {a b : Text} → some a ≡ some b → a ≡ b
some_inj e = cc

text_eq_same : (a b : Text) → a ≡ b → text_eq a b ≡ true
text_eq_same a b e = ground (arith, text_eq_iff a b)

module _ (sha : List ℕ → Text) where
  node_of : Option Value → TextMap Text → Text → Option Text
  node_of o salts k = elim o [ none ↦ node sha null salts k | some v ↦ node sha v salts k ]

  hashes_kept :
      (ks : List Text) (fs gs : Fields) (s t : TextMap Text)
      → All IsOwn ks
      → Present ks fs
      → ((k : Text) (v : Value)
          → IsOwn k
          → get k fs ≡ some v
          → (get k gs ≡ get k fs) × AgreeUnder k s t)
      → key_hashes sha ks gs t ≡ key_hashes sha ks fs s
  unfolding key_hashes node_of
  hashes_kept [] fs gs s t o p h = refl
  hashes_kept (k ∷ ks) fs gs s t (o, os) ((v, e), p) h =
      let same = h k v o e in
      ap (λ o. add_field sha k (node_of o t k) (key_hashes sha ks gs t)) (same.0 ∙ e)
      ∙ ap (λ x. add_field sha k x (key_hashes sha ks gs t))
          (sym (node_stable sha v s t k o.0.0 same.1))
      ∙ ap (add_field sha k (node sha v s k)) (hashes_kept ks fs gs s t os p h)
      ∙ ap (λ o. add_field sha k (node_of o s k) (key_hashes sha ks fs s)) (sym e)

  module _ (fresh : ℕ → Text) where
    pack_content-evidence_root :
        (snap : Snapshot) (version : ℕ) (rest : Fields) (prev : TextMap Text) (drawn : ℕ)
        → IsMap snap.content
        → PlainKeys snap.content
        → PlainKeys rest
        → has_all evidence_keys snap.content ≡ true
        → let fs = pack_content snap.content version rest in
          evidence_root sha fs
            (salt_sections fresh snap.content prev fs
              (record { salts = snap.salts; drawn = drawn })).salts
          ≡ evidence_root sha snap.content snap.salts
    unfolding evidence_root
    pack_content-evidence_root snap version rest prev drawn m p q h = ap (hash_fields sha) (
        hashes_kept evidence_keys snap.content _ snap.salts _ evidence_keys-IsOwn
          (has_all-Present evidence_keys snap.content h)
          (λ k v o e. (
            get-pack_content snap.content version rest k v m o e,
            (λ j u. sym (
                sections_outside fresh snap.content prev _ _ k j v
                  (PlainKeys-pack_content snap.content version rest p q) o.0 e u)),
          )))

    module _ (sign : Text → Option Text) (kid : Text) where
      -- A pack that is built on a snapshot with the ten evidence sections and with the evidence root
      -- of its content and salts is never refused because the evidence root changed, whatever the
      -- other sections, the earlier salts and the random values are: if the snapshot holds each
      -- section once, and no section of the snapshot, and none of the others once they are
      -- normalized, has an empty name or a dot in its name.
      pub build_pack-root_kept :
          (snap : Snapshot) (version : ℕ) (rest : Fields) (prev : TextMap Text)
          (prev_pack_hash : Text) (drawn : ℕ)
          → IsMap snap.content
          → PlainKeys snap.content
          → ((fs : Fields) → normalize rest ≡ ok fs → PlainKeys fs)
          → has_all evidence_keys snap.content ≡ true
          → evidence_root sha snap.content snap.salts ≡ some snap.evidence_root
          → build_pack sha fresh sign kid snap version rest prev prev_pack_hash drawn
            ≢ err root_changed
      unfolding build_pack
      build_pack-root_kept snap version rest prev prev_pack_hash drawn m p q h r =
          result_step (normalize rest) _ (normalize-ne rest canonical decoded) (λ rest' n.
            let fs = pack_content snap.content version rest' in
            let salts =
              (salt_sections fresh snap.content prev fs
                (record { salts = snap.salts; drawn = drawn })).salts in
            let same_root =
              pack_content-evidence_root snap version rest' prev drawn m p (q rest' n) h in
            step (canon (object fs)) _ canonical (λ payload a.
              step (master_root sha fs salts) _ rooted (λ master b.
                step (evidence_root sha fs salts) _ rooted (λ root c.
                  check_step _ _
                    (text_eq_same root snap.evidence_root (some_inj (sym c ∙ same_root ∙ r)))
                    (step (sign payload) _ signed (λ jws d.
                      step (pack_hash sha prev_pack_hash master) _ hashed (λ hash e. done _)))))))
