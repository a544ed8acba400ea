-- ===== src/Pipeline/Books/Journal.antt =====
-- The journal of packs through every effect: a chain of hashes with the head at its end, to which
-- packs are only added.
use compliance_gateway.Common.{
  Option, ℕ, suc, ◌≡◌, refl, sym, ap, ◌∙◌, some, List, [], ◌∷◌, ◌++◌, length, arith, subst,
  append_assoc,
}
use compliance_gateway.Text.{Text}
use compliance_gateway.Evidence.Builder.{pack_hash}
use compliance_gateway.Pipeline.Store.{PackRow}
use compliance_gateway.Pipeline.Books.{
  Books, Effect, records, drafts, approves, Effects, unchanged, step,
}

-- From the newest pack on: its place is the number of packs up to it, its hash is the head's, and it
-- is the hash over the pack before it and its own master root. The first hashes over `genesis`.
abbrev pub IsJournal : (List ℕ → Text) → Text → List PackRow → Text → Type 0
IsJournal sha genesis [] head = head ≡ genesis
IsJournal sha genesis (k ∷ ks) head =
    (k.seq ≡ suc (length ks))
    × (k.pack_hash ≡ head)
    × (pack_hash sha k.prev_pack_hash k.master_root ≡ some head)
    × IsJournal sha genesis ks k.prev_pack_hash

abbrev pub HasJournal : (List ℕ → Text) → Text → Books → Type 0
HasJournal sha genesis b = (b.head_seq ≡ length b.packs) × IsJournal sha genesis b.packs b.head_hash

pub empty_HasJournal :
    (sha : List ℕ → Text) (genesis : Text) (b : Books)
    → b.packs ≡ []
    → b.head_seq ≡ 0
    → b.head_hash ≡ genesis
    → HasJournal sha genesis b
empty_HasJournal sha genesis b p q h =
    (q ∙ ap length (sym p), subst (λ ks. IsJournal sha genesis ks b.head_hash) (sym p) h)

module _ (sha : List ℕ → Text) (sign : Text → Option Text) where
  Effect-HasJournal :
      (genesis : Text) {b c : Books}
      → Effect sha sign b c
      → HasJournal sha genesis b
      → HasJournal sha genesis c
  Effect-HasJournal genesis {b} (records id d k w (n, p, f, z)) (e, j) = (
    omega (arith, e),
    (omega (arith, e, n), refl, f, subst (IsJournal sha genesis b.packs) (sym p) j),
  )
  Effect-HasJournal genesis (drafts r e a) h = h
  Effect-HasJournal genesis (approves v by sig from r e a) h = h

  pub Effects-HasJournal :
      (genesis : Text) {b c : Books}
      → Effects sha sign b c
      → HasJournal sha genesis b
      → HasJournal sha genesis c
  Effects-HasJournal genesis unchanged h = h
  Effects-HasJournal genesis (step e s) h =
      Effects-HasJournal genesis s (Effect-HasJournal genesis e h)

  Effect-packs :
      {b c : Books} → Effect sha sign b c → (new : List PackRow) × (c.packs ≡ new ++ b.packs)
  Effect-packs (records id d k w f) = (k ∷ [], refl)
  Effect-packs (drafts r e a) = ([], refl)
  Effect-packs (approves v by sig from r e a) = ([], refl)

  -- Packs are only added.
  pub Effects-packs :
      {b c : Books} → Effects sha sign b c → (new : List PackRow) × (c.packs ≡ new ++ b.packs)
  Effects-packs unchanged = ([], refl)
  Effects-packs {b} (step e s) =
      let (xs, h) = Effect-packs e in
      let (ys, g) = Effects-packs s in
      (ys ++ xs, g ∙ (ap (λ x. ys ++ x) h ∙ sym (append_assoc ys xs b.packs)))
