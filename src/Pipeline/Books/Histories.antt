-- ===== src/Pipeline/Books/Histories.antt =====
-- The decisions of a payment through every effect: their nonces, their replay, and their order.
use compliance_gateway.Common.{
  Option, ℕ, suc, ◌+◌, ◌%◌, ◌<◌, ◌≡◌, refl, sym, ap, ◌∙◌, subst, none, List, [], ◌∷◌, ◌++◌, length,
  ◌==◌, if◌then◌else◌, max, arith, length-append, append-nil, append_assoc, Bool-cases, inl, inr,
  ==_iff,
}
use compliance_gateway.Text.{Text}
use compliance_gateway.Decision.Transition.{replay, next}
use compliance_gateway.Pipeline.{PastDecision, kinds, last_nonce}
use compliance_gateway.Pipeline.Sequence.{replay-snoc}
use compliance_gateway.Pipeline.Store.{DecisionRow, at, past_of, insert_by_nonce, order_by_nonce}
use compliance_gateway.Pipeline.Books.{
  Books, Continues, Effect, records, drafts, approves, Effects, unchanged, step,
}

-- The nonces count up from `n`.
abbrev pub IsNumbered : ℕ → List PastDecision → Type 0
IsNumbered n [] = Unit
IsNumbered n (d ∷ ds) = (d.nonce ≡ suc n) × IsNumbered (suc n) ds

-- The nonces are 1, 2, … in the order of the rows, and every decision was allowed after the earlier
-- ones.
abbrev pub IsHistory : List DecisionRow → Type 0
IsHistory ds =
    IsNumbered 0 (past_of ds)
    × (length ds < 9223372036854775808)
    × ((replay (kinds (past_of ds))).1 ≡ none)

insert_first :
    (n : ℕ) (d : PastDecision) (es : List PastDecision)
    → d.nonce ≡ suc n
    → IsNumbered (suc n) es
    → insert_by_nonce d es ≡ d ∷ es
unfolding insert_by_nonce
insert_first n d [] e h = refl
insert_first n d (x ∷ xs) e (g, h) = ground arith

order_numbered : (n : ℕ) (ds : List PastDecision) → IsNumbered n ds → order_by_nonce ds ≡ ds
unfolding order_by_nonce
order_numbered n [] h = refl
order_numbered n (d ∷ ds) (e, h) =
    ap (insert_by_nonce d) (order_numbered (suc n) ds h) ∙ insert_first n d ds e h

last_numbered :
    (n : ℕ) (ds : List PastDecision) → IsNumbered n ds → max n (last_nonce ds) ≡ n + length ds
unfolding last_nonce
last_numbered n [] h = ground arith
last_numbered n (d ∷ ds) (e, h) = ground (arith, last_numbered (suc n) ds h)

IsNumbered-snoc :
    (n : ℕ) (ds : List PastDecision) (d : PastDecision)
    → IsNumbered n ds
    → d.nonce ≡ suc (n + length ds)
    → IsNumbered n (ds ++ d ∷ [])
IsNumbered-snoc n [] d h e = (omega (arith, e), tt)
IsNumbered-snoc n (x ∷ xs) d (g, h) e = (g, IsNumbered-snoc (suc n) xs d h (omega (arith, e)))

past_of-snoc :
    (ds : List DecisionRow) (d : DecisionRow)
    → past_of (ds ++ d ∷ []) ≡ past_of ds ++ d.decision ∷ []
past_of-snoc [] d = refl
past_of-snoc (x ∷ xs) d = ap (λ ys. x.decision ∷ ys) (past_of-snoc xs d)

kinds-snoc :
    (ds : List PastDecision) (d : PastDecision) → kinds (ds ++ d ∷ []) ≡ kinds ds ++ d.kind ∷ []
unfolding kinds
kinds-snoc [] d = refl
kinds-snoc (x ∷ xs) d = ap (λ ys. x.kind ∷ ys) (kinds-snoc xs d)

length-past_of : (ds : List DecisionRow) → length (past_of ds) ≡ length ds
length-past_of [] = refl
length-past_of (x ∷ xs) = ap suc (length-past_of xs)

next_nonce :
    (n l m k : ℕ)
    → max 0 m ≡ 0 + l
    → l ≡ n
    → n < 9223372036854775808
    → k ≡ (m + 1) % 18446744073709551616
    → (k ≡ suc (0 + l)) × (k ≡ n + 1)
next_nonce n l m k e f h g = ground arith

replays :
    (ds : List DecisionRow) (d : DecisionRow)
    → (replay (kinds (past_of ds))).1 ≡ none
    → (next (replay (kinds (past_of ds))).0 d.decision.kind).1 ≡ none
    → (replay (kinds (past_of (ds ++ d ∷ [])))).1 ≡ none
replays ds d h g =
    let e = ap kinds (past_of-snoc ds d) ∙ kinds-snoc (past_of ds) d.decision in
    ap (λ ks. (replay ks).1) e
    ∙ (ap (λ x. x.1) (replay-snoc (kinds (past_of ds)) d.decision.kind h) ∙ g)

pub IsHistory-snoc :
    (ds : List DecisionRow) (d : DecisionRow)
    → IsHistory ds
    → Continues ds d.decision
    → IsHistory (ds ++ d ∷ [])
IsHistory-snoc ds d (num, short, valid) (n, small, allowed) =
    let past = past_of ds in
    let o = order_numbered 0 past num in
    let (e, f) =
      next_nonce (length ds) (length past) (last_nonce past) d.decision.nonce
        (last_numbered 0 past num) (length-past_of ds) short
        (n ∙ ap (λ x. (last_nonce x + 1) % 18446744073709551616) o) in
    (
      subst (IsNumbered 0) (sym (past_of-snoc ds d)) (IsNumbered-snoc 0 past d.decision num e),
      subst (λ x. x < 9223372036854775808) (f ∙ sym (length-append ds (d ∷ []))) small,
      replays ds d valid
          (subst (λ x. (next (replay (kinds x)).0 d.decision.kind).1 ≡ none) o allowed),
    )

at-IsHistory :
    (id i : ℕ) (d : DecisionRow) (f : ℕ → List DecisionRow)
    → IsHistory (f i)
    → IsHistory (f id ++ d ∷ [])
    → IsHistory (at id (f id ++ d ∷ []) f i)
at-IsHistory id i d f h g = elim (Bool-cases (i == id)) [
  | inl e ↦ subst (λ b. IsHistory (if b then f id ++ d ∷ [] else f i)) (sym e) g
  | inr e ↦ subst (λ b. IsHistory (if b then f id ++ d ∷ [] else f i)) (sym e) h
]

-- Some rows added at the end.
abbrev pub IsExtended : List DecisionRow → List DecisionRow → Type 0
IsExtended xs ys = (new : List DecisionRow) × (ys ≡ xs ++ new)

pub empty-IsHistory : IsHistory []
unfolding replay kinds
empty-IsHistory = (tt, omega arith, refl)

module _ (sha : List ℕ → Text) (sign : Text → Option Text) where
  Effect-IsHistory :
      {b c : Books}
      → Effect sha sign b c
      → ((i : ℕ) → IsHistory (b.decisions i))
      → (i : ℕ) → IsHistory (c.decisions i)
  Effect-IsHistory {b} (records id d k w f) h i =
      at-IsHistory id i d b.decisions (h i) (IsHistory-snoc (b.decisions id) d (h id) w)
  Effect-IsHistory (drafts r e a) h i = h i
  Effect-IsHistory (approves v by sig from r e a) h i = h i

  pub Effects-IsHistory :
      {b c : Books}
      → Effects sha sign b c
      → ((i : ℕ) → IsHistory (b.decisions i))
      → (i : ℕ) → IsHistory (c.decisions i)
  Effects-IsHistory unchanged h = h
  Effects-IsHistory (step e s) h = Effects-IsHistory s (Effect-IsHistory e h)

  at-IsExtended :
      (id i : ℕ) (d : DecisionRow) (f : ℕ → List DecisionRow)
      → IsExtended (f i) (at id (f id ++ d ∷ []) f i)
  at-IsExtended id i d f = elim (Bool-cases (i == id)) [
    | inl e ↦ (d ∷ [], rw e (ap (λ j. f j ++ d ∷ []) (sym ((==_iff i id).0 e))))
    | inr e ↦ ([], rw e (sym (append-nil (f i))))
  ]

  Effect-IsExtended :
      {b c : Books} → Effect sha sign b c → (i : ℕ) → IsExtended (b.decisions i) (c.decisions i)
  Effect-IsExtended {b} (records id d k w f) i = at-IsExtended id i d b.decisions
  Effect-IsExtended {b} (drafts r e a) i = ([], sym (append-nil (b.decisions i)))
  Effect-IsExtended {b} (approves v by sig from r e a) i = ([], sym (append-nil (b.decisions i)))

  -- Decisions are only added, after the others.
  pub Effects-IsExtended :
      {b c : Books} → Effects sha sign b c → (i : ℕ) → IsExtended (b.decisions i) (c.decisions i)
  Effects-IsExtended {b} unchanged i = ([], sym (append-nil (b.decisions i)))
  Effects-IsExtended {b} (step e s) i =
      let (xs, h) = Effect-IsExtended e i in
      let (ys, g) = Effects-IsExtended s i in
      (xs ++ ys, g ∙ (ap (λ x. x ++ ys) h ∙ append_assoc (b.decisions i) xs ys))
