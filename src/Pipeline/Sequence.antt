-- ===== src/Pipeline/Sequence.antt =====
-- decide.go, `prepare`: what is prepared continues the payment's history.
use compliance_gateway.Common.{
  ℕ, suc, ◌<◌, ◌≡◌, ap, ◌∙◌, Option, none, List, [], ◌∷◌, ◌++◌, ok, arith, All,
}
use compliance_gateway.Decision.Transition.{replay, next, initial}
use compliance_gateway.Decision.Transition.Histories.{replay_from-snoc}
use compliance_gateway.Decision.Verify.{Struct, TypedData}
use compliance_gateway.Pipeline.{PastDecision, Row, kinds, last_nonce, prepare}

pub replay-snoc :
    (ks : List ℕ) (k : ℕ) → (replay ks).1 ≡ none → replay (ks ++ k ∷ []) ≡ next (replay ks).0 k
unfolding replay
replay-snoc ks k h = replay_from-snoc initial ks k h

prepared_next :
    (root : Option ℕ) (past : List PastDecision) (r : Row) (kind deadline : ℕ) (s : Struct)
    (td : TypedData)
    → prepare root past r kind deadline ≡ ok (s, td)
    → (next (replay (kinds past)).0 kind).1 ≡ none
unfolding prepare
prepared_next root past r kind deadline s td h = ground arith

-- When the stored history replays without an error and a Decision is prepared, the history with it
-- replays without an error too.
pub prepare-replay :
    (root : Option ℕ) (past : List PastDecision) (r : Row) (kind deadline : ℕ) (s : Struct)
    (td : TypedData)
    → (replay (kinds past)).1 ≡ none
    → prepare root past r kind deadline ≡ ok (s, td)
    → (replay (kinds past ++ kind ∷ [])).1 ≡ none
prepare-replay root past r kind deadline s td v h =
    ap (λ x. x.1) (replay-snoc (kinds past) kind v) ∙ prepared_next root past r kind deadline s td h

nonces_below :
    (m : ℕ) (past : List PastDecision) → last_nonce past < m → All (λ d. d.nonce < m) past
unfolding last_nonce
nonces_below m [] h = tt
nonces_below m (d ∷ ds) h = (omega arith, nonces_below m ds (omega arith))

prepared_nonce :
    (root : Option ℕ) (past : List PastDecision) (r : Row) (kind deadline : ℕ) (s : Struct)
    (td : TypedData)
    → last_nonce past < 18446744073709551615
    → prepare root past r kind deadline ≡ ok (s, td)
    → s.nonce ≡ suc (last_nonce past)
unfolding prepare
prepared_nonce root past r kind deadline s td l h = ground arith

-- While the nonces are below the last uint64, a prepared Decision has a greater nonce than every
-- decision before it.
pub prepare-nonce :
    (root : Option ℕ) (past : List PastDecision) (r : Row) (kind deadline : ℕ) (s : Struct)
    (td : TypedData)
    → last_nonce past < 18446744073709551615
    → prepare root past r kind deadline ≡ ok (s, td)
    → All (λ d. d.nonce < s.nonce) past
prepare-nonce root past r kind deadline s td l h =
    let e = prepared_nonce root past r kind deadline s td l h in
    nonces_below s.nonce past (omega arith)
