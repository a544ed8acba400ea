-- ===== src/Pipeline/Books.antt =====
-- What of the tables must never be lost or rewritten: the decisions, the journal of packs and the
-- rulesets. `Effect` is what may happen to them, and says nothing of how the pipeline is written.
pub mod Recording
pub mod Deciding
pub mod Governing
pub mod Ticking
pub mod Histories
pub mod Journal
pub mod Sealed
pub mod Approved
use compliance_gateway.Common.{
  ℕ, ◌+◌, ◌%◌, ◌<◌, ◌≡◌, true, false, Option, none, some, List, [], ◌∷◌, ◌++◌,
}
use compliance_gateway.Text.{Text}
use compliance_gateway.Decision.Transition.{replay, next}
use compliance_gateway.Evidence.Builder.{pack_hash}
use compliance_gateway.Evidence.Value.{object}
use compliance_gateway.Evidence.Canon.{canon}
use compliance_gateway.Evidence.Tree.{master_root, evidence_root}
use compliance_gateway.Pipeline.{PastDecision, kinds, last_nonce}
use compliance_gateway.Pipeline.Store.{
  Db, DecisionRow, PackRow, RulesetRow, at, history_of, order_by_nonce,
}
use compliance_gateway.Pipeline.Rulesets.{find_ruleset, update_ruleset, approve}

pub record Books : Type 0 where
  pub decisions : ℕ → List DecisionRow
  pub packs : List PackRow
  pub head_seq : ℕ
  pub head_hash : Text
  pub rulesets : List RulesetRow

abbrev pub books : Db → Books
books db = record {
  decisions = db.decisions;
  packs = db.packs;
  head_seq = db.head_seq;
  head_hash = db.head_hash;
  rulesets = db.rulesets;
}

-- The decision is allowed after the stored ones, in the order of their nonces, and has the next nonce.
abbrev pub Continues : List DecisionRow → PastDecision → Type 0
Continues ds d =
    (d.nonce ≡ (last_nonce (history_of ds) + 1) % 18446744073709551616)
    × (d.nonce < 9223372036854775808)
    × ((next (replay (kinds (history_of ds))).0 d.kind).1 ≡ none)

-- The row agrees with its own data and salts: its JWS is the signature over the canonical data, and
-- its two roots are those of the data.
abbrev pub IsSealed : (List ℕ → Text) → (Text → Option Text) → PackRow → Type 0
IsSealed sha sign k =
    ((payload : Text) × (canon (object k.content) ≡ some payload) × (sign payload ≡ some k.jws))
    × (master_root sha k.content k.salts ≡ some k.master_root)
    × (evidence_root sha k.content k.salts ≡ some k.evidence_root)

-- The pack takes the next place after the head, hashes over it, and is sealed.
abbrev pub Follows : (List ℕ → Text) → (Text → Option Text) → ℕ → Text → PackRow → Type 0
Follows sha sign seq hash k =
    (k.seq ≡ seq + 1)
    × (k.prev_pack_hash ≡ hash)
    × (pack_hash sha k.prev_pack_hash k.master_root ≡ some k.pack_hash)
    × IsSealed sha sign k

abbrev pub with_decision : ℕ → DecisionRow → PackRow → Books → Books
with_decision id d k b = record {
  decisions = at id (b.decisions id ++ d ∷ []) b.decisions;
  packs = k ∷ b.packs;
  head_seq = b.head_seq + 1;
  head_hash = k.pack_hash;
  rulesets = b.rulesets;
}

module _ (sha : List ℕ → Text) (sign : Text → Option Text) where
  pub data Effect (b : Books) : Books → Type 0 where
    records :
        (id : ℕ) (d : DecisionRow) (k : PackRow)
        → Continues (b.decisions id) d.decision
        → Follows sha sign b.head_seq b.head_hash k
        → Effect b (with_decision id d k b)
    drafts :
        (r : RulesetRow)
        → find_ruleset r.version b.rulesets ≡ none
        → r.approved ≡ false
        → Effect b (record b { rulesets = b.rulesets ++ r ∷ [] })
    approves :
        (v : Text) (by : ℕ) (sig : List ℕ) (from : ℕ) (r : RulesetRow)
        → find_ruleset v b.rulesets ≡ some r
        → r.approved ≡ false
        → Effect b (record b { rulesets = update_ruleset v (approve by sig from) b.rulesets })

  pub data Effects : Books → Books → Type 0 where
    unchanged : {b : Books} → Effects b b
    step : {b c d : Books} → Effect b c → Effects c d → Effects b d

  pub Effects-trans : {b c d : Books} → Effects b c → Effects c d → Effects b d
  Effects-trans unchanged t = t
  Effects-trans (step e s) t = step e (Effects-trans s t)
