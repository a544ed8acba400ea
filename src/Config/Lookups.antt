-- ===== src/Config/Lookups.antt =====
-- config.go: what `Validate` gives for the lookups and for the masks of the officers.
use compliance_gateway.Common.{
  ℕ, ◌+◌, ◌≤◌, ◌≡◌, ◌≢◌, String, Bool, false, ◌||◌, Option, some, List, [], ◌∷◌, ltb, ◌==◌, any,
  Any, All, first, later, arith, subst,
}
use compliance_gateway.Rat.{Rat}
use compliance_gateway.Rules.Matching.{++-nil}
use compliance_gateway.Decision.Verify.{Officer}
use compliance_gateway.Config.{
  Config, ChainConfig, chain_by_id, chain_errors, officer_errors, validate, text_errors, when,
  chain_body_errors, no_chain_id, duplicated, bad_mask, no_chains, no_mlro, required,
}

module _ (blank : String → Bool) (set_string : String → Option Rat) where
  chain_errors-none :
      (i : ℕ) (seen : List ℕ) (ch : ChainConfig) (chs : List ChainConfig)
      → chain_errors blank set_string i seen (ch ∷ chs) ≡ []
      → (ch.chain_id ≢ 0)
        × (any (λ id. id == ch.chain_id) seen ≡ false)
        × (chain_errors blank set_string (i + 1) (ch.chain_id ∷ seen) chs ≡ [])
  unfolding chain_errors
  chain_errors-none i seen ch chs h =
      let (a, h1) = ++-nil (when (ch.chain_id == 0) (no_chain_id i)) _ h in
      let (b, h2) = ++-nil (when (any (λ id. id == ch.chain_id) seen) (duplicated i)) _ h1 in
      let (c, d) = ++-nil (chain_body_errors blank set_string i ch) _ h2 in
      (ground arith, ground arith, d)

  -- No later chain has an id that was seen.
  unseen :
      (i : ℕ) (seen : List ℕ) (chs : List ChainConfig) (ch : ChainConfig)
      → chain_errors blank set_string i seen chs ≡ []
      → Any (λ x. x ≡ ch) chs
      → any (λ id. id == ch.chain_id) seen ≡ false
  unseen i seen [] ch h m = elim m [ ]
  unseen i seen (x ∷ chs) ch h (first e) =
      subst (λ y. any (λ id. id == y.chain_id) seen ≡ false) e (chain_errors-none i seen x chs h).1
  unseen i seen (x ∷ chs) ch h (later m) =
      let later_unseen =
        unseen (i + 1) (x.chain_id ∷ seen) chs ch (chain_errors-none i seen x chs h).2 m in
      ground arith

  chain_by_id-found :
      (i : ℕ) (seen : List ℕ) (chs : List ChainConfig) (ch : ChainConfig)
      → chain_errors blank set_string i seen chs ≡ []
      → Any (λ x. x ≡ ch) chs
      → chain_by_id ch.chain_id chs ≡ some ch
  unfolding chain_by_id
  chain_by_id-found i seen [] ch h m = elim m [ ]
  chain_by_id-found i seen (x ∷ chs) ch h (first e) = ground (arith, e)
  chain_by_id-found i seen (x ∷ chs) ch h (later m) =
      let rest = (chain_errors-none i seen x chs h).2 in
      let new = unseen (i + 1) (x.chain_id ∷ seen) chs ch rest m in
      let found = chain_by_id-found (i + 1) (x.chain_id ∷ seen) chs ch rest m in ground arith

  validate-parts :
      (c : Config)
      → validate blank set_string c ≡ []
      → (chain_errors blank set_string 0 [] c.chains ≡ [])
        × (officer_errors blank set_string 0 c.officers ≡ [])
  unfolding validate
  validate-parts c h =
      let (_, h1) = ++-nil (text_errors blank set_string c) _ h in
      let (_, h2) = ++-nil (elim c.chains [ [] ↦ no_chains ∷ [] | _ ∷ _ ↦ [] ]) _ h1 in
      let (_, h3) = ++-nil (elim c.mlro [ [] ↦ no_mlro ∷ [] | _ ∷ _ ↦ [] ]) _ h2 in
      let (a, h4) = ++-nil (chain_errors blank set_string 0 [] c.chains) _ h3 in
      let (b, _) = ++-nil (officer_errors blank set_string 0 c.officers) _ h4 in (a, b)

  officer_masks :
      (i : ℕ) (os : List Officer)
      → officer_errors blank set_string i os ≡ []
      → All (λ o. (1 ≤ o.mask) × (o.mask ≤ 15)) os
  unfolding officer_errors
  officer_masks i [] h = tt
  officer_masks i (o ∷ os) h =
      let (a, h1) = ++-nil (when (o.mask == 0 || ltb 15 o.mask) (bad_mask i)) _ h in
      let (_, b) =
        ++-nil (when (blank o.officer_id) (required (i ∷ []) "officers.officer_id")) _ h1 in
      (ground arith, officer_masks (i + 1) os b)

  -- In a valid configuration the lookup by id finds every chain, and not another one with its id.
  pub validate-chain_by_id :
      (c : Config) (ch : ChainConfig)
      → validate blank set_string c ≡ []
      → Any (λ x. x ≡ ch) c.chains
      → chain_by_id ch.chain_id c.chains ≡ some ch
  validate-chain_by_id c ch h m = chain_by_id-found 0 [] c.chains ch (validate-parts c h).0 m

  -- In a valid configuration every officer has a mask of 1 to 15.
  pub validate-masks :
      (c : Config)
      → validate blank set_string c ≡ []
      → All (λ o. (1 ≤ o.mask) × (o.mask ≤ 15)) c.officers
  validate-masks c h = officer_masks 0 c.officers (validate-parts c h).1
