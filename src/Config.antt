-- ===== src/Config.antt =====
-- compliance-backend/internal/config/config.go: the configuration, its defaults, its validation and
-- its lookups. Whether a text is blank (`strings.TrimSpace`) and how big.Rat reads a decimal are the
-- parameters `blank` and `set_string`. Addresses are numbers, and durations are in nanoseconds.
pub mod Lookups
use compliance_gateway.Common.{
  ℕ, zero, suc, ◌+◌, String, Bool, true, false, ◌||◌, Option, none, some, List, [], ◌∷◌, ◌++◌, ltb,
  ◌==◌, if◌then◌else◌, any, str_eq,
}
use compliance_gateway.Rat.{Rat, ℤ, pos, negsuc, is_positive}
use compliance_gateway.Decision.Verify.{Officer}

pub record Processor : Type 0 where
  pub legal_name : String
  pub lei : String
  pub casp_id : String
  pub nca : String
  pub rfi_channel : String
  pub cert_url : String

pub record Token : Type 0 where
  pub symbol : String
  pub address : ℕ
  pub decimals : ℕ  -- uint8
  pub eventscale_alias : String
  pub eur_rate : String
  pub fx_source : String

pub record DepositAddress : Type 0 where
  pub address : ℕ
  pub merchant_id : String

pub record ChainConfig : Type 0 where
  pub chain_id : ℕ
  pub name : String
  pub rpc : String
  pub confirmations : ℕ
  pub reconcile_interval : ℤ
  pub chunk : ℕ
  pub eventscale_network : String
  pub tokens : List Token
  pub deposits : List DepositAddress

pub record Keys : Type 0 where
  pub policy_key_file : String
  pub evidence_key_file : String
  pub evidence_kid : String

pub record SanctionsList : Type 0 where
  pub name : String
  pub version : String
  pub path : String

pub record Config : Type 0 where
  pub database_url : String
  pub listen : String
  pub api_token : String
  pub data_dir : String
  pub nats_url : String
  pub processor : Processor
  pub chains : List ChainConfig
  pub keys : Keys
  pub officers : List Officer
  pub mlro : List ℕ
  pub sanctions : List SanctionsList
  pub goplus_base_url : String  -- KYT
  pub check_timeout : ℤ
  pub decision_ttl : ℤ
  pub worker_interval : ℤ
  pub retention_years : ℤ

abbrev pub or_text : String → String → String
or_text d s = if str_eq "" s then d else s

abbrev pub or_number : ℕ → ℤ → ℤ
or_number d (pos zero) = pos d
or_number d (pos (suc n)) = pos (suc n)
or_number d (negsuc n) = negsuc n

abbrev pub chain_defaults : ChainConfig → ChainConfig
chain_defaults ch = record ch {
  reconcile_interval = or_number 30000000000 ch.reconcile_interval;
  chunk = if ch.chunk == 0 then 2000 else ch.chunk;
}

abbrev pub all_defaults : List ChainConfig → List ChainConfig
all_defaults [] = []
all_defaults (ch ∷ chs) = chain_defaults ch ∷ all_defaults chs

-- `defaults`
unfoldable pub defaults : Config → Config
defaults c = record c {
  listen = or_text ":8080" c.listen;
  data_dir = or_text "data" c.data_dir;
  goplus_base_url = or_text "https://api.gopluslabs.io" c.goplus_base_url;
  check_timeout = or_number 10000000000 c.check_timeout;
  decision_ttl = or_number 86400000000000 c.decision_ttl;
  worker_interval = or_number 2000000000 c.worker_interval;
  retention_years = or_number 7 c.retention_years;
  chains = all_defaults c.chains;
}

-- An error names the field, and the indices of the entries that it is in.
pub data Err : Type 0 where
  required : List ℕ → String → Err
  no_chains no_mlro : Err
  no_chain_id duplicated no_tokens no_deposits bad_mask : ℕ → Err
  no_token_address bad_rate no_deposit_address : ℕ → ℕ → Err

abbrev pub when : Bool → Err → List Err
when b e = if b then e ∷ [] else []

-- `Chain`, `Token` and `Deposit`: the first entry with the id or the address.
unfoldable pub chain_by_id : ℕ → List ChainConfig → Option ChainConfig
chain_by_id id [] = none
chain_by_id id (ch ∷ chs) =
    let rest = chain_by_id id chs in if ch.chain_id == id then some ch else rest

unfoldable pub token_at : ℕ → List Token → Option Token
token_at addr [] = none
token_at addr (t ∷ ts) = let rest = token_at addr ts in if t.address == addr then some t else rest

unfoldable pub deposit_at : ℕ → List DepositAddress → Option DepositAddress
deposit_at addr [] = none
deposit_at addr (d ∷ ds) =
    let rest = deposit_at addr ds in if d.address == addr then some d else rest

module _ (blank : String → Bool) (set_string : String → Option Rat) where
  abbrev pub req : List ℕ → String → String → List Err
  req at name v = when (blank v) (required at name)

  abbrev pub is_rate : String → Bool
  is_rate s = elim (set_string s) [ none ↦ false | some r ↦ is_positive r ]

  -- The tokens of chain `i`, from index `j` on.
  unfoldable pub token_errors : ℕ → ℕ → List Token → List Err
  unfolding is_positive
  token_errors i j [] = []
  token_errors i j (t ∷ ts) =
      req (i ∷ j ∷ []) "chains.tokens.symbol" t.symbol
      ++ (req (i ∷ j ∷ []) "chains.tokens.fx_source" t.fx_source
          ++ (when (t.address == 0) (no_token_address i j)
              ++ ((if is_rate t.eur_rate then [] else bad_rate i j ∷ [])
                  ++ token_errors i (j + 1) ts)))

  unfoldable pub deposit_errors : ℕ → ℕ → List DepositAddress → List Err
  deposit_errors i j [] = []
  deposit_errors i j (d ∷ ds) =
      when (d.address == 0) (no_deposit_address i j)
      ++ (req (i ∷ j ∷ []) "chains.deposit_addresses.merchant_id" d.merchant_id
          ++ deposit_errors i (j + 1) ds)

  -- Everything about one chain but its id.
  unfoldable pub chain_body_errors : ℕ → ChainConfig → List Err
  unfolding token_errors deposit_errors
  chain_body_errors i ch =
      req (i ∷ []) "chains.name" ch.name
      ++ (req (i ∷ []) "chains.rpc" ch.rpc
          ++ (elim ch.tokens [ [] ↦ no_tokens i ∷ [] | _ ∷ _ ↦ [] ]
              ++ (elim ch.deposits [ [] ↦ no_deposits i ∷ [] | _ ∷ _ ↦ [] ]
                  ++ (token_errors i 0 ch.tokens ++ deposit_errors i 0 ch.deposits))))

  -- The chains from index `i` on; `seen` are the ids before it.
  unfoldable pub chain_errors : ℕ → List ℕ → List ChainConfig → List Err
  unfolding chain_body_errors
  chain_errors i seen [] = []
  chain_errors i seen (ch ∷ chs) =
      when (ch.chain_id == 0) (no_chain_id i)
      ++ (when (any (λ id. id == ch.chain_id) seen) (duplicated i)
          ++ (chain_body_errors i ch ++ chain_errors (i + 1) (ch.chain_id ∷ seen) chs))

  unfoldable pub officer_errors : ℕ → List Officer → List Err
  officer_errors i [] = []
  officer_errors i (o ∷ os) =
      when (o.mask == 0 || ltb 15 o.mask) (bad_mask i)
      ++ (req (i ∷ []) "officers.officer_id" o.officer_id ++ officer_errors (i + 1) os)

  unfoldable pub sanctions_errors : ℕ → List SanctionsList → List Err
  sanctions_errors i [] = []
  sanctions_errors i (s ∷ ss) =
      req (i ∷ []) "sanctions_lists.name" s.name
      ++ (req (i ∷ []) "sanctions_lists.version" s.version
          ++ (req (i ∷ []) "sanctions_lists.path" s.path ++ sanctions_errors (i + 1) ss))

  unfoldable pub text_errors : Config → List Err
  text_errors c =
      req [] "database_url" c.database_url
      ++ (req [] "api_token" c.api_token
          ++ (req [] "processor.legal_name" c.processor.legal_name
              ++ (req [] "keys.policy_key_file" c.keys.policy_key_file
                  ++ (req [] "keys.evidence_key_file" c.keys.evidence_key_file
                      ++ req [] "keys.evidence_kid" c.keys.evidence_kid))))

  -- `Validate`: the joined errors, none for a valid configuration.
  unfoldable pub validate : Config → List Err
  unfolding text_errors chain_errors officer_errors sanctions_errors
  validate c =
      text_errors c
      ++ (elim c.chains [ [] ↦ no_chains ∷ [] | _ ∷ _ ↦ [] ]
          ++ (elim c.mlro [ [] ↦ no_mlro ∷ [] | _ ∷ _ ↦ [] ]
              ++ (chain_errors 0 [] c.chains
                  ++ (officer_errors 0 c.officers ++ sanctions_errors 0 c.sanctions))))
