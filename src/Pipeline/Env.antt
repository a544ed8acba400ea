-- ===== src/Pipeline/Env.antt =====
-- What the pipeline's operations take from outside the repository: the configuration that was read,
-- the libraries' functions, and what is there at the moment of one operation.
use compliance_gateway.Common.{ℕ, String, Bool, Option, List, Result}
use compliance_gateway.Text.{Text}
use compliance_gateway.Rat.{Rat, ℤ}
use compliance_gateway.Rules.{Ruleset}
use compliance_gateway.Config.{Config}
use compliance_gateway.Decision.Verify.{TypedData}
use compliance_gateway.Evidence.Value.{Fields}
use compliance_gateway.Checks.{Screened, Reply}

-- `Pipeline`, with its keys and the functions of the standard library and of go-ethereum.
pub record Env : Type 0 where
  pub config : Config
  pub sha : List ℕ → Text
  pub digest : TypedData → Option ℕ
  pub sig_to_address : ℕ → List ℕ → Option ℕ
  pub policy_sign : ℕ → Option (List ℕ)  -- Policy.Sign
  pub policy_address : ℕ
  pub sign : Text → Option Text  -- Evidence.Sign
  pub kid : Text
  pub hash_hex : ℕ → Text  -- Hash.Hex
  pub bare_hex : ℕ → Text  -- hexNo0x
  pub address_hex : ℕ → Text  -- Address.Hex
  pub to_hash : Text → ℕ  -- HexToHash
  pub utf8 : String → Text
  pub string_of : Text → String
  pub blank : Text → Bool  -- TrimSpace(…) == ""
  pub rfc3339 : ℕ → Text
  pub date_after : ℕ → ℤ → Text  -- AddDate, years on
  pub set_string : String → Option Rat
  pub float_string : ℕ → Rat → Text
  pub engine_version : Text
  pub decode_ruleset : Text → Option Ruleset  -- strict decoding
  pub decode : Text → Option Fields  -- evidence.Decode

-- The clock, the random values (`uuid4` and the salts), and what the checks reply.
pub record Moment : Type 0 where
  pub now : ℕ
  pub uuid : Text
  pub fresh : ℕ → Text
  pub replies : Screened → List (Text × Reply)
  pub put : List ℕ → Result Text Text  -- RawStore.Put
