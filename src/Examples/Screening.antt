-- ===== src/Examples/Screening.antt =====
-- config.go and the checks at concrete inputs.
use compliance_gateway.Common.{
  ℕ, ◌≡◌, ◌↔◌, refl, String, Bool, true, Option, none, some, List, [], ◌∷◌, Any, Result, ok, str_eq,
}
use compliance_gateway.Rat.{Rat, pos, whole, is_positive}
use compliance_gateway.Text.{Text, TextMap, codes}
use compliance_gateway.Decision.Verify.{Officer}
use compliance_gateway.Config.{Config, ChainConfig, validate}
use compliance_gateway.Checks.{Reply, returned, timed_out, zero_result}
use compliance_gateway.Checks.{Screened, CheckResult}
use compliance_gateway.Checks.Sanctions.{LoadedList, has_entry, sanctions_run, sanctions_run_iff}

abbrev blank : String → Bool
blank s = str_eq "" s

abbrev one : String → Option Rat
one s = some (whole 1)

abbrev mainnet : ChainConfig
mainnet = record {
  chain_id = 1;
  name = "mainnet";
  rpc = "http://node";
  confirmations = 12;
  reconcile_interval = pos 30;
  chunk = 2000;
  eventscale_network = "";
  tokens =
      record {
        symbol = "EURC";
        address = 5;
        decimals = 6;
        eventscale_alias = "";
        eur_rate = "1";
        fx_source = "peg";
      }
      ∷ [];
  deposits = record { address = 7; merchant_id = "m" } ∷ [];
}

abbrev base : ChainConfig
base = record mainnet { chain_id = 8453; name = "base" }

abbrev officer : Officer
officer = record { address = 9; officer_id = "o1"; mask = 15 }

abbrev config : Config
config = record {
  database_url = "db";
  listen = "";
  api_token = "token";
  data_dir = "";
  nats_url = "";
  processor = record {
    legal_name = "P";
    lei = "";
    casp_id = "";
    nca = "";
    rfi_channel = "";
    cert_url = "";
  };
  chains = mainnet ∷ base ∷ [];
  keys = record { policy_key_file = "a"; evidence_key_file = "b"; evidence_kid = "k" };
  officers = officer ∷ [];
  mlro = 4 ∷ [];
  sanctions = [];
  goplus_base_url = "";
  check_timeout = pos 0;
  decision_ttl = pos 0;
  worker_interval = pos 0;
  retention_years = pos 0;
}

config_valid : validate blank one config ≡ []
unfolding validate is_positive
config_valid = refl

abbrev put : List ℕ → Result Text Text
put b = ok b

abbrev replies : List (Text × Reply)
replies =
    (codes "kyt", timed_out (codes "timed out after 10s"))
    ∷ (codes "issuer", returned zero_result none none)
    ∷ []

abbrev late : Reply
late = timed_out (codes "late")

abbrev mixer_flag : TextMap Text
mixer_flag = (codes "mixer", codes "1") ∷ []

abbrev listed : LoadedList
listed = record {
  id = 1;
  name = codes "OFAC";
  version = codes "1";
  sha256 = [];
  loaded_at = [];
  entries = (7 ∷ []) ∷ [];
}

abbrev payment : Screened
payment = record {
  id = 1;
  chain_id = 1;
  block_number = 1;
  block_time = 1;
  token = 5;
  payer = 7;
  deposit = 8;
  amount = 100;
  amount_eur = codes "1.00";
}

sanctions_run_iff_example :
    (r : CheckResult) × (sanctions_run (λ t. t) (λ a. a ∷ []) (codes "now") (listed ∷ []) payment
      ≡ ok r)
    × ((r.outcome ≡ codes "TRUE_MATCH")
        ↔ Any (λ (k : LoadedList). has_entry (7 ∷ []) k.entries ≡ true) (listed ∷ []))
sanctions_run_iff_example = sanctions_run_iff (λ t. t) (λ a. a ∷ []) (codes "now") listed [] payment
