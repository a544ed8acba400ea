-- ===== src/Examples/Starting.antt =====
-- store.go, decision.go's signer, app.go and main.go at one start of the service.
use compliance_gateway.Common.{
  ℕ, ◌+◌, ◌<◌, ◌≡◌, refl, true, Option, none, some, List, [], ◌∷◌, All, zero, suc, if◌then◌else◌,
  arith, ok, length,
}
use compliance_gateway.Text.{Text, codes, text_eq}
use compliance_gateway.Decision.Signer.{Secp, load_file_signer, sign_digest, signer_address}
use compliance_gateway.Decision.Signer.Recovered.{recover-sign_digest, byte_at}
use compliance_gateway.Decision.Verify.{TypedData, recover}
use compliance_gateway.Evidence.Jws.{JwsSigner, load_jws_signer, public}
use compliance_gateway.Migrate.{Database, Session, migrate}
use compliance_gateway.Migrate.Resumed.{migrate-migrate}
use compliance_gateway.Pipeline.Env.{Env}
use compliance_gateway.Pipeline.Store.{Db}
use compliance_gateway.Pipeline.Rulesets.{import_ruleset, draft}
use compliance_gateway.Rules.{contains}
use compliance_gateway.Api.{typed_data_request, handle}
use compliance_gateway.Api.Steps.{Steps, serves, next, done}
use compliance_gateway.Api.Verified.{Verifies}
use compliance_gateway.App.{Outside, run, with_keys}
use compliance_gateway.App.Started.{run-Verifies}
use compliance_gateway.App.Command.{ruleset_hash}
use compliance_gateway.App.Imported.{IsStored, ruleset_hash-import_ruleset}
use compliance_gateway.Examples.Serving.{
  processor_config, env, moment, decoders, database, token, header, zeros, is_new,
}
use compliance_gateway.Examples.Operating.{rules_env, parsed}
use compliance_gateway.Examples.Verified.{std, std_law, signer}

-- A curve whose signature is the key in every byte but the last.
abbrev bytes : ℕ → ℕ → List ℕ
bytes zero b = 1 ∷ []
bytes (suc n) b = b ∷ bytes n b

abbrev secp : Secp
secp = record {
  read_file = λ path. some (codes "0x0a\n");
  trim_space = λ t. codes "0x0a";
  hex_to_ecdsa = λ t. some (length t);
  sign = λ key h. some (bytes 64 key);
  key_address = λ key. key + 100;
}

abbrev first_byte : ℕ → List ℕ → Option ℕ
first_byte h [] = none
first_byte h (b ∷ bs) = some (b + 100)

-- Every digest is signed.
signs :
    (h : ℕ)
    → (sig : List ℕ) × (v : ℕ) × (secp.sign 2 h ≡ some sig)
      × (length sig ≡ 65)
      × (byte_at 64 sig ≡ some v)
      × (v < 2)
      × (first_byte h sig ≡ some (signer_address secp 2))
unfolding signer_address
signs h = (bytes 64 2, 1, refl, refl, refl, omega arith, refl)

recover-sign_digest_example :
    (sig : List ℕ) × (sign_digest secp 2 77 ≡ ok sig)
    × (recover (λ (td : TypedData). none) first_byte 77 sig ≡ ok (signer_address secp 2))
recover-sign_digest_example = recover-sign_digest secp (λ td. none) first_byte 2 77 signs

-- Two files; the second fails at the first start.
abbrev session : Session
session = record {
  names = some (codes "002_more.sql" ∷ codes "001_init.sql" ∷ []);
  connects = true;
  locks = true;
  creates_table = true;
  read_file = λ name. some name;
}

abbrev failing : Text → List Text → Option (List Text)
failing body tables = if text_eq body (codes "002_more.sql") then none else some (body ∷ tables)

abbrev working : Text → List Text → Option (List Text)
working body tables = some (body ∷ tables)

abbrev no_tables : Database (List Text)
no_tables = record { applied = []; schema = [] }

works : (body : Text) (s t : List Text) → failing body s ≡ some t → working body s ≡ some t
works body s t h = ground arith

migrate-migrate_example :
    migrate session working (migrate session failing no_tables).0
    ≡ migrate session working no_tables
migrate-migrate_example =
    migrate-migrate session session failing working
      (codes "002_more.sql" ∷ codes "001_init.sql" ∷ []) no_tables refl (refl, refl, refl, refl)
      refl works

abbrev outside : Outside (List Text)
outside = record {
  opens = true;
  session = session;
  execute = working;
  secp = secp;
  crypto = std;
  sanctions_load = true;
  dials = λ rpc. true;
  listens = true;
}

abbrev started_env : Env
started_env = with_keys outside processor_config 2 (record signer { kid = [] }) env

started : (run outside processor_config env no_tables).1 ≡ ok started_env
unfolding run load_file_signer load_jws_signer
started = refl

abbrev asked : Db
asked =
    (handle started_env moment decoders token header (typed_data_request [] "FREEZE") database).1

steps : Steps started_env decoders database asked
steps = next (serves moment token header (typed_data_request [] "FREEZE")) done

run-Verifies_example :
    (s : JwsSigner) × (load_jws_signer std (codes "") (codes "") ≡ ok s)
    × All (Verifies std started_env.sha (public std s)) asked.packs
run-Verifies_example =
    run-Verifies outside processor_config env started_env no_tables decoders zeros database asked
      started std_law is_new steps

printed : ruleset_hash rules_env (codes "{}") ≡ ok (codes "v1", zeros)
unfolding ruleset_hash contains
printed = refl

abbrev imported : Db
imported = record database { rulesets = draft rules_env parsed ∷ [] }

imports : import_ruleset rules_env (codes "{}") database ≡ (ok (codes "v1", zeros), imported)
unfolding import_ruleset contains
imports = refl

ruleset_hash-import_ruleset_example :
    (codes "v1" ≡ codes "v1") × (zeros ≡ zeros) × IsStored (codes "v1") zeros imported
ruleset_hash-import_ruleset_example =
    ruleset_hash-import_ruleset rules_env (codes "{}") (codes "v1") zeros (codes "v1") zeros
      database imported printed imports
