-- ===== src/App.antt =====
-- compliance-backend/internal/app/app.go: what `Run` starts with, and `health`. What is outside the
-- program is a record; the goroutines that it starts are the steps of Api.Steps.
pub mod Started
pub mod Command
pub mod Imported
use compliance_gateway.Common.{
  ℕ, suc, ◌+◌, ◌-◌, ◌%◌, String, Bool, true, false, Option, none, some, List, [], ◌∷◌, ltb,
  if◌then◌else◌, Result, ok, err, ◌>>=◌, ◌>>◌, map_err, require,
}
use compliance_gateway.Text.{Text}
use compliance_gateway.Rat.{ℤ, pos, negsuc}
use compliance_gateway.Config.{Config, ChainConfig}
use compliance_gateway.Migrate.{Database, MigrateErr, Session, migrate}
use compliance_gateway.Decision.Signer.{
  Secp, SignerErr, load_file_signer, signer_address, sign_digest,
}
use compliance_gateway.Evidence.Jws.{Crypto, JwsSigner, signed, load_jws_signer, sign}
use compliance_gateway.Ingest.Hint.Consumer.{HintStatus}
use compliance_gateway.Pipeline.Env.{Env}

pub data StartErr : Type 0 where
  no_store bad_policy_key bad_evidence_key no_sanctions no_node no_listener : StartErr

-- The libraries, the database, the nodes and the network, as the start meets them.
pub record Outside (S : Type 0) : Type 0 where
  pub opens : Bool  -- pgxpool.New
  pub session : Session
  pub execute : Text → S → Option S
  pub secp : Secp
  pub crypto : Crypto
  pub sanctions_load : Bool  -- Sanctions.Load
  pub dials : String → Bool
  pub listens : Bool

abbrev pub policy_signature : Result SignerErr (List ℕ) → Option (List ℕ)
policy_signature (ok sig) = some sig
policy_signature (err e) = none

-- The pipeline with the keys that were loaded.
abbrev pub with_keys : {S : Type 0} → Outside S → Config → ℕ → JwsSigner → Env → Env
with_keys out cfg key evidence base = record base {
  config = cfg;
  policy_sign = λ h. policy_signature (sign_digest out.secp key h);
  policy_address = signer_address out.secp key;
  sign = λ payload. signed (sign out.crypto evidence payload);
  kid = evidence.kid;
}

unfoldable pub dial_all : {S : Type 0} → Outside S → List ChainConfig → Result StartErr (Unit {0})
dial_all out [] = ok tt
dial_all out (ch ∷ chs) = require (out.dials ch.rpc) no_node >> dial_all out chs

-- `Run` after the store was opened.
unfoldable pub wire : {S : Type 0} → Outside S → Config → Env → Result StartErr Env
unfolding dial_all
wire out cfg base = do
  key ←
      map_err (λ _. bad_policy_key) (load_file_signer out.secp (base.utf8 cfg.keys.policy_key_file))
  evidence ←
      map_err (λ _. bad_evidence_key)
        (load_jws_signer out.crypto (base.utf8 cfg.keys.evidence_key_file)
          (base.utf8 cfg.keys.evidence_kid))
  require out.sanctions_load no_sanctions
  dial_all out cfg.chains
  require out.listens no_listener
  ok (with_keys out cfg key evidence base)

abbrev pub after_open :
    {S : Type 0}
    → Database S × Option MigrateErr
    → Result StartErr Env
    → Database S × Result StartErr Env
after_open (db, none) r = (db, r)
after_open (db, some e) r = (db, err no_store)

-- `Run`, up to where it serves.
unfoldable pub run :
    {S : Type 0} → Outside S → Config → Env → Database S → Database S × Result StartErr Env
unfolding wire migrate
run out cfg base db =
    if out.opens
    then after_open (migrate out.session out.execute db) (wire out cfg base)
    else (db, err no_store)

-- `health`: the database, the hint, and how far each chain's cursor is behind its node's head.
pub record Health : Type 0 where
  pub db_ok : Bool
  pub hint : HintStatus
  pub lag : List (ℕ × Option ℤ)

-- int64(head) - int64(last)
unfoldable pub difference : ℕ → ℕ → ℤ
difference head last =
    let d = (head + 18446744073709551616 - last) % 18446744073709551616 in
    if ltb d 9223372036854775808 then pos d else negsuc (18446744073709551616 - d - 1)

-- There is no lag without an answer of the node, or without a cursor above 0.
unfoldable pub lag_of : Option ℕ → ℕ → Option ℤ
unfolding difference
lag_of none last = none
lag_of (some head) last = if ltb 0 last then some (difference head last) else none

unfoldable pub lags : (ℕ → Option ℕ) → (ℕ → ℕ) → List ChainConfig → List (ℕ × Option ℤ)
unfolding lag_of
lags heads cursors [] = []
lags heads cursors (ch ∷ chs) =
    (ch.chain_id, lag_of (heads ch.chain_id) (cursors ch.chain_id)) ∷ lags heads cursors chs

-- `health`, from the ping, the nodes' heads and the cursors; a cursor that is not there is 0.
unfoldable pub health : Bool → HintStatus → (ℕ → Option ℕ) → (ℕ → ℕ) → Config → Health
unfolding lags
health ping hint heads cursors cfg = record {
  db_ok = ping;
  hint = hint;
  lag = lags heads cursors cfg.chains;
}
