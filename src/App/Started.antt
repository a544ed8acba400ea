-- ===== src/App/Started.antt =====
-- app.go: what holds of the service that `Run` has started with the keys that it has loaded.
use compliance_gateway.Common.{
  ℕ, ◌+◌, ◌<◌, ◌^◌, ◌≡◌, refl, ap, true, Option, none, some, ok, All, arith, Holds, holds, fails,
  Holds-ok, bind_Holds, require-Holds, map_err, map_err_ok, Bool-cases, inl, inr, Result,
}
use compliance_gateway.Text.{Text}
use compliance_gateway.Rat.{pos}
use compliance_gateway.Config.{Config}
use compliance_gateway.Migrate.{Database, MigrateErr, migrate}
use compliance_gateway.Decision.Signer.{load_file_signer}
use compliance_gateway.Evidence.Jws.{Key, JwsSigner, load_jws_signer, public}
use compliance_gateway.Pipeline.Env.{Env}
use compliance_gateway.Pipeline.Store.{Db}
use compliance_gateway.Api.{Decoders}
use compliance_gateway.Api.Steps.{Steps}
use compliance_gateway.Api.Guarantees.{IsNew}
use compliance_gateway.Api.Verified.{Verifies, Steps-Verifies}
use compliance_gateway.App.{
  Outside, StartErr, bad_policy_key, bad_evidence_key, no_sanctions, no_listener, dial_all, wire,
  after_open, run, with_keys, difference,
}

-- The keys were loaded from the configured files, and the service signs with them.
abbrev pub IsWired : {S : Type 0} → Outside S → Config → Env → Env → Type 0
IsWired out cfg base env =
    (key : ℕ) × (s : JwsSigner) × (load_file_signer out.secp (base.utf8 cfg.keys.policy_key_file)
      ≡ ok key)
    × (load_jws_signer out.crypto (base.utf8 cfg.keys.evidence_key_file)
          (base.utf8 cfg.keys.evidence_kid)
        ≡ ok s)
    × (env ≡ with_keys out cfg key s base)

wire-IsWired :
    {S : Type 0} (out : Outside S) (cfg : Config) (base : Env)
    → Holds (IsWired out cfg base) (wire out cfg base)
unfolding wire
wire-IsWired out cfg base =
    let policy = load_file_signer out.secp (base.utf8 cfg.keys.policy_key_file) in
    let evidence =
      load_jws_signer out.crypto (base.utf8 cfg.keys.evidence_key_file)
        (base.utf8 cfg.keys.evidence_kid) in
    bind_Holds (map_err (λ _. bad_policy_key) policy) _ λ key e.
      bind_Holds (map_err (λ _. bad_evidence_key) evidence) _ λ s f.
        require-Holds out.sanctions_load no_sanctions _ λ _.
          bind_Holds (dial_all out cfg.chains) _ λ _ _. require-Holds out.listens no_listener _ λ _.
            holds (
              key,
              s,
              map_err_ok (λ _. bad_policy_key) policy e,
              map_err_ok (λ _. bad_evidence_key) evidence f,
              refl,
            )

opened :
    {S : Type 0} {P : Env → Type 0} (m : Database S × Option MigrateErr) (r : Result StartErr Env)
    → Holds P r
    → Holds P (after_open m r).1
opened (db, none) r h = h
opened (db, some e) r h = fails

run-IsWired :
    {S : Type 0} (out : Outside S) (cfg : Config) (base : Env) (db : Database S)
    → Holds (IsWired out cfg base) (run out cfg base db).1
unfolding run
run-IsWired out cfg base db = elim (Bool-cases out.opens) [
  | inl y ↦ rw y (opened (migrate out.session out.execute db) _ (wire-IsWired out cfg base))
  | inr z ↦ rw z fails
]

-- When `Run` has started the service, and signing with a P-256 key returns, on every digest, two
-- numbers of at most 32 bytes that the curve verifies under its public key, then the evidence key was
-- loaded from the configured file, and after any steps from a new database `VerifyJWS` accepts the JWS
-- of every stored pack under its public key over the canonical JSON of the pack's data, and the pack's
-- two roots are those of its data and salts.
pub run-Verifies :
    {S : Type 0} (out : Outside S) (cfg : Config) (base env : Env) (tables : Database S)
    (d : Decoders) (genesis : Text) (a b : Db)
    → (run out cfg base tables).1 ≡ ok env
    → ((key : Key)
        → key.is_p256 ≡ true
        → (h : Text)
        → (r : ℕ) × (t : ℕ) × (out.crypto.sign key h ≡ some (r, t))
          × (r < 256 ^ 32)
          × (t < 256 ^ 32)
          × (out.crypto.verify (out.crypto.public_key key) h r t ≡ true))
    → IsNew genesis a
    → Steps env d a b
    → (s : JwsSigner) × (load_jws_signer out.crypto
          (base.utf8 cfg.keys.evidence_key_file)
          (base.utf8 cfg.keys.evidence_kid)
        ≡ ok s)
      × All (Verifies out.crypto env.sha (public out.crypto s)) b.packs
run-Verifies out cfg base env tables d genesis a b started law n steps =
    let (key, s, _, l, e) = Holds-ok (run-IsWired out cfg base tables) started in
    (
      s,
      l,
      Steps-Verifies out.crypto (base.utf8 cfg.keys.evidence_key_file)
          (base.utf8 cfg.keys.evidence_kid) s env d genesis a b l law
          (λ payload. ap (λ (x : Env). x.sign payload) e) n steps,
    )

-- Between numbers below 2^63 the lag is their difference.
pub difference_lem :
    (head last : ℕ) → last + head < 9223372036854775808 → difference (last + head) last ≡ pos head
unfolding difference
difference_lem head last h = ground arith
