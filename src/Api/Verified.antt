-- ===== src/Api/Verified.antt =====
-- The packs that the service has stored, under `VerifyJWS`.
use compliance_gateway.Common.{
  ℕ, ◌<◌, ◌^◌, ◌≡◌, sym, ◌∙◌, subst, true, some, List, All, Result, ok, err,
}
use compliance_gateway.Text.{Text}
use compliance_gateway.Evidence.Value.{object}
use compliance_gateway.Evidence.Canon.{canon}
use compliance_gateway.Evidence.Tree.{master_root, evidence_root}
use compliance_gateway.Evidence.Jws.{
  Crypto, Key, JwsSigner, JwsErr, load_jws_signer, public, sign, signed, verify_jws,
}
use compliance_gateway.Evidence.Jws.Verified.{verify-sign, load_jws_signer-is_p256}
use compliance_gateway.Pipeline.Env.{Env}
use compliance_gateway.Pipeline.Store.{Db, PackRow}
use compliance_gateway.Api.{Decoders}
use compliance_gateway.Api.Steps.{Steps}
use compliance_gateway.Api.Guarantees.{IsNew, Steps-IsSealed}

-- The row's JWS verifies over the canonical JSON of its data, and its roots are those of its data.
abbrev pub Verifies : Crypto → (List ℕ → Text) → ℕ → PackRow → Type 0
Verifies std sha pub_key k =
    ((payload : Text) × (canon (object k.content) ≡ some payload)
      × (verify_jws std pub_key k.jws payload ≡ ok tt))
    × (master_root sha k.content k.salts ≡ some k.master_root)
    × (evidence_root sha k.content k.salts ≡ some k.evidence_root)

signed_ok : (r : Result JwsErr Text) {a b : Text} → signed r ≡ some a → r ≡ ok b → b ≡ a
signed_ok (ok jws) p q = cc
signed_ok (err e) p q = cc

All-map :
    {P Q : PackRow → Type 0} (ks : List PackRow) → ((k : PackRow) → P k → Q k) → All P ks → All Q ks
All-map List.[] f h = tt
All-map (List.◌∷◌ k ks) f (a, h) = (f k a, All-map ks f h)

-- When the service signs with a signer that `LoadJWSSigner` returned, and signing with a P-256 key
-- returns, on every digest, two numbers of at most 32 bytes that the curve verifies under its public
-- key, then after any steps from a new database `VerifyJWS` accepts the JWS of every stored pack under
-- the signer's public key over the canonical JSON of the pack's data, and the pack's two roots are
-- those of its data and salts.
pub Steps-Verifies :
    (std : Crypto) (path kid : Text) (s : JwsSigner) (env : Env) (d : Decoders) (genesis : Text)
    (a b : Db)
    → load_jws_signer std path kid ≡ ok s
    → ((key : Key)
        → key.is_p256 ≡ true
        → (h : Text)
        → (r : ℕ) × (t : ℕ) × (std.sign key h ≡ some (r, t))
          × (r < 256 ^ 32)
          × (t < 256 ^ 32)
          × (std.verify (std.public_key key) h r t ≡ true))
    → ((payload : Text) → env.sign payload ≡ signed (sign std s payload))
    → IsNew genesis a
    → Steps env d a b
    → All (Verifies std env.sha (public std s)) b.packs
Steps-Verifies std path kid s env d genesis a b l law signs n st =
    All-map b.packs
      (λ k ((payload, c, g), m, e).
        let (jws, x, v) =
          verify-sign std s payload (law s.key (load_jws_signer-is_p256 std path kid s l)) in
        let same = signed_ok (sign std s payload) (sym (signs payload) ∙ g) x in
        ((payload, c, subst (λ j. verify_jws std (public std s) j payload ≡ ok tt) same v), m, e))
      (Steps-IsSealed env d genesis a b n st)
