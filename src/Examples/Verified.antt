-- ===== src/Examples/Verified.antt =====
-- The service with a signer that was loaded, and a JWS of it.
use compliance_gateway.Common.{
  zero, suc, err, ℕ, ◌<◌, ◌^◌, ◌%◌, ◌≡◌, refl, true, ◌&&◌, ◌==◌, none, some, List, [], ◌∷◌, ◌++◌,
  length, ok, arith, ◌↔◌,
}
use compliance_gateway.Text.{hex_encode, Text, codes, dot}
use compliance_gateway.Text.Base64.{base64_encode, base64_decode}
use compliance_gateway.Evidence.Jws.{
  Crypto, Key, JwsSigner, signed, load_jws_signer, sign, verify_jws, signing_input, does_not_verify,
}
use compliance_gateway.Evidence.Jws.Verified.{verify_jws_iff, IsDetached}
use compliance_gateway.Pipeline.Env.{Env}
use compliance_gateway.Pipeline.{kinds}
use compliance_gateway.Pipeline.Sections.{rest}
use compliance_gateway.Pipeline.Issue.{issue_pack}
use compliance_gateway.Decision.Verify.{find_officer}
use compliance_gateway.Decision.{permits}
use compliance_gateway.Evidence.Value.{set, withheld}
use compliance_gateway.Evidence.Tree.{hash_fields, hash_items, leaf}
use compliance_gateway.Evidence.Decode.{is_numeral}
use compliance_gateway.Evidence.Builder.{build_pack}
use compliance_gateway.Text.{lookup, put, hex_decode, hex_encode}
use compliance_gateway.Evidence.Jws.Bytes.{fill_bytes, set_bytes, take, drop}
use compliance_gateway.Pipeline.Store.{Db, insert_pack, latest_pack}
use compliance_gateway.Api.{typed_data_request, decide_request, handle}
use compliance_gateway.Api.Steps.{Steps, serves, next, done}
use compliance_gateway.Examples.Serving.{env, moment, decoders, database, token, header}

-- A curve whose signature is the key and the length of the digest.
abbrev pub std : Crypto
std = record {
  read_file = λ path. some (codes "pem");
  pem_decode = λ raw. some raw;
  parse_pkcs8 = λ block. none;
  parse_sec1 = λ block. some (record { scalar = 21; is_p256 = true });
  sha256 = λ bytes. bytes;
  public_key = λ key. key.scalar % 256;
  sign = λ key h. some (key.scalar % 256, length h % 256);
  verify = λ public h r t. r == public && t == length h % 256;
}

abbrev pub signer : JwsSigner
signer = record { kid = codes "k1"; key = record { scalar = 21; is_p256 = true } }

loaded : load_jws_signer std (codes "evidence.pem") (codes "k1") ≡ ok signer
unfolding load_jws_signer
loaded = refl

pub std_law :
    (key : Key)
    → key.is_p256 ≡ true
    → (h : Text)
    → (r : ℕ) × (t : ℕ) × (std.sign key h ≡ some (r, t))
      × (r < 256 ^ 32)
      × (t < 256 ^ 32)
      × (std.verify (std.public_key key) h r t ≡ true)
std_law key _ h = (key.scalar % 256, length h % 256, refl, omega arith, omega arith, ground arith)

fives : ℕ → List ℕ
fives zero = []
fives (suc n) = 5 ∷ fives n

abbrev signing_env : Env
signing_env = record env { sign = λ payload. signed (sign std signer payload) }

abbrev served : Db
served =
    (handle signing_env moment decoders token header (typed_data_request [] "FREEZE") database).1

abbrev decided_db : Db
decided_db = (handle signing_env moment decoders token header (decide_request [] []) served).1

steps : Steps signing_env decoders database decided_db
steps =
    next (serves moment token header (typed_data_request [] "FREEZE"))
      (next (serves moment token header (decide_request [] [])) done)

jws : Text
jws = codes "aGVhZA" ++ dot ∷ dot ∷ base64_encode (fives 64)

verify_jws_iff_example :
    (verify_jws std 21 jws (codes "{}") ≡ ok tt) ↔ IsDetached std 21 jws (codes "{}")
verify_jws_iff_example = verify_jws_iff std 21 jws (codes "{}")

-- One pack was stored, and the JWS of another header is refused.
stored : length decided_db.packs ≡ 1
unfolding handle issue_pack rest build_pack is_numeral hex_encode latest_pack insert_pack kinds
    find_officer permits set withheld hash_fields leaf lookup put hex_decode hash_items sign
    fill_bytes base64_encode
stored = refl

refused : verify_jws std 21 jws (codes "{}") ≡ err does_not_verify
unfolding jws verify_jws base64_encode base64_decode set_bytes take drop signing_input fives
refused = refl
