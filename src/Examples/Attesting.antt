-- ===== src/Examples/Attesting.antt =====
-- The attestor workflow at one request and one payment.
use compliance_gateway.Common.{
  ◌≡◌, ◌↔◌, refl, Bool, true, false, none, some, List, [], ◌∷◌, ◌==◌, ok,
}
use mathlib.Core.List.{Permᴰ}
use compliance_gateway.Rat.{pos}
use compliance_gateway.Text.{Text, codes, lookup, text_eq}
use compliance_gateway.Attestor.{
  Config, Runtime, IdDoc, Applicant, VerificationRequest, WorldIdProof, Entry, GatewayPayment,
  settlement,
}
use compliance_gateway.Attestor.Verifying.{score, verify_sumsub}
use compliance_gateway.Attestor.Order.{answering, verify_sumsub-Perm}
use compliance_gateway.Attestor.Workflow.{entry_of, on_payment_opened}
use compliance_gateway.Attestor.Laws.{IsRisky, on_payment_opened_lem}

abbrev pub config : Config
config = record {
  sumsub_app_token_id = [];
  sumsub_secret_id = [];
  session_id_secret_id = [];
  relay_fetch_token_id = [];
  enclave_nullifier_secret_id = [];
  attestation_ttl = pos 3600;
}

abbrev pub proof : WorldIdProof
proof = record {
  merkle_root = [];
  nullifier_hash = codes "n";
  proof = [];
  verification_level = [];
  action = [];
}

-- World ID knows the wallet 5, and Sumsub nobody.
abbrev pub by_world_id : VerificationRequest
by_world_id = record { gate = 7; wallet = 5; level = 1; world_id = some proof }

abbrev by_sumsub : VerificationRequest
by_sumsub = record { gate = 7; wallet = 6; level = 2; world_id = none }

abbrev pub runtime : Runtime
runtime = record {
  now = 600;
  get_secret = λ id. some (codes "s");
  pending = λ token minute. some (by_world_id ∷ by_sumsub ∷ []);
  attestation_of = λ gate wallet. none;
  applicant = λ app_token secret_key id. none;
  verify_world_id = λ p wallet. some (record { status = 200; success = wallet == 5 });
  can_request = λ wallet. true;
  address_security = λ wallet. some (record { code = 1; flags = (codes "mixer", codes "1") ∷ [] });
  payments = λ gate id. some (record { max_risk = 30 });
  write_report = λ r. true;
  decode_revocation = λ input. none;
  to_hash = λ t. 0;
  hmac = λ key t. t;
  keccak = λ t. 3;
  to_bytes32 = λ t. 4;
  hex_encode = λ t. t;
  address_hex = λ a. [];
  address_bytes = λ a. [];
  to_lower = λ t. t;
}

abbrev pub attested : List Entry
attested = entry_of by_world_id (record { nullifier = 3; level = 1; expiry = 4200 }) ∷ []

-- A mixer weighs 80, above the limit of 30.
rejected : on_payment_opened runtime 7 9 5 ≡ ok (settlement 9 false)
unfolding on_payment_opened score lookup text_eq
rejected = refl

on_payment_opened_lem_example :
    (p : GatewayPayment) × (b : Bool) × (runtime.payments 7 9 ≡ some p)
    × (settlement 9 false ≡ settlement 9 b)
    × ((b ≡ false) ↔ IsRisky p.max_risk (runtime.address_security 5))
on_payment_opened_lem_example = on_payment_opened_lem runtime 7 9 5 (settlement 9 false) rejected

abbrev passport : IdDoc
passport = record { country = codes "DEU"; id_doc_type = codes "PASSPORT"; number = codes "C1" }

abbrev id_card : IdDoc
id_card = record { country = codes "DEU"; id_doc_type = codes "ID_CARD"; number = codes "L2" }

abbrev applicant : Applicant
applicant = record {
  review_status = codes "completed";
  review_answer = codes "GREEN";
  id_docs = passport ∷ id_card ∷ [];
}

verify_sumsub-Perm_example :
    verify_sumsub (answering runtime applicant) [] [] [] [] (pos 60) by_sumsub
    ≡ verify_sumsub
        (answering runtime (record applicant { id_docs = id_card ∷ passport ∷ [] }))
        []
        []
        []
        []
        (pos 60)
        by_sumsub
verify_sumsub-Perm_example =
    verify_sumsub-Perm runtime [] [] [] [] (pos 60) by_sumsub applicant (id_card ∷ passport ∷ [])
      (Permᴰ.swap refl refl)
