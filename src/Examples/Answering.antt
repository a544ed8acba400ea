-- ===== src/Examples/Answering.antt =====
-- The attestor workflow over HTTP, at one queue and one payment.
use compliance_gateway.Common.{
  ℕ, ◌≤◌, ◌≡◌, refl, true, none, some, List, [], ◌∷◌, if◌then◌else◌, ok, Any, first, arith,
}
use compliance_gateway.Text.{Text, codes, text_eq, lookup}
use compliance_gateway.Checks.Kyt.{is_raised}
use compliance_gateway.Attestor.{GoPlusResponse, attestations, settlement}
use compliance_gateway.Attestor.Http.{Doer, tee_do}
use compliance_gateway.Attestor.Clients.{Codec, Services, WireRequest, with_clients}
use compliance_gateway.Attestor.Reports.{Chain, with_writer}
use compliance_gateway.Attestor.Verifying.{address_weights, score}
use compliance_gateway.Attestor.Workflow.{on_verification_cron, on_payment_opened, entry_of}
use compliance_gateway.Attestor.Answered.{
  served, HasAnswered, HasListed, on_payment_opened-HasAnswered, on_verification_cron-HasListed,
}
use compliance_gateway.Examples.Attesting.{runtime, config, proof, by_world_id, attested}

-- The capability answers every request.
abbrev client : Doer
client = tee_do λ q. some (record { status_code = 200; multi_headers = []; body = q.url })

abbrev codec : Codec
codec = record {
  can_request = λ url. true;
  queue = λ body. some (
      record { gate = codes "0x07"; wallet = codes "0x05"; level = 1; world_id = some proof } ∷ []);
  applicant = λ body. none;
  world_id_request = λ p wallet. some wallet;
  world_id_result = λ body. some (record { success = true });
  go_plus = λ body. some (record { code = 1; flags = (codes "fake_kyc", codes "0") ∷ [] });
  hex_to_address = λ t. if text_eq t (codes "0x07") then 7 else 5;
}

abbrev services : Services
services = record {
  relay_url = codes "https://relay";
  sumsub_url = codes "https://sumsub";
  world_id_url = codes "https://worldid";
  world_id_app_id = codes "app";
  go_plus_url = codes "https://goplus";
}

abbrev chain : Chain
chain = record {
  has_type = λ t. true;
  pack = λ types r. some [];
  generate = λ q. some q.encoded_payload;
  write_registry = λ r. true;
  write_gateway = λ r. true;
}

accepted :
    on_payment_opened (served codec services client chain runtime) 7 9 5 ≡ ok (settlement 9 true)
unfolding on_payment_opened score lookup text_eq with_writer with_clients tee_do
accepted = refl

on_payment_opened-HasAnswered_example :
    (r : GoPlusResponse) × HasAnswered codec services client chain runtime 5 r
    × (r.code ≡ 1)
    × ¬ Any (λ (w : Text × ℕ). (is_raised r.flags w.0 ≡ true) × (31 ≤ w.1)) address_weights
on_payment_opened-HasAnswered_example =
    on_payment_opened-HasAnswered codec services client chain runtime 7 9 5
      (record { max_risk = 30 }) refl (omega arith) accepted

listed :
    on_verification_cron config (served codec services client chain runtime)
    ≡ ok (attestations 600 attested)
unfolding on_verification_cron with_writer with_clients tee_do
listed = refl

on_verification_cron-HasListed_example :
    (token : Text) × (ws : List WireRequest) × (some (codes "s") ≡ some token)
    × HasListed codec services client chain runtime token ws
    × Any (λ w. (codec.hex_to_address w.gate ≡ 7) × (codec.hex_to_address w.wallet ≡ 5)) ws
on_verification_cron-HasListed_example =
    on_verification_cron-HasListed codec services client chain runtime config 600 attested
      (entry_of by_world_id (record { nullifier = 3; level = 1; expiry = 4200 })) listed
      (first refl)
