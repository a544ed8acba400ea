-- ===== src/Attestor/Clients.antt =====
-- internal/queue, internal/sumsubapi, internal/verifier and internal/provenance: what each client asks
-- over HTTP and how it reads the answer. encoding/json and net/http's reading of a URL are parameters.
use compliance_gateway.Common.{
  ℕ, Bool, Option, none, some, List, [], ◌∷◌, ◌++◌, ◌==◌, Result, ok, err, ◌>>=◌, ◌>>◌, or_err,
  require, map_err,
}
use compliance_gateway.Text.{Text, TextMap, codes, itoa, hex_encode}
use compliance_gateway.Attestor.{
  Runtime, WorldIdProof, VerificationRequest, Applicant, WorldIdAnswer, GoPlusResponse,
}
use compliance_gateway.Attestor.Http.{Request, Response, Doer}

-- `wireRequest`
pub record WireRequest : Type 0 where
  pub gate : Text
  pub wallet : Text
  pub level : ℕ
  pub world_id : Option WorldIdProof

-- `worldIDVerifyResponse`, as far as it decides.
pub record WorldIdResult : Type 0 where
  pub success : Bool

-- The program's types in encoding/json, and what net/http and go-ethereum read.
pub record Codec : Type 0 where
  pub can_request : Text → Bool  -- http.NewRequestWithContext
  pub queue : Text → Option (List WireRequest)  -- `wireResponse`, its items
  pub applicant : Text → Option Applicant
  pub world_id_request : WorldIdProof → Text → Option Text
  pub world_id_result : Text → Option WorldIdResult
  pub go_plus : Text → Option GoPlusResponse
  pub hex_to_address : Text → ℕ

pub record Services : Type 0 where
  pub relay_url : Text
  pub sumsub_url : Text
  pub world_id_url : Text
  pub world_id_app_id : Text
  pub go_plus_url : Text

pub data ClientErr : Type 0 where
  no_request not_sent unexpected_status not_decoded not_encoded : ClientErr

abbrev status_ok : ℕ
status_ok = 200

abbrev pub header : Text → Text → Text × List Text
header name value = (name, value ∷ [])

-- `Do` of the client.
unfoldable pub send : Doer → Request → Result ClientErr Response
send client q = map_err (λ _. not_sent) (client q)

module _ (codec : Codec) (client : Doer) where
  -- http.NewRequestWithContext, and the client's Do.
  unfoldable pub ask : Request → Result ClientErr Response
  unfolding send
  ask q = require (codec.can_request q.url) no_request >> send client q

  unfoldable pub queue_request : Text → Text → ℕ → Request
  queue_request base_url token minute = record {
    method = codes "GET";
    url = base_url ++ (codes "/api/relay/queue?minute=" ++ itoa minute);
    headers = header (codes "Authorization") (codes "Bearer " ++ token) ∷ [];
    body = [];
  }

  unfoldable pub request_of : WireRequest → VerificationRequest
  request_of w = record {
    gate = codec.hex_to_address w.gate;
    wallet = codec.hex_to_address w.wallet;
    level = w.level;
    world_id = w.world_id;
  }

  unfoldable pub requests_of : List WireRequest → List VerificationRequest
  unfolding request_of
  requests_of [] = []
  requests_of (w ∷ ws) = request_of w ∷ requests_of ws

  -- `PendingQueueClient.Pending`
  unfoldable pub pending : Text → Text → ℕ → Result ClientErr (List VerificationRequest)
  unfolding ask queue_request requests_of
  pending base_url token minute = do
    r ← ask (queue_request base_url token minute)
    require (r.status == status_ok) unexpected_status
    ws ← or_err not_decoded (codec.queue r.body)
    ok (requests_of ws)

  abbrev content_type : Text → TextMap (List Text)
  content_type [] = []
  content_type (c ∷ body) = header (codes "Content-Type") (codes "application/json") ∷ []

  -- The request that `Client.Do` signs: the time, the method, the path and the body.
  unfoldable pub sumsub_request :
      (Text → Text → Text) → Text → Text → Text → ℕ → Text → Text → Text → Request
  sumsub_request hmac base_url app_token secret_key now method path body = record {
    method = method;
    url = base_url ++ path;
    headers =
        header (codes "X-App-Token") app_token
        ∷ header (codes "X-App-Access-Sig")
            (hex_encode (hmac secret_key (itoa now ++ (method ++ (path ++ body)))))
        ∷ header (codes "X-App-Access-Ts") (itoa now)
        ∷ content_type body;
    body = body;
  }

  -- `Client.DoJSONOK`
  unfoldable pub do_json_ok :
      (Text → Text → Text) → Text → Text → Text → ℕ → Text → Text → Text → Result ClientErr Response
  unfolding ask sumsub_request
  do_json_ok hmac base_url app_token secret_key now method path body = do
    r ← ask (sumsub_request hmac base_url app_token secret_key now method path body)
    require (r.status == status_ok) unexpected_status
    ok r

  unfoldable pub applicant_path : Text → Text
  applicant_path uid = codes "/resources/applicants/-;externalUserId=" ++ (uid ++ codes "/one")

  -- How `SumsubProvider.Verify` gets the applicant.
  unfoldable pub applicant :
      (Text → Text → Text) → Text → ℕ → Text → Text → Text → Result ClientErr Applicant
  unfolding do_json_ok applicant_path
  applicant hmac base_url now app_token secret_key uid = do
    r ← do_json_ok hmac base_url app_token secret_key now (codes "GET") (applicant_path uid) []
    or_err not_decoded (codec.applicant r.body)

  unfoldable pub world_id_call : Services → Text → Request
  world_id_call s payload = record {
    method = codes "POST";
    url = s.world_id_url ++ (codes "/api/v2/verify/" ++ s.world_id_app_id);
    headers = header (codes "Content-Type") (codes "application/json") ∷ [];
    body = payload;
  }

  -- How `WorldIDProvider.Verify` gets the answer about a proof for a wallet.
  unfoldable pub world_id_answer : Services → WorldIdProof → Text → Result ClientErr WorldIdAnswer
  unfolding ask world_id_call
  world_id_answer s proof wallet = do
    payload ← or_err not_encoded (codec.world_id_request proof wallet)
    r ← ask (world_id_call s payload)
    result ← or_err not_decoded (codec.world_id_result r.body)
    ok (record { status = r.status; success = result.success })

  unfoldable pub go_plus_request : Text → Text → Request
  go_plus_request base_url wallet = record {
    method = codes "GET";
    url = base_url ++ (codes "/api/v1/address_security/" ++ (wallet ++ codes "?chain_id=1"));
    headers = [];
    body = [];
  }

  -- How `GoPlusScreener.Score` gets its answer, once the request is made.
  unfoldable pub address_security : Text → Text → Result ClientErr GoPlusResponse
  unfolding send go_plus_request
  address_security base_url wallet = do
    r ← send client (go_plus_request base_url wallet)
    or_err not_decoded (codec.go_plus r.body)

-- A client's answer without the reason why there is none.
abbrev pub answered {ℓ} : {A : Type ℓ} → Result ClientErr A → Option A
answered (ok a) = some a
answered (err e) = none

-- The runtime of the workflow with the clients in it, over one HTTP client.
unfoldable pub with_clients : Codec → Services → Doer → Runtime → Runtime
unfolding pending applicant world_id_answer address_security go_plus_request
with_clients codec s client rt = record rt {
  pending = λ token minute. answered (pending codec client s.relay_url token minute);
  applicant = λ app_token secret_key uid.
      answered (applicant codec client rt.hmac s.sumsub_url rt.now app_token secret_key uid);
  verify_world_id =
      λ proof wallet. answered (world_id_answer codec client s proof (rt.address_hex wallet));
  can_request = λ wallet.
      codec.can_request (go_plus_request codec client s.go_plus_url (rt.address_hex wallet)).url;
  address_security =
      λ wallet. answered (address_security codec client s.go_plus_url (rt.address_hex wallet));
}
