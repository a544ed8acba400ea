-- ===== src/Attestor/Http.antt =====
-- internal/httpx and internal/creteehttp: requests, responses, and how the enclave's HTTP capability
-- is made into a client. The capability itself is a parameter.
use compliance_gateway.Common.{ℕ, Option, List, ◌>>=◌, Result, ok, or_err}
use compliance_gateway.Text.{Text, TextMap}

-- `http.Request`: its body read, and each header with its values.
pub record Request : Type 0 where
  pub method : Text
  pub url : Text
  pub headers : TextMap (List Text)
  pub body : Text

-- `http.Response`
pub record Response : Type 0 where
  pub status : ℕ
  pub headers : TextMap (List Text)
  pub body : Text

-- `crehttp.Request` and `crehttp.Response`
pub record TeeRequest : Type 0 where
  pub url : Text
  pub method : Text
  pub body : Text
  pub multi_headers : TextMap (List Text)

pub record TeeResponse : Type 0 where
  pub status_code : ℕ
  pub multi_headers : TextMap (List Text)
  pub body : Text

pub data SendErr : Type 0 where
  not_sent : SendErr

-- `httpx.Doer`
abbrev pub Doer : Type 0
Doer = Request → Result SendErr Response

tee_request : Request → TeeRequest
tee_request q = record { url = q.url; method = q.method; body = q.body; multi_headers = q.headers }

response_of : TeeResponse → Response
response_of r = record { status = r.status_code; headers = r.multi_headers; body = r.body }

-- `Doer.Do`, on `SendRequestInTee`.
unfoldable pub tee_do : (TeeRequest → Option TeeResponse) → Doer
unfolding tee_request response_of
tee_do send q = do r ← or_err not_sent (send (tee_request q)); ok (response_of r)
