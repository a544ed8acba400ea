-- ===== src/Examples/Serving.antt =====
-- The service at a concrete payment: an officer asks for the document of a FREEZE, signs it, and the
-- decision and the first pack are stored.
use compliance_gateway.Common.{
  ℕ, zero, suc, ◌≡◌, ◌≢◌, ◌++◌, refl, true, false, none, some, List, [], ◌∷◌, ok,
}
use compliance_gateway.Rat.{whole, pos}
use compliance_gateway.Text.{hex_encode, Text, TextMap, codes}
use compliance_gateway.Config.{Config}
use compliance_gateway.Decision.{freeze}
use compliance_gateway.Evidence.Value.{end, field, text}
use compliance_gateway.Evidence.Tree.{evidence_keys}
use compliance_gateway.Evidence.Decode.{is_numeral}
use compliance_gateway.Evidence.Builder.{build_pack}
use compliance_gateway.Ingest.{Payment, confirmed, in_review}
use compliance_gateway.Pipeline.{kinds}
use compliance_gateway.Pipeline.Env.{Env, Moment}
use compliance_gateway.Pipeline.Store.{Db, PackRow, past_of, insert_pack, latest_pack}
use compliance_gateway.Pipeline.Sections.{rest}
use compliance_gateway.Pipeline.Issue.{issue_pack}
use compliance_gateway.Api.{Decoders, typed_data_request, decide_request, handle}
use compliance_gateway.Pipeline.Books.{books, Effects}
use compliance_gateway.Pipeline.Books.Histories.{IsHistory, IsExtended}
use compliance_gateway.Pipeline.Books.Journal.{HasJournal}
use compliance_gateway.Decision.Transition.{replay, returned}
use compliance_gateway.Decision.Verify.{find_officer}
use compliance_gateway.Decision.{permits}
use compliance_gateway.Evidence.Value.{set, withheld}
use compliance_gateway.Evidence.Tree.{hash_fields, hash_items, leaf}
use compliance_gateway.Text.{lookup, put, hex_decode}
use compliance_gateway.Checks.{timed_out}
use compliance_gateway.Api.Guarantees.{
  IsNew, Steps-IsHistory, Steps-frozen, Steps-HasJournal, Steps-IsExtended,
}
use compliance_gateway.Api.Answers.{is_client_error, handle_client_error}
use compliance_gateway.Api.Steps.{Step-Effects, Steps, serves, done, next}

abbrev pub processor_config : Config
processor_config = record {
  database_url = "db";
  listen = "";
  api_token = "t";
  data_dir = "";
  nats_url = "";
  processor = record {
    legal_name = "";
    lei = "";
    casp_id = "";
    nca = "";
    rfi_channel = "";
    cert_url = "";
  };
  chains =
      record {
        chain_id = 1;
        name = "";
        rpc = "";
        confirmations = 1;
        reconcile_interval = pos 1;
        chunk = 1;
        eventscale_network = "";
        tokens =
            record {
              symbol = "E";
              address = 5;
              decimals = 2;
              eventscale_alias = "";
              eur_rate = "1";
              fx_source = "";
            }
            ∷ [];
        deposits = record { address = 7; merchant_id = "m" } ∷ [];
      }
      ∷ [];
  keys = record { policy_key_file = ""; evidence_key_file = ""; evidence_kid = "" };
  officers = record { address = 9; officer_id = "o"; mask = 15 } ∷ [];
  mlro = 4 ∷ [];
  sanctions = [];
  goplus_base_url = "";
  check_timeout = pos 0;
  decision_ttl = pos 0;
  worker_interval = pos 0;
  retention_years = pos 5;
}

-- A hash that is always the same.
abbrev pub zeros : Text
zeros = codes "0000000000000000000000000000000000000000000000000000000000000000"

abbrev pub uuid : Text
uuid = codes "00000000-0000-0000-0000-000000000000"

abbrev pub env : Env
env = record {
  config = processor_config;
  sha = λ bytes. zeros;
  digest = λ td. some 3;
  sig_to_address = λ h sig. some 9;
  policy_sign = λ h. some [];
  policy_address = 8;
  sign = λ payload. some [];
  kid = [];
  hash_hex = λ h. [];
  bare_hex = λ h. [];
  address_hex = λ a. [];
  to_hash = λ t. 11;
  utf8 = codes;
  string_of = λ t. "HOLD";
  blank = λ t. false;
  rfc3339 = λ n. [];
  date_after = λ n y. [];
  set_string = λ s. some (whole 1);
  float_string = λ n q. codes "1";
  engine_version = [];
  decode_ruleset = λ raw. none;
  decode = λ raw. none;
}

abbrev pub moment : Moment
moment = record {
  now = 1000;
  uuid = uuid;
  fresh = λ n. codes "00";
  replies = λ s. (codes "kyt", timed_out (codes "late")) ∷ [];
  put = λ bytes. ok [];
}

abbrev pub times : ℕ → List ℕ
times zero = []
times (suc n) = 1 ∷ times n

abbrev pub decoders : Decoders
decoders = record {
  hex = λ t. some (times 32);
  bytes_to_hash = λ b. 1;
  time = λ t. none;
  now_seconds = λ n. n;
  decide_body =
      λ t. some (record { decision = "FREEZE"; signature = times 65; rationale = codes "seen" });
  approve_body = λ t. none;
  project_body = λ t. none;
}

abbrev pub waiting : Payment
waiting = record {
  deposit = record {
    chain_id = 1;
    tx_hash = 3;
    log_index = 0;
    block_number = 60;
    block_hash = 8;
    block_time = 500;
    token = 5;
    payer = 6;
    to = 7;
    amount = 900;
  };
  ingest = confirmed;
  stage = in_review;
  reconstruction = false;
}

abbrev salted : List Text → TextMap Text
salted [] = []
salted (k ∷ ks) = (k, codes "00") ∷ salted ks

abbrev pub database : Db
database = record {
  payments = (1, waiting) ∷ [];
  checks = λ i. [];
  recommendations = λ i. some (record {
    ruleset_version = none;
    recommendation = codes "HOLD";
    reasons = [];
    policy_ref = [];
    auto = false;
    inputs = end;
    inputs_hash = [];
    engine_version = [];
    created_at = 900;
  });
  snapshots = λ i. some (record {
    pack_id = uuid;
    content = field (codes "pack_id") (text uuid) end;
    salts = salted evidence_keys;
    evidence_root = zeros;
  });
  decisions = λ i. [];
  pending = λ i k. none;
  packs = [];
  head_seq = 0;
  head_hash = zeros;
  rulesets = [];
  projections = [];
}

abbrev pub token : Text
token = codes "t"

abbrev pub header : Text
header = codes "Bearer t"

abbrev pub asked : Db
asked = (handle env moment decoders token header (typed_data_request [] "FREEZE") database).1

abbrev pub frozen_db : Db
frozen_db = (handle env moment decoders token header (decide_request [] []) asked).1

frozen_stored : kinds (past_of (frozen_db.decisions 1)) ≡ freeze ∷ []
unfolding handle issue_pack rest build_pack is_numeral hex_encode latest_pack insert_pack kinds
    find_officer permits set withheld hash_fields leaf lookup put hex_decode hash_items
frozen_stored = refl

pub is_new : IsNew zeros database
is_new = (λ i. refl, refl, refl, refl)

steps : Steps env decoders database frozen_db
steps =
    next (serves moment token header (typed_data_request [] "FREEZE"))
      (next (serves moment token header (decide_request [] [])) done)

Steps-IsHistory_example : IsHistory (frozen_db.decisions 1)
Steps-IsHistory_example = Steps-IsHistory env decoders zeros database frozen_db is_new steps 1

Steps-frozen_example :
    ((replay (kinds (past_of (frozen_db.decisions 1)))).0.frozen ≡ true)
    × ((replay (kinds (past_of (frozen_db.decisions 1)))).0.status ≢ returned)
Steps-frozen_example =
    Steps-frozen env decoders zeros database frozen_db 1 [] [] is_new steps frozen_stored

Steps-HasJournal_example : HasJournal (λ bytes. zeros) zeros (books frozen_db)
Steps-HasJournal_example = Steps-HasJournal env decoders zeros database frozen_db is_new steps

Steps-IsExtended_example :
    ((i : ℕ) → IsExtended (database.decisions i) (frozen_db.decisions i))
    × ((new : List PackRow) × (frozen_db.packs ≡ new ++ database.packs))
Steps-IsExtended_example = Steps-IsExtended env decoders database frozen_db steps

Step-Effects_example : Effects (λ bytes. zeros) (λ payload. some []) (books asked) (books frozen_db)
Step-Effects_example =
    Step-Effects env decoders asked frozen_db (serves moment token header (decide_request [] []))

-- Without the document there is nothing to sign: a conflict.
too_early :
    is_client_error
      (handle env moment decoders token header (decide_request [] []) database).0.status
    ≡ true
unfolding handle
too_early = refl

handle_client_error_example :
    (handle env moment decoders token header (decide_request [] []) database).1 ≡ database
handle_client_error_example =
    handle_client_error env moment decoders token header (decide_request [] []) database too_early
