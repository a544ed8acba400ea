-- ===== src/Pipeline/Sections.antt =====
-- decide.go, `rest`: the sections of a pack outside the evidence root.
use compliance_gateway.Common.{
  ℕ, Option, none, some, List, [], ◌∷◌, ◌++◌, if◌then◌else◌, Result, ok, ◌>>=◌, or_err, false, Bool,
}
use compliance_gateway.Text.{Text, codes, text_le, itoa, hex_encode}
use compliance_gateway.Config.{
  Config, ChainConfig, DepositAddress, Token, chain_by_id, token_at, deposit_at,
}
use compliance_gateway.Decision.{name}
use compliance_gateway.Decision.Transition.{replay}
use compliance_gateway.Evidence.Value.{
  Value, null, boolean, int, text, array, object, Items, nil, cons, Fields, fields_of, texts,
}
use compliance_gateway.Pipeline.{Row, PastDecision, Err, internal, kinds}
use compliance_gateway.Pipeline.Env.{Env}
use compliance_gateway.Pipeline.Store.{Db, CheckRow, load_decisions}

-- `token`: the chain and the token of a payment.
unfoldable pub token_of : Config → Row → Result Err (ChainConfig × Token)
unfolding chain_by_id token_at
token_of c r = do
  ch ← or_err internal (chain_by_id r.chain_id c.chains)
  t ← or_err internal (token_at r.token ch.tokens)
  ok (ch, t)

abbrev pub event : Text → Text → Value → Text → Value
event at what ref source = object (
    fields_of (
      (codes "at", text at)
      ∷ (codes "event", text what)
      ∷ (codes "ref", ref)
      ∷ (codes "source", text source)
      ∷ []))

-- max(performed_at); the texts are in UTC and of one width, so they sort as their times do.
abbrev pub latest_check : List CheckRow → Text
latest_check [] = codes "0001-01-01T00:00:00Z"
latest_check (c ∷ cs) =
    if text_le c.performed_at (latest_check cs) then latest_check cs else c.performed_at

abbrev pub decision_event : Env → PastDecision → Value
decision_event env d =
    event (env.rfc3339 d.decided_at)
      (codes "Decision "
        ++ (env.utf8 (name d.kind)
            ++ (codes " (" ++ (d.mode ++ (codes "), nonce " ++ itoa d.nonce)))))
      (text d.policy_ref) (codes "PROCESSOR")

abbrev pub decision_events : Env → List PastDecision → Items
decision_events env [] = nil
decision_events env (d ∷ ds) = cons (decision_event env d) (decision_events env ds)

-- past[len(past)-1]
unfoldable pub last_decision : List PastDecision → Option PastDecision
last_decision [] = none
last_decision (d ∷ []) = some d
last_decision (d ∷ e ∷ ds) = last_decision (e ∷ ds)

abbrev pub or_null : Option Text → Value
or_null none = null
or_null (some t) = text t

abbrev pub decision_section : Env → PastDecision → Bool → Value
decision_section env d return_blocked = object (
    fields_of (
      (codes "decision", text (env.utf8 (name d.kind)))
      ∷ (codes "mode", text d.mode)
      ∷ (codes "policy_ref", text d.policy_ref)
      ∷ (codes "reason_codes", array (texts d.reasons))
      ∷ (codes "rationale", text d.rationale)
      ∷ (codes "officer_id", or_null d.officer_id)
      ∷ (codes "second_reviewer", null)
      ∷ (codes "decided_at", text (env.rfc3339 d.decided_at))
      ∷ (codes "nonce", int d.nonce)
      ∷ (codes "pack_hash", text d.pack_hash)
      ∷ (codes "signer_address", text (env.address_hex d.signer))
      ∷ (codes "signature", text (codes "0x" ++ hex_encode d.signature))
      ∷ (codes "execution_tx", text (codes "n/a, executed by the processor outside Deflow"))
      ∷ (codes "return_blocked", boolean return_blocked)
      ∷ []))

abbrev pub processor_section : Env → Value
processor_section env =
    let p = env.config.processor in
    object (
      fields_of (
        (codes "legal_name", text (env.utf8 p.legal_name))
        ∷ (codes "lei", text (env.utf8 p.lei))
        ∷ (codes "casp_id", text (env.utf8 p.casp_id))
        ∷ (codes "nca", text (env.utf8 p.nca))
        ∷ (codes "rfi_channel", text (env.utf8 p.rfi_channel))
        ∷ (codes "cert_url", text (env.utf8 p.cert_url))
        ∷ []))

abbrev pub timeline_section : Env → Row → Items → Value
timeline_section env r offchain = object (
    fields_of (
      (
        codes "onchain",
        array (
            cons
              (event (env.rfc3339 r.block_time) (codes "Transfer to deposit address")
                (text (env.hash_hex r.tx_hash)) (codes "CHAIN"))
              nil),
      )
      ∷ (codes "offchain", array offchain)
      ∷ []))

abbrev pub retention_section : Env → Row → Value
retention_section env r = object (
    fields_of (
      (codes "until", text (env.date_after r.block_time env.config.retention_years))
      ∷ (codes "legal_hold", boolean false)
      ∷ []))

-- The merchant of the deposit address, or no text.
abbrev pub merchant_of : Env → Option DepositAddress → Text
merchant_of env none = []
merchant_of env (some d) = env.utf8 d.merchant_id

-- `rest`
unfoldable pub rest : Env → ℕ → Row → Db → Result Err Fields
unfolding token_of deposit_at load_decisions last_decision
rest env now r db = do
  c ← token_of env.config r
  let past = load_decisions r.id db
  last ← or_err internal (last_decision past)
  rec ← or_err internal (db.recommendations r.id)
  let offchain =
      cons
        (event (latest_check (db.checks r.id))
          (codes "Checks completed: KYT, sanctions, structuring, issuer") null (codes "DEFLOW"))
        (cons
          (event (env.rfc3339 rec.created_at) (codes "Recommendation " ++ rec.recommendation)
            (text rec.policy_ref) (codes "DEFLOW"))
          (decision_events env past))
  ok (
      fields_of (
        (codes "created_at", text (env.rfc3339 now))
        ∷ (codes "merchant_id", text (merchant_of env (deposit_at r.deposit c.0.deposits)))
        ∷ (codes "processor", processor_section env)
        ∷ (codes "timeline", timeline_section env r offchain)
        ∷ (codes "decision", decision_section env last (replay (kinds past)).0.frozen)
        ∷ (codes "retention", retention_section env r)
        ∷ (codes "reconstruction", boolean r.reconstruction)
        ∷ []))
