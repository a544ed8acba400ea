-- ===== src/App/Command.antt =====
-- compliance-backend/cmd/compliance-backend/main.go: the commands `backfill` and `ruleset-hash`. Flags,
-- files and the configuration file are read before; the connection and the node are arguments.
use compliance_gateway.Common.{
  ℕ, String, Bool, Option, none, some, if◌then◌else◌, Result, ok, err, ◌>>=◌, or_err,
}
use compliance_gateway.Text.{Text}
use compliance_gateway.Config.{Config, ChainConfig, chain_by_id}
use compliance_gateway.Ingest.{Store}
use compliance_gateway.Ingest.Reconciler.{Chain, Node, Err, backfill}
use compliance_gateway.Rules.Parse.{parse}
use compliance_gateway.Pipeline.Env.{Env}

pub data CommandErr : Type 0 where
  not_configured no_store no_node bad_ruleset : CommandErr
  not_set : Err → CommandErr

-- The chain as the reconciler reads it.
abbrev pub chain_of : ChainConfig → Chain
chain_of ch = record { chain_id = ch.chain_id; confirmations = ch.confirmations; chunk = ch.chunk }

abbrev pub command_result : Store × Result Err ℕ → Store × Result CommandErr ℕ
command_result (st, ok until) = (st, ok until)
command_result (st, err e) = (st, err (not_set e))

-- `backfill`: the block up to which payments are marked as reconstructed.
unfoldable pub backfill_command :
    (ℕ → ℕ → ℕ → ℕ)
    → Config
    → Bool
    → (String → Option Node)
    → ℕ
    → ℕ
    → Store
    → Store × Result CommandErr ℕ
unfolding chain_by_id backfill
backfill_command payment_id cfg opens dial chain_id from st =
    elim (chain_by_id chain_id cfg.chains) [
      | none ↦ (st, err not_configured)
      | some ch ↦
          if opens
          then (elim (dial ch.rpc) [
            | none ↦ (st, err no_node)
            | some node ↦ command_result (backfill payment_id (chain_of ch) node from st)
          ])
          else (st, err no_store)
    ]

-- `rulesetHash`: the version and the hash that are printed.
unfoldable pub ruleset_hash : Env → Text → Result CommandErr (Text × Text)
unfolding parse
ruleset_hash env raw = do
  p ← or_err bad_ruleset (parse env.decode_ruleset env.decode env.set_string env.sha raw)
  ok (env.utf8 p.rules.version, p.hash)
