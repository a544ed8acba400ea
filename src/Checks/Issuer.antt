-- ===== src/Checks/Issuer.antt =====
-- issuer.go: the token's own blacklist. Calling the contract is the parameter `call`.
use compliance_gateway.Common.{
  ℕ, Bool, not, ◌||◌, Option, none, some, List, [], length, any, ◌==◌, if◌then◌else◌, Result, ok,
  err, ◌>>=◌, or_err,
}
use compliance_gateway.Text.{Text, codes}
use compliance_gateway.Evidence.Value.{boolean, int, text, end, field}
use compliance_gateway.Checks.{Screened, CheckResult}

pub data Err : Type 0 where
  no_client call_failed not_a_bool : Err

-- The answer to `isBlacklisted` is one word, and every word but 0 is true.
unfoldable pub listed_of : Option (List ℕ) → Result Err Bool
listed_of none = err call_failed
listed_of (some out) = if length out == 32 then ok (any (λ b. not (b == 0)) out) else err not_a_bool

-- `Issuer.Run`: `call token who block`, of the chain's client. The two addresses are asked in any
-- order, which can change only which of two errors is given.
unfoldable pub issuer_run :
    (ℕ → Option (ℕ → ℕ → ℕ → Option (List ℕ))) → Text → Screened → Result Err CheckResult
unfolding listed_of
issuer_run clients now p = do
  call ← or_err no_client (clients p.chain_id)
  payer ← listed_of (call p.token p.payer p.block_number)
  deposit ← listed_of (call p.token p.deposit p.block_number)
  let outcome = if payer || deposit then codes "LISTED" else codes "NOT_LISTED"
  ok (record {
    kind = [];
    provider = codes "Token contract";
    product = codes "isBlacklisted(address)";
    outcome = outcome;
    section = field (codes "checked") (text (codes "Payer address and deposit address")) (
        field (codes "block") (int p.block_number) (
          field (codes "payer_listed") (boolean payer) (
            field (codes "deposit_listed") (boolean deposit) (
              field (codes "result") (text outcome) (field (codes "checked_at") (text now) end)))));
    raw_sha256 = [];
    performed_at = some now;
  })
