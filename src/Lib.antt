-- ===== src/Lib.antt =====
-- Verification library of the compliance gateway: of compliance-backend, the service that watches
-- deposits, screens them, recommends and records decisions, and issues signed evidence packs, and of
-- attestor-workflow, which attests wallets and settles payments by their risk.
--
-- The parts, under compliance-backend/internal where no other path is named, and the modules that model
-- them:
--   * Config (config/config.go): the configuration as records, `defaults`, `Validate` as a list of
--     errors, and the lookups of chains, tokens and deposit addresses.
--   * Ingest (ingest/deposit.go, reconciler.go, hint.go): the tables `payment` and `chain_cursor` as a
--     store. Ingest.Hint has `handle`, with `decodeEnvelope` in its child Envelope and `consume` and
--     `Run` in its child Consumer; Ingest.Reconciler has `fetch`, `Step` and `Backfill`. Each takes a
--     store and gives the next one. Ingest.Evolution runs any sequence of them, Ingest.Range relates
--     the hints to the cursor, and the other children of Hint are laws of a message, of an envelope and
--     of the attempts to consume.
--   * Checks (checks/): `RunAll` and `runOne` on what each check replies, the scores and the sections
--     of kyt.go, issuer.go, sanctions.go and structuring.go. Rat has the fractions that the checks
--     and the rules compare.
--   * Rules (rules/rules.go): rulesets, `validate`, `match` and `Recommend`. A panic is `none`.
--   * Decision (decision/): kinds, names and masks; Decision.Transition has `Next` and `Replay`, and
--     Decision.Verify has `Recover`, `VerifyOfficer` and `VerifyApproval`, and Decision.Signer the
--     processor's key.
--   * Evidence (evidence/): Value has the values that canon.go and tree.go tell apart, Canon the
--     canonical bytes, Decode what encoding/json reads of them, Tree the salted hash tree, Builder snapshots and packs, Profiles the disclosure
--     profiles, Projection a recipient's copy, Jws the detached signature. Canon.Unordered and
--     Tree.Unordered are about the order of a map. Text has byte strings, numerals,
--     base64url and dotted paths.
--   * Pipeline (pipeline/): the rows and `prepare`. Store has the tables of
--     store/migrations/001_init.sql as one record and the statements on them, Env what is configured
--     or called from outside, and Moment what one operation meets: the time, random values, the
--     replies of the checks. Checking has `runChecks`, Snapshot `snapshot`, Advance `recommend` and
--     `Tick`, Sections `rest`, Issue `issuePack`, `record` and `decideAuto`, Officer
--     `OfficerTypedData` and `OfficerDecide`, Rulesets the import and approval of rulesets, Queries
--     `LoadPack` and `Project`, Views `Cases` and `Payment`. Pipeline.Books is the abstract view:
--     decisions, journal and rulesets, and the effects that they may have. Sequence, Progress,
--     Automatic and Disclosures are laws of single operations.
--   * Api (api/api.go): the token, the status of each error and the handlers. Api.Steps makes ticks,
--     requests and the ingest the steps of one relation and relates them to Pipeline.Books,
--     Api.Guarantees follows any sequence of steps, Api.Verified adds the signatures of the packs, and
--     Api.Answers tells what an answer means.
--   * Migrate (store/store.go): `Migrate`. App (app/app.go and the commands of
--     compliance-backend/cmd/compliance-backend/main.go): the start of `Run`, which loads the keys that
--     the pipeline signs with, `health`, and the commands `backfill` and `ruleset-hash`.
--   * Attestor (attestor-workflow): a program of its own, which shares only the scores of Checks.Kyt.
--     Attestor has the data and what is called from outside, Attestor.Verifying the providers, the
--     nullifiers and the screener, Attestor.Workflow the handlers; Attestor.Http, Attestor.Clients and
--     Attestor.Reports have the HTTP client, the requests and answers of the services, and the writer,
--     which fill the fields of the runtime. Attestor.Laws, Attestor.Order and Attestor.Answered tell
--     what a report and an attestation mean. A report that is written is the handler's value.
-- Payments come in through Ingest, the checks' outcomes are the inputs of Rules, its recommendation
-- leads to decisions that Decision replays, and Evidence packs what was decided on.
--
-- Functions of the source become functions of the same name in snake case. State is passed
-- explicitly, and an error is a value of a data type with one constructor for each way to fail.
-- Outside code is a parameter: SHA-256, random salts, ECDSA, EIP-712 hashes, the recovery of an
-- address, key formats, Postgres' reading of a migration, NATS, the node, the contract call, big.Rat's reading and printing, the clock, files, bufio's
-- lines and the functions of strings. Addresses and hashes are natural numbers where only their
-- equality counts, and bytes where they are hashed or printed; texts in evidence are taken to be
-- valid UTF-8. Block numbers are taken modulo 2^64 where the source adds on uint64. A Go map is a
-- list of fields, whose order stands for the order of a `range`.
--
-- A statement on the tables fails where a constraint or a trigger of the migration refuses it, and a
-- uint64 above the range of bigint is refused by the driver; connections are taken to hold. What a
-- table gives back is what was stored in it (a jsonb value keeps its fields and its strings, and times
-- are not rounded to microseconds). A transaction is one step, as the lock on the payment's row and on
-- the journal's head makes it; `runChecks` and `recommendAll` commit each payment by itself and keep
-- what is committed when a later one fails. An operation reads the clock once, and no time is before
-- 1970. The steps let the ingest change the table `payment` in any way.
--
-- All recursion is on the structure of the data, except that a decimal numeral is printed on fuel
-- n + 1, which is enough since every digit divides by ten.
--
-- Not modelled: the HTTP route `healthz`, which prints what `health` gives; the rendering of a typed
-- document for wallets; the reading of the configuration file; timers, signals and the shutdown; the
-- transports (HTTP, NATS, RPC, SQL), decoding by encoding/json into structs, the ABI encoding of the attestor's
-- reports and its generated contract bindings, which belong to libraries.
pub mod Api
pub mod App
pub mod Attestor
pub mod Checks
pub mod Common
pub mod Config
pub mod Decision
pub mod Evidence
pub mod Examples
pub mod Ingest
pub mod Migrate
pub mod Pipeline
pub mod Rat
pub mod Rules
pub mod Text
