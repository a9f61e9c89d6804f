-- ===== src/Lib.antt =====
-- A model of the money and routing core of token-flux, a gateway that relays requests to language
-- models, charges users for them in credits and pays the providers of the keys.
--
-- The parts and how they interact:
-- - A request (server/internal/relay/handler/handler.go, `Handle`) passes `checkBalance`; candidates
--   are loaded (`loadActiveCandidates`), one is chosen (server/internal/relay/scheduler), the upstream
--   is asked with retries, the cost is computed, a settlement task is enqueued and quotas are charged.
-- - A worker (server/internal/relay/handler/queue.go, `processSettlement`) records the usage and a
--   pending settlement, debits the user, and disables the user's keys when the debit fails. A ticker
--   pays the providers of due settlements (`ProcessSettlements`).
-- - Billing and settlement (server/internal/logic/billing, server/internal/logic/settlement) move
--   balances: one transactions row, and one entry for each account that changes.
-- - A payment (server/internal/logic/payment, `confirmOrder`) recharges an account once.
--
-- The files:
-- - Base: names of the libraries, Boolean tests, integers with Go's int64, lists.
-- - Store: the database. The state holds the tables, the next identifier and the number of statements
--   sent; an action takes a state to a result and a state. Which statements fail, and the clock, are
--   parameters (`World`), since PostgreSQL is not part of the repository. A transaction is atomic.
--   Store/Rows has the rows, Store/Steps and Store/Outcomes the laws of actions.
-- - Ledger: `postLedger` of logic/settlement/ledger.go (Ledger/Post, rows in Ledger/Accounts); the
--   children say what it preserves.
-- - Billing: `EnsureAccount`, `CreditAccount` and `DebitAccount` of logic/billing/billing.go.
-- - Settlement: `Submit`, `Settle` and `SubmitAndSettle` of logic/settlement/settlement.go, and
--   `GetInt` of logic/systemconfig/config.go, which is in Store.
-- - Recharge: `CreateRecharge`, `RestoreOverdraftKeys`, `disableOverdraftKeys`, `RechargeCredits`.
-- - Payment: `confirmOrder` of logic/payment/payment.go.
-- - Candidate, Scheduler: the choice of a channel; Affinity: the channel a user had last; Retry: the
--   rounds of the retry loop; Cost: prices and shares; Quota: limits, and the balance check.
-- - Queue: tasks, the worker (Queue/Worker) and the payout (Queue/Payout).
-- - StreamStatus, ReasonMap: how a stream ended, and the vendors' names for why a model stopped.
-- - Bytes: Go's strings as lists of bytes, and maps with text keys. Json: decoded JSON.
-- - Override: server/internal/relay/override. Override/Text has its helpers on texts, Override/Value the rules
--   and the libraries (`Library`), Override/Operations operations.go, Override/Conditions, Override/Rules and
--   Override/Run override.go, Override/Headers header.go; the other children say what they do.
-- - Body: what is removed from a body, its hash, and the system prompt (relay/helper/sanitize.go,
--   relay/helper/system_prompt.go, relay/common/cache_hash.go).
-- - RelayMode, Fault, Format: relay/constant (relay_mode.go, errors.go, error_category.go), and of relay/helper
--   status_code.go, detect_format.go, thinking.go, normalize.go.
-- - Proxy: server/internal/logic/llm/openai.go and runtime.go (`proxyOpenAI` in Proxy/Run; Store/Runs has what a run
--   of statements keeps). Candidate/Build:
--   `buildChannelCandidates` of relay/handler/handler.go. Queue/Drain: the loop of a worker.
-- - Table: one table, with the statements on it. Site, Identity: logic/identity/user.go over its four tables.
--   ApiKey, Wallet, Invoice: logic/identity/apikey.go, logic/wallet/wallet.go, logic/invoice/invoice.go.
-- - Vendor: relay/channel. ToClaude (with Parts, Options) is claude/converter.go, ToOpenai (with OpenaiParts) is
--   `ConvertClaudeToOpenAI` of openai/converter.go, ClaudeEvents is openai/claude_response.go, FromClaude (with
--   ChatStream) is claude/response.go, GeminiParts and GeminiEvents are openai/gemini_response.go, Answer the answers
--   that are no stream, ModelName the replacement of a name in a body, Sse the lines of a stream; Chat and Claude are
--   relay/dto.
-- - Config: logic/systemconfig/config.go, the table system_configs alone.
-- - Samples, Tests: concrete inputs, and the theorems applied to them.
--
-- Loops are structural recursion over lists. The retry loop of `Handle` recurses on the rounds left,
-- one more than the allowed retries, which is what the Go loop counts. The loops of `replaceAllStr` and
-- `resolveHeaderPlaceholder` and the worker's loop take a number of rounds and are `none` when it is used up;
-- a theorem says which number is enough.
--
-- Amounts are int64: sums and products of the code wrap around, and theorems that need no overflow say
-- so. Identifiers, health scores and times are natural numbers; times are in seconds.
--
-- JSON, regular expressions, hashing, formatting and float64 are parameters (`Library`, `Codec`, `Hashing`,
-- `Numbers`, `Crypto`, `Printing`, `Writing`); a loop over a Go map meets the entries in the order of a list.
--
-- Not modelled: HTTP, the adaptors' calls, the converters of Gemini's requests, of the Responses API and of the small
-- vendors, the Redis queue, the tokenizer (an argument), goroutines, logging, administration pages and listings, key
-- encryption.
-- Statements of concurrent requests do not interleave within an action here.
pub mod Base
pub mod Bytes
pub mod Json
pub mod Store
pub mod Ledger
pub mod Billing
pub mod Settlement
pub mod Recharge
pub mod Candidate
pub mod Scheduler
pub mod Affinity
pub mod Retry
pub mod Cost
pub mod Quota
pub mod Queue
pub mod Payment
pub mod Body
pub mod RelayMode
pub mod Fault
pub mod Format
pub mod StreamStatus
pub mod ReasonMap
pub mod Override
pub mod Config
pub mod Table
pub mod ApiKey
pub mod Site
pub mod Identity
pub mod Invoice
pub mod Wallet
pub mod Vendor
pub mod Proxy
pub mod Samples
pub mod Tests
