-- ===== src/Ledger.antt =====
-- The ledger of server/internal/logic/settlement/ledger.go and of the `CreditAccount` and `DebitAccount`
-- of server/internal/logic/billing/billing.go: the rows of accounts, transactions and their entries.
pub mod Accounts
pub mod Totals
pub mod Post
pub mod Audit
pub mod Moves
pub mod Balance
pub mod Progress
pub mod Balances
pub mod Frame
pub mod Growing
pub mod Owners
