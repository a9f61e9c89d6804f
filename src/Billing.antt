-- ===== src/Billing.antt =====
-- `EnsureAccount`, `CreditAccount` and `DebitAccount` of server/internal/logic/billing/billing.go.
pub mod Effects
pub mod Decided
pub mod Ensured
use token_flux.Base.{
  ℕ, ℤ, pos, ◌+ℤ◌, ◌-ℤ◌, int64, ltb_ℤ, Bool, String, Option, none, some, List, [], ◌∷◌,
}
use token_flux.Store.{
  World, State, Account, Result, ok, Action, ◌>>=◌, ◌>>◌, pure, or_raise, raise, raise_if, query,
  insert, in_tx, insufficient, account_not_found,
}
use token_flux.Ledger.Accounts.{find_account, add_account, new_account}
use token_flux.Ledger.Post.{
  TransactionEntryInfo, account_or_new, move_balance, add_transaction, has_account, no_clash,
}

pub record TransactionInfo : Type 0 where
  pub id : ℕ
  pub tx_type : String
  pub ref_type : String
  pub ref_id : ℕ
  pub entries : List TransactionEntryInfo

pub record AccountIn : Type 0 where
  pub owner_type : String
  pub owner_id : ℕ
  pub asset : String
  pub amount_micro : ℤ
  pub ref_type : String
  pub ref_id : ℕ

abbrev pub info : String → AccountIn → ℕ → TransactionEntryInfo → TransactionInfo
info tx_type i tx_id e = record {
  id = tx_id;
  tx_type = tx_type;
  ref_type = i.ref_type;
  ref_id = i.ref_id;
  entries = e ∷ [];
}

module _ (w : World) where
  -- The transactions row, the guarded update and the entry, for a delta and the new balance.
  abbrev pub post_single : String → AccountIn → ℤ → ℤ → Account → Action TransactionInfo
  post_single tx_type i delta new_balance acc = do
    tx_id ← insert w no_clash (add_transaction tx_type i.ref_type i.ref_id)
    e ← move_balance w tx_id delta new_balance acc
    pure (info tx_type i tx_id e)

  abbrev pub credit_body : AccountIn → Action TransactionInfo
  credit_body i = do
    acc ← account_or_new w i.owner_type i.owner_id i.asset
    post_single "credit" i i.amount_micro (int64 (acc.balance_micro +ℤ i.amount_micro)) acc

  unfoldable pub credit_account : AccountIn → Action TransactionInfo
  credit_account i = in_tx w (credit_body i)

  abbrev pub debit_body : AccountIn → Action TransactionInfo
  debit_body i = do
    acc ← account_or_new w i.owner_type i.owner_id i.asset
    raise_if (ltb_ℤ acc.balance_micro i.amount_micro) insufficient
    post_single "debit" i (int64 (pos 0 -ℤ i.amount_micro))
        (int64 (acc.balance_micro -ℤ i.amount_micro)) acc

  unfoldable pub debit_account : AccountIn → Action TransactionInfo
  debit_account i = in_tx w (debit_body i)

  -- `queryAccount`, `EnsureAccount` and `GetBalance`
  unfoldable pub query_account : String → ℕ → String → Action (Option Account)
  query_account ot oi k = query w (λ t. find_account ot oi k t.accounts)

  unfoldable pub ensured : String → ℕ → String → Option Account → Action Account
  unfolding query_account
  ensured ot oi k (some acc) = pure acc
  ensured ot oi k none = do
    insert w (has_account ot oi k) (λ id. add_account (new_account ot oi k id))
    acc ← query_account ot oi k
    or_raise acc account_not_found

  unfoldable pub ensure_account : String → ℕ → String → Action Account
  unfolding ensured
  ensure_account ot oi k = do acc ← query_account ot oi k; ensured ot oi k acc

  unfoldable pub get_balance : String → ℕ → String → Action Account
  unfolding ensure_account
  get_balance ot oi k = ensure_account ot oi k
