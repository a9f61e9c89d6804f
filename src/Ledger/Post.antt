-- ===== src/Ledger/Post.antt =====
-- `postLedger` of server/internal/logic/settlement/ledger.go: one transactions row and one entry per
-- delta, each applied to its account under the optimistic lock. `postLedger` runs inside a
-- transaction that its caller opens.
use token_flux.Base.{
  ℕ, ℤ, pos, ◌+ℤ◌, int64, eq_ℤ, Bool, true, false, not, String, Option, none, some, List, [], ◌∷◌,
  ◌&&◌, ◌==◌, str_eq, if◌then◌else◌,
}
use token_flux.Store.{
  World, State, Tables, Account, Result, ok, Action, ◌>>=◌, ◌>>◌, pure, raise_if, query, update,
  insert, empty_entries, imbalance, conflict,
}
use token_flux.Ledger.Accounts.{
  find_account, set_balance, affected, new_account, add_account, add_entry,
}

abbrev pub asset_credits : String
asset_credits = "credits"

abbrev pub asset_points : String
asset_points = "points"

abbrev pub owner_type_user : String
owner_type_user = "user"

abbrev pub owner_type_platform : String
owner_type_platform = "platform"

abbrev pub tx_type_settle : String
tx_type_settle = "settle"

abbrev pub tx_type_recharge : String
tx_type_recharge = "recharge"

pub record EntryDelta : Type 0 where
  pub owner_type : String
  pub owner_id : ℕ
  pub asset : String
  pub delta : ℤ

pub record TransactionEntryInfo : Type 0 where
  pub id : ℕ
  pub account_id : ℕ
  pub delta_micro : ℤ
  pub balance_after_micro : ℤ

-- The loop over the entries that adds the credit deltas, in int64.
unfoldable pub credits_sum : ℤ → List EntryDelta → ℤ
credits_sum acc [] = acc
credits_sum acc (e ∷ es) =
    credits_sum (if str_eq e.asset asset_credits then int64 (acc +ℤ e.delta) else acc) es

abbrev pub add_transaction : String → String → ℕ → ℕ → Tables → Tables
add_transaction tx_type ref_type ref_id id t = record t {
  transactions =
      record { id = id; tx_type = tx_type; ref_type = ref_type; ref_id = ref_id } ∷ t.transactions;
}

-- UNIQUE (owner_type, owner_id, asset)
abbrev pub has_account : String → ℕ → String → Tables → Bool
has_account ot oi k t = elim (find_account ot oi k t.accounts) [ none ↦ false | some _ ↦ true ]

abbrev pub no_clash : Tables → Bool
no_clash t = false

abbrev pub is_empty : List EntryDelta → Bool
is_empty [] = true
is_empty (e ∷ es) = false

-- The guard on the credits, which a recharge does not have.
abbrev pub is_imbalanced : String → List EntryDelta → Bool
is_imbalanced tx_type entries =
    not (str_eq tx_type tx_type_recharge) && not (eq_ℤ (credits_sum (pos 0) entries) (pos 0))

module _ (w : World) where
  unfoldable pub insert_account : String → ℕ → String → Action Account
  insert_account ot oi k = do
    id ← insert w (has_account ot oi k) (λ i. add_account (new_account ot oi k i))
    pure (new_account ot oi k id)

  unfoldable pub found_or_insert :
      String → ℕ → String → State → Option Account → Result Account × State
  unfolding insert_account
  found_or_insert ot oi k s (some acc) = (ok acc, s)
  found_or_insert ot oi k s none = insert_account ot oi k s

  -- The account of an owner, inserted with the column defaults if the lookup found none.
  unfoldable pub account_or_new : String → ℕ → String → Action Account
  unfolding found_or_insert
  account_or_new ot oi k = do
    found ← query w (λ t. find_account ot oi k t.accounts)
    λ s. found_or_insert ot oi k s found

  -- The update under the optimistic lock, and the entry that records it.
  unfoldable pub move_balance : ℕ → ℤ → ℤ → Account → Action TransactionEntryInfo
  move_balance tx_id delta balance acc = do
    rows ←
        update w (λ t. affected acc.id acc.version t.accounts)
          (λ t. record t { accounts = set_balance acc.id acc.version balance t.accounts })
    raise_if (rows == 0) conflict
    id ← insert w no_clash (λ i. add_entry (record {
      id = i;
      tx_id = tx_id;
      account_id = acc.id;
      delta_micro = delta;
      balance_after_micro = balance;
    }))
    pure (record {
      id = id;
      account_id = acc.id;
      delta_micro = delta;
      balance_after_micro = balance;
    })

  -- One round of the loop.
  unfoldable pub post_entry : ℕ → EntryDelta → Action TransactionEntryInfo
  post_entry tx_id e = do
    acc ← account_or_new e.owner_type e.owner_id e.asset
    move_balance tx_id e.delta (int64 (acc.balance_micro +ℤ e.delta)) acc

  unfoldable pub post_entries : ℕ → List EntryDelta → Action (List TransactionEntryInfo)
  post_entries tx_id [] = pure []
  post_entries tx_id (e ∷ es) =
      post_entry tx_id e >>= λ i. post_entries tx_id es >>= λ is. pure (i ∷ is)

  -- The transactions row and the loop.
  abbrev pub post_rows :
      String → String → ℕ → List EntryDelta → Action (ℕ × List TransactionEntryInfo)
  post_rows tx_type ref_type ref_id entries = do
    tx_id ← insert w no_clash (add_transaction tx_type ref_type ref_id)
    infos ← post_entries tx_id entries
    pure (tx_id, infos)

  unfoldable pub post_ledger :
      String → String → ℕ → List EntryDelta → Action (ℕ × List TransactionEntryInfo)
  unfolding credits_sum
  post_ledger tx_type ref_type ref_id entries = do
    raise_if (is_empty entries) empty_entries
    raise_if (is_imbalanced tx_type entries) imbalance
    post_rows tx_type ref_type ref_id entries
