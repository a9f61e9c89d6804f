-- ===== src/Wallet.antt =====
-- server/internal/logic/wallet/wallet.go: deposit addresses and requests for withdrawals, with the constraints of
-- server/migrations/0002_wallet.sql. What the code hashes and prints is a parameter.
use token_flux.Base.{
  ℕ, ◌==◌, ltb, ℤ, pos, Bool, false, ◌&&◌, ◌||◌, String, none, str_eq, ◌≡◌, arith, first,
}
use token_flux.Store.{ok, record_not_found, already_exists}
use token_flux.Table.{
  Table, TableAction, ◌>>=◌, ◌>>◌, found_or, refuse_if, select_one, count_rows, insert_row,
}

pub record DepositAddressRow : Type 0 where
  pub id : ℕ
  pub user_id : ℕ
  pub chain : String
  pub address : String
  pub hd_path : String
  pub created_at : ℕ

pub record WithdrawRequestRow : Type 0 where
  pub id : ℕ
  pub user_id : ℕ
  pub chain : String
  pub to_address : String
  pub amount_balance : ℤ
  pub fee : ℤ
  pub status : String
  pub created_at : ℕ

pub record CreateWithdrawIn : Type 0 where
  pub chain : String
  pub to_address : String
  pub amount_balance : ℤ

abbrev pub is_of : ℕ → String → DepositAddressRow → Bool
is_of user chain r = r.user_id == user && str_eq r.chain chain

-- UNIQUE (user_id, chain) and UNIQUE (chain, address)
abbrev pub clashes : ℕ → String → String → DepositAddressRow → Bool
clashes user chain address r =
    is_of user chain r || str_eq r.chain chain && str_eq r.address address

abbrev pub address_row : ℕ → String → String → String → ℕ → ℕ → DepositAddressRow
address_row user chain address path now id = record {
  id = id;
  user_id = user;
  chain = chain;
  address = address;
  hd_path = path;
  created_at = now;
}

abbrev pub request_row : ℕ → CreateWithdrawIn → ℕ → ℕ → WithdrawRequestRow
request_row user i now id = record {
  id = id;
  user_id = user;
  chain = i.chain;
  to_address = i.to_address;
  amount_balance = i.amount_balance;
  fee = pos 0;
  status = "pending";
  created_at = now;
}

module _ (fails : ℕ → Bool) where
  -- `CreateDepositAddress`: `address` is the hash and `path` prints the user.
  unfoldable pub create_deposit_address :
      (address : String)
      → (path : ℕ → String) → (now user : ℕ) → (chain : String)
      → TableAction DepositAddressRow DepositAddressRow
  create_deposit_address address path now user chain = count_rows fails (is_of user chain) >>= λ n.
      refuse_if (ltb 0 n) already_exists
      >> insert_row fails (clashes user chain address)
          (address_row user chain address (path user) now)
      >>= λ id. select_one fails (λ r. r.id == id) >>= λ row. found_or row record_not_found

  -- `CreateWithdraw`
  unfoldable pub create_withdraw :
      (now user : ℕ) → CreateWithdrawIn → TableAction WithdrawRequestRow WithdrawRequestRow
  create_withdraw now user i = insert_row fails (λ r. false) (request_row user i now) >>= λ id.
      select_one fails (λ r. r.id == id) >>= λ row. found_or row record_not_found

  -- What is created is what is read back, the address is a new one, and nobody else has it on that chain.
  pub create_deposit_address-returns :
      (address : String) (path : ℕ → String) (now user : ℕ) (chain : String)
      (t t' : Table DepositAddressRow) (r : DepositAddressRow)
      → create_deposit_address address path now user chain t ≡ (ok r, t')
      → (r ≡ address_row user chain address (path user) now t.next_id)
        × (first (clashes user chain address) t.rows ≡ none)
  unfolding create_deposit_address
  create_deposit_address-returns address path now user chain t t' r h = ground arith

  -- A request that is created waits, with the amount asked for, whatever it is.
  pub create_withdraw-returns :
      (now user : ℕ) (i : CreateWithdrawIn) (t t' : Table WithdrawRequestRow)
      (r : WithdrawRequestRow)
      → create_withdraw now user i t ≡ (ok r, t')
      → r ≡ request_row user i now t.next_id
  unfolding create_withdraw
  create_withdraw-returns now user i t t' r h = ground arith
