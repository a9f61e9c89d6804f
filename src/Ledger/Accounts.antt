-- ===== src/Ledger/Accounts.antt =====
-- The accounts table: the lookup by (owner_type, owner_id, asset) and the update guarded by the
-- version, as server/internal/logic/settlement/ledger.go and server/internal/logic/billing/billing.go
-- write them.
use token_flux.Base.{
  ℕ, suc, ◌+◌, ℤ, pos, Bool, String, Option, List, [], ◌∷◌, ◌&&◌, ◌==◌, str_eq, if◌then◌else◌,
  first,
}
use token_flux.Store.{Account, TransactionEntry, Tables}

-- WHERE owner_type = ? AND owner_id = ? AND asset = ?
abbrev pub is_account : String → ℕ → String → Account → Bool
is_account owner_type owner_id asset a =
    str_eq a.owner_type owner_type && (a.owner_id == owner_id && str_eq a.asset asset)

unfoldable pub find_account : String → ℕ → String → List Account → Option Account
find_account owner_type owner_id asset = first (is_account owner_type owner_id asset)

-- WHERE id = ? AND version = ?
abbrev pub is_version : ℕ → ℕ → Account → Bool
is_version id version a = a.id == id && a.version == version

abbrev pub with_balance : ℤ → Account → Account
with_balance balance a = record a { balance_micro = balance; version = suc a.version }

-- UPDATE accounts SET balance_micro = ?, version = version + 1 WHERE id = ? AND version = ?
unfoldable pub set_balance : ℕ → ℕ → ℤ → List Account → List Account
set_balance id version balance [] = []
set_balance id version balance (a ∷ rows) =
    (if is_version id version a then with_balance balance a else a)
    ∷ set_balance id version balance rows

-- How many rows that update reports as affected.
unfoldable pub affected : ℕ → ℕ → List Account → ℕ
affected id version [] = 0
affected id version (a ∷ rows) =
    (if is_version id version a then 1 else 0) + affected id version rows

abbrev pub new_account : String → ℕ → String → ℕ → Account
new_account owner_type owner_id asset id = record {
  id = id;
  owner_type = owner_type;
  owner_id = owner_id;
  asset = asset;
  balance_micro = pos 0;
  version = 0;
}

abbrev pub add_account : Account → Tables → Tables
add_account a t = record t { accounts = a ∷ t.accounts }

abbrev pub add_entry : TransactionEntry → Tables → Tables
add_entry e t = record t { entries = e ∷ t.entries }
