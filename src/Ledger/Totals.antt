-- ===== src/Ledger/Totals.antt =====
-- Sums over the accounts and over the entries, and how the account operations move them.
use token_flux.Base.{
  ℕ, ◌≤◌, ◌<◌, ℤ, pos, ◌+ℤ◌, ◌≡◌, refl, inl, inr, String, some, List, [], ◌∷◌, ◌==◌, str_eq, eq_iff,
  if◌then◌else◌, arith, int_laws, Bool-cases,
}
use token_flux.Store.{Account, TransactionEntry}
use token_flux.Ledger.Accounts.{find_account, set_balance, is_account}

-- The balances of one asset, added up without wrap-around.
unfoldable pub total : String → List Account → ℤ
total asset [] = pos 0
total asset (a ∷ rows) =
    if str_eq a.asset asset then a.balance_micro +ℤ total asset rows else total asset rows

-- What the entries of one account add up to.
unfoldable pub entry_sum : ℕ → List TransactionEntry → ℤ
entry_sum id [] = pos 0
entry_sum id (e ∷ es) =
    if e.account_id == id then e.delta_micro +ℤ entry_sum id es else entry_sum id es

-- The identifiers fall along the rows and stay below the next one.
abbrev pub Below : ℕ → List Account → Type 0
Below n [] = Unit {0}
Below n (a ∷ rows) = (a.id < n) × Below a.id rows

pub Below-mono : (m n : ℕ) (rows : List Account) → m ≤ n → Below m rows → Below n rows
Below-mono m n [] h b = tt
Below-mono m n (a ∷ rows) h b = (omega arith, b.1)

pub set_balance-Below :
    (id version : ℕ) (v : ℤ) (n : ℕ) (rows : List Account)
    → Below n rows
    → Below n (set_balance id version v rows)
unfolding set_balance
set_balance-Below id version v n [] b = tt
set_balance-Below id version v n (a ∷ rows) b =
    ground (arith, set_balance-Below id version v a.id rows b.1)

-- No row has an identifier that is not below the bound.
pub set_balance_above :
    (id version : ℕ) (v : ℤ) (n : ℕ) (rows : List Account)
    → Below n rows
    → n ≤ id
    → set_balance id version v rows ≡ rows
unfolding set_balance
set_balance_above id version v n [] b h = refl
set_balance_above id version v n (a ∷ rows) b h =
    ground (arith, set_balance_above id version v a.id rows b.1)

pub find_account-Below :
    (ot : String) (oi : ℕ) (k : String) (n : ℕ) (rows : List Account) (acc : Account)
    → Below n rows
    → find_account ot oi k rows ≡ some acc
    → acc.id < n
unfolding find_account
find_account-Below ot oi k n [] acc b e = ground arith
find_account-Below ot oi k n (a ∷ rows) acc b e =
    ground (arith, find_account-Below ot oi k a.id rows acc b.1)

pub find_account-asset :
    (ot : String) (oi : ℕ) (k : String) (rows : List Account) (acc : Account)
    → find_account ot oi k rows ≡ some acc
    → acc.asset ≡ k
unfolding find_account
find_account-asset ot oi k [] acc e = ground arith
find_account-asset ot oi k (a ∷ rows) acc e =
    ground (arith, eq_iff a.asset k, find_account-asset ot oi k rows acc)

-- The account that a lookup found is written exactly once.
pub total-set_balance :
    (asset ot : String) (oi : ℕ) (k : String) (n : ℕ) (v : ℤ) (rows : List Account) (acc : Account)
    → Below n rows
    → find_account ot oi k rows ≡ some acc
    → total asset (set_balance acc.id acc.version v rows)
        +ℤ (if str_eq k asset then acc.balance_micro else pos 0)
      ≡ total asset rows +ℤ (if str_eq k asset then v else pos 0)
unfolding total find_account set_balance
total-set_balance asset ot oi k n v [] acc b e = ground arith
total-set_balance asset ot oi k n v (a ∷ rows) acc b e = elim (Bool-cases (is_account ot oi k a)) [
  | inl hit ↦ grind (int_laws, set_balance_above a.id a.version v a.id rows b.1, eq_iff a.asset k)
  | inr miss ↦ grind (
    int_laws,
    total-set_balance asset ot oi k a.id v rows acc b.1,
    find_account-Below ot oi k a.id rows acc b.1,
  )
]
