-- ===== src/Ledger/Balances.antt =====
-- The balance of an owner, and how a step of the ledger changes it and no other.
use token_flux.Base.{
  ℕ, ℤ, pos, ◌≡◌, ◌≢◌, refl, ap, sym, ◌∙◌, ◌⊎◌, inl, inr, true, false, String, Option, none, some,
  List, [], ◌∷◌, eq_iff, arith, Bool-cases,
}
use token_flux.Store.{World, State, Account, ok}
use token_flux.Store.Steps.{tick}
use token_flux.Ledger.Accounts.{find_account, set_balance, new_account, is_account, with_balance}
use token_flux.Ledger.Totals.{Below, find_account-Below, set_balance_above}
use token_flux.Ledger.Post.{account_or_new}
use token_flux.Ledger.Audit.{IsValid}
use token_flux.Ledger.Moves.{account_or_new-ok, created, moved_to}

-- 0 where there is no account yet.
abbrev pub balance_of : Option Account → ℤ
balance_of none = pos 0
balance_of (some a) = a.balance_micro

unfoldable pub balance : String → ℕ → String → State → ℤ
balance ot oi k s = balance_of (find_account ot oi k s.tables.accounts)

-- Two keys that the UNIQUE constraint tells apart.
abbrev pub Differ : String → ℕ → String → String → ℕ → String → Type 0
Differ ot oi k ot' oi' k' = (ot ≢ ot') ⊎ (oi ≢ oi') ⊎ (k ≢ k')

find-set_balance_self :
    (ot : String) (oi : ℕ) (k : String) (n : ℕ) (b : ℤ) (rows : List Account) (acc : Account)
    → Below n rows
    → find_account ot oi k rows ≡ some acc
    → find_account ot oi k (set_balance acc.id acc.version b rows) ≡ some (with_balance b acc)
unfolding find_account set_balance
find-set_balance_self ot oi k n b [] acc v f = ground arith
find-set_balance_self ot oi k n b (a ∷ rows) acc v f = elim (Bool-cases (is_account ot oi k a)) [
  | inl hit ↦ ground arith
  | inr miss ↦ ground (
    arith,
    find-set_balance_self ot oi k a.id b rows acc v.1,
    find_account-Below ot oi k a.id rows acc v.1,
  )
]

Differ-is_account :
    (ot : String) (oi : ℕ) (k ot' : String) (oi' : ℕ) (k' : String) (a : Account)
    → Differ ot oi k ot' oi' k'
    → is_account ot oi k a ≡ true
    → is_account ot' oi' k' a ≡ false
Differ-is_account ot oi k ot' oi' k' a d h =
    ground
      (arith, eq_iff a.owner_type ot, eq_iff a.owner_type ot', eq_iff a.asset k, eq_iff a.asset k')

find-set_balance_other :
    (ot : String) (oi : ℕ) (k ot' : String) (oi' : ℕ) (k' : String) (n : ℕ) (b : ℤ)
    (rows : List Account) (acc : Account)
    → Differ ot oi k ot' oi' k'
    → Below n rows
    → find_account ot oi k rows ≡ some acc
    → find_account ot' oi' k' (set_balance acc.id acc.version b rows) ≡ find_account ot' oi' k' rows
unfolding find_account set_balance
find-set_balance_other ot oi k ot' oi' k' n b [] acc d v f = refl
find-set_balance_other ot oi k ot' oi' k' n b (a ∷ rows) acc d v f =
    elim (Bool-cases (is_account ot oi k a)) [
      | inl hit ↦ ground (
        arith,
        Differ-is_account ot oi k ot' oi' k' a d hit,
        set_balance_above a.id a.version b a.id rows v.1,
      )
      | inr miss ↦ ground (
        arith,
        find-set_balance_other ot oi k ot' oi' k' a.id b rows acc d v.1,
        find_account-Below ot oi k a.id rows acc v.1,
      )
    ]

same_key :
    (ot : String) (oi : ℕ) (k ot' : String) (oi' : ℕ) (k' : String) (n : ℕ)
    → is_account ot' oi' k' (new_account ot oi k n) ≡ true
    → (ot ≡ ot') × (oi ≡ oi') × (k ≡ k')
same_key ot oi k ot' oi' k' n h = ground (arith, eq_iff ot ot', eq_iff k k')

pub created-balance :
    (ot : String) (oi : ℕ) (k ot' : String) (oi' : ℕ) (k' : String) (s : State)
    → find_account ot oi k s.tables.accounts ≡ none
    → balance ot' oi' k' (created ot oi k s) ≡ balance ot' oi' k' s
created-balance ot oi k ot' oi' k' s e =
    elim (Bool-cases (is_account ot' oi' k' (new_account ot oi k s.next_id))) [
      | inl hit ↦
          let (p, q, r) = same_key ot oi k ot' oi' k' s.next_id hit in
          let gone : find_account ot' oi' k' s.tables.accounts ≡ none =
            (λ j. find_account (sym p j) (sym q j) (sym r j) s.tables.accounts) ∙ e in
          unfold balance find_account in ground (arith, gone)
      | inr miss ↦ unfold balance find_account in ground arith
    ]

module _ (w : World) (ot : String) (oi : ℕ) (k : String) (s : State) (v : IsValid s) where
  -- Looking an account up, or creating it, changes no balance.
  pub account_or_new-balance :
      (ot' : String) (oi' : ℕ) (k' : String) {acc : Account} {s' : State}
      → account_or_new w ot oi k s ≡ (ok acc, s')
      → (acc.balance_micro ≡ balance ot oi k s) × (balance ot' oi' k' s' ≡ balance ot' oi' k' s)
  unfolding balance
  account_or_new-balance ot' oi' k' h = elim (account_or_new-ok w ot oi k s h) [
    | inl (e, es) ↦ ground arith
    | inr (e, ea, es) ↦
        (ground arith, ap (balance ot' oi' k') es ∙ created-balance ot oi k ot' oi' k' (tick s) e)
  ]

  pub moved_to-balance :
      (tx : ℕ) (d b : ℤ) (acc : Account)
      → find_account ot oi k s.tables.accounts ≡ some acc
      → balance ot oi k (moved_to tx d b acc s) ≡ b
  unfolding balance
  moved_to-balance tx d b acc f =
      ap balance_of (find-set_balance_self ot oi k s.next_id b s.tables.accounts acc v.fresh f)

  pub moved_to-balance_other :
      (tx : ℕ) (d b : ℤ) (acc : Account) (ot' : String) (oi' : ℕ) (k' : String)
      → Differ ot oi k ot' oi' k'
      → find_account ot oi k s.tables.accounts ≡ some acc
      → balance ot' oi' k' (moved_to tx d b acc s) ≡ balance ot' oi' k' s
  unfolding balance
  moved_to-balance_other tx d b acc ot' oi' k' df f =
      ap balance_of
        (find-set_balance_other ot oi k ot' oi' k' s.next_id b s.tables.accounts acc df v.fresh f)
