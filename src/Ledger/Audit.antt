-- ===== src/Ledger/Audit.antt =====
-- The invariant of the ledger: identifiers are fresh, and each balance is what its entries add up
-- to, modulo 2^64. Every step of `postLedger` keeps it.
use token_flux.Base.{
  ℕ, ◌≤◌, ◌<◌, ℤ, pos, ◌+ℤ◌, int64, ◌≡◌, refl, inl, inr, String, some, List, [], ◌∷◌, arith,
  Bool-cases, residue, residue-+, residue-int64,
}
use token_flux.Store.{State, Account, TransactionEntry}
use token_flux.Store.Steps.{tick}
use token_flux.Ledger.Accounts.{find_account, set_balance, is_account}
use token_flux.Ledger.Totals.{entry_sum, Below, set_balance_above, find_account-Below}

-- Every entry is of an account below the next identifier.
abbrev pub Known : ℕ → List TransactionEntry → Type 0
Known n [] = Unit {0}
Known n (e ∷ es) = (e.account_id < n) × Known n es

abbrev pub Audited : List TransactionEntry → List Account → Type 0
Audited es [] = Unit {0}
Audited es (a ∷ rows) = (residue a.balance_micro ≡ residue (entry_sum a.id es)) × Audited es rows

pub record IsValid (s : State) : Type 0 where
  pub fresh : Below s.next_id s.tables.accounts
  pub known : Known s.next_id s.tables.entries
  pub audited : Audited s.tables.entries s.tables.accounts

pub tick-IsValid : (s : State) → IsValid s → IsValid (tick s)
tick-IsValid s v = record { fresh = v.fresh; known = v.known; audited = v.audited }

-- No entry names an account that is not there yet.
pub entry_sum_above :
    (n id : ℕ) (es : List TransactionEntry) → Known n es → n ≤ id → entry_sum id es ≡ pos 0
unfolding entry_sum
entry_sum_above n id [] k h = refl
entry_sum_above n id (e ∷ es) k h = ground (arith, entry_sum_above n id es k.1 h)

pub Known-mono : (m n : ℕ) (es : List TransactionEntry) → m ≤ n → Known m es → Known n es
Known-mono m n [] h k = tt
Known-mono m n (e ∷ es) h k = (omega arith, Known-mono m n es h k.1)

-- An entry of an account that none of the rows has leaves them audited.
Audited-other :
    (e : TransactionEntry) (n : ℕ) (es : List TransactionEntry) (rows : List Account)
    → Below n rows
    → n ≤ e.account_id
    → Audited es rows
    → Audited (e ∷ es) rows
unfolding entry_sum
Audited-other e n es [] b h k = tt
Audited-other e n es (a ∷ rows) b h k =
    (ground arith, Audited-other e a.id es rows b.1 (omega arith) k.1)

pub audited_step : (b d s : ℤ) → residue b ≡ residue s → residue (int64 (b +ℤ d)) ≡ residue (d +ℤ s)
audited_step b d s h = omega (arith, residue-int64 (b +ℤ d), residue-+ b d, residue-+ d s)

-- The new balance of the account and the new entry agree.
pub Audited-set_balance :
    (e : TransactionEntry) (n : ℕ) (acc : Account) (es : List TransactionEntry)
    (rows : List Account) (ot : String) (oi : ℕ) (k : String)
    → Below n rows
    → find_account ot oi k rows ≡ some acc
    → e.account_id ≡ acc.id
    → e.balance_after_micro ≡ int64 (acc.balance_micro +ℤ e.delta_micro)
    → Audited es rows
    → Audited (e ∷ es) (set_balance acc.id acc.version e.balance_after_micro rows)
unfolding entry_sum set_balance find_account
Audited-set_balance e n acc es [] ot oi k b f i m h = tt
Audited-set_balance e n acc es (a ∷ rows) ot oi k b f i m h =
    elim (Bool-cases (is_account ot oi k a)) [
      | inl hit ↦ ground (
        arith,
        set_balance_above a.id a.version e.balance_after_micro a.id rows b.1,
        audited_step a.balance_micro e.delta_micro (entry_sum a.id es),
        Audited-other e a.id es rows b.1,
      )
      | inr miss ↦ ground (
        arith,
        find_account-Below ot oi k a.id rows acc b.1,
        Audited-set_balance e a.id acc es rows ot oi k b.1,
      )
    ]
