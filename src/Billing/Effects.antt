-- ===== src/Billing/Effects.antt =====
-- What a credit and a debit do to the balances: the owner's moves by the amount, no other does, and
-- a call that fails changes nothing.
use token_flux.Base.{
  ℕ, ℤ, pos, ◌+ℤ◌, ◌-ℤ◌, ◌≤ℤ◌, int64, int64_id, InRange, int_laws, ltb_ℤ, int64-sub, sub-InRange,
  ◌≡◌, ap, sym, subst, ◌∙◌, String, some, arith,
}
use token_flux.Store.{World, State, Account, ok, ◌>>=◌, ◌>>◌, pure, raise_if, insufficient}
use token_flux.Store.Steps.{>>=-ok, insert-ok, raise_if-ok, ok_inj, tick, inserted}
use token_flux.Store.Commits.{in_tx-ok}
use token_flux.Ledger.Accounts.{find_account}
use token_flux.Ledger.Post.{account_or_new, move_balance, add_transaction, no_clash}
use token_flux.Ledger.Audit.{IsValid, tick-IsValid}
use token_flux.Ledger.Moves.{account_or_new-IsValid, move_balance-ok, moved_to, moved_to-IsValid}
use token_flux.Ledger.Balance.{transaction-IsValid}
use token_flux.Ledger.Balances.{
  balance, Differ, account_or_new-balance, moved_to-balance, moved_to-balance_other,
}
use token_flux.Billing.{
  AccountIn, TransactionInfo, post_single, credit_body, credit_account, debit_body, debit_account,
  info,
}

-- The owner's balance becomes `b`; every other balance stays.
abbrev pub Sets : AccountIn → ℤ → State → State → Type 0
Sets i b s s' =
    (balance i.owner_type i.owner_id i.asset s' ≡ b)
    × ((ot : String) (oi : ℕ) (k : String)
        → Differ i.owner_type i.owner_id i.asset ot oi k
        → balance ot oi k s' ≡ balance ot oi k s)

module _ (w : World) (ty : String) (i : AccountIn) where
  post_single-ok :
      (d b : ℤ) (acc : Account) (s : State) {r : TransactionInfo} {s' : State}
      → post_single w ty i d b acc s ≡ (ok r, s')
      → s' ≡ moved_to s.next_id d b acc (inserted (add_transaction ty i.ref_type i.ref_id) s)
  post_single-ok d b acc s h =
      let add = add_transaction ty i.ref_type i.ref_id in
      let (_, h1) =
        insert-ok w no_clash add (λ tx. move_balance w tx d b acc >>= λ e. pure (info ty i tx e)) s
          h in
      let (e, t, hm, hp) =
        >>=-ok (move_balance w s.next_id d b acc) (λ e. pure (info ty i s.next_id e))
          (inserted add s) h1 in
      sym (ok_inj hp).1 ∙ (move_balance-ok w s.next_id d b acc (inserted add s) hm).1

  -- The common part: the account is there, and its new balance agrees with the delta.
  post_single-Sets :
      (d : ℤ) (acc : Account) (s : State) {r : TransactionInfo} {s' : State}
      → IsValid s
      → find_account i.owner_type i.owner_id i.asset s.tables.accounts ≡ some acc
      → post_single w ty i d (int64 (acc.balance_micro +ℤ d)) acc s ≡ (ok r, s')
      → IsValid s' × Sets i (int64 (acc.balance_micro +ℤ d)) s s'
  unfolding balance
  post_single-Sets d acc s v f h =
      let t = inserted (add_transaction ty i.ref_type i.ref_id) s in
      let vt = transaction-IsValid ty i.ref_type i.ref_id s v in
      let b = int64 (acc.balance_micro +ℤ d) in
      let e = post_single-ok d b acc s h in
      (
        subst IsValid (sym e)
            (moved_to-IsValid w s.next_id d acc i.owner_type i.owner_id i.asset t vt f),
        (
          ap (balance i.owner_type i.owner_id i.asset) e
              ∙ moved_to-balance w i.owner_type i.owner_id i.asset t vt s.next_id d b acc f,
          λ ot oi k df.
              ap (balance ot oi k) e
              ∙ moved_to-balance_other w i.owner_type i.owner_id i.asset t vt s.next_id d b acc ot
                  oi k df f,
        ),
      )

module _ (w : World) (i : AccountIn) (s : State) where
  -- The lookup and the posting, inside a transaction that began at `s` and committed at `s'`.
  posted_Sets :
      (ty : String) (d : ℤ) (acc : Account) (t u s' : State) {r : TransactionInfo}
      → IsValid s
      → account_or_new w i.owner_type i.owner_id i.asset (tick s) ≡ (ok acc, t)
      → post_single w ty i d (int64 (acc.balance_micro +ℤ d)) acc t ≡ (ok r, u)
      → s' ≡ tick u
      → (acc.balance_micro ≡ balance i.owner_type i.owner_id i.asset s)
        × IsValid s'
        × Sets i (int64 (acc.balance_micro +ℤ d)) s s'
  unfolding balance
  posted_Sets ty d acc t u s' v ha hp es =
      let vs = tick-IsValid s v in
      let (vt, f, _) =
        account_or_new-IsValid w i.owner_type i.owner_id i.asset i.asset (tick s) vs ha in
      let (vu, st) = post_single-Sets w ty i d acc t vt f hp in
      let same = λ (ot : String) (oi : ℕ) (k : String).
        (account_or_new-balance w i.owner_type i.owner_id i.asset (tick s) vs ot oi k ha).1 in
      (
        (account_or_new-balance w i.owner_type i.owner_id i.asset (tick s) vs "" 0 "" ha).0,
        subst IsValid (sym es) (tick-IsValid u vu),
        (
          ap (balance i.owner_type i.owner_id i.asset) es ∙ st.0,
          λ ot oi k df. ap (balance ot oi k) es ∙ st.1 ot oi k df ∙ same ot oi k,
        ),
      )

  -- A credit that succeeds keeps the ledger valid, adds the amount to the owner's balance in int64, and
  -- changes no other balance.
  pub credit_account-Sets :
      {r : TransactionInfo} {s' : State}
      → IsValid s
      → credit_account w i s ≡ (ok r, s')
      → IsValid s'
        × Sets i (int64 (balance i.owner_type i.owner_id i.asset s +ℤ i.amount_micro)) s s'
  unfolding credit_account balance
  credit_account-Sets {r} {s'} v h =
      let (u, hb, es) = in_tx-ok w (credit_body w i) s h in
      let (acc, t, ha, hp) =
        >>=-ok (account_or_new w i.owner_type i.owner_id i.asset)
          (λ a.
            post_single w "credit" i i.amount_micro (int64 (a.balance_micro +ℤ i.amount_micro)) a)
          (tick s) hb in
      let (e, vs, st) = posted_Sets "credit" i.amount_micro acc t u s' v ha hp es in
      (vs, subst (λ b. Sets i (int64 (b +ℤ i.amount_micro)) s s') e st)

  pub debit_account-Sets :
      {r : TransactionInfo} {s' : State}
      → IsValid s
      → debit_account w i s ≡ (ok r, s')
      → (i.amount_micro ≤ℤ balance i.owner_type i.owner_id i.asset s)
        × IsValid s'
        × Sets i (int64 (balance i.owner_type i.owner_id i.asset s -ℤ i.amount_micro)) s s'
  unfolding debit_account balance
  debit_account-Sets {r} {s'} v h =
      let (u, hb, es) = in_tx-ok w (debit_body w i) s h in
      let (acc, t, ha, hp) =
        >>=-ok (account_or_new w i.owner_type i.owner_id i.asset)
          (λ a.
            raise_if (ltb_ℤ a.balance_micro i.amount_micro) insufficient
            >> post_single w "debit" i (int64 (pos 0 -ℤ i.amount_micro))
                (int64 (a.balance_micro -ℤ i.amount_micro)) a)
          (tick s) hb in
      let (enough, hq) =
        raise_if-ok w (ltb_ℤ acc.balance_micro i.amount_micro) insufficient
          (post_single w "debit" i (int64 (pos 0 -ℤ i.amount_micro))
            (int64 (acc.balance_micro -ℤ i.amount_micro)) acc)
          t hp in
      let a = i.amount_micro in
      let q = int64-sub acc.balance_micro a in
      let (e, vs, st) =
        posted_Sets "debit" (int64 (pos 0 -ℤ a)) acc t u s' v ha
          (subst (λ b. post_single w "debit" i (int64 (pos 0 -ℤ a)) b acc t ≡ (ok r, u)) (sym q) hq)
          es in
      (
        subst (λ b. a ≤ℤ b) e (ground arith),
        vs,
        subst (λ b. Sets i (int64 (b -ℤ a)) s s') e (subst (λ b. Sets i b s s') q st),
      )

  -- A debit of a non-negative amount that succeeds takes exactly that amount from a balance that
  -- covers it, so the balance does not fall below zero.
  pub debit_account-covers :
      {r : TransactionInfo} {s' : State}
      → IsValid s
      → InRange (balance i.owner_type i.owner_id i.asset s)
      → pos 0 ≤ℤ i.amount_micro
      → debit_account w i s ≡ (ok r, s')
      → (balance i.owner_type i.owner_id i.asset s' +ℤ i.amount_micro
          ≡ balance i.owner_type i.owner_id i.asset s)
        × (pos 0 ≤ℤ balance i.owner_type i.owner_id i.asset s')
  debit_account-covers {r} {s'} v range nonneg h =
      let (enough, _, st) = debit_account-Sets v h in
      let before = balance i.owner_type i.owner_id i.asset s in
      let z = before -ℤ i.amount_micro in
      let exact = st.0 ∙ int64_id z (sub-InRange before i.amount_micro nonneg enough range) in
      rw exact (omega int_laws, omega int_laws)
