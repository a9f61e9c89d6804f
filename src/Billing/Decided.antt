-- ===== src/Billing/Decided.antt =====
-- When `DebitAccount` of server/internal/logic/billing/billing.go goes through, and when it refuses.
use token_flux.Base.{
  ℤ, pos, ◌-ℤ◌, int64, ltb_ℤ, ◌≡◌, refl, ap, subst, ◌∙◌, ◌⊎◌, inl, inr, true, false, String, some,
  Bool-cases,
}
use token_flux.Store.{
  World, State, Account, Error, ok, err, Action, ◌>>=◌, ◌>>◌, pure, raise_if, insert, in_tx,
  close_tx, insufficient,
}
use token_flux.Store.Steps.{>>=-runs, insert-runs, tick, inserted}
use token_flux.Ledger.Accounts.{find_account}
use token_flux.Ledger.Post.{account_or_new, move_balance, add_transaction, no_clash}
use token_flux.Ledger.Audit.{IsValid, tick-IsValid}
use token_flux.Ledger.Moves.{account_or_new-IsValid}
use token_flux.Ledger.Balance.{affected_found}
use token_flux.Ledger.Balances.{balance, account_or_new-balance}
use token_flux.Ledger.Progress.{IsCalm, account_or_new_total, move_balance_total}
use token_flux.Billing.{AccountIn, TransactionInfo, post_single, debit_body, debit_account, info}

module _ (w : World) (calm : IsCalm w) where
  -- A transaction whose statements go through commits what its body did, or undoes it.
  in_tx-commits :
      {A : Type 0} (body : Action A) (s : State) {a : A} {t : State}
      → body (tick s) ≡ (ok a, t)
      → in_tx w body s ≡ (ok a, tick t)
  unfolding in_tx
  in_tx-commits body s {a} {t} h =
      rw (calm s.calls) (ap (close_tx w s.tables) h ∙ rw (calm t.calls) refl)

  in_tx-undoes :
      {A : Type 0} (body : Action A) (s : State) {e : Error} {t : State}
      → body (tick s) ≡ (err e, t)
      → in_tx w body s ≡ (err e, record t { tables = s.tables })
  unfolding in_tx
  in_tx-undoes body s h = rw (calm s.calls) (ap (close_tx w s.tables) h)

  -- The posting of a single entry goes through when the account is there.
  post_single_total :
      (ty : String) (i : AccountIn) (d b : ℤ) (acc : Account) (s : State)
      → IsValid s
      → find_account i.owner_type i.owner_id i.asset s.tables.accounts ≡ some acc
      → (r : TransactionInfo) × (t : State) × (post_single w ty i d b acc s ≡ (ok r, t))
  post_single_total ty i d b acc s v f =
      let add = add_transaction ty i.ref_type i.ref_id in
      let one =
        affected_found i.owner_type i.owner_id i.asset s.next_id s.tables.accounts acc v.fresh f in
      let (e, m) = move_balance_total w calm s.next_id d b acc (inserted add s) one in
      (
        info ty i s.next_id e,
        _,
        >>=-runs (insert w no_clash add)
              (λ tx. move_balance w tx d b acc >>= λ e. pure (info ty i tx e)) s
              (insert-runs w s (calm s.calls) no_clash add refl)
            ∙ >>=-runs (move_balance w s.next_id d b acc) (λ e. pure (info ty i s.next_id e))
                (inserted add s) m,
      )

  module _ (i : AccountIn) (s : State) where
    -- When no statement fails and the ledger is valid, a debit goes through when its amount is not above the balance
    -- of the owner, which is 0 where there is no account; else it is refused as insufficient, and changes no table, not
    -- even by the account that it looked for.
    pub debit_account-decides :
        IsValid s
        → ((ltb_ℤ (balance i.owner_type i.owner_id i.asset s) i.amount_micro ≡ false)
            × ((r : TransactionInfo) × (s' : State) × (debit_account w i s ≡ (ok r, s'))))
          ⊎ ((ltb_ℤ (balance i.owner_type i.owner_id i.asset s) i.amount_micro ≡ true)
              × ((s' : State) × (debit_account w i s ≡ (err insufficient, s'))
                  × (s'.tables ≡ s.tables)))
    unfolding debit_account balance
    debit_account-decides v =
        let (acc, t, h) = account_or_new_total w calm i.owner_type i.owner_id i.asset (tick s) in
        let vs = tick-IsValid s v in
        let (vt, f, _) =
          account_or_new-IsValid w i.owner_type i.owner_id i.asset i.asset (tick s) vs h in
        let (held, _) =
          account_or_new-balance w i.owner_type i.owner_id i.asset (tick s) vs "" 0 "" h in
        let a = i.amount_micro in
        let post = λ (c : Account).
          post_single w "debit" i (int64 (pos 0 -ℤ a)) (int64 (c.balance_micro -ℤ a)) c in
        let rest = λ (c : Account). raise_if (ltb_ℤ c.balance_micro a) insufficient >> post c in
        let run = >>=-runs (account_or_new w i.owner_type i.owner_id i.asset) rest (tick s) h in
        elim (Bool-cases (ltb_ℤ acc.balance_micro a)) [
          | inl less ↦
              let refuse = run ∙ ap (λ c. (raise_if c insufficient >> post acc) t) less in
              inr (
                subst (λ b. ltb_ℤ b a ≡ true) held less,
                (record t { tables = s.tables }, in_tx-undoes (debit_body w i) s refuse, refl),
              )
          | inr enough ↦
              let (r, u, e) =
                post_single_total "debit" i (int64 (pos 0 -ℤ a)) (int64 (acc.balance_micro -ℤ a))
                  acc t vt f in
              let go = run ∙ ap (λ c. (raise_if c insufficient >> post acc) t) enough ∙ e in
              inl (
                subst (λ b. ltb_ℤ b a ≡ false) held enough,
                (r, tick u, in_tx-commits (debit_body w i) s go),
              )
        ]
