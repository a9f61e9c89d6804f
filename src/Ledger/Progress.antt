-- ===== src/Ledger/Progress.antt =====
-- `postLedger` succeeds whenever the database answers: the optimistic lock never conflicts with the
-- caller's own reads, and the account that is inserted never clashes.
use token_flux.Base.{
  ℕ, ℤ, ◌+ℤ◌, int64, ◌≡◌, refl, inl, inr, false, String, Option, List, [], ◌∷◌, arith, Option-cases,
  ◌==◌, ap, ◌∙◌,
}
use token_flux.Store.{
  World, State, Tables, query, update, insert, conflict, empty_entries, Account, ok, Action, ◌>>=◌,
  ◌>>◌, pure, raise_if, imbalance,
}
use token_flux.Store.Steps.{>>=-runs, query-runs, update-runs, insert-runs, updated, tick, inserted}
use token_flux.Ledger.Accounts.{
  find_account, add_account, add_entry, set_balance, affected, new_account,
}
use token_flux.Ledger.Post.{
  EntryDelta, TransactionEntryInfo, account_or_new, move_balance, post_entry, post_entries,
  has_account, no_clash, found_or_insert, post_rows, post_ledger, is_empty, is_imbalanced,
  add_transaction, asset_credits,
}
use token_flux.Ledger.Audit.{IsValid}
use token_flux.Ledger.Moves.{post_entry-Moved, account_or_new-IsValid, moved_to, created}
use token_flux.Ledger.Balance.{transaction-IsValid, affected_found}

abbrev pub IsCalm : World → Type 0
IsCalm w = (n : ℕ) → w.fails n ≡ false

module _ (w : World) (calm : IsCalm w) where
  pub account_or_new_total :
      (ot : String) (oi : ℕ) (k : String) (s : State)
      → (acc : Account) × (s' : State) × (account_or_new w ot oi k s ≡ (ok acc, s'))
  unfolding account_or_new
  account_or_new_total ot oi k s =
      let look = λ (t : Tables). find_account ot oi k t.accounts in
      let next = λ (o : Option Account) (t : State). found_or_insert w ot oi k t o in
      elim (Option-cases (find_account ot oi k s.tables.accounts)) [
        | inl e ↦ (
          new_account ot oi k s.next_id,
          created ot oi k (tick s),
          >>=-runs (query w look) next s (query-runs w s (calm s.calls) look)
              ∙ ap (found_or_insert w ot oi k (tick s)) e
              ∙ >>=-runs (insert w (has_account ot oi k) (λ i. add_account (new_account ot oi k i)))
                  (λ id. pure (new_account ot oi k id)) (tick s)
                  (insert-runs w (tick s) (calm (tick s).calls) (has_account ot oi k)
                    (λ i. add_account (new_account ot oi k i)) (ground arith)),
        )
        | inr (acc, e) ↦ (
          acc,
          tick s,
          >>=-runs (query w look) next s (query-runs w s (calm s.calls) look)
              ∙ ap (found_or_insert w ot oi k (tick s)) e,
        )
      ]

  pub move_balance_total :
      (tx : ℕ) (d b : ℤ) (acc : Account) (s : State)
      → affected acc.id acc.version s.tables.accounts ≡ 1
      → (i : TransactionEntryInfo) × (move_balance w tx d b acc s ≡ (ok i, moved_to tx d b acc s))
  unfolding move_balance
  move_balance_total tx d b acc s h =
      let count = λ (t : Tables). affected acc.id acc.version t.accounts in
      let set =
        λ (t : Tables). record t { accounts = set_balance acc.id acc.version b t.accounts } in
      let t = updated set s in
      let row = λ (i : ℕ). add_entry (record {
        id = i;
        tx_id = tx;
        account_id = acc.id;
        delta_micro = d;
        balance_after_micro = b;
      }) in
      let info : ℕ → TransactionEntryInfo =
        λ i. record { id = i; account_id = acc.id; delta_micro = d; balance_after_micro = b } in
      let record_it : Action TransactionEntryInfo =
        insert w no_clash row >>= λ id. pure (info id) in
      let rest = λ (n : ℕ). raise_if (n == 0) conflict >> record_it in
      (
        info s.next_id,
        >>=-runs (update w count set) rest s (update-runs w s (calm s.calls) count set)
            ∙ >>=-runs (raise_if (count s.tables == 0) conflict) (λ _. record_it) t
                (ground (arith, h))
            ∙ >>=-runs (insert w no_clash row) (λ id. pure (info id)) t
                (insert-runs w t (calm t.calls) no_clash row refl),
      )

  post_entry_total :
      (tx : ℕ) (e : EntryDelta) (s : State)
      → IsValid s
      → (i : TransactionEntryInfo) × (s' : State) × (post_entry w tx e s ≡ (ok i, s'))
  unfolding post_entry
  post_entry_total tx e s v =
      let (acc, t, h) = account_or_new_total e.owner_type e.owner_id e.asset s in
      let (vt, f, _) =
        account_or_new-IsValid w e.owner_type e.owner_id e.asset asset_credits s v h in
      let one =
        affected_found e.owner_type e.owner_id e.asset t.next_id t.tables.accounts acc vt.fresh f in
      let (i, m) = move_balance_total tx e.delta (int64 (acc.balance_micro +ℤ e.delta)) acc t one in
      (
        i,
        _,
        >>=-runs (account_or_new w e.owner_type e.owner_id e.asset)
              (λ a. move_balance w tx e.delta (int64 (a.balance_micro +ℤ e.delta)) a) s h
            ∙ m,
      )

  post_entries_total :
      (tx : ℕ) (es : List EntryDelta) (s : State)
      → IsValid s
      → (is : List TransactionEntryInfo) × (s' : State) × (post_entries w tx es s ≡ (ok is, s'))
  unfolding post_entries
  post_entries_total tx [] s v = ([], s, refl)
  post_entries_total tx (e ∷ es) s v =
      let (i, t, h) = post_entry_total tx e s v in
      let (is, u, r) = post_entries_total tx es t (post_entry-Moved w tx e asset_credits s v h).0 in
      (
        i ∷ is,
        u,
        >>=-runs (post_entry w tx e) (λ i. post_entries w tx es >>= λ is. pure (i ∷ is)) s h
            ∙ >>=-runs (post_entries w tx es) (λ is. pure (i ∷ is)) t r,
      )

  -- When no statement fails, balanced entries are posted, under the next transaction identifier.
  pub post_ledger_total :
      (tx_type ref_type : String) (ref_id : ℕ) (es : List EntryDelta) (s : State)
      → IsValid s
      → is_empty es ≡ false
      → is_imbalanced tx_type es ≡ false
      → (is : List TransactionEntryInfo) × (s' : State) × (post_ledger w tx_type ref_type ref_id es
            s
          ≡ (ok (s.next_id, is), s'))
  unfolding post_ledger
  post_ledger_total tx_type ref_type ref_id es s v ne bal =
      let t = inserted (add_transaction tx_type ref_type ref_id) s in
      let (is, u, h) =
        post_entries_total s.next_id es t (transaction-IsValid tx_type ref_type ref_id s v) in
      let run =
        >>=-runs {B = ℕ × List TransactionEntryInfo} (post_entries w s.next_id es)
          (λ js. pure (s.next_id, js)) t h in
      (
        is,
        u,
        >>=-runs (raise_if (is_empty es) empty_entries)
              (λ _.
                raise_if (is_imbalanced tx_type es) imbalance
                >> post_rows w tx_type ref_type ref_id es)
              s (ground (arith, ne))
            ∙ >>=-runs (raise_if (is_imbalanced tx_type es) imbalance)
                (λ _. post_rows w tx_type ref_type ref_id es) s (ground (arith, bal))
            ∙ >>=-runs (insert w no_clash (add_transaction tx_type ref_type ref_id))
                (λ tx. post_entries w tx es >>= λ js. pure (tx, js)) s
                (insert-runs w s (calm s.calls) no_clash (add_transaction tx_type ref_type ref_id)
                  refl)
            ∙ run,
      )
