-- ===== src/Ledger/Growing.antt =====
-- Posting, in server/internal/logic/settlement/ledger.go, hands out identifiers upwards.
use token_flux.Base.{ℕ, ℤ, ◌+ℤ◌, int64, String, Option, none, some, List, [], ◌∷◌, ◌==◌, arith}
use token_flux.Store.{
  World, Tables, Account, Action, ◌>>=◌, ◌>>◌, pure, raise_if, query, update, insert, empty_entries,
  imbalance, conflict,
}
use token_flux.Store.Runs.{
  Runs, >>=-Runs, raise_if-Runs, query-Runs, growing, update-growing, insert-growing,
}
use token_flux.Ledger.Accounts.{
  find_account, set_balance, affected, new_account, add_account, add_entry,
}
use token_flux.Ledger.Post.{
  EntryDelta, TransactionEntryInfo, account_or_new, found_or_insert, insert_account, has_account,
  move_balance, no_clash, post_entry, post_entries, post_rows, post_ledger, add_transaction,
  is_empty, is_imbalanced,
}

module _ (w : World) where
  insert_account-growing :
      (ot : String) (oi : ℕ) (k : String) → Runs growing (insert_account w ot oi k)
  unfolding insert_account
  insert_account-growing ot oi k =
      >>=-Runs growing (insert w (has_account ot oi k) (λ i. add_account (new_account ot oi k i)))
        (λ id. pure (new_account ot oi k id)) (insert-growing w _ _) λ id s. omega arith

  found_or_insert-growing :
      (ot : String) (oi : ℕ) (k : String) (a : Option Account)
      → Runs growing (λ s. found_or_insert w ot oi k s a)
  unfolding found_or_insert
  found_or_insert-growing ot oi k none s = insert_account-growing ot oi k s
  found_or_insert-growing ot oi k (some a) s = omega arith

  move_balance-growing :
      (tx : ℕ) (d b : ℤ) (acc : Account) → Runs growing (move_balance w tx d b acc)
  unfolding move_balance
  move_balance-growing tx d b acc =
      let entry : ℕ → Tables → Tables = λ i. add_entry (record {
        id = i;
        tx_id = tx;
        account_id = acc.id;
        delta_micro = d;
        balance_after_micro = b;
      }) in
      let write : Tables → Tables =
        λ t. record t { accounts = set_balance acc.id acc.version b t.accounts } in
      let rows : Tables → ℕ = λ t. affected acc.id acc.version t.accounts in
      let last : ℕ → Action TransactionEntryInfo = λ id.
        pure (record { id = id; account_id = acc.id; delta_micro = d; balance_after_micro = b }) in
      let noted = insert w no_clash entry >>= last in
      >>=-Runs growing (update w rows write) (λ n. raise_if (n == 0) conflict >> noted)
        (update-growing w rows write)
        λ n.
          >>=-Runs growing (raise_if (n == 0) conflict) (λ u. noted)
            (raise_if-Runs growing (n == 0) conflict)
            λ u.
              >>=-Runs growing (insert w no_clash entry) last (insert-growing w no_clash entry)
                λ id s. omega arith

  account_or_new-growing :
      (ot : String) (oi : ℕ) (k : String) → Runs growing (account_or_new w ot oi k)
  unfolding account_or_new
  account_or_new-growing ot oi k =
      let look : Tables → Option Account = λ t. find_account ot oi k t.accounts in
      >>=-Runs growing (query w look) (λ found s. found_or_insert w ot oi k s found)
        (query-Runs growing w look) (found_or_insert-growing ot oi k)

  post_entry-growing : (tx : ℕ) (e : EntryDelta) → Runs growing (post_entry w tx e)
  unfolding post_entry
  post_entry-growing tx e =
      >>=-Runs growing (account_or_new w e.owner_type e.owner_id e.asset)
        (λ acc. move_balance w tx e.delta (int64 (acc.balance_micro +ℤ e.delta)) acc)
        (account_or_new-growing e.owner_type e.owner_id e.asset)
        λ acc. move_balance-growing tx e.delta (int64 (acc.balance_micro +ℤ e.delta)) acc

  post_entries-growing : (tx : ℕ) (es : List EntryDelta) → Runs growing (post_entries w tx es)
  unfolding post_entries
  post_entries-growing tx [] s = omega arith
  post_entries-growing tx (e ∷ es) s =
      >>=-Runs growing (post_entry w tx e) (λ i. post_entries w tx es >>= λ is. pure (i ∷ is))
        (post_entry-growing tx e)
        (λ i.
          >>=-Runs growing (post_entries w tx es) (λ is. pure (i ∷ is)) (post_entries-growing tx es)
            λ is t. omega arith)
        s

  pub post_ledger-growing :
      (ty rt : String) (id : ℕ) (es : List EntryDelta) → Runs growing (post_ledger w ty rt id es)
  unfolding post_ledger
  post_ledger-growing ty rt id es =
      let rows = post_rows w ty rt id es in
      let all : ℕ → Action (ℕ × List TransactionEntryInfo) =
        λ tx. post_entries w tx es >>= λ infos. pure (tx, infos) in
      let guard = is_imbalanced ty es in
      let add = add_transaction ty rt id in
      >>=-Runs growing (raise_if (is_empty es) empty_entries)
        (λ u. raise_if guard imbalance >> rows) (raise_if-Runs growing (is_empty es) empty_entries)
        λ u.
          >>=-Runs growing (raise_if guard imbalance) (λ v. rows)
            (raise_if-Runs growing guard imbalance)
            λ v. >>=-Runs growing (insert w no_clash add) all (insert-growing w no_clash add) λ tx.
              >>=-Runs growing (post_entries w tx es) (λ infos. pure (tx, infos))
                (post_entries-growing tx es) λ infos s. omega arith
