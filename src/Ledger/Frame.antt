-- ===== src/Ledger/Frame.antt =====
-- `postLedger` writes accounts, transactions and entries, and no other table.
use token_flux.Base.{ℕ, ◌+ℤ◌, int64, ◌≡◌, inl, inr, String, List, [], ◌∷◌, arith}
use token_flux.Store.{World, State, Tables, Account, ok, ◌>>=◌, pure}
use token_flux.Store.Steps.{>>=-ok, ok_inj}
use token_flux.Ledger.Post.{
  EntryDelta, TransactionEntryInfo, account_or_new, move_balance, post_entry, post_entries,
  post_ledger,
}
use token_flux.Ledger.Moves.{account_or_new-ok, move_balance-ok}
use token_flux.Ledger.Balance.{post_ledger-ok}

-- What the ledger does not own.
abbrev pub SameRest : Tables → Tables → Type 0
SameRest t t' =
    (t'.records ≡ t.records)
    × (t'.api_keys ≡ t.api_keys)
    × (t'.orders ≡ t.orders)
    × (t'.model_keys ≡ t.model_keys)
    × (t'.key_models ≡ t.key_models)
    × (t'.usage_records ≡ t.usage_records)

module _ (w : World) where
  account_or_new-SameRest :
      (ot : String) (oi : ℕ) (k : String) (s : State) {acc : Account} {s' : State}
      → account_or_new w ot oi k s ≡ (ok acc, s')
      → SameRest s.tables s'.tables
  account_or_new-SameRest ot oi k s h = elim (account_or_new-ok w ot oi k s h) [
    | inl (e, es) ↦ ground arith
    | inr (e, ea, es) ↦ ground arith
  ]

  post_entry-SameRest :
      (tx : ℕ) (e : EntryDelta) (s : State) {i : TransactionEntryInfo} {s' : State}
      → post_entry w tx e s ≡ (ok i, s')
      → SameRest s.tables s'.tables
  unfolding post_entry
  post_entry-SameRest tx e s h =
      let (acc, t, ha, hm) =
        >>=-ok (account_or_new w e.owner_type e.owner_id e.asset)
          (λ a. move_balance w tx e.delta (int64 (a.balance_micro +ℤ e.delta)) a) s h in
      let same = account_or_new-SameRest e.owner_type e.owner_id e.asset s ha in
      let (_, es, _) =
        move_balance-ok w tx e.delta (int64 (acc.balance_micro +ℤ e.delta)) acc t hm in
      ground arith

  post_entries-SameRest :
      (tx : ℕ) (es : List EntryDelta) (s : State) {is : List TransactionEntryInfo} {s' : State}
      → post_entries w tx es s ≡ (ok is, s')
      → SameRest s.tables s'.tables
  unfolding post_entries
  post_entries-SameRest tx [] s h = let (_, q) = ok_inj h in ground arith
  post_entries-SameRest tx (e ∷ es) s h =
      let (i, t, he, hr) =
        >>=-ok (post_entry w tx e) (λ i. post_entries w tx es >>= λ is. pure (i ∷ is)) s h in
      let (is, u, hes, hp) = >>=-ok (post_entries w tx es) (λ is. pure (i ∷ is)) t hr in
      let (_, q) = ok_inj hp in
      let a = post_entry-SameRest tx e s he in
      let b = post_entries-SameRest tx es t hes in ground arith

  pub post_ledger-SameRest :
      (ty rt : String) (id : ℕ) (es : List EntryDelta) (s : State) {tx : ℕ}
      {is : List TransactionEntryInfo} {s' : State}
      → post_ledger w ty rt id es s ≡ (ok (tx, is), s')
      → SameRest s.tables s'.tables
  post_ledger-SameRest ty rt id es s h =
      let (_, _, hp) = post_ledger-ok w ty rt id es s h in post_entries-SameRest s.next_id es _ hp
