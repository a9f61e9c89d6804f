-- ===== src/Ledger/Owners.antt =====
-- What `postLedger` of server/internal/logic/settlement/ledger.go does to the balance of one owner.
use token_flux.Base.{
  ℕ, ℤ, pos, ◌+ℤ◌, int64, ◌≡◌, ap, sym, subst, ◌∙◌, inl, inr, true, false, Bool, ◌&&◌, ◌==◌, String,
  some, List, [], ◌∷◌, str_eq, eq_iff, if◌then◌else◌, Bool-cases, arith, residue, residue-+,
  residue-int64, residue-lt,
}
use token_flux.Store.{World, State, Account, ok, ◌>>=◌, pure}
use token_flux.Store.Steps.{>>=-ok, ok_inj}
use token_flux.Ledger.Accounts.{find_account}
use token_flux.Ledger.Post.{
  EntryDelta, TransactionEntryInfo, account_or_new, move_balance, post_entry, post_entries,
  post_ledger,
}
use token_flux.Ledger.Audit.{IsValid}
use token_flux.Ledger.Moves.{account_or_new-IsValid, move_balance-ok, moved_to, moved_to-IsValid}
use token_flux.Ledger.Balance.{transaction-IsValid, post_ledger-ok}
use token_flux.Ledger.Balances.{
  balance, Differ, account_or_new-balance, moved_to-balance, moved_to-balance_other,
}

abbrev pub is_for : String → ℕ → String → EntryDelta → Bool
is_for ot oi k e = str_eq e.owner_type ot && (e.owner_id == oi && str_eq e.asset k)

-- What an entry, and a list of them, adds to the balance of an owner, without wrap-around.
abbrev pub share : String → ℕ → String → EntryDelta → ℤ
share ot oi k e = if is_for ot oi k e then e.delta else pos 0

unfoldable pub shares : String → ℕ → String → List EntryDelta → ℤ
shares ot oi k [] = pos 0
shares ot oi k (e ∷ es) = share ot oi k e +ℤ shares ot oi k es

unmoved : (z : ℤ) → residue z ≡ residue (z +ℤ pos 0)
unfolding residue
unmoved z = omega (arith, residue-+ z (pos 0), residue-lt z)

module _ (w : World) (ot : String) (oi : ℕ) (k : String) where
  -- The ledger stays valid, and the balance of the owner moves by an amount, modulo 2^64.
  abbrev pub Adds : ℤ → State → State → Type 0
  Adds d s s' = IsValid s' × (residue (balance ot oi k s') ≡ residue (balance ot oi k s +ℤ d))

  is_for-Differ :
      (e : EntryDelta) → is_for ot oi k e ≡ false → Differ e.owner_type e.owner_id e.asset ot oi k
  is_for-Differ e h = ground (arith, eq_iff e.owner_type ot, eq_iff e.asset k)

  is_for-same :
      (e : EntryDelta)
      → is_for ot oi k e ≡ true
      → (e.owner_type ≡ ot) × (e.owner_id ≡ oi) × (e.asset ≡ k)
  is_for-same e h = ground (arith, eq_iff e.owner_type ot, eq_iff e.asset k)

  -- The balance after an entry of the owner's, and after another's.
  moved_to-own :
      (tx : ℕ) (e : EntryDelta) (acc : Account) (s : State) (v : IsValid s)
      → find_account e.owner_type e.owner_id e.asset s.tables.accounts ≡ some acc
      → is_for ot oi k e ≡ true
      → residue (balance ot oi k (moved_to tx e.delta (int64 (acc.balance_micro +ℤ e.delta)) acc s))
        ≡ residue (acc.balance_micro +ℤ e.delta)
  moved_to-own tx e acc s v f h =
      let (p, q, r) = is_for-same e h in
      let b = int64 (acc.balance_micro +ℤ e.delta) in
      let at : balance ot oi k (moved_to tx e.delta b acc s) ≡ b =
        (λ j. balance (sym p j) (sym q j) (sym r j) (moved_to tx e.delta b acc s))
        ∙ moved_to-balance w e.owner_type e.owner_id e.asset s v tx e.delta b acc f in
      ap residue at ∙ residue-int64 (acc.balance_micro +ℤ e.delta)

  post_entry-Adds :
      (tx : ℕ) (e : EntryDelta) (s : State) {i : TransactionEntryInfo} {s' : State}
      → IsValid s
      → post_entry w tx e s ≡ (ok i, s')
      → Adds (share ot oi k e) s s'
  unfolding post_entry
  post_entry-Adds tx e s {i} {s'} v h =
      let (acc, t, ha, hm) =
        >>=-ok (account_or_new w e.owner_type e.owner_id e.asset)
          (λ a. move_balance w tx e.delta (int64 (a.balance_micro +ℤ e.delta)) a) s h in
      let (vt, f, _) = account_or_new-IsValid w e.owner_type e.owner_id e.asset e.asset s v ha in
      let (at, same) = account_or_new-balance w e.owner_type e.owner_id e.asset s v ot oi k ha in
      let b = int64 (acc.balance_micro +ℤ e.delta) in
      let (_, es, _) = move_balance-ok w tx e.delta b acc t hm in
      let vs =
        subst IsValid (sym es)
          (moved_to-IsValid w tx e.delta acc e.owner_type e.owner_id e.asset t vt f) in
      elim (Bool-cases (is_for ot oi k e)) [
        | inl own ↦
            let (p, q, r) = is_for-same e own in
            let was : acc.balance_micro ≡ balance ot oi k s =
              at ∙ (λ j. balance (p j) (q j) (r j) s) in
            rw own (
              vs,
              ap (λ z. residue (balance ot oi k z)) es
                  ∙ moved_to-own tx e acc t vt f own
                  ∙ ap (λ z. residue (z +ℤ e.delta)) was,
            )
        | inr other ↦ rw other (
          vs,
          ap (λ z. residue (balance ot oi k z)) es
              ∙ ap residue (
                  moved_to-balance_other w e.owner_type e.owner_id e.asset t vt tx e.delta b acc ot
                    oi k (is_for-Differ e other) f
                  ∙ same)
              ∙ unmoved (balance ot oi k s),
        )
      ]

  post_entries-Adds :
      (tx : ℕ) (es : List EntryDelta) (s : State) {is : List TransactionEntryInfo} {s' : State}
      → IsValid s
      → post_entries w tx es s ≡ (ok is, s')
      → Adds (shares ot oi k es) s s'
  unfolding post_entries shares residue
  post_entries-Adds tx [] s v h =
      let (_, q) = ok_inj h in (subst IsValid q v, rw (← q) (unmoved (balance ot oi k s)))
  post_entries-Adds tx (e ∷ es) s v h =
      let (i, t, he, hr) =
        >>=-ok (post_entry w tx e) (λ i. post_entries w tx es >>= λ is. pure (i ∷ is)) s h in
      let (is, u, hes, hp) = >>=-ok (post_entries w tx es) (λ is. pure (i ∷ is)) t hr in
      let (vt, mt) = post_entry-Adds tx e s v he in
      let (vu, mu) = post_entries-Adds tx es t vt hes in
      let (_, q) = ok_inj hp in
      let b = balance ot oi k s in
      let d = share ot oi k e in
      (
        subst IsValid q vu,
        rw (← q) (
            omega (
              arith,
              mt,
              mu,
              residue-+ (balance ot oi k t) (shares ot oi k es),
              residue-+ b d,
              residue-+ b (d +ℤ shares ot oi k es),
              residue-+ d (shares ot oi k es),
            )),
      )

  -- A posting that succeeds keeps a valid ledger valid, and moves the balance of every owner by the sum of the deltas
  -- of the owner's entries, modulo 2^64.
  pub post_ledger-Adds :
      (tx_type ref_type : String) (ref_id : ℕ) (es : List EntryDelta) (s : State) {tx : ℕ}
      {is : List TransactionEntryInfo} {s' : State}
      → IsValid s
      → post_ledger w tx_type ref_type ref_id es s ≡ (ok (tx, is), s')
      → Adds (shares ot oi k es) s s'
  unfolding balance
  post_ledger-Adds tx_type ref_type ref_id es s v h =
      let (_, _, hp) = post_ledger-ok w tx_type ref_type ref_id es s h in
      post_entries-Adds s.next_id es _ (transaction-IsValid tx_type ref_type ref_id s v) hp
