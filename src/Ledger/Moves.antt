-- ===== src/Ledger/Moves.antt =====
-- Each step of `postLedger` keeps the invariant, and moves the total of an asset by the entry's
-- delta.
use token_flux.Base.{
  subst, ◌≢◌, ℕ, suc, ℤ, pos, ◌+ℤ◌, int64, ◌≡◌, refl, ap, sym, ◌∙◌, ◌⊎◌, inl, inr, Bool, true,
  false, String, none, some, List, [], ◌∷◌, str_eq, eq_refl, if◌then◌else◌, arith, int_laws,
  residue, residue-+, residue-int64, residue-lt,
}
use token_flux.Store.{World, State, Account, ok, ◌>>=◌, pure}
use token_flux.Store.Steps.{>>=-ok, tick, updated, inserted, ok_inj}
use token_flux.Ledger.Accounts.{
  add_account, find_account, set_balance, affected, new_account, add_entry,
}
use token_flux.Ledger.Totals.{
  total, Below-mono, set_balance-Below, find_account-Below, total-set_balance,
}
use token_flux.Ledger.Post.{
  EntryDelta, TransactionEntryInfo, account_or_new, move_balance, post_entry, post_entries,
}
use token_flux.Ledger.Audit.{
  IsValid, tick-IsValid, entry_sum_above, Known-mono, Audited-set_balance,
}

-- What the entries add to an asset, without wrap-around.
unfoldable pub delta_sum : String → List EntryDelta → ℤ
delta_sum x [] = pos 0
delta_sum x (e ∷ es) = (if str_eq e.asset x then e.delta else pos 0) +ℤ delta_sum x es

-- What one step does to the ledger: the invariant stays, and the credits (or the balances of any
-- other asset) move by a known amount.
abbrev pub Moved : String → ℤ → State → State → Type 0
Moved asset d s s' =
    IsValid s'
    × (residue (total asset s'.tables.accounts) ≡ residue (total asset s.tables.accounts +ℤ d))

zero_add : (z : ℤ) → pos 0 +ℤ z ≡ z
zero_add z = omega int_laws

abbrev pub created : String → ℕ → String → State → State
created ot oi k = inserted (λ i. add_account (new_account ot oi k i))

module _ (ot : String) (oi : ℕ) (k x : String) (s : State) (v : IsValid s) where
  created-IsValid : IsValid (created ot oi k s)
  created-IsValid = ground (
    arith,
    Known-mono s.next_id (suc s.next_id) s.tables.entries,
    entry_sum_above s.next_id s.next_id s.tables.entries v.known,
  )

  created_found :
      find_account ot oi k (created ot oi k s).tables.accounts
      ≡ some (new_account ot oi k s.next_id)
  unfolding find_account
  created_found = ground (arith, eq_refl ot, eq_refl k)

  total-created : total x (created ot oi k s).tables.accounts ≡ total x s.tables.accounts
  unfolding total
  total-created = ground (arith, zero_add (total x s.tables.accounts))

pub total_moved :
    (d : ℤ) (x ot : String) (oi : ℕ) (k : String) (acc : Account) (s : State)
    → IsValid s
    → find_account ot oi k s.tables.accounts ≡ some acc
    → residue (
        total x (set_balance acc.id acc.version (int64 (acc.balance_micro +ℤ d)) s.tables.accounts))
      ≡ residue (total x s.tables.accounts +ℤ (if str_eq k x then d else pos 0))
unfolding residue
total_moved d x ot oi k acc s v f = moved (str_eq k x) _ _ (
    total-set_balance x ot oi k s.next_id (int64 (acc.balance_micro +ℤ d)) s.tables.accounts acc
      v.fresh f)
  where
    moved :
        (b : Bool) (t t' : ℤ)
        → t' +ℤ (if b then acc.balance_micro else pos 0)
          ≡ t +ℤ (if b then int64 (acc.balance_micro +ℤ d) else pos 0)
        → residue t' ≡ residue (t +ℤ (if b then d else pos 0))
    moved true t t' e = omega (
      arith,
      ap residue e,
      residue-+ t' acc.balance_micro,
      residue-+ t (int64 (acc.balance_micro +ℤ d)),
      residue-int64 (acc.balance_micro +ℤ d),
      residue-+ acc.balance_micro d,
      residue-+ t d,
      residue-lt t',
    )
    moved false t t' e =
        omega (arith, ap residue e, residue-+ t' (pos 0), residue-+ t (pos 0), residue-lt t')

-- The state that a step of the loop leaves.
abbrev pub moved_to : ℕ → ℤ → ℤ → Account → State → State
moved_to tx d b acc s =
    inserted
      (λ i. add_entry (record {
        id = i;
        tx_id = tx;
        account_id = acc.id;
        delta_micro = d;
        balance_after_micro = b;
      }))
      (updated (λ t. record t { accounts = set_balance acc.id acc.version b t.accounts }) s)

module _ (w : World) where
  pub account_or_new-ok :
      (ot : String) (oi : ℕ) (k : String) (s : State) {acc : Account} {s' : State}
      → account_or_new w ot oi k s ≡ (ok acc, s')
      → ((find_account ot oi k s.tables.accounts ≡ some acc) × (s' ≡ tick s))
        ⊎ ((find_account ot oi k s.tables.accounts ≡ none)
            × (acc ≡ new_account ot oi k s.next_id)
            × (s' ≡ created ot oi k (tick s)))
  unfolding account_or_new
  account_or_new-ok ot oi k s h = ground arith

  pub move_balance-ok :
      (tx : ℕ) (d b : ℤ) (acc : Account) (s : State) {i : TransactionEntryInfo} {s' : State}
      → move_balance w tx d b acc s ≡ (ok i, s')
      → (affected acc.id acc.version s.tables.accounts ≢ 0)
        × (s' ≡ moved_to tx d b acc s)
        × (i ≡ record {
          id = s.next_id;
          account_id = acc.id;
          delta_micro = d;
          balance_after_micro = b;
        })
  unfolding move_balance
  move_balance-ok tx d b acc s h = ground arith

  -- An account that is looked up or created leaves the sums alone.
  pub account_or_new-IsValid :
      (ot : String) (oi : ℕ) (k x : String) (s : State) {acc : Account} {s' : State}
      → IsValid s
      → account_or_new w ot oi k s ≡ (ok acc, s')
      → IsValid s'
        × (find_account ot oi k s'.tables.accounts ≡ some acc)
        × (total x s'.tables.accounts ≡ total x s.tables.accounts)
  account_or_new-IsValid ot oi k x s v h = elim (account_or_new-ok ot oi k s h) [
    | inl (e, es) ↦ (subst IsValid (sym es) (tick-IsValid s v), ground arith, ground arith)
    | inr (e, ea, es) ↦ (
      subst IsValid (sym es) (created-IsValid ot oi k x (tick s) (tick-IsValid s v)),
      rw (es, ea) (created_found ot oi k x (tick s) (tick-IsValid s v)),
      rw es (total-created ot oi k x (tick s) (tick-IsValid s v)),
    )
  ]

  pub moved_to-IsValid :
      (tx : ℕ) (d : ℤ) (acc : Account) (ot : String) (oi : ℕ) (k : String) (s : State)
      → IsValid s
      → find_account ot oi k s.tables.accounts ≡ some acc
      → IsValid (moved_to tx d (int64 (acc.balance_micro +ℤ d)) acc s)
  moved_to-IsValid tx d acc ot oi k s v f =
      let b = int64 (acc.balance_micro +ℤ d) in
      record {
        fresh =
            Below-mono s.next_id (suc s.next_id)
              (set_balance acc.id acc.version b s.tables.accounts) (omega arith)
              (set_balance-Below acc.id acc.version b s.next_id s.tables.accounts v.fresh);
        known = (
          omega (arith, find_account-Below ot oi k s.next_id s.tables.accounts acc v.fresh f),
          Known-mono s.next_id (suc s.next_id) s.tables.entries (omega arith) v.known,
        );
        audited =
            Audited-set_balance
              (record {
                id = s.next_id;
                tx_id = tx;
                account_id = acc.id;
                delta_micro = d;
                balance_after_micro = b;
              })
              s.next_id acc s.tables.entries s.tables.accounts ot oi k v.fresh f refl refl
              v.audited;
      }

  -- One round of the loop moves the total of the entry's asset by its delta.
  pub post_entry-Moved :
      (tx : ℕ) (e : EntryDelta) (x : String) (s : State) {i : TransactionEntryInfo} {s' : State}
      → IsValid s
      → post_entry w tx e s ≡ (ok i, s')
      → Moved x (if str_eq e.asset x then e.delta else pos 0) s s'
  unfolding post_entry
  post_entry-Moved tx e x s v h =
      let (acc, t, ha, hm) =
        >>=-ok (account_or_new w e.owner_type e.owner_id e.asset)
          (λ a. move_balance w tx e.delta (int64 (a.balance_micro +ℤ e.delta)) a) s h in
      let (vt, f, tt') = account_or_new-IsValid e.owner_type e.owner_id e.asset x s v ha in
      let (n, es, ei) = move_balance-ok tx e.delta _ acc t hm in
      (
        subst IsValid (sym es)
            (moved_to-IsValid tx e.delta acc e.owner_type e.owner_id e.asset t vt f),
        rw es (
            total_moved e.delta x e.owner_type e.owner_id e.asset acc t vt f
            ∙ ap (λ z. residue (z +ℤ (if str_eq e.asset x then e.delta else pos 0))) tt'),
      )

  -- The whole loop moves it by the sum of the deltas.
  pub post_entries-Moved :
      (tx : ℕ) (es : List EntryDelta) (x : String) (s : State) {is : List TransactionEntryInfo}
      {s' : State}
      → IsValid s
      → post_entries w tx es s ≡ (ok is, s')
      → Moved x (delta_sum x es) s s'
  unfolding post_entries delta_sum residue
  post_entries-Moved tx [] x s v h =
      let (_, q) = ok_inj h in
      (
        subst IsValid q v,
        rw (← q) (
            omega (
              arith,
              residue-+ (total x s.tables.accounts) (pos 0),
              residue-lt (total x s.tables.accounts),
            )),
      )
  post_entries-Moved tx (e ∷ es) x s v h =
      let (i, t, he, hr) =
        >>=-ok (post_entry w tx e) (λ i. post_entries w tx es >>= λ is. pure (i ∷ is)) s h in
      let (is, u, hes, hp) = >>=-ok (post_entries w tx es) (λ is. pure (i ∷ is)) t hr in
      let (vt, mt) = post_entry-Moved tx e x s v he in
      let (vu, mu) = post_entries-Moved tx es x t vt hes in
      let (_, q) = ok_inj hp in
      (
        subst IsValid q vu,
        rw (← q) (
            omega (
              arith,
              mt,
              mu,
              residue-+ (total x t.tables.accounts) (delta_sum x es),
              residue-+ (total x s.tables.accounts) (if str_eq e.asset x then e.delta else pos 0),
              residue-+ (total x s.tables.accounts)
                  ((if str_eq e.asset x then e.delta else pos 0) +ℤ delta_sum x es),
              residue-+ (if str_eq e.asset x then e.delta else pos 0) (delta_sum x es),
            )),
      )
