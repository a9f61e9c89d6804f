-- ===== src/Ledger/Balance.antt =====
-- What `postLedger` promises its callers: balanced books, and a refusal before anything is written.
use token_flux.Base.{
  ℕ, suc, ◌≤◌, ℤ, pos, ◌+ℤ◌, int64, ◌≡◌, ◌≢◌, refl, ap, sym, ◌∙◌, inl, inr, Bool, true, false,
  String, some, List, [], ◌∷◌, str_eq, eq_iff, if◌then◌else◌, arith, int_laws, Bool-cases,
  eq_of_parts, residue, residue-+, residue-int64, residue-lt,
}
use token_flux.Store.{
  World, State, Account, ok, ◌>>=◌, ◌>>◌, pure, raise_if, imbalance, empty_entries,
}
use token_flux.Store.Steps.{>>=-ok, insert-ok, raise_if-ok, inserted, ok_inj}
use token_flux.Ledger.Accounts.{find_account, affected, is_account}
use token_flux.Ledger.Totals.{total, Below-mono, Below, find_account-Below}
use token_flux.Ledger.Post.{
  EntryDelta, TransactionEntryInfo, post_entries, post_ledger, credits_sum, asset_credits,
  tx_type_recharge, add_transaction, no_clash, is_empty, is_imbalanced, post_rows,
}
use token_flux.Ledger.Audit.{Known-mono, IsValid}
use token_flux.Ledger.Moves.{Moved, delta_sum, post_entries-Moved}

-- The int64 sum that the code compares with 0 is the sum of the credit deltas modulo 2^64.
pub credits_sum-residue :
    (acc : ℤ) (es : List EntryDelta)
    → residue (credits_sum acc es) ≡ residue (acc +ℤ delta_sum asset_credits es)
unfolding credits_sum delta_sum
credits_sum-residue acc [] = ap residue (omega int_laws)
credits_sum-residue acc (e ∷ es) =
    step (λ a. credits_sum-residue a es) (str_eq e.asset asset_credits)
  where
    step :
        ((a : ℤ) → residue (credits_sum a es) ≡ residue (a +ℤ delta_sum asset_credits es))
        → (b : Bool)
        → residue (credits_sum (if b then int64 (acc +ℤ e.delta) else acc) es)
          ≡ residue (acc +ℤ ((if b then e.delta else pos 0) +ℤ delta_sum asset_credits es))
    step ih true =
        let rest = delta_sum asset_credits es in
        ih (int64 (acc +ℤ e.delta))
        ∙ omega (
          arith,
          residue-+ (int64 (acc +ℤ e.delta)) rest,
          residue-int64 (acc +ℤ e.delta),
          residue-+ acc e.delta,
          residue-+ acc (e.delta +ℤ rest),
          residue-+ e.delta rest,
        )
    step ih false = ih acc ∙ ap residue (omega int_laws)

pub transaction-IsValid :
    (ty rt : String) (id : ℕ) (s : State)
    → IsValid s
    → IsValid (inserted (add_transaction ty rt id) s)
transaction-IsValid ty rt id s v = record {
  fresh = Below-mono s.next_id (suc s.next_id) s.tables.accounts (omega arith) v.fresh;
  known = Known-mono s.next_id (suc s.next_id) s.tables.entries (omega arith) v.known;
  audited = v.audited;
}

-- What a successful call went through.
pub post_ledger-ok :
    (w : World) (ty rt : String) (id : ℕ) (es : List EntryDelta) (s : State) {tx : ℕ}
    {is : List TransactionEntryInfo} {s' : State}
    → post_ledger w ty rt id es s ≡ (ok (tx, is), s')
    → (is_imbalanced ty es ≡ false)
      × (tx ≡ s.next_id)
      × (post_entries w s.next_id es (inserted (add_transaction ty rt id) s) ≡ (ok is, s'))
unfolding post_ledger
post_ledger-ok w ty rt id es s {tx} {is} {s'} h =
    let (_, h1) =
      raise_if-ok w (is_empty es) empty_entries
        (raise_if (is_imbalanced ty es) imbalance >> post_rows w ty rt id es) s h in
    let (bal, h2) = raise_if-ok w (is_imbalanced ty es) imbalance (post_rows w ty rt id es) s h1 in
    let (_, h3) =
      insert-ok w no_clash (add_transaction ty rt id)
        (λ tx_id. post_entries w tx_id es >>= λ infos. pure (tx_id, infos)) s h2 in
    let (js, t, hp, hq) =
      >>=-ok (post_entries w s.next_id es) (λ infos. pure (s.next_id, infos))
        (inserted (add_transaction ty rt id) s) h3 in
    let (e, q) = ok_inj hq in
    (bal, sym (ap (λ (p : ℕ × List TransactionEntryInfo). p.0) e), hp ∙ (λ j. (ok (e j).1, q j)))

balanced_sum :
    (ty : String) (es : List EntryDelta)
    → ty ≢ tx_type_recharge
    → is_imbalanced ty es ≡ false
    → residue (delta_sum asset_credits es) ≡ 0
unfolding residue
balanced_sum ty es ne h = omega (
  int_laws,
  ap residue zero,
  credits_sum-residue (pos 0) es,
  residue-+ (pos 0) (delta_sum asset_credits es),
  residue-lt (delta_sum asset_credits es),
)
  where
    zero : credits_sum (pos 0) es ≡ pos 0
    zero = ground (arith, eq_iff ty tx_type_recharge, eq_of_parts (credits_sum (pos 0) es) (pos 0))

-- Entries that are posted under another tag than a recharge keep the ledger valid (every balance is the
-- sum of its entries modulo 2^64), and leave the total of all credit balances unchanged modulo 2^64.
pub post_ledger-conserves :
    (w : World) (tx_type ref_type : String) (ref_id : ℕ) (es : List EntryDelta) (s : State) {tx : ℕ}
    {is : List TransactionEntryInfo} {s' : State}
    → IsValid s
    → tx_type ≢ tx_type_recharge
    → post_ledger w tx_type ref_type ref_id es s ≡ (ok (tx, is), s')
    → Moved asset_credits (pos 0) s s'
unfolding residue
post_ledger-conserves w tx_type ref_type ref_id es s v ne h =
    let (bal, _, hp) = post_ledger-ok w tx_type ref_type ref_id es s h in
    let (vs, m) =
      post_entries-Moved w s.next_id es asset_credits _
        (transaction-IsValid tx_type ref_type ref_id s v) hp in
    (
      vs,
      omega (
        arith,
        m,
        balanced_sum tx_type es ne bal,
        residue-+ (total asset_credits s.tables.accounts) (delta_sum asset_credits es),
        residue-+ (total asset_credits s.tables.accounts) (pos 0),
      ),
    )

-- A lookup names one row.
affected_above :
    (id version n : ℕ) (rows : List Account) → Below n rows → n ≤ id → affected id version rows ≡ 0
unfolding affected
affected_above id version n [] b h = refl
affected_above id version n (a ∷ rows) b h = ground (arith, affected_above id version a.id rows b.1)

pub affected_found :
    (ot : String) (oi : ℕ) (k : String) (n : ℕ) (rows : List Account) (acc : Account)
    → Below n rows
    → find_account ot oi k rows ≡ some acc
    → affected acc.id acc.version rows ≡ 1
unfolding affected find_account
affected_found ot oi k n [] acc b f = ground arith
affected_found ot oi k n (a ∷ rows) acc b f = elim (Bool-cases (is_account ot oi k a)) [
  | inl hit ↦ ground (arith, affected_above a.id a.version a.id rows b.1)
  | inr miss ↦ ground (
    arith,
    affected_found ot oi k a.id rows acc b.1,
    find_account-Below ot oi k a.id rows acc b.1,
  )
]
