-- ===== src/Settlement/Outcome.antt =====
-- The two outcomes of `Settle`, as its callers see them.
use token_flux.Base.{
  ℕ, String, ℤ, pos, ◌*ℤ◌, int64, ◌≡◌, ap, subst, ◌∙◌, inl, inr, str_eq, refl, if◌then◌else◌, arith,
  residue, residue-+, residue-lt, Bool-cases,
}
use token_flux.Store.{
  World, State, Tables, SettlementRecord, Error, Result, ok, err, ◌>>=◌, get_int, in_tx,
}
use token_flux.Store.Steps.{>>=-ok, >>=-err}
use token_flux.Store.Runs.{Same}
use token_flux.Store.Commits.{in_tx-err}
use token_flux.Ledger.Totals.{total}
use token_flux.Ledger.Post.{asset_credits}
use token_flux.Ledger.Audit.{IsValid}
use token_flux.Billing.{TransactionInfo}
use token_flux.Settlement.{
  settle_body, settle_tx, settle_result, settle_pending, settle, get_record, get_transaction,
}
use token_flux.Settlement.Effects.{
  Same-IsValid, get_transaction-Keeps, get_record-Keeps, get_int-Keeps, settle_pending-Settled,
}

-- The tables of the ledger are as they were.
abbrev pub SameLedger : State → State → Type 0
SameLedger s s' =
    (s'.tables.accounts ≡ s.tables.accounts)
    × (s'.tables.transactions ≡ s.tables.transactions)
    × (s'.tables.entries ≡ s.tables.entries)

get_int-never-err :
    (w : World) (key : String) (d : ℤ) (s : State) {e : Error} {s' : State}
    → get_int w key d s ≡ (err e, s')
    → ⊥
get_int-never-err w key d s h = ground arith

module _ (w : World) (id : ℕ) (s : State) where
  -- Settling that returns a transaction keeps the ledger valid, and the total of the credit balances
  -- is the same modulo 2^64 as before, whether the record was pending or settled already.
  pub settle-conserves :
      {t : TransactionInfo} {s' : State}
      → IsValid s
      → settle w id s ≡ (ok t, s')
      → IsValid s'
        × (residue (total asset_credits s'.tables.accounts)
            ≡ residue (total asset_credits s.tables.accounts))
  unfolding settle residue
  settle-conserves {t} {s'} v h =
      let next = λ (r : SettlementRecord) (z : State).
        if str_eq r.status "settled"
        then get_transaction w r.transaction_id z
        else settle_pending w r z in
      let (r, u, hr, hn) = >>=-ok (get_record w id) next s h in
      let same = subst (λ (x : Result _ × State). Same s x.1) hr (get_record-Keeps w id s) in
      let vu = Same-IsValid s u same v in
      elim (Bool-cases (str_eq r.status "settled")) [
        | inl old ↦
            let same' =
              subst (λ (x : Result _ × State). Same u x.1) (rw old at hn)
                (get_transaction-Keeps w r.transaction_id u) in
            (
              Same-IsValid u s' same' vu,
              ap (λ (b : Tables). residue (total asset_credits b.accounts)) (same'.0 ∙ same.0),
            )
        | inr new ↦
            let (m, _) = settle_pending-Settled w r u vu (rw new at hn) in
            (
              m.0,
              omega (
                arith,
                m.1,
                residue-+ (total asset_credits u.tables.accounts) (pos 0),
                residue-lt (total asset_credits u.tables.accounts),
                ap (λ (b : Tables). residue (total asset_credits b.accounts)) same.0,
              ),
            )
      ]

  settle_tx-SameLedger :
      (r : SettlementRecord) (pc pp : ℤ) (z : State) {e : Error} {s' : State}
      → settle_tx w r pc pp z ≡ (err e, s')
      → SameLedger z s'
  unfolding settle_result
  settle_tx-SameLedger r pc pp z {e} {s'} h = ran (in_tx w (settle_body w r pc pp) z) refl h
    where
      noted :
          (x : Error) (u : State)
          → u.tables ≡ z.tables
          → settle_result w r u (err x) ≡ (err e, s')
          → SameLedger z s'
      noted x u same k = ground arith

      ran :
          (res : Result TransactionInfo × State)
          → in_tx w (settle_body w r pc pp) z ≡ res
          → settle_result w r res.1 res.0 ≡ (err e, s')
          → SameLedger z s'
      ran (ok t, u) q k = absurd (ground arith)
      ran (err x, u) q k = noted x u (in_tx-err w (settle_body w r pc pp) z q) k

  settle_pending-SameLedger :
      (r : SettlementRecord) (z : State) {e : Error} {s' : State}
      → settle_pending w r z ≡ (err e, s')
      → SameLedger z s'
  unfolding settle_pending
  settle_pending-SameLedger r z {e} {s'} h =
      let next = λ (a b : ℤ).
        settle_tx w r (int64 (r.cost_credits *ℤ a)) (int64 (r.provider_revenue_credits *ℤ b)) in
      let rest = λ (a : ℤ). get_int w "billing.points_per_credit_provider" (pos 1) >>= next a in
      elim (>>=-err (get_int w "billing.points_per_credit_consumer" (pos 1)) rest z h) [
        | inl k ↦ absurd (get_int-never-err w "billing.points_per_credit_consumer" (pos 1) z k)
        | inr (a, u, ha, hr) ↦
            let zu =
              subst (λ (x : Result _ × State). Same z x.1) ha (get_int-Keeps w _ (pos 1) z) in
            elim (>>=-err (get_int w "billing.points_per_credit_provider" (pos 1)) (next a) u hr) [
              | inl k ↦
                  absurd (get_int-never-err w "billing.points_per_credit_provider" (pos 1) u k)
              | inr (b, y, hb, hy) ↦
                  let uy =
                    subst (λ (x : Result _ × State). Same u x.1) hb (get_int-Keeps w _ (pos 1) u) in
                  let last = settle_tx-SameLedger r _ _ y hy in ground arith
            ]
      ]

  -- Settling that returns an error, for whatever reason, moves no money: accounts, transactions and
  -- entries are as they were.
  pub settle-fails : {e : Error} {s' : State} → settle w id s ≡ (err e, s') → SameLedger s s'
  unfolding settle settle_pending
  settle-fails {e} {s'} h =
      let next = λ (r : SettlementRecord) (z : State).
        if str_eq r.status "settled"
        then get_transaction w r.transaction_id z
        else settle_pending w r z in
      elim (>>=-err (get_record w id) next s h) [
        | inl first ↦
            let same =
              subst (λ (x : Result _ × State). Same s x.1) first (get_record-Keeps w id s) in
            ground arith
        | inr (r, u, hr, hn) ↦
            let same = subst (λ (x : Result _ × State). Same s x.1) hr (get_record-Keeps w id s) in
            elim (Bool-cases (str_eq r.status "settled")) [
              | inl old ↦
                  let same' =
                    subst (λ (x : Result _ × State). Same u x.1) (rw old at hn)
                      (get_transaction-Keeps w r.transaction_id u) in
                  ground arith
              | inr new ↦ let last = settle_pending-SameLedger r u (rw new at hn) in ground arith
            ]
      ]
