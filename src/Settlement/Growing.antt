-- ===== src/Settlement/Growing.antt =====
-- Settling, in server/internal/logic/settlement/settlement.go, hands out identifiers upwards, also where it is
-- rolled back.
use token_flux.Base.{
  ℕ, ℤ, ◌*ℤ◌, int64, List, str_eq, if◌then◌else◌, Bool-cases, inl, inr, arith, pos,
}
use token_flux.Store.{
  World, Tables, SettlementRecord, Result, ok, err, Action, ◌>>=◌, ◌>>◌, pure, raise, attempt,
  update, get_int, clock, in_tx,
}
use token_flux.Store.Runs.{
  Runs, >>=-Runs, attempt-Runs, growing, Keeps-growing, update-growing, in_tx-growing,
}
use token_flux.Ledger.Post.{TransactionEntryInfo, post_ledger, tx_type_settle}
use token_flux.Billing.{TransactionInfo}
use token_flux.Settlement.{
  settle_entries, set_record, mark_settled, mark_failed, posted_info, settle_body, settle_result,
  settle_tx, settle_pending, settle, get_record, get_transaction,
}
use token_flux.Settlement.Effects.{get_record-Keeps, get_transaction-Keeps, get_int-Keeps}
use token_flux.Ledger.Growing.{post_ledger-growing}

module _ (w : World) where
  settle_body-growing : (r : SettlementRecord) (pc pp : ℤ) → Runs growing (settle_body w r pc pp)
  unfolding settle_body
  settle_body-growing r pc pp =
      let entries = settle_entries r pc pp in
      let marked : ℕ × List TransactionEntryInfo → ℕ → Tables → Tables =
        λ x now. set_record r.id (mark_settled now x.0 pc pp) in
      let last : ℕ × List TransactionEntryInfo → Action TransactionInfo =
        λ x. pure (posted_info tx_type_settle r.id x.0 x.1) in
      let finish : ℕ × List TransactionEntryInfo → ℕ → Action TransactionInfo =
        λ x now. update w (λ t. tt) (marked x now) >> last x in
      >>=-Runs growing (post_ledger w tx_type_settle "settlement_record" r.id entries)
        (λ x. clock w >>= finish x)
        (post_ledger-growing w tx_type_settle "settlement_record" r.id entries)
        λ x.
          >>=-Runs growing (clock w) (finish x) (λ s. omega arith)
            λ now.
              >>=-Runs growing (update w (λ t. tt) (marked x now)) (λ u. last x)
                (update-growing w (λ t. tt) (marked x now)) λ u s. omega arith

  settle_result-growing :
      (r : SettlementRecord) (x : Result TransactionInfo)
      → Runs growing (λ s. settle_result w r s x)
  unfolding settle_result
  settle_result-growing r (ok t) s = omega arith
  settle_result-growing r (err e) s =
      let failed = set_record r.id (mark_failed e) in
      let note : Action (Result (Unit {0})) = attempt (update w (λ t. tt) failed) in
      let rest : Result (Unit {0}) → Action TransactionInfo = λ u. raise e in
      >>=-Runs growing note rest
        (attempt-Runs growing (update w (λ t. tt) failed) (update-growing w (λ t. tt) failed))
        (λ u t. omega arith) s

  settle_pending-growing : (r : SettlementRecord) → Runs growing (settle_pending w r)
  unfolding settle_pending
  settle_pending-growing r =
      let consumer : ℤ → ℤ = λ a. int64 (r.cost_credits *ℤ a) in
      let provider : ℤ → ℤ = λ b. int64 (r.provider_revenue_credits *ℤ b) in
      let next : ℤ → ℤ → Action TransactionInfo = λ a b. settle_tx w r (consumer a) (provider b) in
      let per_consumer = get_int w "billing.points_per_credit_consumer" (pos 1) in
      let per_provider = get_int w "billing.points_per_credit_provider" (pos 1) in
      >>=-Runs growing per_consumer (λ a. per_provider >>= next a)
        (Keeps-growing per_consumer (get_int-Keeps w "billing.points_per_credit_consumer" (pos 1)))
        λ a.
          >>=-Runs growing per_provider (next a)
            (Keeps-growing per_provider
              (get_int-Keeps w "billing.points_per_credit_provider" (pos 1)))
            λ b s.
              let body = settle_body w r (consumer a) (provider b) in
              let posted =
                in_tx-growing w body (settle_body-growing r (consumer a) (provider b)) s in
              let noted = settle_result-growing r (in_tx w body s).0 (in_tx w body s).1 in
              omega (arith, posted, noted)

  -- The second part of `settle`.
  abbrev known : SettlementRecord → Action TransactionInfo
  known r s =
      if str_eq r.status "settled"
      then get_transaction w r.transaction_id s
      else settle_pending w r s

  known-growing : (r : SettlementRecord) → Runs growing (known r)
  known-growing r s = elim (Bool-cases (str_eq r.status "settled")) [
    | inl e ↦
        let keep = get_transaction-Keeps w r.transaction_id in
        rw e (Keeps-growing (get_transaction w r.transaction_id) keep s)
    | inr e ↦ rw e (settle_pending-growing r s)
  ]

  pub settle-growing : (id : ℕ) → Runs growing (settle w id)
  unfolding settle
  settle-growing id =
      >>=-Runs growing (get_record w id) known
        (Keeps-growing (get_record w id) (get_record-Keeps w id)) known-growing
