-- ===== src/Settlement/Effects.antt =====
-- What `Settle` does: a settlement that posts conserves the credits and marks its record; one that
-- fails moves nothing.
use token_flux.Base.{
  first, ℕ, ℤ, pos, ◌*ℤ◌, ◌+ℤ◌, int64, ◌≡◌, ◌≢◌, refl, ap, sym, subst, ◌∙◌, String, some, ◌==◌,
  str_eq, eq_iff, if◌then◌else◌, arith, residue,
}
use token_flux.Store.{
  World, State, Tables, Transaction, SettlementRecord, Result, ok, err, ◌>>=◌, ◌>>◌, pure, clock,
  update, in_tx, get_int, query, or_raise, record_not_found, transaction_not_found,
}
use token_flux.Store.Steps.{>>=-ok, ok_inj, tick, update-ok, >>=-cases}
use token_flux.Store.Runs.{Same, >>=-Runs, keeping, query-Runs, or_raise-Runs, Keeps}
use token_flux.Store.Commits.{in_tx-ok}
use token_flux.Ledger.Totals.{total}
use token_flux.Ledger.Post.{post_ledger, tx_type_settle, asset_credits}
use token_flux.Ledger.Audit.{IsValid, tick-IsValid}
use token_flux.Ledger.Moves.{Moved}
use token_flux.Ledger.Balance.{post_ledger-conserves}
use token_flux.Ledger.Frame.{post_ledger-SameRest}
use token_flux.Billing.{TransactionInfo}
use token_flux.Settlement.{
  find_record, update_record, set_record, settle_entries, mark_settled, posted_info, settle_body,
  transaction_info, entries_of, settle_result, settle_pending, settle_tx, settle, get_record,
  get_transaction,
}

settle-ne-recharge : tx_type_settle ≢ "recharge"
settle-ne-recharge e = cc ((eq_iff tx_type_settle "recharge").1 e)

pub Same-IsValid : (s s' : State) → Same s s' → IsValid s → IsValid s'
Same-IsValid s s' (e, n) v = record {
  fresh = rw (e, n) v.fresh;
  known = rw (e, n) v.known;
  audited = rw e v.audited;
}

module _ (w : World) where
  pub get_transaction-Keeps : (id : ℕ) → Keeps (get_transaction w id)
  unfolding get_transaction
  get_transaction-Keeps id =
      let rest = λ (tx : Transaction).
        query w (λ t. entries_of id t.entries) >>= λ es. pure (transaction_info tx es) in
      >>=-Runs keeping (query w (λ t. first (λ r. r.id == id) t.transactions))
        (λ found. or_raise found transaction_not_found >>= rest) (query-Runs keeping w _)
        λ found.
          >>=-Runs keeping (or_raise found transaction_not_found) rest
            (or_raise-Runs keeping found _)
            λ tx.
              >>=-Runs keeping (query w (λ t. entries_of id t.entries))
                (λ es. pure (transaction_info tx es)) (query-Runs keeping w _) λ es s. (refl, refl)

  pub get_record-found :
      (id : ℕ) (s : State) {r : SettlementRecord} {t : State}
      → get_record w id s ≡ (ok r, t)
      → (find_record id s.tables.records ≡ some r) × (t ≡ tick s)
  unfolding get_record
  get_record-found id s h = ground arith

  pub get_record-Keeps : (id : ℕ) → Keeps (get_record w id)
  unfolding get_record
  get_record-Keeps id =
      >>=-Runs keeping (query w (λ t. find_record id t.records))
        (λ found. or_raise found record_not_found) (query-Runs keeping w _)
        λ found. or_raise-Runs keeping found record_not_found

  -- Settling a record that is settled already changes no table.
  pub settle_again :
      (id : ℕ) (s : State) (r : SettlementRecord)
      → find_record id s.tables.records ≡ some r
      → r.status ≡ "settled"
      → Same s (settle w id s).1
  unfolding settle
  settle_again id s r f e =
      >>=-cases (λ res. Same s res.1) (get_record w id)
        (λ r s.
          if str_eq r.status "settled"
          then get_transaction w r.transaction_id s
          else settle_pending w r s)
        s
        (λ a t h.
          let (fa, et) = get_record-found id s h in
          let done : a.status ≡ "settled" = ground arith in
          let same = get_transaction-Keeps a.transaction_id t in
          rw done
            (same.0 ∙ ap (λ (u : State). u.tables) et, same.1 ∙ ap (λ (u : State). u.next_id) et))
        (λ x t h. subst (λ (res : Result _ × State). Same s res.1) h (get_record-Keeps id s))

  -- The body of the transaction conserves the credits, and marks the record alone.
  settle_body-Moved :
      (r : SettlementRecord) (pc pp : ℤ) (s : State) {t : TransactionInfo} {s' : State}
      → IsValid s
      → settle_body w r pc pp s ≡ (ok t, s')
      → Moved asset_credits (pos 0) s s'
        × ((now : ℕ) × (s'.tables.records
              ≡ update_record r.id (mark_settled now t.id pc pp) s.tables.records))
  unfolding settle_body
  settle_body-Moved r pc pp s {t} {s'} v h =
      let ((tx, is), u, hl, hr) =
        >>=-ok (post_ledger w tx_type_settle "settlement_record" r.id (settle_entries r pc pp))
          (λ posted. clock w >>= λ now.
            update w (λ t. tt) (set_record r.id (mark_settled now posted.0 pc pp))
            >> pure (posted_info tx_type_settle r.id posted.0 posted.1))
          s h in
      let m =
        post_ledger-conserves w tx_type_settle "settlement_record" r.id (settle_entries r pc pp) s v
          settle-ne-recharge hl in
      let rest =
        post_ledger-SameRest w tx_type_settle "settlement_record" r.id (settle_entries r pc pp) s
          hl in
      let now = w.now u.calls in
      let (et, es) = ok_inj (
        update-ok w (λ t. tt) (set_record r.id (mark_settled now tx pc pp))
          (λ _. pure (posted_info tx_type_settle r.id tx is)) u hr) in
      (
        (
          subst IsValid es (record { fresh = m.0.fresh; known = m.0.known; audited = m.0.audited }),
          ground arith,
        ),
        (now, ground arith),
      )

  pub settle_result-ok :
      (r : SettlementRecord) (res : Result TransactionInfo) (s : State) {t : TransactionInfo}
      {s' : State}
      → settle_result w r s res ≡ (ok t, s')
      → (res ≡ ok t) × (s ≡ s')
  unfolding settle_result
  settle_result-ok r (ok t) s h = (ground arith, ground arith)
  settle_result-ok r (err e) s h = absurd (ground arith)

  pub get_int-Keeps : (key : String) (d : ℤ) → Keeps (get_int w key d)
  get_int-Keeps key d s = ground arith

  -- A settlement that succeeds conserves the credits, and marks its record.
  abbrev pub Settled : SettlementRecord → TransactionInfo → State → State → Type 0
  Settled r t s s' =
      Moved asset_credits (pos 0) s s'
      × ((now : ℕ) × (pc : ℤ) × (pp : ℤ) × (s'.tables.records
            ≡ update_record r.id (mark_settled now t.id pc pp) s.tables.records))

  -- What holds from a state with the same tables holds from this one.
  Settled-Same :
      (r : SettlementRecord) (t : TransactionInfo) (s u s' : State)
      → Same s u
      → Settled r t u s'
      → Settled r t s s'
  Settled-Same r t s u s' same (m, (now, pc, pp, e)) = (
    (m.0, m.1 ∙ ap (λ (b : Tables). residue (total asset_credits b.accounts +ℤ pos 0)) same.0),
    (
      now,
      pc,
      pp,
      e ∙ ap (λ (b : Tables). update_record r.id (mark_settled now t.id pc pp) b.records) same.0,
    ),
  )

  settle_tx-Settled :
      (r : SettlementRecord) (pc pp : ℤ) (s : State) {t : TransactionInfo} {s' : State}
      → IsValid s
      → settle_tx w r pc pp s ≡ (ok t, s')
      → Settled r t s s'
  settle_tx-Settled r pc pp s {t} {s'} v h =
      let (res, u) = in_tx w (settle_body w r pc pp) s in
      let (er, eu) = settle_result-ok r res u h in
      let run : in_tx w (settle_body w r pc pp) s ≡ (ok t, s') = λ j. (er j, eu j) in
      let (b, hb, eb) = in_tx-ok w (settle_body w r pc pp) s run in
      let (m, (now, e)) = settle_body-Moved r pc pp (tick s) (tick-IsValid s v) hb in
      (
        (subst IsValid (sym eb) (tick-IsValid b m.0), ground arith),
        (now, pc, pp, ap (λ (z : State). z.tables.records) eb ∙ e),
      )

  pub settle_pending-Settled :
      (r : SettlementRecord) (s : State) {t : TransactionInfo} {s' : State}
      → IsValid s
      → settle_pending w r s ≡ (ok t, s')
      → Settled r t s s'
  unfolding settle_pending
  settle_pending-Settled r s {t} {s'} v h =
      let next = λ (a b : ℤ).
        settle_tx w r (int64 (r.cost_credits *ℤ a)) (int64 (r.provider_revenue_credits *ℤ b)) in
      let rest = λ (a : ℤ). get_int w "billing.points_per_credit_provider" (pos 1) >>= next a in
      let (a, u, ha, hr) =
        >>=-ok (get_int w "billing.points_per_credit_consumer" (pos 1)) rest s h in
      let (b, z, hb, hz) =
        >>=-ok (get_int w "billing.points_per_credit_provider" (pos 1)) (next a) u hr in
      let su = subst (λ (r : Result _ × State). Same s r.1) ha (get_int-Keeps _ (pos 1) s) in
      let uz = subst (λ (r : Result _ × State). Same u r.1) hb (get_int-Keeps _ (pos 1) u) in
      let sz : Same s z = (uz.0 ∙ su.0, uz.1 ∙ su.1) in
      Settled-Same r t s z s' sz (settle_tx-Settled r _ _ z (Same-IsValid s z sz v) hz)
