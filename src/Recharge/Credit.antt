-- ===== src/Recharge/Credit.antt =====
-- What a first recharge does to the ledger.
use token_flux.Base.{
  ℕ, suc, ℤ, pos, ◌+ℤ◌, int_laws, ◌≡◌, sym, ◌∙◌, subst, Bool, Option, none, arith, Bool-cases, inl,
  inr,
}
use token_flux.Store.{
  World, State, Tables, SettlementRecord, Error, db, Result, ok, err, ◌>>◌, pure, query, update,
  insert,
}
use token_flux.Store.Steps.{tick, inserted, >>=-ok, update-ok, ok_inj}
use token_flux.Store.Commits.{in_tx-ok}
use token_flux.Store.Outcomes.{query-found}
use token_flux.Ledger.Totals.{Below-mono}
use token_flux.Ledger.Audit.{IsValid, Known-mono, tick-IsValid}
use token_flux.Ledger.Post.{asset_credits, tx_type_recharge, post_ledger, add_transaction}
use token_flux.Ledger.Moves.{Moved, delta_sum, post_entries-Moved}
use token_flux.Ledger.Balance.{transaction-IsValid, post_ledger-ok}
use token_flux.Billing.{TransactionInfo}
use token_flux.Settlement.{
  RechargeSettlementIn, find_by_ref, get_record_by_ref, set_record, posted_info, has_ref,
  add_record,
}
use token_flux.Recharge.{
  create_recharge, recharge_found, recharge_body, recharge_inserted, recharge_post,
  recharged_before, recharge_entries, link_transaction, recharge_record,
}

add_zero : (z : ℤ) → z +ℤ pos 0 ≡ z
add_zero z = omega int_laws

recharge_delta :
    (i : RechargeSettlementIn) → delta_sum asset_credits (recharge_entries i) ≡ i.recharge_credits
unfolding delta_sum
recharge_delta i = add_zero i.recharge_credits

insert-cases :
    (P : Result ℕ × State → Type 0) (w : World) (clash : Tables → Bool) (g : ℕ → Tables → Tables)
    (s : State)
    → P (err db, tick s)
    → P (ok s.next_id, inserted g s)
    → P (insert w clash g s)
insert-cases P w clash g s h k = elim (Bool-cases (w.fails s.calls)) [
  | inl e ↦ rw e h
  | inr e ↦ elim (Bool-cases (clash s.tables)) [ inl d ↦ rw (e, d) h | inr d ↦ rw (e, d) k ]
]

record-IsValid :
    (r : ℕ → SettlementRecord) (s : State) → IsValid s → IsValid (inserted (add_record r) s)
record-IsValid r s v = record {
  fresh = Below-mono s.next_id (suc s.next_id) s.tables.accounts (omega arith) v.fresh;
  known = Known-mono s.next_id (suc s.next_id) s.tables.entries (omega arith) v.known;
  audited = v.audited;
}

module _ (w : World) (i : RechargeSettlementIn) where
  recharge_post-Moved :
      (id : ℕ) (s : State) {t : TransactionInfo} {s' : State}
      → IsValid s
      → recharge_post w i id s ≡ (ok t, s')
      → Moved asset_credits i.recharge_credits s s'
  unfolding recharge_post
  recharge_post-Moved id s {t} {s'} v h =
      let ((tx, is), u, hl, hr) =
        >>=-ok (post_ledger w tx_type_recharge "settlement_record" id (recharge_entries i))
          (λ posted.
            update w (λ t. tt) (set_record id (link_transaction posted.0))
            >> pure (posted_info tx_type_recharge id posted.0 posted.1))
          s h in
      let (_, _, hp) =
        post_ledger-ok w tx_type_recharge "settlement_record" id (recharge_entries i) s hl in
      let m =
        post_entries-Moved w s.next_id (recharge_entries i) asset_credits
          (inserted (add_transaction tx_type_recharge "settlement_record" id) s)
          (transaction-IsValid tx_type_recharge "settlement_record" id s v) hp in
      let (et, es) = ok_inj (
        update-ok w (λ t. tt) (set_record id (link_transaction tx))
          (λ _. pure (posted_info tx_type_recharge id tx is)) u hr) in
      subst (Moved asset_credits i.recharge_credits s) es (
        subst
          (λ d. Moved asset_credits d s (record u {
            tables = set_record id (link_transaction tx) u.tables;
            calls = suc u.calls;
          }))
          (recharge_delta i)
          (record { fresh = m.0.fresh; known = m.0.known; audited = m.0.audited }, m.1))

  -- An insert that failed is answered by a record of the same reference, and there is none.
  not_inserted :
      (e : Error) (s : State) {t : TransactionInfo} {s' : State}
      → find_by_ref i.ref_type i.ref_id s.tables.records ≡ none
      → recharge_inserted w i s (err e) ≡ (ok t, s')
      → ⊥
  unfolding recharge_inserted recharged_before get_record_by_ref
  not_inserted e s n h =
      let look = λ (b : Tables). find_by_ref i.ref_type i.ref_id b.records in
      let (a, t, hq, hr) =
        >>=-ok (query w look) (λ existing t. recharged_before w e t existing) s h in
      let (fa, ft) = query-found w look s hq in ground (arith, rw (fa, n) at hr)

  recharge_body-Moved :
      (s : State) {t : TransactionInfo} {s' : State}
      → IsValid s
      → find_by_ref i.ref_type i.ref_id s.tables.records ≡ none
      → recharge_body w i s ≡ (ok t, s')
      → Moved asset_credits i.recharge_credits s s'
  unfolding recharge_body recharge_post recharge_inserted
  recharge_body-Moved s {t} {s'} v n =
      let row = recharge_record i (w.now s.calls) in
      insert-cases
        (λ (x : Result ℕ × State).
          recharge_inserted w i x.1 x.0 ≡ (ok t, s') → Moved asset_credits i.recharge_credits s s')
        w (has_ref i.ref_type i.ref_id) (add_record row) s
        (λ h. absurd (not_inserted db (tick s) n h))
        (λ h. posted s.next_id (inserted (add_record row) s) (record-IsValid row s v) h)
    where
      posted :
          (id : ℕ) (u : State)
          → IsValid u
          → recharge_inserted w i u (ok id) ≡ (ok t, s')
          → Moved asset_credits i.recharge_credits u s'
      posted id u vu h = recharge_post-Moved id u vu h

  found_none-Moved :
      (s : State) {t : TransactionInfo} {s' : State}
      → IsValid s
      → find_by_ref i.ref_type i.ref_id s.tables.records ≡ none
      → recharge_found w i s none ≡ (ok t, s')
      → Moved asset_credits i.recharge_credits s s'
  unfolding recharge_found
  found_none-Moved s {t} {s'} v n h =
      let (u, hb, es) = in_tx-ok w (recharge_body w i) s h in
      let m = recharge_body-Moved (tick s) (tick-IsValid s v) n hb in
      subst (Moved asset_credits i.recharge_credits s) (sym es) (tick-IsValid u m.0, m.1)

  -- When there is no record for the reference and the recharge succeeds, the ledger stays valid and the
  -- total of the credit balances grows by exactly the recharged amount, modulo 2^64.
  pub create_recharge-Moved :
      (s : State) {t : TransactionInfo} {s' : State}
      → IsValid s
      → find_by_ref i.ref_type i.ref_id s.tables.records ≡ none
      → create_recharge w i s ≡ (ok t, s')
      → Moved asset_credits i.recharge_credits s s'
  unfolding create_recharge get_record_by_ref
  create_recharge-Moved s {t} {s'} v n h =
      let look = λ (b : Tables). find_by_ref i.ref_type i.ref_id b.records in
      let (a, u, hq, hr) =
        >>=-ok (query w look) (λ existing z. recharge_found w i z existing) s h in
      let (fa, fu) = query-found w look s hq in
      let run : recharge_found w i u none ≡ (ok t, s') =
        subst (λ (o : Option SettlementRecord). recharge_found w i u o ≡ (ok t, s')) (fa ∙ n) hr in
      let run' : recharge_found w i (tick s) none ≡ (ok t, s') =
        subst (λ (z : State). recharge_found w i z none ≡ (ok t, s')) fu run in
      found_none-Moved (tick s) (tick-IsValid s v) n run'
