-- ===== src/Queue/Passes.antt =====
-- A pass over the due settlements always comes to an end.
use token_flux.Base.{ℕ, suc, ◌+◌, ◌≤◌, ◌≡◌, refl, false, ◌∙◌, List, [], ◌∷◌, length, keep, arith}
use token_flux.Store.{World, State, Tables, SettlementRecord, Result, ok, err, query}
use token_flux.Store.Steps.{tick, >>=-runs, query-runs}
use token_flux.Queue.Payout.{
  is_due, pay_provider, settled_count, pay_providers, process_settlements,
}

module _ (w : World) where
  settled_count-bounds :
      (n : ℕ) (r : Result (Unit {0})) → (n ≤ settled_count w n r) × (settled_count w n r ≤ suc n)
  settled_count-bounds n (ok u) = (omega arith, omega arith)
  settled_count-bounds n (err e) = (omega arith, omega arith)

  pay_providers-bounds :
      (n : ℕ) (rs : List SettlementRecord) (s : State)
      → (m : ℕ) × (s' : State) × (pay_providers w n rs s ≡ (ok m, s'))
        × (n ≤ m)
        × (m ≤ n + length rs)
  unfolding pay_providers
  pay_providers-bounds n [] s = (n, s, refl, omega arith, omega arith)
  pay_providers-bounds n (r ∷ rs) s =
      let (p, u) = pay_provider w r s in
      let (lo, hi) = settled_count-bounds n p in
      let (m, s', e, above, below) = pay_providers-bounds (settled_count w n p) rs u in
      (m, s', e, omega (arith, lo, above), omega (arith, hi, below))

  -- A pass whose query goes through ends without an error, whatever fails for one record or another, and
  -- reports at most as many settlements as there were due ones.
  pub process_settlements-bounds :
      (s : State)
      → w.fails s.calls ≡ false
      → (m : ℕ) × (s' : State) × (process_settlements w s ≡ (ok m, s'))
        × (m ≤ length (keep (is_due (w.now s.calls)) s.tables.records))
  unfolding process_settlements
  process_settlements-bounds s up =
      let due = λ (t : Tables). keep (is_due (w.now s.calls)) t.records in
      let (m, s', e, _, below) = pay_providers-bounds 0 (due s.tables) (tick s) in
      (
        m,
        s',
        >>=-runs (query w due) (λ rows. pay_providers w 0 rows) s (query-runs w s up due) ∙ e,
        omega (arith, below),
      )
