-- ===== src/Payment/Once.antt =====
-- A notification for an order that is not pending changes nothing.
use token_flux.Base.{◌≡◌, refl, subst, ap, ◌∙◌, String, Option, some, str_eq, false}
use token_flux.Store.{World, State, Tables, query, ◌>>=◌, PaymentOrder, Result, ok}
use token_flux.Store.Steps.{tick, >>=-cases, >>=-runs, query-runs}
use token_flux.Store.Runs.{query-Runs, keeping}
use token_flux.Store.Outcomes.{query-found}
use token_flux.Payment.{find_order, confirm_found, confirm_order}

-- An order that a notification no longer finds pending.
abbrev pub IsHandled : String → State → PaymentOrder → Type 0
IsHandled order_no s o =
    (find_order order_no s.tables.orders ≡ some o) × (str_eq o.status "pending" ≡ false)

module _ (w : World) (order_no trade_no channel notify_raw : String) (s : State)
    (o : PaymentOrder) where
  found_again :
      (t : State)
      → str_eq o.status "pending" ≡ false
      → confirm_found w trade_no channel notify_raw t (some o) ≡ (ok tt, t)
  unfolding confirm_found
  found_again t k = rw k refl

  -- A notification for an order that is not pending any more changes no table, whether the order was
  -- credited, or was marked paid by a notification that failed to credit it; and it reports success
  -- when the order can be read.
  pub confirm_order_again :
      IsHandled order_no s o
      → ((confirm_order w order_no trade_no channel notify_raw s).1.tables ≡ s.tables)
        × (w.fails s.calls ≡ false
            → (confirm_order w order_no trade_no channel notify_raw s).0 ≡ ok tt)
  unfolding confirm_order
  confirm_order_again (h, k) =
      let look = λ (t : Tables). find_order order_no t.orders in
      let rest =
        λ (a : Option PaymentOrder) (t : State). confirm_found w trade_no channel notify_raw t a in
      (
        >>=-cases (λ (x : Result (Unit {0}) × State). x.1.tables ≡ s.tables) (query w look) rest s
            (λ a t e.
              let (fa, ft) = query-found w look s e in
              rw (fa, h, found_again t k) (ap (λ (u : State). u.tables) ft))
            (λ x t e.
              subst (λ (v : Result _ × State). v.1.tables ≡ s.tables) e
                (query-Runs keeping w look s).0),
        λ up.
            let run : (query w look >>= rest) s ≡ (ok tt, tick s) =
              >>=-runs (query w look) rest s (query-runs w s up look)
              ∙ rw h (found_again (tick s) k) in
            ap (λ (v : Result (Unit {0}) × State). v.0) run,
      )
