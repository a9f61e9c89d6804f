-- ===== src/Store/Commits.antt =====
-- Inversion of a database transaction: one that returned a value, and one that returned an error.
use token_flux.Base.{suc, Bool, true, false, ◌≡◌, if◌then◌else◌, arith}
use token_flux.Store.{World, State, Error, db, Result, ok, err, Action, in_tx, close_tx}
use token_flux.Store.Steps.{tick}

module _ (w : World) {A : Type 0} where
  -- A transaction that returns a value ran its body to the end and committed.
  pub in_tx-ok :
      (body : Action A) (s : State) {a : A} {s' : State}
      → in_tx w body s ≡ (ok a, s')
      → (t : State) × (body (tick s) ≡ (ok a, t)) × (s' ≡ tick t)
  unfolding in_tx
  in_tx-ok body s {a} {s'} h = opened (w.fails s.calls) h
    where
      closed :
          (r : Result A × State) (c : Bool)
          → ◌≡◌ {A = Result A × State}
              (if c
                then (err db, record r.1 { tables = s.tables; calls = suc r.1.calls })
                else (r.0, tick r.1))
              (ok a, s')
          → (t : State) × (r ≡ (ok a, t)) × (s' ≡ tick t)
      closed r true k = absurd (cc)
      closed (ok a', t) false k = (t, ground arith, ground arith)
      closed (err e, t) false k = absurd (cc)

      ran :
          (r : Result A × State)
          → close_tx w s.tables r ≡ (ok a, s')
          → (t : State) × (r ≡ (ok a, t)) × (s' ≡ tick t)
      ran (ok a', t) k = closed (ok a', t) (w.fails t.calls) k
      ran (err e, t) k = absurd (cc)

      opened :
          (c : Bool)
          → ◌≡◌ {A = Result A × State}
              (if c then (err db, tick s) else close_tx w s.tables (body (tick s)))
              (ok a, s')
          → (t : State) × (body (tick s) ≡ (ok a, t)) × (s' ≡ tick t)
      opened true k = absurd (cc)
      opened false k = ran (body (tick s)) k

  -- A transaction that returns an error leaves every table as it was.
  pub in_tx-err :
      (body : Action A) (s : State) {e : Error} {s' : State}
      → in_tx w body s ≡ (err e, s')
      → s'.tables ≡ s.tables
  unfolding in_tx
  in_tx-err body s {e} {s'} h = opened (w.fails s.calls) h
    where
      closed :
          (a : A) (t : State) (c : Bool)
          → ◌≡◌ {A = Result A × State}
              (if c
                then (err db, record t { tables = s.tables; calls = suc t.calls })
                else (ok a, tick t))
              (err e, s')
          → s'.tables ≡ s.tables
      closed a t true k = ground arith
      closed a t false k = absurd (cc)

      ran : (r : Result A × State) → close_tx w s.tables r ≡ (err e, s') → s'.tables ≡ s.tables
      ran (ok a, t) k = closed a t (w.fails t.calls) k
      ran (err x, t) k = ground arith

      opened :
          (c : Bool)
          → ◌≡◌ {A = Result A × State}
              (if c then (err db, tick s) else close_tx w s.tables (body (tick s)))
              (err e, s')
          → s'.tables ≡ s.tables
      opened true k = ground arith
      opened false k = ran (body (tick s)) k
