-- ===== src/Store/Runs.antt =====
-- What a run of actions does, whichever statements fail: a relation of the states before and after that is kept by
-- each statement is kept by the whole.
use token_flux.Base.{◌≡◌, refl, ◌∙◌, ℕ, Bool, ◌≤◌, Option, none, some, Bool-cases, inl, inr, arith}
use token_flux.Store.{
  World, State, Tables, Error, Result, ok, err, Action, ◌>>=◌, attempt, or_raise, raise_if, query,
  update, insert, in_tx, close_tx,
}
use token_flux.Store.Steps.{tick, updated, inserted}

-- A relation that holds of a state and itself, can be chained, and allows a statement that only reads.
pub record Tracking : Type 1 where
  pub Relates : State → State → Type 0
  pub here : (s : State) → Relates s s
  pub join : (s t u : State) → Relates s t → Relates t u → Relates s u
  pub ticks : (s : State) → Relates s (tick s)

-- Whatever the result.
abbrev pub Runs : Tracking → {A : Type 0} → Action A → Type 0
Runs p m = (s : State) → p.Relates s (m s).1

module _ (p : Tracking) where
  pub >>=-Runs :
      {A B : Type 0} (m : Action A) (k : A → Action B)
      → Runs p m
      → ((a : A) → Runs p (k a))
      → Runs p (m >>= k)
  >>=-Runs {A} {B} m k f g s = go (m s).0 (m s).1 (f s)
    where
      go :
          (r : Result A) (t : State)
          → p.Relates s t
          → p.Relates s (elim r as (λ x. Result B × State) [ ok a ↦ k a t | err e ↦ (err e, t) ]).1
      go (ok a) t e = p.join s t (k a t).1 e (g a t)
      go (err x) t e = e

  pub attempt-Runs : {A : Type 0} (m : Action A) → Runs p m → Runs p (attempt m)
  attempt-Runs m f s = f s

  pub or_raise-Runs : {A : Type 0} (o : Option A) (e : Error) → Runs p (or_raise o e)
  or_raise-Runs none e s = p.here s
  or_raise-Runs (some a) e s = p.here s

  pub raised-Runs :
      {A B : Type 0} (o : Option A) (e : Error) (k : A → Action B)
      → ((a : A) → Runs p (k a))
      → Runs p (or_raise o e >>= k)
  raised-Runs none e k f s = p.here s
  raised-Runs (some a) e k f s = f a s

  pub raise_if-Runs : (b : Bool) (e : Error) → Runs p (raise_if b e)
  raise_if-Runs b e s = p.here s

  module _ (w : World) where
    pub query-Runs : {A : Type 0} (f : Tables → A) → Runs p (query w f)
    query-Runs f s = elim (Bool-cases (w.fails s.calls)) [
      | inl e ↦ rw e (p.ticks s)
      | inr e ↦ rw e (p.ticks s)
    ]

    pub update-Runs :
        {A : Type 0} (f : Tables → A) (g : Tables → Tables)
        → ((s : State) → p.Relates s (updated g s))
        → Runs p (update w f g)
    update-Runs f g h s = elim (Bool-cases (w.fails s.calls)) [
      | inl e ↦ rw e (p.ticks s)
      | inr e ↦ rw e (h s)
    ]

    pub insert-Runs :
        (clash : Tables → Bool) (g : ℕ → Tables → Tables)
        → ((s : State) → p.Relates s (inserted g s))
        → Runs p (insert w clash g)
    insert-Runs clash g h s = elim (Bool-cases (w.fails s.calls)) [
      | inl e ↦ rw e (p.ticks s)
      | inr e ↦ elim (Bool-cases (clash s.tables)) [
        | inl d ↦ rw (e, d) (p.ticks s)
        | inr d ↦ rw (e, d) (h s)
      ]
    ]

-- Nothing but the statement counter has moved.
abbrev pub Same : State → State → Type 0
Same s s' = (s'.tables ≡ s.tables) × (s'.next_id ≡ s.next_id)

abbrev pub keeping : Tracking
keeping = record {
  Relates = Same;
  here = λ s. (refl, refl);
  join = λ s t u h k. (k.0 ∙ h.0, k.1 ∙ h.1);
  ticks = λ s. (refl, refl);
}

-- An action that writes no table.
abbrev pub Keeps : {A : Type 0} → Action A → Type 0
Keeps m = Runs keeping m

-- Identifiers are handed out upwards, also by a transaction that is rolled back.
abbrev pub growing : Tracking
growing = record {
  Relates = λ s t. s.next_id ≤ t.next_id;
  here = λ s. omega arith;
  join = λ s t u h k. omega arith;
  ticks = λ s. omega arith;
}

pub Keeps-growing : {A : Type 0} (m : Action A) → Keeps m → Runs growing m
Keeps-growing m h s = let same = (h s).1 in omega (arith, same)

module _ (w : World) where
  pub update-growing :
      {A : Type 0} (f : Tables → A) (g : Tables → Tables) → Runs growing (update w f g)
  update-growing f g = update-Runs growing w f g (λ s. omega arith)

  pub insert-growing :
      (clash : Tables → Bool) (g : ℕ → Tables → Tables) → Runs growing (insert w clash g)
  insert-growing clash g = insert-Runs growing w clash g (λ s. omega arith)

  close_tx-growing :
      {A : Type 0} (t : Tables) (r : Result A × State) → r.1.next_id ≤ (close_tx w t r).1.next_id
  close_tx-growing t (ok a, s) = elim (Bool-cases (w.fails s.calls)) [
    | inl e ↦ rw e (omega arith)
    | inr e ↦ rw e (omega arith)
  ]
  close_tx-growing t (err e, s) = omega arith

  pub in_tx-growing :
      {A : Type 0} (body : Action A) → Runs growing body → Runs growing (in_tx w body)
  unfolding in_tx
  in_tx-growing body h s = elim (Bool-cases (w.fails s.calls)) [
    | inl e ↦ rw e (omega arith)
    | inr e ↦
        let first = h (tick s) in
        let last = close_tx-growing s.tables (body (tick s)) in rw e (omega (arith, first, last))
  ]
