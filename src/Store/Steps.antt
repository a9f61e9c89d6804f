-- ===== src/Store/Steps.antt =====
-- Inversion of a call that succeeded, one statement at a time.
use token_flux.Base.{
  ℕ, suc, Bool, true, false, ◌≡◌, refl, ap, ◌∙◌, ◌⊎◌, inl, inr, if◌then◌else◌, arith,
}
use token_flux.Store.{
  World, State, Tables, Error, db, Result, ok, err, Action, ◌>>=◌, ◌>>◌, raise_if, query, update,
  insert,
}

abbrev pub tick : State → State
tick s = record s { calls = suc s.calls }

abbrev pub updated : (Tables → Tables) → State → State
updated g s = record s { tables = g s.tables; calls = suc s.calls }

abbrev pub inserted : (ℕ → Tables → Tables) → State → State
inserted g s = record s {
  tables = g s.next_id s.tables;
  next_id = suc s.next_id;
  calls = suc s.calls;
}

module _ {A B : Type 0} where
  pub >>=-ok :
      (m : Action A) (f : A → Action B) (s : State) {b : B} {s' : State}
      → (m >>= f) s ≡ (ok b, s')
      → (a : A) × (t : State) × (m s ≡ (ok a, t)) × (f a t ≡ (ok b, s'))
  >>=-ok m f s {b} {s'} h = cases (m s) refl h
    where
      cases :
          (r : Result A × State)
          → m s ≡ r
          → ◌>>=◌ {A = A} {B = B} (λ _. r) f s ≡ (ok b, s')
          → (a : A) × (t : State) × (m s ≡ (ok a, t)) × (f a t ≡ (ok b, s'))
      cases (ok a, t) e k = (a, t, e, k)
      cases (err x, t) e k = absurd (cc)

-- The other way: a first part that succeeded hands over to the rest.
pub >>=-runs :
    {A B : Type 0} (m : Action A) (f : A → Action B) (s : State) {a : A} {t : State}
    → m s ≡ (ok a, t)
    → (m >>= f) s ≡ f a t
>>=-runs m f s h = ap (λ (r : Result _ × State). ◌>>=◌ (λ _. r) f s) h

pub >>=-err :
    {A B : Type 0} (m : Action A) (f : A → Action B) (s : State) {e : Error} {s' : State}
    → (m >>= f) s ≡ (err e, s')
    → (m s ≡ (err e, s')) ⊎ ((a : A) × (t : State) × (m s ≡ (ok a, t)) × (f a t ≡ (err e, s')))
>>=-err {A} {B} m f s {e} {s'} h = cases (m s) refl h
  where
    cases :
        (r : Result A × State)
        → m s ≡ r
        → ◌>>=◌ {A = A} {B = B} (λ _. r) f s ≡ (err e, s')
        → (m s ≡ (err e, s')) ⊎ ((a : A) × (t : State) × (m s ≡ (ok a, t)) × (f a t ≡ (err e, s')))
    cases (ok a, t) q k = inr (a, t, q, k)
    cases (err x, t) q k =
        inl (q ∙ (λ j. (err (same_error k j), ap (λ (r : Result B × State). r.1) k j)))
      where
        same_error : ◌≡◌ {A = Result B × State} (err x, t) (err e, s') → x ≡ e
        same_error k = ground arith

-- What holds after either outcome of the first part holds of the whole.
pub >>=-cases :
    {A B : Type 0} (P : Result B × State → Type 0) (m : Action A) (f : A → Action B) (s : State)
    → ((a : A) (t : State) → m s ≡ (ok a, t) → P (f a t))
    → ((e : Error) (t : State) → m s ≡ (err e, t) → P (err e, t))
    → P ((m >>= f) s)
>>=-cases {A} {B} P m f s good bad = cases (m s) refl
  where
    cases : (r : Result A × State) → m s ≡ r → P (◌>>=◌ {A = A} {B = B} (λ _. r) f s)
    cases (ok a, t) e = good a t e
    cases (err x, t) e = bad x t e

-- A statement that does not fail.
module _ (w : World) (s : State) (up : w.fails s.calls ≡ false) where
  pub query-runs : {A : Type 0} (g : Tables → A) → query w g s ≡ (ok (g s.tables), tick s)
  query-runs g = ap (λ (c : Bool). if c then (err db, tick s) else (ok (g s.tables), tick s)) up

  pub update-runs :
      {A : Type 0} (g : Tables → A) (u : Tables → Tables)
      → update w g u s ≡ (ok (g s.tables), updated u s)
  update-runs g u =
      ap (λ (c : Bool). if c then (err db, tick s) else (ok (g s.tables), updated u s)) up

  pub insert-runs :
      (clash : Tables → Bool) (g : ℕ → Tables → Tables)
      → clash s.tables ≡ false
      → insert w clash g s ≡ (ok s.next_id, inserted g s)
  insert-runs clash g h =
      ap
        (λ (c : Bool).
          if c
          then (err db, tick s)
          else (if clash s.tables then (err db, tick s) else (ok s.next_id, inserted g s)))
        up
      ∙ ap (λ (d : Bool). if d then (err db, tick s) else (ok s.next_id, inserted g s)) h

pub ok_inj :
    {A : Type 0} {a b : A} {s t : State}
    → ◌≡◌ {A = Result A × State} (ok a, s) (ok b, t)
    → (a ≡ b) × (s ≡ t)
ok_inj h = (ground arith, ground arith)

module _ (w : World) {A B : Type 0} where
  pub query-ok :
      (g : Tables → A) (f : A → Action B) (s : State) {b : B} {s' : State}
      → (query w g >>= f) s ≡ (ok b, s')
      → f (g s.tables) (tick s) ≡ (ok b, s')
  query-ok g f s {b} {s'} h = cases (w.fails s.calls) h
    where
      cases :
          (c : Bool)
          → ◌>>=◌ {A = A} {B = B}
              (λ t. if c then (err db, tick t) else (ok (g t.tables), tick t))
              f
              s
            ≡ (ok b, s')
          → f (g s.tables) (tick s) ≡ (ok b, s')
      cases true k = absurd (cc)
      cases false k = k

  pub update-ok :
      (g : Tables → A) (u : Tables → Tables) (f : A → Action B) (s : State) {b : B} {s' : State}
      → (update w g u >>= f) s ≡ (ok b, s')
      → f (g s.tables) (updated u s) ≡ (ok b, s')
  update-ok g u f s {b} {s'} h = cases (w.fails s.calls) h
    where
      cases :
          (c : Bool)
          → ◌>>=◌ {A = A} {B = B}
              (λ t. if c then (err db, tick t) else (ok (g t.tables), updated u t))
              f
              s
            ≡ (ok b, s')
          → f (g s.tables) (updated u s) ≡ (ok b, s')
      cases true k = absurd (cc)
      cases false k = k

module _ (w : World) {B : Type 0} where
  pub insert-ok :
      (clash : Tables → Bool) (g : ℕ → Tables → Tables) (f : ℕ → Action B) (s : State) {b : B}
      {s' : State}
      → (insert w clash g >>= f) s ≡ (ok b, s')
      → (clash s.tables ≡ false) × (f s.next_id (inserted g s) ≡ (ok b, s'))
  insert-ok clash g f s {b} {s'} h = cases (w.fails s.calls) (clash s.tables) refl h
    where
      cases :
          (c d : Bool)
          → clash s.tables ≡ d
          → ◌>>=◌ {A = ℕ} {B = B}
              (λ t.
                if c
                then (err db, tick t)
                else (if d then (err db, tick t) else (ok s.next_id, inserted g s)))
              f
              s
            ≡ (ok b, s')
          → (clash s.tables ≡ false) × (f s.next_id (inserted g s) ≡ (ok b, s'))
      cases true d e k = absurd (cc)
      cases false true e k = absurd (cc)
      cases false false e k = (e, k)

  pub raise_if-ok :
      (c : Bool) (e : Error) (k : Action B) (s : State) {b : B} {s' : State}
      → (raise_if c e >> k) s ≡ (ok b, s')
      → (c ≡ false) × (k s ≡ (ok b, s'))
  raise_if-ok true e k s h = absurd (cc)
  raise_if-ok false e k s h = (refl, h)
