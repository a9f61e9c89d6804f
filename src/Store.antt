-- ===== src/Store.antt =====
-- The database as the Go code sees it (server/internal/logic and server/internal/relay/handler): the
-- tables, a counter of the statements issued, and the identifiers that the BIGSERIAL columns of
-- server/migrations hand out. PostgreSQL and its driver are not part of the repository: which
-- statements fail, and what the clock says, is a parameter, the `World`. A transaction is atomic:
-- when its body or its commit fails, the tables are what they were; sequences are not rolled back.
pub mod Rows
pub mod Steps
pub mod Runs
pub mod Commits
pub mod Outcomes
pub use Rows.*
use token_flux.Base.{ℤ, String, ℕ, suc, Bool, true, false, Option, none, some, if◌then◌else◌}

pub record World : Type 0 where
  -- Whether the n-th statement returns an error.
  pub fails : ℕ → Bool
  -- `time.Now()` when n statements have been issued.
  pub now : ℕ → ℕ
  -- Whether `Scan` of no row into a struct returns `sql.ErrNoRows`, or leaves the zero value.
  pub empty_is_error : Bool
  -- What `strconv.ParseInt` makes of a row of system_configs, if there is such a number.
  pub config : String → Option ℤ

pub record State : Type 0 where
  pub tables : Tables
  pub next_id : ℕ
  pub calls : ℕ

pub data Result {ℓ} (A : Type ℓ) : Type ℓ where
  ok : A → Result A
  err : Error → Result A

abbrev pub Action : Type 0 → Type 0
Action A = State → Result A × State

infixl 5 ◌>>=◌ ◌>>◌
abbrev pub ◌>>=◌ : {A B : Type 0} → Action A → (A → Action B) → Action B
◌>>=◌ m f s = let (r, s') = m s in elim r [ ok a ↦ f a s' | err e ↦ (err e, s') ]

abbrev pub ◌>>◌ : {A B : Type 0} → Action A → Action B → Action B
m >> k = m >>= λ _. k

module _ {A : Type 0} where
  abbrev pub pure : A → Action A
  pure a s = (ok a, s)

  abbrev pub raise : Error → Action A
  raise e s = (err e, s)

  abbrev pub or_raise : Option A → Error → Action A
  or_raise o e s = elim o [ none ↦ (err e, s) | some a ↦ (ok a, s) ]

abbrev pub or_default : ℤ → Option ℤ → ℤ
or_default d none = d
or_default d (some v) = v

-- An action whose error is a value for what follows.
abbrev pub attempt : {A : Type 0} → Action A → Action (Result A)
attempt m s = let (r, s') = m s in (ok r, s')

abbrev pub raise_if : Bool → Error → Action (Unit {0})
raise_if c e s = (if c then err e else ok tt, s)

module _ (w : World) where
  -- One statement is sent: it fails, or it goes through and has the effect given.
  abbrev pub stmt : {A : Type 0} → Action A → Action A
  stmt effect s =
      let s' = record s { calls = suc s.calls } in
      if w.fails s.calls then (err db, s') else effect s'

  -- SELECT
  abbrev pub query : {A : Type 0} → (Tables → A) → Action A
  query f = stmt λ s. (ok (f s.tables), s)

  -- UPDATE, with what it reports of the rows.
  abbrev pub update : {A : Type 0} → (Tables → A) → (Tables → Tables) → Action A
  update f g = stmt λ s. (ok (f s.tables), record s { tables = g s.tables })

  -- INSERT of a row with a new id, which is the result; the test is the UNIQUE constraint.
  abbrev pub insert : (Tables → Bool) → (ℕ → Tables → Tables) → Action ℕ
  insert clash g = stmt λ s.
      if clash s.tables
      then (err db, s)
      else (ok s.next_id, record s { tables = g s.next_id s.tables; next_id = suc s.next_id })

  -- `systemconfig.GetInt`: the default also stands in for a read that fails.
  abbrev pub get_int : String → ℤ → Action ℤ
  get_int key default_val s =
      let s' = record s { calls = suc s.calls } in
      if w.fails s.calls
      then (ok default_val, s')
      else (ok (or_default default_val (w.config key)), s')

  abbrev pub clock : Action ℕ
  clock s = (ok (w.now s.calls), s)

  abbrev pub rollback : {A : Type 0} → Tables → Error → Action A
  rollback t e s = (err e, record s { tables = t })

  -- COMMIT, or the rollback that its failure or the body's error brings.
  abbrev pub close_tx : {A : Type 0} → Tables → Result A × State → Result A × State
  close_tx t (ok a, s) =
      let s' = record s { calls = suc s.calls } in
      if w.fails s.calls then rollback t db s' else (ok a, s')
  close_tx t (err e, s) = rollback t e s

  -- `g.DB().Transaction(ctx, body)`
  unfoldable pub in_tx : {A : Type 0} → Action A → Action A
  in_tx body s = stmt (λ s'. close_tx s.tables (body s')) s
