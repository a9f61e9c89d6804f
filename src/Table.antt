-- ===== src/Table.antt =====
-- One table of the database, for the parts of the code that touch no other: its rows, the identifier that its
-- BIGSERIAL column gives next, and the statements sent so far. Which statements fail is a parameter.
use token_flux.Base.{
  ℕ, suc, Bool, true, Option, none, some, List, [], ◌∷◌, first, keep, length, if◌then◌else◌, ◌≡◌,
  arith,
}
use token_flux.Store.{Result, ok, err, Error, db}

pub record Table (R : Type 0) : Type 0 where
  pub rows : List R
  pub next_id : ℕ
  pub sent : ℕ

abbrev pub TableAction : Type 0 → Type 0 → Type 0
TableAction R A = Table R → Result A × Table R

infixl 5 ◌>>=◌ ◌>>◌
abbrev pub ◌>>=◌ : {R A B : Type 0} → TableAction R A → (A → TableAction R B) → TableAction R B
◌>>=◌ m f t = let (r, t') = m t in elim r [ ok a ↦ f a t' | err e ↦ (err e, t') ]

abbrev pub ◌>>◌ : {R A B : Type 0} → TableAction R A → TableAction R B → TableAction R B
m >> k = m >>= λ _. k

abbrev pub finish : {R A : Type 0} → A → TableAction R A
finish a t = (ok a, t)

abbrev pub found_or : {R A : Type 0} → Option A → Error → TableAction R A
found_or none e t = (err e, t)
found_or (some a) e t = (ok a, t)

abbrev pub refuse_if : {R : Type 0} → Bool → Error → TableAction R (Unit {0})
refuse_if c e t = (if c then err e else ok tt, t)

-- The rows that pass a test are changed, the others stay.
unfoldable pub change : {R : Type 0} → (R → Bool) → (R → R) → List R → List R
change p f [] = []
change p f (r ∷ rs) = (if p r then f r else r) ∷ change p f rs

-- What is found passes the test.
pub first_sound :
    {A : Type 0} → (p : A → Bool) (xs : List A) (x : A) → first p xs ≡ some x → p x ≡ true
first_sound p [] x h = ground arith
first_sound p (y ∷ ys) x h = let rest = first_sound p ys x in ground (arith, rest)

-- Where the change keeps the test, the first row that passes it is the first one, changed.
pub first-change :
    {R : Type 0} (p : R → Bool) (f : R → R) (rs : List R) (a : R)
    → ((r : R) → p (f r) ≡ p r)
    → first p rs ≡ some a
    → first p (change p f rs) ≡ some (f a)
unfolding change
first-change p f [] a keeps h = ground arith
first-change p f (r ∷ rs) a keeps h =
    let rest = first-change p f rs a keeps in let kept = keeps r in ground (arith, rest, kept)

module _ {R : Type 0} (fails : ℕ → Bool) where
  abbrev pub sending : {A : Type 0} → TableAction R A → TableAction R A
  sending effect t =
      let t' = record t { sent = suc t.sent } in if fails t.sent then (err db, t') else effect t'

  -- SELECT … WHERE, of one row, and COUNT(*)
  abbrev pub select_one : (R → Bool) → TableAction R (Option R)
  select_one p = sending λ t. (ok (first p t.rows), t)

  abbrev pub count_rows : (R → Bool) → TableAction R ℕ
  count_rows p = sending λ t. (ok (length (keep p t.rows)), t)

  -- INSERT, with the test of the UNIQUE constraints, and UPDATE … WHERE, with the rows affected.
  abbrev pub insert_row : (R → Bool) → (ℕ → R) → TableAction R ℕ
  insert_row clash row = sending λ t. elim (first clash t.rows) [
    | some r ↦ (err db, t)
    | none ↦ (ok t.next_id, record t { rows = row t.next_id ∷ t.rows; next_id = suc t.next_id })
  ]

  abbrev pub update_rows : (R → Bool) → (R → R) → TableAction R ℕ
  update_rows p f =
      sending λ t. (ok (length (keep p t.rows)), record t { rows = change p f t.rows })
