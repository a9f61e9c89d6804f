-- ===== src/Store/Outcomes.antt =====
-- What a query read, and actions that never fail.
use token_flux.Base.{◌≡◌, refl, ◌∙◌, Bool, true, false, if◌then◌else◌}
use token_flux.Store.{
  World, State, Tables, Result, ok, err, db, Action, ◌>>=◌, pure, attempt, query,
}
use token_flux.Store.Steps.{tick, >>=-runs}

-- What a query that went through has read.
pub query-found :
    {A : Type 0} (w : World) (g : Tables → A) (s : State) {a : A} {t : State}
    → query w g s ≡ (ok a, t)
    → (a ≡ g s.tables) × (t ≡ tick s)
query-found {A} w g s {a} {t} h = cases (w.fails s.calls) h
  where
    cases :
        (c : Bool)
        → ◌≡◌ {A = Result A × State}
            (if c then (err db, tick s) else (ok (g s.tables), tick s))
            (ok a, t)
        → (a ≡ g s.tables) × (t ≡ tick s)
    cases true k = absurd (cc)
    cases false k = (cc, cc)

-- An action that never fails.
abbrev pub IsTotal : {A : Type 0} → Action A → Type 0
IsTotal {A} m = (s : State) → (a : A) × (t : State) × (m s ≡ (ok a, t))

pub >>=-IsTotal :
    {A B : Type 0} (m : Action A) (f : A → Action B)
    → IsTotal m
    → ((a : A) → IsTotal (f a))
    → IsTotal (m >>= f)
>>=-IsTotal m f hm hf s =
    let (a, t, e) = hm s in let (b, u, k) = hf a t in (b, u, >>=-runs m f s e ∙ k)

pub pure-IsTotal : {A : Type 0} (a : A) → IsTotal (pure a)
pure-IsTotal a s = (a, s, refl)

pub attempt-IsTotal : {A : Type 0} (m : Action A) → IsTotal (attempt m)
attempt-IsTotal m s = ((m s).0, (m s).1, refl)

pub if-IsTotal :
    {A : Type 0} (b : Bool) (m n : Action A) → IsTotal m → IsTotal n → IsTotal (if b then m else n)
if-IsTotal true m n h k = h
if-IsTotal false m n h k = k
