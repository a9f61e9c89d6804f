-- ===== src/Override/Sequence.antt =====
-- The rules of a channel run in order, and the first error ends the run
-- (server/internal/relay/override/override.go, `applyOperations`).
use token_flux.Base.{List, [], ◌∷◌, ◌++◌, ◌≡◌, refl, Bool-cases, inl, inr}
use token_flux.Override.Value.{Context, Operation, Outcome, done, failed, Library}
use token_flux.Override.Conditions.{check_conditions}
use token_flux.Override.Run.{apply_single_operation, apply_operations, and_then}

and_then_assoc :
    {A : Type 0} (f g h : A → Context → Outcome A × Context)
    → ((a : A) (ctx : Context) → f a ctx ≡ and_then h (g a ctx))
    → (r : Outcome A × Context) → and_then f r ≡ and_then h (and_then g r)
unfolding and_then
and_then_assoc f g h e (done a, ctx) = e a ctx
and_then_assoc f g h e (failed x, ctx) = refl

-- Running two lists of rules one after the other is running the first, and then, on the body and the
-- context that it leaves, the second; when the first ends with an error, that is the result, with the
-- context as it was then, and no rule of the second has run.
pub apply_operations-append :
    (L : Library) (xs ys : List Operation) (body : L.Doc) (ctx : Context)
    → apply_operations L body (xs ++ ys) ctx
      ≡ and_then (λ result ctx'. apply_operations L result ys ctx') (apply_operations L body xs ctx)
unfolding apply_operations and_then
apply_operations-append L [] ys body ctx = refl
apply_operations-append L (op ∷ xs) ys body ctx =
    elim (Bool-cases (check_conditions L body ctx op.conditions op.logic)) [
      | inl e ↦ rw e (
          and_then_assoc (λ b c. apply_operations L b (xs ++ ys) c)
            (λ b c. apply_operations L b xs c) (λ b c. apply_operations L b ys c)
            (apply_operations-append L xs ys) (apply_single_operation L body op ctx))
      | inr e ↦ rw e (apply_operations-append L xs ys body ctx)
    ]
