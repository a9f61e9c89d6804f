-- ===== src/Scheduler/Weights.antt =====
-- The weighted draw: each candidate is picked for exactly as many draws as its weight.
use token_flux.Base.{
  ℕ, ◌+◌, ◌≤◌, ◌<◌, pos, ◌+ℤ◌, int64, int64_id, int_laws, half_modulus, ◌≡◌, refl, ap, ◌∙◌, sym,
  Bool, true, false, some, List, [], ◌∷◌, ◌++◌, ltb_ℤ, if◌then◌else◌, arith,
}
use token_flux.Candidate.{ChannelCandidate}
use token_flux.Scheduler.{weight_of, total_weight, pick_from, last_of, weighted_random_select}

-- The sum of the weights as a number.
unfoldable pub weight_sum : List ChannelCandidate → ℕ
weight_sum [] = 0
weight_sum (c ∷ cs) = weight_of c + weight_sum cs

weight_sum-append :
    (xs ys : List ChannelCandidate) → weight_sum (xs ++ ys) ≡ weight_sum xs + weight_sum ys
unfolding weight_sum
weight_sum-append [] ys = omega arith
weight_sum-append (x ∷ xs) ys = omega (arith, weight_sum-append xs ys)

int64-add : (a b : ℕ) → a + b < half_modulus → int64 (pos a +ℤ pos b) ≡ pos (a + b)
int64-add a b h = ap int64 sum ∙ int64_id (pos (a + b)) (omega arith)
  where
    sum : pos a +ℤ pos b ≡ pos (a + b)
    sum = omega int_laws

total_weight-sum :
    (acc : ℕ) (cs : List ChannelCandidate)
    → acc + weight_sum cs < half_modulus
    → total_weight (pos acc) cs ≡ pos (acc + weight_sum cs)
unfolding total_weight weight_sum
total_weight-sum acc [] h = omega int_laws
total_weight-sum acc (c ∷ cs) h =
    rw (int64-add acc (weight_of c) (omega arith))
      (total_weight-sum (acc + weight_of c) cs (omega arith) ∙ omega int_laws)

pick_from-interval :
    (cum r : ℕ) (last : ChannelCandidate) (xs ys : List ChannelCandidate) (c : ChannelCandidate)
    → cum + weight_sum (xs ++ c ∷ ys) < half_modulus
    → cum + weight_sum xs ≤ r
    → r < cum + weight_sum xs + weight_of c
    → pick_from (pos cum) r last (xs ++ c ∷ ys) ≡ c
unfolding pick_from weight_sum
pick_from-interval cum r last [] ys c fit lo hi =
    rw (int64-add cum (weight_of c) (omega arith)) (ground arith)
pick_from-interval cum r last (x ∷ xs) ys c fit lo hi =
    rw (int64-add cum (weight_of x) (omega arith)) (
      ground (
        arith,
        pick_from-interval (cum + weight_of x) r last xs ys c (omega arith) (omega arith)
            (omega arith),
      ))

positive :
    (xs ys : List ChannelCandidate) (c : ChannelCandidate) (r : ℕ)
    → r < weight_sum xs + weight_of c
    → 0 < weight_sum (xs ++ c ∷ ys)
unfolding weight_sum
positive xs ys c r h = omega (arith, weight_sum-append xs (c ∷ ys))

-- With a positive total the draw decides.
drawn :
    (rand : ℕ → ℕ) (d : ChannelCandidate) (ds : List ChannelCandidate)
    → weight_sum (d ∷ ds) < half_modulus
    → 0 < weight_sum (d ∷ ds)
    → weighted_random_select rand (d ∷ ds)
      ≡ some (pick_from (pos 0) (rand (weight_sum (d ∷ ds))) (last_of d ds) (d ∷ ds))
unfolding weighted_random_select
drawn rand d ds fit some_weight =
    let sum : total_weight (pos 0) (d ∷ ds) ≡ pos (weight_sum (d ∷ ds)) =
      total_weight-sum 0 (d ∷ ds) (omega arith) ∙ ap pos (omega arith) in
    rw sum (ground arith)

-- A candidate is picked whenever the draw falls into its interval, which begins at the sum of the
-- weights before it and is as long as its own weight. The intervals divide the draws below the total.
pub weighted_random_select-interval :
    (rand : ℕ → ℕ) (xs ys : List ChannelCandidate) (c : ChannelCandidate)
    → weight_sum (xs ++ c ∷ ys) < half_modulus
    → weight_sum xs ≤ rand (weight_sum (xs ++ c ∷ ys))
    → rand (weight_sum (xs ++ c ∷ ys)) < weight_sum xs + weight_of c
    → weighted_random_select rand (xs ++ c ∷ ys) ≡ some c
weighted_random_select-interval rand [] ys c fit lo hi =
    drawn rand c ys fit (positive [] ys c _ hi)
    ∙ ap some
        (pick_from-interval 0 _ (last_of c ys) [] ys c (omega arith) (omega arith) (omega arith))
weighted_random_select-interval rand (x ∷ xs) ys c fit lo hi =
    drawn rand x (xs ++ c ∷ ys) fit (positive (x ∷ xs) ys c _ hi)
    ∙ ap some (
        pick_from-interval 0 _ (last_of x (xs ++ c ∷ ys)) (x ∷ xs) ys c (omega arith) (omega arith)
          (omega arith))

pick_from-positive :
    (cum r : ℕ) (last : ChannelCandidate) (cs : List ChannelCandidate)
    → cum + weight_sum cs < half_modulus
    → cum ≤ r
    → r < cum + weight_sum cs
    → 0 < weight_of (pick_from (pos cum) r last cs)
unfolding pick_from weight_sum
pick_from-positive cum r last [] fit lo hi = absurd (omega arith)
pick_from-positive cum r last (c ∷ cs) fit lo hi = rw (int64-add cum (weight_of c) (omega arith)) (
    choose (λ p. pick_from-positive (cum + weight_of c) r last cs (omega arith) p (omega arith))
      (ltb_ℤ (pos r) (pos (cum + weight_of c))) refl)
  where
    choose :
        (cum + weight_of c ≤ r → 0 < weight_of (pick_from (pos (cum + weight_of c)) r last cs))
        → (b : Bool) → ltb_ℤ (pos r) (pos (cum + weight_of c)) ≡ b
        → 0 < weight_of (if b then c else pick_from (pos (cum + weight_of c)) r last cs)
    choose ih true e = ground arith
    choose ih false e = ih (ground arith)

-- Whenever the total is positive and the draw is below it, a candidate of positive weight is picked:
-- the fallback behind the loop is never reached, and a weight that degraded to 0 is never picked.
pub weighted_random_select-positive :
    (rand : ℕ → ℕ) (c d : ChannelCandidate) (cs : List ChannelCandidate)
    → weight_sum (c ∷ cs) < half_modulus
    → rand (weight_sum (c ∷ cs)) < weight_sum (c ∷ cs)
    → weighted_random_select rand (c ∷ cs) ≡ some d
    → 0 < weight_of d
weighted_random_select-positive rand c d cs fit below h =
    let e = sym (drawn rand c cs fit (omega arith)) ∙ h in
    let p =
      pick_from-positive 0 (rand (weight_sum (c ∷ cs))) (last_of c cs) (c ∷ cs) (omega arith)
        (omega arith) (omega arith) in
    ground (arith, e, p)
