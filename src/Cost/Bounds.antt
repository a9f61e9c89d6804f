-- ===== src/Cost/Bounds.antt =====
-- A cost is the sum of its three parts, computed without loss when the products fit int64.
use native.Mathlib.Nat.{mul-zero, zero-mul}
use token_flux.Base.{
  ℕ, zero, suc, ◌*◌, ◌+◌, ◌-◌, ◌/◌, ◌<◌, ℤ, pos, ◌+ℤ◌, ◌-ℤ◌, int64, int64_id, half_modulus, ◌≡◌,
  sym, ap, ◌∙◌, arith, int_laws, if◌then◌else◌, leb, ltb_ℤ, sub_ℕ, Bool-cases, inl, inr, true, some,
}
use token_flux.Candidate.{ChannelCandidate}
use token_flux.Cost.{Usage, reported_hits, split_tokens, priced, cost_of, compute_cost, is_free}
use token_flux.Cost.Share.{quot-mul}

priced-pos : (a b : ℕ) → a * b < half_modulus → priced (pos a) (pos b) ≡ pos (a * b / 1000)
unfolding priced
priced-pos zero b h = ground (arith, zero-mul b)
priced-pos (suc a) zero h = ground (arith, mul-zero (suc a))
priced-pos (suc a) (suc b) h = ground (arith, quot-mul (suc a) (suc b) 1000 h)

sum-pos : (a b : ℕ) → a + b < half_modulus → int64 (pos a +ℤ pos b) ≡ pos (a + b)
sum-pos a b h = ap int64 sum ∙ int64_id (pos (a + b)) (omega arith)
  where
    sum : pos a +ℤ pos b ≡ pos (a + b)
    sum = omega int_laws

-- The hits and misses charged for a prompt of p tokens with h reported hits.
abbrev pub hits_of : ℕ → ℕ → ℕ
hits_of p h = if leb h p then h else 0

abbrev pub misses_of : ℕ → ℕ → ℕ
misses_of p h = if leb h p then p - h else p

difference : (p h : ℕ) → p < half_modulus → h < half_modulus → int64 (pos p -ℤ pos h) ≡ sub_ℕ p h
unfolding ◌-ℤ◌
difference p h pf hf = int64_id (pos p -ℤ pos h) (ground arith) ∙ ground arith

split_difference :
    (p h : ℕ)
    → ◌≡◌ {A = ℤ × ℤ}
        (if ltb_ℤ (sub_ℕ p h) (pos 0) then (pos 0, pos p) else (pos h, sub_ℕ p h))
        (pos (hits_of p h), pos (misses_of p h))
split_difference p h = ground arith

split-pos :
    (u : Usage) (p h : ℕ)
    → u.prompt_tokens ≡ pos p
    → reported_hits u.prompt_tokens_details ≡ pos h
    → p < half_modulus
    → h < half_modulus
    → split_tokens u ≡ (pos (hits_of p h), pos (misses_of p h))
unfolding split_tokens
split-pos u p h e f pf hf = rw (e, f, difference p h pf hf) (split_difference p h)

-- Every prompt token is charged once, as a hit or as a miss.
hits_misses : (p h : ℕ) → hits_of p h + misses_of p h ≡ p
hits_misses p h = ground arith

module _ (u : Usage) (c : ChannelCandidate) (p h o : ℕ) (hit_price miss_price output_price : ℕ)
    (prompt : u.prompt_tokens ≡ pos p) (cached : reported_hits u.prompt_tokens_details ≡ pos h)
    (output : u.completion_tokens ≡ pos o) (hit : c.cache_hit_price_per_1k ≡ pos hit_price)
    (miss : c.cache_miss_price_per_1k ≡ pos miss_price)
    (out : c.output_price_per_1k ≡ pos output_price) (p_fits : p < half_modulus)
    (h_fits : h < half_modulus)
    (fits : hit_price * hits_of p h + miss_price * misses_of p h + output_price * o
      < half_modulus) where
  abbrev parts : ℕ
  parts =
      hit_price * hits_of p h / 1000 + miss_price * misses_of p h / 1000 + output_price * o / 1000

  sum_of_parts :
      int64 (
        int64 (
          priced c.cache_hit_price_per_1k (split_tokens u).0
          +ℤ priced c.cache_miss_price_per_1k (split_tokens u).1)
        +ℤ priced c.output_price_per_1k u.completion_tokens)
      ≡ pos parts
  sum_of_parts =
      rw
        (
          split-pos u p h prompt cached p_fits h_fits,
          hit,
          miss,
          out,
          output,
          priced-pos hit_price (hits_of p h) (omega arith),
          priced-pos miss_price (misses_of p h) (omega arith),
          priced-pos output_price o (omega arith),
        )
        (rw
          (sum-pos (hit_price * hits_of p h / 1000) (miss_price * misses_of p h / 1000)
            (omega arith))
          (sum-pos (hit_price * hits_of p h / 1000 + miss_price * misses_of p h / 1000)
            (output_price * o / 1000) (omega arith)))

  free : is_free c ≡ true → parts ≡ 0
  free e =
      let z1 : hit_price ≡ 0 = ground (arith, hit) in
      let z2 : miss_price ≡ 0 = ground (arith, miss) in
      let z3 : output_price ≡ 0 = ground (arith, out) in rw (z1, z2, z3) (omega arith)

  -- For counts and prices that are not negative and whose products fit int64, the cost is each price
  -- times its tokens over 1000, rounded down and summed; each prompt token is charged once, as a hit or
  -- as a miss.
  pub compute_cost-parts :
      (compute_cost (some u) (some c) ≡ pos parts) × (hits_of p h + misses_of p h ≡ p)
  unfolding compute_cost cost_of
  compute_cost-parts = (
    elim (Bool-cases (is_free c)) [
      | inl e ↦ rw e (ap pos (sym (free e)))
      | inr e ↦ rw e sum_of_parts
    ],
    hits_misses p h,
  )
