-- ===== src/Cost/Share.antt =====
-- The provider's share of a cost and the platform's commission.
use token_flux.Base.{
  ℕ, zero, suc, ◌*◌, ◌+◌, ◌/◌, ◌≤◌, ◌<◌, ◌-◌, ◌==◌, pos, ◌-ℤ◌, ◌*ℤ◌, quot_ℤ, int64, int64_id,
  half_modulus, ◌≡◌, refl, ap, ◌∙◌, arith, int_laws, if◌then◌else◌,
}
use native.Mathlib.Nat.{mul-le-mul_left}
use token_flux.Cost.{calc_revenue}

pos-mul : (a b : ℕ) → pos a *ℤ pos b ≡ pos (a * b)
unfolding ◌*ℤ◌
pos-mul a b = ground arith

int64-mul : (a b : ℕ) → a * b < half_modulus → int64 (pos a *ℤ pos b) ≡ pos (a * b)
int64-mul a b h = ap int64 (pos-mul a b) ∙ int64_id (pos (a * b)) (omega arith)

pub quot-mul :
    (a b k : ℕ) → a * b < half_modulus → quot_ℤ (int64 (pos a *ℤ pos b)) k ≡ pos (a * b / k)
unfolding quot_ℤ
quot-mul a b k h = rw (int64-mul a b h) refl

share_le : (cost bps : ℕ) → bps ≤ 10000 → cost * bps / 10000 ≤ cost
share_le cost bps h = omega (arith, mul-le-mul_left cost h)

-- The basis points in force.
abbrev pub share_of : ℕ → ℕ
share_of bps = if bps == 0 then 8000 else bps

revenue_value :
    (cost bps : ℕ)
    → cost * 8000 < half_modulus
    → cost * bps < half_modulus
    → calc_revenue (pos cost) (pos bps) ≡ pos (cost * share_of bps / 10000)
unfolding calc_revenue
revenue_value cost zero h k = quot-mul cost 8000 10000 h
revenue_value cost (suc n) h k = ground (arith, quot-mul cost (suc n) 10000 k)

pub int64-rest : (a b : ℕ) → b ≤ a → a < half_modulus → int64 (pos a -ℤ pos b) ≡ pos (a - b)
int64-rest a b h fit = ap int64 rest ∙ int64_id (pos (a - b)) (omega arith)
  where
    rest : pos a -ℤ pos b ≡ pos (a - b)
    rest = omega int_laws

-- For a share of 1 to 10000 basis points (80% when none is set) the provider's revenue is that share of
-- the cost, rounded down; the commission, cost less revenue, is not negative and the two add up to the
-- cost. The cost is small enough for the product to fit int64.
pub calc_revenue-share :
    (cost bps : ℕ)
    → bps ≤ 10000
    → cost * 10000 < half_modulus
    → (calc_revenue (pos cost) (pos bps) ≡ pos (cost * share_of bps / 10000))
      × ((c : ℕ) × (int64 (pos cost -ℤ calc_revenue (pos cost) (pos bps)) ≡ pos c)
          × (cost * share_of bps / 10000 + c ≡ cost))
calc_revenue-share cost bps h fit =
    let r = cost * share_of bps / 10000 in
    let small : share_of bps ≤ 10000 = ground arith in
    let le : r ≤ cost = share_le cost (share_of bps) small in
    let e : calc_revenue (pos cost) (pos bps) ≡ pos r =
      revenue_value cost bps (omega arith) (omega (arith, mul-le-mul_left cost h)) in
    (
      e,
      (
        cost - r,
        ap (λ z. int64 (pos cost -ℤ z)) e ∙ int64-rest cost r le (omega arith),
        omega (arith, le),
      ),
    )
