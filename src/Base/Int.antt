-- ===== src/Base/Int.antt =====
-- Signed integers over the native numbers, and Go's int64 with its wrap-around.
use Prim.Native.Nat.{ℕ, suc, ◌+◌, ◌-◌, ◌*◌, ◌/◌, ◌%◌, ◌≤◌, ◌<◌}
use mathlib.Core.Path.{◌≡◌, ap}
use mathlib.Core.Bool.{Bool}
use native.Mathlib.Omega.{arith}
use token_flux.Base.Tests.{ltb, leb, ◌==◌, if◌then◌else◌}

-- `negsuc n` is -(n + 1).
pub data ℤ : Type 0 where
  pos : ℕ → ℤ
  negsuc : ℕ → ℤ

abbrev pub pos_part : ℤ → ℕ
pos_part (pos n) = n
pos_part (negsuc n) = 0

abbrev pub neg_part : ℤ → ℕ
neg_part (pos n) = 0
neg_part (negsuc n) = suc n

-- a - b, as an integer.
abbrev pub sub_ℕ : ℕ → ℕ → ℤ
sub_ℕ a b = if leb b a then pos (a - b) else negsuc (b - a - 1)

infixl 65 ◌+ℤ◌ ◌-ℤ◌
infixl 70 ◌*ℤ◌
infix 50 ◌≤ℤ◌
unfoldable pub ◌+ℤ◌ : ℤ → ℤ → ℤ
a +ℤ b = sub_ℕ (pos_part a + pos_part b) (neg_part a + neg_part b)

unfoldable pub ◌-ℤ◌ : ℤ → ℤ → ℤ
a -ℤ b = sub_ℕ (pos_part a + neg_part b) (neg_part a + pos_part b)

unfoldable pub ◌*ℤ◌ : ℤ → ℤ → ℤ
a *ℤ b =
    sub_ℕ (pos_part a * pos_part b + neg_part a * neg_part b)
      (pos_part a * neg_part b + neg_part a * pos_part b)

abbrev pub ◌≤ℤ◌ : ℤ → ℤ → Type 0
a ≤ℤ b = pos_part a + neg_part b ≤ pos_part b + neg_part a

abbrev pub ltb_ℤ : ℤ → ℤ → Bool
ltb_ℤ a b = ltb (pos_part a + neg_part b) (pos_part b + neg_part a)

abbrev pub leb_ℤ : ℤ → ℤ → Bool
leb_ℤ a b = leb (pos_part a + neg_part b) (pos_part b + neg_part a)

abbrev pub eq_ℤ : ℤ → ℤ → Bool
eq_ℤ a b = (pos_part a + neg_part b) == (pos_part b + neg_part a)

pub +ℤ_parts :
    (a b : ℤ)
    → pos_part (a +ℤ b) + neg_part a + neg_part b ≡ neg_part (a +ℤ b) + pos_part a + pos_part b
unfolding ◌+ℤ◌
+ℤ_parts a b = ground arith

pub -ℤ_parts :
    (a b : ℤ)
    → pos_part (a -ℤ b) + neg_part a + pos_part b ≡ neg_part (a -ℤ b) + pos_part a + neg_part b
unfolding ◌-ℤ◌
-ℤ_parts a b = ground arith

pub eq_of_parts : (a b : ℤ) → pos_part a + neg_part b ≡ pos_part b + neg_part a → a ≡ b
eq_of_parts a b h = ground arith

-- Go's `/` on int64 truncates towards zero; the divisors of the program are positive constants.
unfoldable pub quot_ℤ : ℤ → ℕ → ℤ
quot_ℤ (pos n) k = pos (n / k)
quot_ℤ (negsuc n) k = sub_ℕ 0 (suc n / k)

abbrev pub modulus : ℕ
modulus = 18446744073709551616

abbrev pub half_modulus : ℕ
half_modulus = 9223372036854775808

-- The 64-bit pattern of an integer.
unfoldable pub residue : ℤ → ℕ
residue (pos n) = n % modulus
residue (negsuc n) = modulus - 1 - n % modulus

-- The int64 that a bit pattern stands for.
abbrev pub signed : ℕ → ℤ
signed r = if ltb r half_modulus then pos r else negsuc (modulus - 1 - r)

-- What an int64 variable holds after an integer result is stored in it.
unfoldable pub int64 : ℤ → ℤ
unfolding residue
int64 z = signed (residue z)

abbrev pub InRange : ℤ → Type 0
InRange z = (pos_part z < half_modulus) × (neg_part z ≤ half_modulus)

pub residue-lt : (z : ℤ) → residue z < modulus
unfolding residue
residue-lt (pos n) = omega arith
residue-lt (negsuc n) = omega arith

signed-residue : (r : ℕ) → r < modulus → residue (signed r) ≡ r
unfolding residue
signed-residue r h = ground arith

pub residue-int64 : (z : ℤ) → residue (int64 z) ≡ residue z
unfolding int64
residue-int64 z = signed-residue (residue z) (residue-lt z)

pub int64-InRange : (z : ℤ) → InRange (int64 z)
unfolding int64
int64-InRange z = ground (arith, residue-lt z)

pub int64_id : (z : ℤ) → InRange z → int64 z ≡ z
unfolding int64 residue
int64_id (pos n) h = ground arith
int64_id (negsuc n) h = ground arith

residue-sub : (a b : ℕ) → (residue (sub_ℕ a b) + b) % modulus ≡ a % modulus
unfolding residue
residue-sub a b = ground arith

residue_parts : (z : ℤ) → (residue z + neg_part z) % modulus ≡ pos_part z % modulus
unfolding residue
residue_parts (pos n) = omega arith
residue_parts (negsuc n) = omega arith

pub residue-+ : (a b : ℤ) → residue (a +ℤ b) ≡ (residue a + residue b) % modulus
residue-+ a b = omega (
  arith,
  residue_parts a,
  residue_parts b,
  residue_parts (a +ℤ b),
  +ℤ_parts a b,
  residue-lt (a +ℤ b),
)

pub residue_inj : (a b : ℤ) → InRange a → InRange b → residue a ≡ residue b → a ≡ b
residue_inj a b ha hb e =
    eq_of_parts a b (omega (arith, residue_parts a, residue_parts b, residue-lt a))

pub int64_cong : (a b : ℤ) → residue a ≡ residue b → int64 a ≡ int64 b
unfolding int64
int64_cong a b h = ap signed h

-- Adding the int64 of -a is subtracting a.
pub int64-sub : (b a : ℤ) → int64 (b +ℤ int64 (pos 0 -ℤ a)) ≡ int64 (b -ℤ a)
int64-sub b a = int64_cong _ _ (
    omega (
      arith,
      residue-+ b (int64 (pos 0 -ℤ a)),
      residue-int64 (pos 0 -ℤ a),
      residue_parts a,
      residue_parts b,
      residue_parts (b -ℤ a),
      residue_parts (pos 0 -ℤ a),
      -ℤ_parts b a,
      -ℤ_parts (pos 0) a,
      residue-lt (b -ℤ a),
      residue-lt (b +ℤ int64 (pos 0 -ℤ a)),
    ))

pub sub-InRange : (b a : ℤ) → pos 0 ≤ℤ a → a ≤ℤ b → InRange b → InRange (b -ℤ a)
unfolding ◌-ℤ◌
sub-InRange b a p q r = ground arith

pub ruleset int_laws = (arith, +ℤ_parts, -ℤ_parts, eq_of_parts)
