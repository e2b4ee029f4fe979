-- ===== src/Bits.antt =====
-- `&`, `|` and `^` at variables: masks, disjoint fields, and the values at zero.
mod Step
mod Split
use Prim.Native.Nat.{differ, bit_and-bitwise, bit_or-bitwise}
use psycho.Prelude.{ℕ, zero, suc, ◌+◌, ◌-◌, ◌*◌, ◌/◌, ◌%◌, ◌^◌, ◌≤◌, ◌<◌, bit_and, bit_or, bit_xor}
use psycho.Prelude.{◌≡◌, refl, ap, arith}
use native.Mathlib.Nat.{
  pow-succ', one-le-pow, mul-div_left, mul-mod_left, div-eq_of_lt, mod-eq_of_lt,
}
use native.Mathlib.Nat.{mod_self, div_self, mul-add-mod_self_right, div-eq_of_lt-le, mul_comm}
use Step.{bit_and_step, bit_or_step, bit_xor_step}
pub use Split.{bit_and_split, bit_or_split, bit_xor_split, bit_or-lt, bit_xor-lt, mod_low}

-- The three inductions go from `a / 2` to `a`, with a bound on `a` as the fuel.
bit_and-le_fuel : (n a b : ℕ) → a ≤ n → (bit_and a b ≤ a) × (bit_and a b ≤ b)
bit_and-le_fuel n zero b h = omega (arith, bit_and-bitwise 0 b)
bit_and-le_fuel zero (suc a) b h = absurd (omega arith)
bit_and-le_fuel (suc n) (suc a) b h =
    omega (arith, bit_and_step (suc a) b, bit_and-le_fuel n (suc a / 2) (b / 2) (omega arith))

pub bit_and-le_left : (a b : ℕ) → bit_and a b ≤ a
bit_and-le_left a b = omega (arith, bit_and-le_fuel a a b (omega arith))

pub bit_and-le_right : (a b : ℕ) → bit_and a b ≤ b
bit_and-le_right a b = omega (arith, bit_and-le_fuel a a b (omega arith))

pub bit_and-zero : (a : ℕ) → bit_and a 0 ≡ 0
bit_and-zero a = omega (arith, bit_and-le_right a 0)

pub zero-bit_and : (b : ℕ) → bit_and 0 b ≡ 0
zero-bit_and b = omega (arith, bit_and-le_left 0 b)

bit_or-zero_fuel : (n a : ℕ) → a ≤ n → bit_or a 0 ≡ a
bit_or-zero_fuel n zero h = refl
bit_or-zero_fuel zero (suc a) h = absurd (omega arith)
bit_or-zero_fuel (suc n) (suc a) h =
    omega (arith, bit_or_step (suc a) 0, bit_or-zero_fuel n (suc a / 2) (omega arith))

pub bit_or-zero : (a : ℕ) → bit_or a 0 ≡ a
bit_or-zero a = bit_or-zero_fuel a a (omega arith)

pub zero-bit_or : (b : ℕ) → bit_or 0 b ≡ b
zero-bit_or b = bit_or-bitwise 0 b

half_of_ones : (p : ℕ) → 1 ≤ p → (2 * p - 1) / 2 ≡ p - 1
half_of_ones p h = omega arith

ones_odd : (p : ℕ) → 1 ≤ p → (2 * p - 1) % 2 ≡ 1
ones_odd p h = omega arith

-- A mask of `k` ones keeps the low `k` bits.
pub bit_and_mask : (k a : ℕ) → bit_and a (2 ^ k - 1) ≡ a % 2 ^ k
bit_and_mask zero a = omega (arith, bit_and-zero a)
bit_and_mask (suc k) a = ground (
  arith,
  bit_and_step a (2 ^ suc k - 1),
  bit_and_mask k (a / 2),
  mod_low a k,
  half_of_ones (2 ^ k) (one-le-pow k 2 (omega arith)),
  ones_odd (2 ^ k) (one-le-pow k 2 (omega arith)),
  pow-succ' 2 k,
)

-- `|` of fields that do not overlap is their sum.
pub bit_or_fields : (k q r : ℕ) → r < 2 ^ k → bit_or (q * 2 ^ k) r ≡ q * 2 ^ k + r
bit_or_fields k q r h = ground (
  arith,
  bit_or_split k (q * 2 ^ k) r,
  mul-div_left q (one-le-pow k 2 (omega arith)),
  mul-mod_left q (2 ^ k),
  div-eq_of_lt h,
  mod-eq_of_lt h,
  bit_or-zero q,
  zero-bit_or r,
)

pub bit_or_fields_right : (k q r : ℕ) → r < 2 ^ k → bit_or r (q * 2 ^ k) ≡ q * 2 ^ k + r
bit_or_fields_right k q r h = ground (
  arith,
  bit_or_split k r (q * 2 ^ k),
  mul-div_left q (one-le-pow k 2 (omega arith)),
  mul-mod_left q (2 ^ k),
  div-eq_of_lt h,
  mod-eq_of_lt h,
  bit_or-zero r,
  zero-bit_or q,
)

differ-zero : (x : ℕ) → differ x 0 ≡ x
differ-zero zero = refl
differ-zero (suc x) = refl

mul-add-div : (q p r : ℕ) → r < p → (q * p + r) / p ≡ q
mul-add-div q p r h = div-eq_of_lt-le p (omega (arith, mul_comm q p)) (omega (arith, mul_comm q p))

bit_xor-zero_fuel : (n a : ℕ) → a ≤ n → bit_xor a 0 ≡ a
bit_xor-zero_fuel n zero h = refl
bit_xor-zero_fuel zero (suc a) h = absurd (omega arith)
bit_xor-zero_fuel (suc n) (suc a) h = omega (
  arith,
  bit_xor_step (suc a) 0,
  differ-zero (suc a % 2),
  bit_xor-zero_fuel n (suc a / 2) (omega arith),
)

pub bit_xor-zero : (a : ℕ) → bit_xor a 0 ≡ a
bit_xor-zero a = bit_xor-zero_fuel a a (omega arith)

-- Flipping the top bit of a word of `k + 1` bits.
pub bit_xor_top :
    (k q r : ℕ) → r < 2 ^ k → bit_xor (q * 2 ^ k + r) (2 ^ k) ≡ bit_xor q 1 * 2 ^ k + r
bit_xor_top k q r h = ground (
  arith,
  bit_xor_split k (q * 2 ^ k + r) (2 ^ k),
  mul-add-div q (2 ^ k) r h,
  mod-eq_of_lt h,
  mul-add-mod_self_right q (2 ^ k) r,
  div_self (one-le-pow k 2 (omega arith)),
  mod_self (2 ^ k),
  bit_xor-zero r,
)

differ-one : (x : ℕ) → x < 2 → differ x 1 ≡ 1 - x
differ-one zero h = refl
differ-one (suc zero) h = refl
differ-one (suc (suc x)) h = absurd (omega arith)

-- `^` with `k` ones is the complement of a word of `k` bits.
pub bit_xor_mask : (k a : ℕ) → a < 2 ^ k → bit_xor a (2 ^ k - 1) ≡ 2 ^ k - 1 - a
bit_xor_mask zero a h = omega (arith, bit_xor-zero a)
bit_xor_mask (suc k) a h = ground (
  arith,
  bit_xor_step a (2 ^ suc k - 1),
  bit_xor_mask k (a / 2) (omega (arith, pow-succ' 2 k)),
  ap (differ (a % 2)) (ones_odd (2 ^ k) (one-le-pow k 2 (omega arith))),
  differ-one (a % 2) (omega arith),
  half_of_ones (2 ^ k) (one-le-pow k 2 (omega arith)),
  ones_odd (2 ^ k) (one-le-pow k 2 (omega arith)),
  pow-succ' 2 k,
)

-- A mask of `n` ones over `k` zeros keeps a field of `n` bits.
pub bit_and_field : (k n a : ℕ) → bit_and a ((2 ^ n - 1) * 2 ^ k) ≡ a / 2 ^ k % 2 ^ n * 2 ^ k
bit_and_field k n a = ground (
  arith,
  bit_and_split k a ((2 ^ n - 1) * 2 ^ k),
  mul-div_left (2 ^ n - 1) (one-le-pow k 2 (omega arith)),
  mul-mod_left (2 ^ n - 1) (2 ^ k),
  bit_and_mask n (a / 2 ^ k),
  bit_and-zero (a % 2 ^ k),
)
