-- ===== src/Bits/Step.antt =====
-- One binary digit of `&`, `|` and `^`, from the recursion that the native operations stand for.
use Prim.Native.Nat.{differ, digits, bitwise, min, max}
use Prim.Native.Nat.{bit_and-bitwise, bit_or-bitwise, bit_xor-bitwise}
use psycho.Prelude.{ℕ, zero, suc, bit_and, bit_or, bit_xor, ◌≡◌, refl, arith}
use psycho.Prelude.{◌≤◌, ◌+◌, ◌*◌, ◌/◌, ◌%◌}

-- What the recursion does at `x` of `suc k` does not depend on fuel above `x`.
module _ (at_zero : ℕ → ℕ) (op : ℕ → ℕ → ℕ) where
  enough_fuel :
      (x y fuel more : ℕ)
      → x ≤ fuel
      → x ≤ more
      → digits at_zero op fuel x y ≡ digits at_zero op more x y
  enough_fuel zero y zero zero h k = refl
  enough_fuel zero y zero (suc more) h k = refl
  enough_fuel zero y (suc fuel) zero h k = refl
  enough_fuel zero y (suc fuel) (suc more) h k = refl
  enough_fuel (suc x) y zero more h k = absurd (omega arith)
  enough_fuel (suc x) y (suc fuel) zero h k = absurd (omega arith)
  enough_fuel (suc x) y (suc fuel) (suc more) h k =
      rw (enough_fuel (suc x / 2) (y / 2) fuel more (omega arith) (omega arith))

  lowest_digit :
      (x y : ℕ)
      → bitwise at_zero op (suc x) y
        ≡ bitwise at_zero op (suc x / 2) (y / 2) * 2 + op (suc x % 2) (y % 2)
  lowest_digit x y =
      let half : ℕ = suc x / 2 in
      omega (arith, enough_fuel half (y / 2) x half (omega arith) (omega arith))

zero_plus : (y : ℕ) → y ≡ y / 2 * 2 + differ 0 (y % 2)
zero_plus y = omega arith

pub bit_xor_step : (x y : ℕ) → bit_xor x y ≡ bit_xor (x / 2) (y / 2) * 2 + differ (x % 2) (y % 2)
bit_xor_step zero y = simp bit_xor-bitwise (zero_plus y)
bit_xor_step (suc x) y = simp bit_xor-bitwise (lowest_digit (λ t. t) differ x y)

pub bit_or_step : (x y : ℕ) → bit_or x y ≡ bit_or (x / 2) (y / 2) * 2 + max (x % 2) (y % 2)
bit_or_step zero y = simp bit_or-bitwise omega arith
bit_or_step (suc x) y = simp bit_or-bitwise (lowest_digit (λ t. t) max x y)

pub bit_and_step : (x y : ℕ) → bit_and x y ≡ bit_and (x / 2) (y / 2) * 2 + min (x % 2) (y % 2)
bit_and_step zero y = simp bit_and-bitwise omega arith
bit_and_step (suc x) y = simp bit_and-bitwise (lowest_digit (λ t. 0) min x y)
