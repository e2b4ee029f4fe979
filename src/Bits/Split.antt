-- ===== src/Bits/Split.antt =====
-- A digitwise operation acts on the digits above and below any place separately.
use Prim.Native.Nat.{min, max, differ}
use native.Mathlib.Nat.{
  pow-succ', div-div-eq-div-mul, one-le-pow, mod-eq-sub-mul-div, mul-div-le, div-one, mod-one,
}
use psycho.Prelude.{ℕ, zero, suc, ◌+◌, ◌*◌, ◌/◌, ◌%◌, ◌^◌, ◌<◌}
use psycho.Prelude.{bit_and, bit_or, bit_xor, ◌≡◌, refl, sym, ap, arith}
use psycho.Bits.Step.{bit_and_step, bit_or_step, bit_xor_step}

-- Halving commutes with cutting at a place.
div_half : (a k : ℕ) → a / 2 ^ suc k ≡ a / 2 / 2 ^ k
div_half a k = rw (pow-succ' 2 k) (sym (div-div-eq-div-mul a 2 (2 ^ k)))

mod_half : (a p : ℕ) → 0 < p → a % (2 * p) ≡ a / 2 % p * 2 + a % 2
mod_half a p h = omega (
  arith,
  mod-eq-sub-mul-div a (2 * p),
  mod-eq-sub-mul-div (a / 2) p,
  mul-div-le (a / 2) p,
  div-div-eq-div-mul a 2 p,
  ap (λ (t : ℕ). p * t) (div-div-eq-div-mul a 2 p),
)

pub mod_low : (a k : ℕ) → a % 2 ^ suc k ≡ a / 2 % 2 ^ k * 2 + a % 2
mod_low a k = rw (pow-succ' 2 k) (mod_half a (2 ^ k) (one-le-pow k 2 (omega arith)))

low_half : (a k : ℕ) → a % 2 ^ suc k / 2 ≡ a / 2 % 2 ^ k
low_half a k = omega (arith, pow-succ' 2 k, mod_low a k)

low_digit : (a k : ℕ) → a % 2 ^ suc k % 2 ≡ a % 2
low_digit a k = omega (arith, mod_low a k)

module _ (op f : ℕ → ℕ → ℕ) (step : (a b : ℕ) → op a b ≡ op (a / 2) (b / 2) * 2 + f (a % 2) (b % 2))
    (op_zero : op 0 0 ≡ 0) (f_small : (x y : ℕ) → x < 2 → y < 2 → f x y < 2) where
  op_split : (k a b : ℕ) → op a b ≡ op (a / 2 ^ k) (b / 2 ^ k) * 2 ^ k + op (a % 2 ^ k) (b % 2 ^ k)
  op_split zero a b = rw (div-one a, div-one b, mod-one a, mod-one b, op_zero) (omega arith)
  op_split (suc k) a b = ground (
    arith,
    step a b,
    step (a % 2 ^ suc k) (b % 2 ^ suc k),
    op_split k (a / 2) (b / 2),
    div_half a k,
    div_half b k,
    low_half a k,
    low_half b k,
    low_digit a k,
    low_digit b k,
    ap (λ (t : ℕ). op (a / 2 / 2 ^ k) (b / 2 / 2 ^ k) * t) (pow-succ' 2 k),
  )

  op-lt : (k a b : ℕ) → a < 2 ^ k → b < 2 ^ k → op a b < 2 ^ k
  op-lt zero zero zero p q = omega (arith, op_zero)
  op-lt zero zero (suc b) p q = absurd (omega arith)
  op-lt zero (suc a) b p q = absurd (omega arith)
  op-lt (suc k) a b p q = omega (
    arith,
    step a b,
    pow-succ' 2 k,
    op-lt k (a / 2) (b / 2) (omega (arith, pow-succ' 2 k)) (omega (arith, pow-succ' 2 k)),
    f_small (a % 2) (b % 2) (omega arith) (omega arith),
  )

pub bit_and_split :
    (k a b : ℕ)
    → bit_and a b ≡ bit_and (a / 2 ^ k) (b / 2 ^ k) * 2 ^ k + bit_and (a % 2 ^ k) (b % 2 ^ k)
bit_and_split = op_split bit_and min bit_and_step refl (λ x y p q. omega arith)

pub bit_or_split :
    (k a b : ℕ)
    → bit_or a b ≡ bit_or (a / 2 ^ k) (b / 2 ^ k) * 2 ^ k + bit_or (a % 2 ^ k) (b % 2 ^ k)
bit_or_split = op_split bit_or max bit_or_step refl (λ x y p q. omega arith)

differ_small : (x y : ℕ) → x < 2 → y < 2 → differ x y < 2
differ_small zero y p q = q
differ_small (suc x) zero p q = p
differ_small (suc zero) (suc zero) p q = omega arith
differ_small (suc zero) (suc (suc y)) p q = absurd (omega arith)
differ_small (suc (suc x)) (suc y) p q = absurd (omega arith)

pub bit_xor_split :
    (k a b : ℕ)
    → bit_xor a b ≡ bit_xor (a / 2 ^ k) (b / 2 ^ k) * 2 ^ k + bit_xor (a % 2 ^ k) (b % 2 ^ k)
bit_xor_split = op_split bit_xor differ bit_xor_step refl differ_small

-- An operation on two words of `k` bits gives a word of `k` bits.
pub bit_or-lt : (k a b : ℕ) → a < 2 ^ k → b < 2 ^ k → bit_or a b < 2 ^ k
bit_or-lt = op-lt bit_or max bit_or_step refl (λ x y p q. omega arith)

pub bit_xor-lt : (k a b : ℕ) → a < 2 ^ k → b < 2 ^ k → bit_xor a b < 2 ^ k
bit_xor-lt = op-lt bit_xor differ bit_xor_step refl differ_small
