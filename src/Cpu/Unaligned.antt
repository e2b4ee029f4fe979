-- ===== src/Cpu/Unaligned.antt =====
-- `lwl` with `lwr`, and `swl` with `swr`: together they move a word at any address.
pub mod Memory
pub mod Loads
pub mod Digits
pub mod Stores
pub mod Storing
use psycho.Prelude.{
  ℕ, zero, suc, ◌+◌, ◌-◌, ◌*◌, ◌/◌, ◌%◌, ◌^◌, ◌<◌, ◌≡◌, arith, bit_and, bit_or, ◌∙◌,
}
use native.Mathlib.Nat.{mod-lt, one-le-pow}
use psycho.Bits.{
  bit_and-zero, zero-bit_or, bit_and_field, bit_and_mask, bit_or_fields, bit_or_fields_right,
}
use psycho.Cpu.Access.{lwl_merge, lwr_merge, swl_merge, swr_merge}

-- The high bits of one word over the low bits of another, in both orders of `|`.
high_low :
    (k n a b : ℕ)
    → b < 2 ^ k
    → bit_or (bit_and a ((2 ^ n - 1) * 2 ^ k)) b ≡ a / 2 ^ k % 2 ^ n * 2 ^ k + b
high_low k n a b h = rw (bit_and_field k n a) (bit_or_fields k (a / 2 ^ k % 2 ^ n) b h)

low_high : (k x q a : ℕ) → x ≡ q * 2 ^ k → bit_or (bit_and a (2 ^ k - 1)) x ≡ q * 2 ^ k + a % 2 ^ k
low_high k x q a e =
    rw (bit_and_mask k a, e)
      (bit_or_fields_right k q (a % 2 ^ k) (mod-lt a (one-le-pow k 2 (omega arith))))

-- The four offsets of each merge.
pub lwr_merge_lem :
    (s r w : ℕ)
    → s < 4
    → r < 2 ^ 32
    → w < 2 ^ 32
    → lwr_merge (s * 8) r w ≡ r / 2 ^ (32 - s * 8) * 2 ^ (32 - s * 8) + w / 2 ^ (s * 8)
unfolding lwr_merge
lwr_merge_lem zero r w h hr hw =
    let e : bit_or (bit_and r 0) (w / 1) ≡ w =
      rw (bit_and-zero r, zero-bit_or (w / 1)) omega arith in
    e ∙ omega arith
lwr_merge_lem (suc zero) r w h hr hw = omega (arith, high_low 24 8 r (w / 2 ^ 8) (omega arith))
lwr_merge_lem (suc (suc zero)) r w h hr hw =
    omega (arith, high_low 16 16 r (w / 2 ^ 16) (omega arith))
lwr_merge_lem (suc (suc (suc zero))) r w h hr hw =
    omega (arith, high_low 8 24 r (w / 2 ^ 24) (omega arith))
lwr_merge_lem (suc (suc (suc (suc s)))) r w h hr hw = absurd (omega arith)

pub lwl_merge_lem :
    (s r w : ℕ)
    → s < 4
    → lwl_merge (s * 8) r w ≡ w % 2 ^ (s * 8 + 8) * 2 ^ (24 - s * 8) + r % 2 ^ (24 - s * 8)
unfolding lwl_merge
lwl_merge_lem zero r w h = low_high 24 _ (w % 2 ^ 8) r (omega arith)
lwl_merge_lem (suc zero) r w h = low_high 16 _ (w % 2 ^ 16) r (omega arith)
lwl_merge_lem (suc (suc zero)) r w h = low_high 8 _ (w % 2 ^ 24) r (omega arith)
lwl_merge_lem (suc (suc (suc zero))) r w h = low_high 0 _ (w % 2 ^ 32) r (omega arith)
lwl_merge_lem (suc (suc (suc (suc s)))) r w h = absurd (omega arith)

pub swr_merge_lem :
    (s r w : ℕ)
    → s < 4
    → swr_merge (s * 8) r w ≡ r % 2 ^ (32 - s * 8) * 2 ^ (s * 8) + w % 2 ^ (s * 8)
unfolding swr_merge
swr_merge_lem zero r w h = low_high 0 _ (r % 2 ^ 32) w (omega arith)
swr_merge_lem (suc zero) r w h = low_high 8 _ (r % 2 ^ 24) w (omega arith)
swr_merge_lem (suc (suc zero)) r w h = low_high 16 _ (r % 2 ^ 16) w (omega arith)
swr_merge_lem (suc (suc (suc zero))) r w h = low_high 24 _ (r % 2 ^ 8) w (omega arith)
swr_merge_lem (suc (suc (suc (suc s)))) r w h = absurd (omega arith)

pub swl_merge_lem :
    (s r w : ℕ)
    → s < 4
    → r < 2 ^ 32
    → w < 2 ^ 32
    → swl_merge (s * 8) r w ≡ w / 2 ^ (s * 8 + 8) * 2 ^ (s * 8 + 8) + r / 2 ^ (24 - s * 8)
unfolding swl_merge
swl_merge_lem zero r w h hr hw = omega (arith, high_low 8 24 w (r / 2 ^ 24) (omega arith))
swl_merge_lem (suc zero) r w h hr hw = omega (arith, high_low 16 16 w (r / 2 ^ 16) (omega arith))
swl_merge_lem (suc (suc zero)) r w h hr hw =
    omega (arith, high_low 24 8 w (r / 2 ^ 8) (omega arith))
swl_merge_lem (suc (suc (suc zero))) r w h hr hw =
    let e : bit_or (bit_and w 0) (r / 1) ≡ r =
      rw (bit_and-zero w, zero-bit_or (r / 1)) omega arith in
    e ∙ omega arith
swl_merge_lem (suc (suc (suc (suc s)))) r w h hr hw = absurd (omega arith)

-- A word at offset `s` above 0 of the aligned word `w0` goes on in the next aligned word, `w1`.
-- `lwr` at the word's address and then `lwl` at its last byte make the register that word,
-- whatever the register had.
pub lwl_merge-lwr_merge :
    (s r w0 w1 : ℕ)
    → 0 < s
    → s < 4
    → r < 2 ^ 32
    → w0 < 2 ^ 32
    → w1 < 2 ^ 32
    → lwl_merge (s * 8 - 8) (lwr_merge (s * 8) r w0) w1 ≡ (w1 * 2 ^ 32 + w0) / 2 ^ (s * 8) % 2 ^ 32
lwl_merge-lwr_merge zero r w0 w1 p h hr h0 h1 = absurd (omega arith)
lwl_merge-lwr_merge (suc zero) r w0 w1 p h hr h0 h1 =
    omega (arith, lwr_merge_lem 1 r w0 h hr h0, lwl_merge_lem 0 (lwr_merge 8 r w0) w1 (omega arith))
lwl_merge-lwr_merge (suc (suc zero)) r w0 w1 p h hr h0 h1 =
    omega
      (arith, lwr_merge_lem 2 r w0 h hr h0, lwl_merge_lem 1 (lwr_merge 16 r w0) w1 (omega arith))
lwl_merge-lwr_merge (suc (suc (suc zero))) r w0 w1 p h hr h0 h1 =
    omega
      (arith, lwr_merge_lem 3 r w0 h hr h0, lwl_merge_lem 2 (lwr_merge 24 r w0) w1 (omega arith))
lwl_merge-lwr_merge (suc (suc (suc (suc s)))) r w0 w1 p h hr h0 h1 = absurd (omega arith)

-- `swr` at the address of a word at offset `s` above 0, and `swl` at its last byte, store the
-- register in the two aligned words: every bit below it and above it is kept.
pub swl_merge-swr_merge :
    (s r w0 w1 : ℕ)
    → 0 < s
    → s < 4
    → r < 2 ^ 32
    → w0 < 2 ^ 32
    → w1 < 2 ^ 32
    → swl_merge (s * 8 - 8) r w1 * 2 ^ 32 + swr_merge (s * 8) r w0
      ≡ w1 / 2 ^ (s * 8) * 2 ^ (s * 8) * 2 ^ 32 + r * 2 ^ (s * 8) + w0 % 2 ^ (s * 8)
swl_merge-swr_merge zero r w0 w1 p h hr h0 h1 = absurd (omega arith)
swl_merge-swr_merge (suc zero) r w0 w1 p h hr h0 h1 =
    omega (arith, swr_merge_lem 1 r w0 h, swl_merge_lem 0 r w1 (omega arith) hr h1)
swl_merge-swr_merge (suc (suc zero)) r w0 w1 p h hr h0 h1 =
    omega (arith, swr_merge_lem 2 r w0 h, swl_merge_lem 1 r w1 (omega arith) hr h1)
swl_merge-swr_merge (suc (suc (suc zero))) r w0 w1 p h hr h0 h1 =
    omega (arith, swr_merge_lem 3 r w0 h, swl_merge_lem 2 r w1 (omega arith) hr h1)
swl_merge-swr_merge (suc (suc (suc (suc s)))) r w0 w1 p h hr h0 h1 = absurd (omega arith)
