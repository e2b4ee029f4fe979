-- ===== src/Cpu/Signed.antt =====
-- `mult` of core/cpu.c: the 64-bit product of signed operands.
use native.Mathlib.Nat.{mul_comm, mul-le-mul}
use psycho.Prelude.{ℕ, suc, ◌+◌, ◌-◌, ◌*◌, ◌^◌, ◌≤◌, ◌<◌, ◌≡◌, ◌⊎◌, arith}
use psycho.Prelude.{Bool-cases, inl, inr, ltb, ap, ◌∙◌, sym}
use psycho.Prelude.Int.{ℤ, pos, negsuc, ◌*ℤ◌, pos_part, neg_part, sub_ℕ}
use psycho.CpuDefs.{instr_rs, instr_rt}
use psycho.Word.{s32, u64, sign_ext_32_64}
use psycho.State.{Ctx}
use psycho.Cpu.Special.{gpr_rs, gpr_rt, mult}
use psycho.Cpu.Muldiv.{hi_lo, halves}
use psycho.Cpu.Valid.{IsWide}

-- The 64-bit pattern of an integer of at most 128 bits.
abbrev pub pattern64 : ℤ → ℕ
pattern64 (pos n) = u64 n
pattern64 (negsuc n) = u64 (2 ^ 128 - suc n)

pattern64-sub_ℕ : (p q : ℕ) → q ≤ 2 ^ 128 → pattern64 (sub_ℕ p q) ≡ u64 (p + 2 ^ 128 - q)
pattern64-sub_ℕ p q h = ground arith

complement_product : (k m n : ℕ) → m ≤ k → (k - m) * n + m * n ≡ k * n
complement_product k m n h =
    let e : (k - m) + m ≡ k = omega arith in omega (arith, ap (λ (t : ℕ). t * n) e)

-- A word as a signed number: its two parts, and its extension to 64 bits.
abbrev SignedWord : ℕ → Type 0
SignedWord a =
    ((pos_part (s32 a) ≡ a) × (neg_part (s32 a) ≡ 0) × (sign_ext_32_64 a ≡ a))
    ⊎ ((pos_part (s32 a) ≡ 0)
        × (neg_part (s32 a) ≡ 2 ^ 32 - a)
        × (sign_ext_32_64 a ≡ 2 ^ 64 - (2 ^ 32 - a)))

signed_word : (a : ℕ) → a < 2 ^ 32 → SignedWord a
unfolding s32 sign_ext_32_64
signed_word a h = elim (Bool-cases (ltb a 0x8000_0000)) [
  | inl e ↦ inl (ground (arith, e))
  | inr e ↦ inr (ground (arith, e))
]

mixed : (m n : ℕ) → m ≤ 2 ^ 32 → n ≤ 2 ^ 32 → u64 ((2 ^ 64 - m) * n) ≡ u64 (2 ^ 128 - m * n)
mixed m n h k = omega (arith, complement_product (2 ^ 64) m n (omega arith))

both : (m n : ℕ) → m ≤ 2 ^ 32 → n ≤ 2 ^ 32 → u64 ((2 ^ 64 - m) * (2 ^ 64 - n)) ≡ u64 (m * n)
both m n h k = omega (
  arith,
  complement_product (2 ^ 64) m (2 ^ 64 - n) (omega arith),
  complement_product (2 ^ 64) n m (omega arith),
  mul_comm m n,
  mul_comm m (2 ^ 64 - n),
)

product_le : (m n : ℕ) → m ≤ 2 ^ 32 → n ≤ 2 ^ 32 → m * n ≤ 2 ^ 64
product_le m n h k = mul-le-mul h k

-- The four combinations of signs, with the parts of the operands in place.
pos_pos : (a b : ℕ) → u64 (a * b) ≡ pattern64 (sub_ℕ (a * b + 0 * 0) (a * 0 + 0 * b))
pos_pos a b = omega arith ∙ sym (pattern64-sub_ℕ (a * b + 0 * 0) (a * 0 + 0 * b) (omega arith))

pos_neg :
    (a n : ℕ)
    → a ≤ 2 ^ 32
    → n ≤ 2 ^ 32
    → u64 (a * (2 ^ 64 - n)) ≡ pattern64 (sub_ℕ (a * 0 + 0 * n) (a * n + 0 * 0))
pos_neg a n h k =
    omega (arith, mixed n a k h, mul_comm a n, mul_comm a (2 ^ 64 - n))
    ∙ sym (pattern64-sub_ℕ (a * 0 + 0 * n) (a * n + 0 * 0) (omega (arith, product_le a n h k)))

neg_pos :
    (m b : ℕ)
    → m ≤ 2 ^ 32
    → b ≤ 2 ^ 32
    → u64 ((2 ^ 64 - m) * b) ≡ pattern64 (sub_ℕ (0 * b + m * 0) (0 * 0 + m * b))
neg_pos m b h k =
    omega (arith, mixed m b h k)
    ∙ sym (pattern64-sub_ℕ (0 * b + m * 0) (0 * 0 + m * b) (omega (arith, product_le m b h k)))

neg_neg :
    (m n : ℕ)
    → m ≤ 2 ^ 32
    → n ≤ 2 ^ 32
    → u64 ((2 ^ 64 - m) * (2 ^ 64 - n)) ≡ pattern64 (sub_ℕ (0 * 0 + m * n) (0 * n + m * 0))
neg_neg m n h k =
    omega (arith, both m n h k)
    ∙ sym (pattern64-sub_ℕ (0 * 0 + m * n) (0 * n + m * 0) (omega arith))

signed_product :
    (a b : ℕ)
    → a < 2 ^ 32
    → b < 2 ^ 32
    → u64 (sign_ext_32_64 a * sign_ext_32_64 b) ≡ pattern64 (s32 a *ℤ s32 b)
unfolding ◌*ℤ◌
signed_product a b h k = go (signed_word a h) (signed_word b k)
  where
    go :
        SignedWord a
        → SignedWord b
        → u64 (sign_ext_32_64 a * sign_ext_32_64 b) ≡ pattern64 (s32 a *ℤ s32 b)
    go (inl (pa, na, ea)) (inl (pb, nb, eb)) = rw (ea, eb, pa, na, pb, nb) (pos_pos a b)
    go (inl (pa, na, ea)) (inr (pb, nb, eb)) =
        rw (ea, eb, pa, na, pb, nb) (pos_neg a (2 ^ 32 - b) (omega arith) (omega arith))
    go (inr (pa, na, ea)) (inl (pb, nb, eb)) =
        rw (ea, eb, pa, na, pb, nb) (neg_pos (2 ^ 32 - a) b (omega arith) (omega arith))
    go (inr (pa, na, ea)) (inr (pb, nb, eb)) =
        rw (ea, eb, pa, na, pb, nb) (neg_neg (2 ^ 32 - a) (2 ^ 32 - b) (omega arith) (omega arith))

-- In a well-formed CPU, `mult` leaves the product of its operands as signed integers in HI and
-- LO, as a 64-bit pattern.
pub hi_lo-mult :
    (c : Ctx) → IsWide c.cpu → hi_lo (mult c) ≡ pattern64 (s32 (gpr_rs c) *ℤ s32 (gpr_rt c))
unfolding mult
hi_lo-mult c w =
    halves _
    ∙ signed_product _ _ (w.gpr_word (instr_rs c.cpu.instr)) (w.gpr_word (instr_rt c.cpu.instr))
