-- ===== src/Cpu/Muldiv.antt =====
-- `multu` and `divu` of core/cpu.c: what HI and LO hold.
use psycho.Prelude.{ℕ, ◌+◌, ◌*◌, ◌/◌, ◌^◌, ◌<◌, ◌≡◌, arith, bit_and, ◌==◌, if◌then◌else◌}
use native.Mathlib.Nat.{mod-eq_of_lt}
use psycho.Prelude.{◌∙◌}
use psycho.Word.{u32}
use psycho.CpuDefs.{instr_rs, instr_rt}
use psycho.Bits.{bit_and_mask}
use psycho.Word.{u64, zero_ext_32_64}
use psycho.State.{Ctx}
use psycho.Cpu.Special.{gpr_rs, gpr_rt, multu, divu}
use psycho.Cpu.Valid.{IsWide}

-- The 64-bit pattern in HI and LO.
abbrev pub hi_lo : Ctx → ℕ
hi_lo c = c.cpu.hi * 2 ^ 32 + c.cpu.lo

pub halves : (p : ℕ) → p / 2 ^ 32 * 2 ^ 32 + bit_and p 0xFFFF_FFFF ≡ p
halves p = omega (arith, bit_and_mask 32 p)

product_lt : (a b m : ℕ) → a < m → b < m → a * b < m * m
product_lt a b m h k = grind arith

unsigned_product : (a b : ℕ) → a < 2 ^ 32 → b < 2 ^ 32 → u64 (u32 a * u32 b) ≡ a * b
unsigned_product a b h k =
    rw (mod-eq_of_lt h, mod-eq_of_lt k) (mod-eq_of_lt (product_lt a b (2 ^ 32) h k))

-- In a well-formed CPU, `multu` leaves the exact product of its operands in HI and LO.
pub hi_lo-multu : (c : Ctx) → IsWide c.cpu → hi_lo (multu c) ≡ gpr_rs c * gpr_rt c
unfolding multu zero_ext_32_64
hi_lo-multu c w =
    halves _
    ∙ unsigned_product _ _ (w.gpr_word (instr_rs c.cpu.instr)) (w.gpr_word (instr_rt c.cpu.instr))

-- In a well-formed CPU, `divu` leaves the quotient in LO and in HI a remainder below the divisor;
-- by zero it leaves all ones in LO and the dividend in HI.
pub divu_lem :
    (c : Ctx)
    → IsWide c.cpu
    → let d = divu c in
      if gpr_rt c == 0
      then (d.cpu.lo ≡ 0xFFFF_FFFF) × (d.cpu.hi ≡ gpr_rs c)
      else (d.cpu.lo * gpr_rt c + d.cpu.hi ≡ gpr_rs c) × (d.cpu.hi < gpr_rt c)
unfolding divu
divu_lem c w = ground (arith, w.gpr_word (instr_rs c.cpu.instr))

-- In a well-formed CPU, `multu` leaves the exact product of its operands in HI and LO. `divu` leaves
-- the quotient in LO and in HI a remainder below the divisor; by zero it leaves all ones in LO and
-- the dividend in HI.
pub multu-divu :
    (c : Ctx)
    → IsWide c.cpu
    → let d = divu c in
      (hi_lo (multu c) ≡ gpr_rs c * gpr_rt c)
      × (if gpr_rt c == 0
          then (d.cpu.lo ≡ 0xFFFF_FFFF) × (d.cpu.hi ≡ gpr_rs c)
          else (d.cpu.lo * gpr_rt c + d.cpu.hi ≡ gpr_rs c) × (d.cpu.hi < gpr_rt c))
multu-divu c w = (hi_lo-multu c w, divu_lem c w)
