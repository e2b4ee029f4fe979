-- ===== src/CpuDefs/Address.antt =====
-- Jump, branch and physical addresses against their arithmetic.
use psycho.Prelude.{ℕ, ◌+◌, ◌*◌, ◌/◌, ◌%◌, ◌^◌, ◌≤◌, ◌<◌, bit_and, bit_or}
use psycho.Prelude.{◌≡◌, ◌≢◌, ◌↔◌, ◌⊎◌, ◌∙◌, arith}
use psycho.Bits.{bit_and_mask, bit_and_split, bit_and-zero, bit_or_split, bit_or-zero, zero-bit_or}
use psycho.Word.{u32, sign_ext_16_32}
use psycho.CpuDefs.{instr_imm, calc_jmp_addr, calc_branch_addr, vaddr_to_paddr}
use psycho.CpuDefs.Fields.{instr_imm_lem, instr_target_lem}

region_mask : (pc : ℕ) → pc < 2 ^ 32 → bit_and pc 0xF000_0000 ≡ pc / 2 ^ 28 * 2 ^ 28
region_mask pc h = omega (
  arith,
  bit_and_split 28 pc 0xF000_0000,
  bit_and-zero (pc % 2 ^ 28),
  bit_and_mask 4 (pc / 2 ^ 28),
)

or_region : (hi lo : ℕ) → lo < 2 ^ 28 → bit_or lo (hi * 2 ^ 28) ≡ hi * 2 ^ 28 + lo
or_region hi lo h = ground (arith, bit_or_split 28 lo (hi * 2 ^ 28), bit_or-zero lo, zero-bit_or hi)

-- A jump goes to its 26-bit word index within the 256 MB region of the instruction.
pub calc_jmp_addr_lem :
    (instr pc : ℕ)
    → pc < 2 ^ 32
    → calc_jmp_addr instr pc ≡ pc / 2 ^ 28 * 2 ^ 28 + instr % 2 ^ 26 * 4
unfolding calc_jmp_addr
calc_jmp_addr_lem instr pc h = ground (
  arith,
  region_mask pc h,
  instr_target_lem instr,
  or_region (pc / 2 ^ 28) (instr % 2 ^ 26 * 4) (omega arith),
)

-- The address that the MIPS architecture gives a branch: the offset is a signed number of words
-- from the delay slot.
abbrev pub branch_target : ℕ → ℕ → ℕ
branch_target instr pc = u32 (pc + 4 + 4 * sign_ext_16_32 (instr_imm instr))

-- `calc_branch_addr` gives the architecture's target exactly when the offset times four still
-- fits 16 bits, that is for offsets from -0x2000 to 0x1FFF words.
pub calc_branch_addr_iff :
    (instr pc : ℕ)
    → pc < 2 ^ 32
    → (calc_branch_addr instr pc ≡ branch_target instr pc)
      ↔ ((instr_imm instr < 0x2000) ⊎ (0xE000 ≤ instr_imm instr))
unfolding calc_branch_addr
calc_branch_addr_iff instr pc h = ground (arith, instr_imm_lem instr)

-- Outside the cache control register, translation keeps the low 29 bits.
pub vaddr_to_paddr_lem : (vaddr : ℕ) → vaddr ≢ 0xFFFE_0130 → vaddr_to_paddr vaddr ≡ vaddr % 2 ^ 29
unfolding vaddr_to_paddr
vaddr_to_paddr_lem vaddr h = ground (arith, bit_and_mask 29 vaddr)

-- A physical address below 512 MB is its own translation, and the three windows KUSEG, KSEG0 and
-- KSEG1 show the same memory.
pub vaddr_to_paddr_mirrors :
    (p : ℕ)
    → p < 2 ^ 29
    → (vaddr_to_paddr p ≡ p)
      × (vaddr_to_paddr (0x8000_0000 + p) ≡ p)
      × (vaddr_to_paddr (0xA000_0000 + p) ≡ p)
vaddr_to_paddr_mirrors p h = (
  vaddr_to_paddr_lem p (omega arith) ∙ omega arith,
  vaddr_to_paddr_lem (0x8000_0000 + p) (omega arith) ∙ omega arith,
  vaddr_to_paddr_lem (0xA000_0000 + p) (omega arith) ∙ omega arith,
)
