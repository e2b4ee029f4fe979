-- ===== src/Cpu/Arch/Instr.antt =====
-- The effect of each instruction of core/cpu.c but the loads and stores, which are in
-- Cpu/Arch/Data.antt.
use psycho.Prelude.{
  ℕ, ◌+◌, ◌*◌, ◌/◌, ◌%◌, ◌^◌, ltb, leb, ◌==◌, if◌then◌else◌, Bool, true, false, not,
}
use psycho.Prelude.{Option, none, some}
use psycho.Prelude.Int.{◌*ℤ◌}
use psycho.Word.{u32, s32, is_neg, sdiv, srem}
use psycho.State.{gpr_ra, cop0_sr}
use psycho.CpuDefs.{instr_funct, instr_rs, instr_rt, instr_rd, instr_shamt, instr_imm}
use psycho.CpuDefs.Address.{branch_target}
use psycho.Cpu.{ExcCode}
use psycho.Cpu.Decode.{GroupOp, GroupSpecial, decode_special}
use psycho.Cpu.Alu.{imm_value, special_value}
use psycho.Cpu.Signed.{pattern64}
use psycho.Cpu.Arch.{
  Arch, Effect, writes, jumps_and_links, sets_hi_lo, sets_cop0, jumps, traps, popped,
}

-- An effect of a branch, a jump or an exception, none of which may stand in a delay slot.
abbrev pub outside_slot : Arch → Effect → Option Effect
outside_slot a e = if a.slot then none else some e

-- The offsets whose multiple of four is a signed number of 16 bits.
abbrev pub is_near : ℕ → Bool
is_near word = if ltb (instr_imm word) 0x2000 then true else leb 0xE000 (instr_imm word)

-- Where a branch goes on behind its delay slot.
abbrev pub branch_npc : Bool → ℕ → Arch → ℕ
branch_npc t word a = if t then branch_target word a.pc else u32 (a.npc + 4)

abbrev pub branch_effect : Bool → ℕ → Arch → Option Effect
branch_effect t word a = if is_near word then outside_slot a (jumps (branch_npc t word a)) else none

-- `bltz` and `bgez` by the lowest bit of `rt`, which link if its others are 0b1000.
abbrev pub bcond_effect : ℕ → Arch → Option Effect
bcond_effect word a =
    let neg = is_neg (a.reg (instr_rs word)) in
    let t : Bool = if instr_rt word % 2 == 0 then neg else not neg in
    let npc = branch_npc t word a in
    let effect = if instr_rt word / 2 == 8 then jumps_and_links gpr_ra npc else jumps npc in
    if is_near word then outside_slot a effect else none

-- The 26-bit word index within the 256 MB region of the jump.
abbrev pub jump_target : ℕ → ℕ → ℕ
jump_target word pc = pc / 2 ^ 28 * 2 ^ 28 + word % 2 ^ 26 * 4

abbrev pub set_product : ℕ → Option Effect
set_product p = some (sets_hi_lo (p / 2 ^ 32) (p % 2 ^ 32))

abbrev pub written : ℕ → Option ℕ → Option Effect
written r none = none
written r (some v) = some (writes r v)

-- A sum or a difference, or the overflow exception.
abbrev pub or_overflow : ℕ → Option ℕ → Arch → Option Effect
or_overflow r none a = outside_slot a (traps ExcCode.ov)
or_overflow r (some v) a = some (writes r v)

-- A quotient by zero, and the one of the least number by -1, are not exact.
abbrev pub signed_quotient : ℕ → ℕ → Effect
signed_quotient m n =
    if n == 0
    then sets_hi_lo m (if is_neg m then 1 else 0xFFFF_FFFF)
    else if (if m == 0x8000_0000 then n == 0xFFFF_FFFF else false)
    then sets_hi_lo 0 m
    else sets_hi_lo (srem m n) (sdiv m n)

abbrev pub unsigned_quotient : ℕ → ℕ → Effect
unsigned_quotient m n = if n == 0 then sets_hi_lo m 0xFFFF_FFFF else sets_hi_lo (m % n) (m / n)

abbrev pub special_effect : GroupSpecial → ℕ → Arch → Option Effect
special_effect GroupSpecial.jr word a = outside_slot a (jumps (a.reg (instr_rs word)))
special_effect GroupSpecial.jalr word a =
    let target = a.reg (instr_rs word) in
    if target % 4 == 0 then outside_slot a (jumps_and_links (instr_rd word) target) else none
special_effect GroupSpecial.syscall word a = outside_slot a (traps ExcCode.sys)
special_effect GroupSpecial.break word a = outside_slot a (traps ExcCode.bp)
special_effect GroupSpecial.add word a =
    or_overflow (instr_rd word)
      (special_value GroupSpecial.add (a.reg (instr_rs word)) (a.reg (instr_rt word)) 0) a
special_effect GroupSpecial.sub word a =
    or_overflow (instr_rd word)
      (special_value GroupSpecial.sub (a.reg (instr_rs word)) (a.reg (instr_rt word)) 0) a
special_effect GroupSpecial.mfhi word a = some (writes (instr_rd word) a.hi)
special_effect GroupSpecial.mflo word a = some (writes (instr_rd word) a.lo)
special_effect GroupSpecial.mthi word a = some (sets_hi_lo (a.reg (instr_rs word)) a.lo)
special_effect GroupSpecial.mtlo word a = some (sets_hi_lo a.hi (a.reg (instr_rs word)))
special_effect GroupSpecial.mult word a =
    set_product (pattern64 (s32 (a.reg (instr_rs word)) *ℤ s32 (a.reg (instr_rt word))))
special_effect GroupSpecial.multu word a =
    set_product (a.reg (instr_rs word) * a.reg (instr_rt word))
special_effect GroupSpecial.div word a =
    some (signed_quotient (a.reg (instr_rs word)) (a.reg (instr_rt word)))
special_effect GroupSpecial.divu word a =
    some (unsigned_quotient (a.reg (instr_rs word)) (a.reg (instr_rt word)))
special_effect i word a =
    written (instr_rd word)
      (special_value i (a.reg (instr_rs word)) (a.reg (instr_rt word)) (instr_shamt word))

abbrev pub special_word : ℕ → Arch → Option Effect
special_word word a = elim (decode_special (instr_funct word)) [
  | some i ↦ special_effect i word a
  | none ↦ none
]

-- `mfc0`, `mtc0` and `rfe`.
abbrev pub cop0_effect : ℕ → Arch → Option Effect
cop0_effect word a =
    if instr_rs word == 0x00
    then some (writes (instr_rt word) (a.cop0 (instr_rd word)))
    else if instr_rs word == 0x04
    then some (sets_cop0 (instr_rd word) (a.reg (instr_rt word)))
    else if instr_funct word == 0x10
    then some (sets_cop0 cop0_sr (popped (a.cop0 cop0_sr)))
    else none

-- The loads and stores are those of Cpu/Arch/Data.antt.
abbrev pub plain_effect : GroupOp → ℕ → Arch → Option Effect
plain_effect GroupOp.group_special word a = special_word word a
plain_effect GroupOp.group_bcond word a = bcond_effect word a
plain_effect GroupOp.group_cop0 word a = cop0_effect word a
plain_effect GroupOp.addi word a =
    or_overflow (instr_rt word) (imm_value GroupOp.addi (a.reg (instr_rs word)) (instr_imm word)) a
plain_effect GroupOp.j word a = outside_slot a (jumps (jump_target word a.pc))
plain_effect GroupOp.jal word a = outside_slot a (jumps_and_links gpr_ra (jump_target word a.pc))
plain_effect GroupOp.beq word a =
    branch_effect (a.reg (instr_rs word) == a.reg (instr_rt word)) word a
plain_effect GroupOp.bne word a =
    branch_effect (not (a.reg (instr_rs word) == a.reg (instr_rt word))) word a
plain_effect GroupOp.blez word a =
    let s = a.reg (instr_rs word) in branch_effect (if s == 0 then true else is_neg s) word a
plain_effect GroupOp.bgtz word a =
    let s = a.reg (instr_rs word) in branch_effect (if s == 0 then false else not (is_neg s)) word a
plain_effect i word a =
    written (instr_rt word) (imm_value i (a.reg (instr_rs word)) (instr_imm word))
