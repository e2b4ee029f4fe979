-- ===== src/Cpu/Special.antt =====
-- The instructions of `INSTR_GROUP_SPECIAL` in `psycho_cpu_step`.
use psycho.Prelude.{ℕ, ◌*◌, ◌/◌, ◌%◌, bit_and, bit_or, bit_xor, ltb, ◌==◌, if◌then◌else◌}
use psycho.Prelude.{Option, none, some, truth, false}
use psycho.Word.{u64, add32, sub32, shl, shr, sar, not32, slt, sadd_overflow, ssub_overflow}
use psycho.Word.{sign_ext_32_64, zero_ext_32_64, sdiv, srem}
use psycho.Memory.{update}
use psycho.State.{Ctx}
use psycho.CpuDefs.{instr_rs, instr_rt, instr_rd, instr_shamt, instr_funct}
use psycho.Cpu.{illegal, jmp, gpr_set, raise_exception, ExcCode}
use psycho.Cpu.Decode.{GroupSpecial, decode_special}

-- The macros at the head of `psycho_cpu_step`.
abbrev pub rs : Ctx → ℕ
rs c = instr_rs c.cpu.instr

abbrev pub rt : Ctx → ℕ
rt c = instr_rt c.cpu.instr

abbrev pub rd : Ctx → ℕ
rd c = instr_rd c.cpu.instr

abbrev pub shamt : Ctx → ℕ
shamt c = instr_shamt c.cpu.instr

abbrev pub gpr_rs : Ctx → ℕ
gpr_rs c = c.cpu.gpr (rs c)

abbrev pub gpr_rt : Ctx → ℕ
gpr_rt c = c.cpu.gpr (rt c)

-- `ctx->cpu.lo = lo; ctx->cpu.hi = hi;`
abbrev pub set_hi_lo : ℕ → ℕ → Ctx → Ctx
set_hi_lo hi lo c = record c { cpu = record (c.cpu) { hi = hi; lo = lo } }

unfoldable pub jalr : Ctx → Ctx
jalr c =
    let target = gpr_rs c in
    let linked = gpr_set (rd c) (add32 c.cpu.curr_pc (4 * 2)) c in
    if bit_and target 3 == 0 then jmp target linked else raise_exception ExcCode.adel linked

unfoldable pub mult : Ctx → Ctx
mult c =
    let prod = u64 (sign_ext_32_64 (gpr_rs c) * sign_ext_32_64 (gpr_rt c)) in
    set_hi_lo (shr prod 32) (bit_and prod 0xFFFF_FFFF) c

unfoldable pub multu : Ctx → Ctx
multu c =
    let prod = u64 (zero_ext_32_64 (gpr_rs c) * zero_ext_32_64 (gpr_rt c)) in
    set_hi_lo (shr prod 32) (bit_and prod 0xFFFF_FFFF) c

unfoldable pub div : Ctx → Ctx
div c =
    let divisor = gpr_rt c in
    let dividend = gpr_rs c in
    if divisor == 0
    then set_hi_lo dividend (if slt dividend 0 then 1 else 0xFFFF_FFFF) c
    else if (if dividend == 0x8000_0000 then divisor == 0xFFFF_FFFF else false)
    then set_hi_lo 0 dividend c
    else set_hi_lo (srem dividend divisor) (sdiv dividend divisor) c

unfoldable pub divu : Ctx → Ctx
divu c =
    if gpr_rt c == 0
    then set_hi_lo (gpr_rs c) 0xFFFF_FFFF c
    else set_hi_lo (gpr_rs c % gpr_rt c) (gpr_rs c / gpr_rt c) c

-- The sum or difference into `reg`, or the overflow exception.
abbrev pub set_or_overflow : ℕ → Option ℕ → Ctx → Ctx
set_or_overflow reg none c = raise_exception ExcCode.ov c
set_or_overflow reg (some sum) c = gpr_set reg sum c

unfoldable pub add : Ctx → Ctx
add c = set_or_overflow (rd c) (sadd_overflow (gpr_rs c) (gpr_rt c)) c

unfoldable pub sub : Ctx → Ctx
sub c = set_or_overflow (rd c) (ssub_overflow (gpr_rs c) (gpr_rt c)) c

unfoldable pub exec_special : GroupSpecial → Ctx → Ctx
unfolding jalr mult multu div divu add sub
exec_special GroupSpecial.sll c = gpr_set (rd c) (shl (gpr_rt c) (shamt c)) c
exec_special GroupSpecial.srl c = gpr_set (rd c) (shr (gpr_rt c) (shamt c)) c
exec_special GroupSpecial.sra c = gpr_set (rd c) (sar (gpr_rt c) (shamt c)) c
exec_special GroupSpecial.sllv c = gpr_set (rd c) (shl (gpr_rt c) (bit_and (gpr_rs c) 0x1F)) c
exec_special GroupSpecial.srlv c = gpr_set (rd c) (shr (gpr_rt c) (bit_and (gpr_rs c) 0x1F)) c
exec_special GroupSpecial.srav c = gpr_set (rd c) (sar (gpr_rt c) (bit_and (gpr_rs c) 0x1F)) c
exec_special GroupSpecial.jr c = jmp (gpr_rs c) c
exec_special GroupSpecial.jalr c = jalr c
exec_special GroupSpecial.syscall c = raise_exception ExcCode.sys c
exec_special GroupSpecial.break c = raise_exception ExcCode.bp c
exec_special GroupSpecial.mfhi c = gpr_set (rd c) c.cpu.hi c
exec_special GroupSpecial.mthi c = record c { cpu = record (c.cpu) { hi = gpr_rs c } }
exec_special GroupSpecial.mflo c = gpr_set (rd c) c.cpu.lo c
exec_special GroupSpecial.mtlo c = record c { cpu = record (c.cpu) { lo = gpr_rs c } }
exec_special GroupSpecial.mult c = mult c
exec_special GroupSpecial.multu c = multu c
exec_special GroupSpecial.div c = div c
exec_special GroupSpecial.divu c = divu c
exec_special GroupSpecial.add c = add c
exec_special GroupSpecial.addu c = gpr_set (rd c) (add32 (gpr_rs c) (gpr_rt c)) c
exec_special GroupSpecial.sub c = sub c
exec_special GroupSpecial.subu c = gpr_set (rd c) (sub32 (gpr_rs c) (gpr_rt c)) c
exec_special GroupSpecial.and c = gpr_set (rd c) (bit_and (gpr_rs c) (gpr_rt c)) c
exec_special GroupSpecial.or c = gpr_set (rd c) (bit_or (gpr_rs c) (gpr_rt c)) c
exec_special GroupSpecial.xor c = gpr_set (rd c) (bit_xor (gpr_rs c) (gpr_rt c)) c
exec_special GroupSpecial.nor c = gpr_set (rd c) (not32 (bit_or (gpr_rs c) (gpr_rt c))) c
exec_special GroupSpecial.slt c = gpr_set (rd c) (truth (slt (gpr_rs c) (gpr_rt c))) c
exec_special GroupSpecial.sltu c = gpr_set (rd c) (truth (ltb (gpr_rs c) (gpr_rt c))) c

-- `gpr[0] = 0x00000000` at the end of a step; an illegal instruction returns before it.
unfoldable pub clear_zero : Ctx → Ctx
clear_zero c = record c { cpu = record (c.cpu) { gpr = update c.cpu.gpr 0 0 } }

unfoldable pub step_special : Ctx → Ctx
unfolding clear_zero
step_special c = elim (decode_special (instr_funct c.cpu.instr)) [
  | some i ↦ clear_zero (exec_special i c)
  | none ↦ illegal c
]
