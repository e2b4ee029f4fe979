-- ===== src/Cpu/Step.antt =====
-- `psycho_cpu_step`: the fetch, the `switch` on the primary opcode, and the end of the step.
use psycho.Prelude.{ℕ, ◌*◌, bit_and, bit_or, bit_xor, ltb, ◌==◌, if◌then◌else◌, not}
use psycho.Prelude.{Bool, Option, none, some, truth}
use psycho.Word.{add32, shl, shr, slt, sadd_overflow, sign_ext_16_32}
use psycho.State.{Ctx, cop0_sr, gpr_ra}
use psycho.Memory.{update}
use psycho.Bus
use psycho.CpuDefs.{instr_op, instr_funct, instr_imm, calc_jmp_addr, vaddr_to_paddr}
use psycho.Cpu.{illegal, branch_if, jmp, gpr_set, raise_exception, load_delay_process, ExcCode}
use psycho.CpuDefs.{instr_cop_mf, instr_cop_mt, instr_rfe}
use psycho.Cpu.Decode.{GroupOp, decode_op}
use psycho.Cpu.Special.{rs, rt, rd, gpr_rs, gpr_rt, set_or_overflow, clear_zero, step_special}
use psycho.Cpu.Access
use psycho.Prelude.{◌>>=◌}

abbrev pub imm : Ctx → ℕ
imm c = instr_imm c.cpu.instr

-- `gpr_set(ctx, CPU_GPR_RA, ctx->cpu.curr_pc + (sizeof(u32) * 2))`.
abbrev pub link_ra : Ctx → Ctx
link_ra c = gpr_set gpr_ra (add32 c.cpu.curr_pc (4 * 2)) c

unfoldable pub bcond : Ctx → Ctx
bcond c =
    let link = bit_and (rt c) 0x1E == 0x10 in
    let branch = slt (bit_xor (gpr_rs c) (shl (rt c) 31)) 0 in
    branch_if branch (if link then link_ra c else c)

-- SR as `rfe` leaves it.
abbrev pub sr_pop : ℕ → ℕ
sr_pop sr = bit_or (bit_and sr 0xFFFF_FFF0) (shr (bit_and sr 0x3C) 2)

unfoldable pub rfe : Ctx → Ctx
rfe c = record c {
  cpu = record (c.cpu) { cop0 = update c.cpu.cop0 cop0_sr (sr_pop (c.cpu.cop0 cop0_sr)) };
}

-- `mfc0` and `mtc0` go by `rs`, and `rfe` by `funct`.
unfoldable pub step_cop0 : Ctx → Ctx
unfolding rfe clear_zero
step_cop0 c =
    let moved = record c { cpu = record (c.cpu) { cop0 = update c.cpu.cop0 (rd c) (gpr_rt c) } } in
    if rs c == instr_cop_mf
    then clear_zero (gpr_set (rt c) (c.cpu.cop0 (rd c)) c)
    else if rs c == instr_cop_mt
    then clear_zero moved
    else if instr_funct c.cpu.instr == instr_rfe
    then clear_zero (rfe c)
    else illegal c

unfoldable pub jal : Ctx → Ctx
jal c = jmp (calc_jmp_addr c.cpu.instr c.cpu.curr_pc) (link_ra c)

unfoldable pub addi : Ctx → Ctx
addi c = set_or_overflow (rt c) (sadd_overflow (sign_ext_16_32 (imm c)) (gpr_rs c)) c

-- What follows a `break` out of the outer `switch`.
abbrev pub finish : Option Ctx → Option Ctx
finish none = none
finish (some c) = some (clear_zero c)

unfoldable pub exec : GroupOp → Ctx → Option Ctx
unfolding step_special bcond step_cop0 jal addi clear_zero
exec GroupOp.group_special c = some (step_special c)
exec GroupOp.group_bcond c = finish (some (bcond c))
exec GroupOp.group_cop0 c = some (step_cop0 c)
exec GroupOp.j c = finish (some (jmp (calc_jmp_addr c.cpu.instr c.cpu.curr_pc) c))
exec GroupOp.jal c = finish (some (jal c))
exec GroupOp.beq c = finish (some (branch_if (gpr_rs c == gpr_rt c) c))
exec GroupOp.bne c = finish (some (branch_if (not (gpr_rs c == gpr_rt c)) c))
exec GroupOp.blez c = finish (some (branch_if (not (slt 0 (gpr_rs c))) c))
exec GroupOp.bgtz c = finish (some (branch_if (slt 0 (gpr_rs c)) c))
exec GroupOp.addi c = finish (some (addi c))
exec GroupOp.addiu c = finish (some (gpr_set (rt c) (add32 (sign_ext_16_32 (imm c)) (gpr_rs c)) c))
exec GroupOp.slti c =
    finish (some (gpr_set (rt c) (truth (slt (gpr_rs c) (sign_ext_16_32 (imm c)))) c))
exec GroupOp.sltiu c =
    finish (some (gpr_set (rt c) (truth (ltb (gpr_rs c) (sign_ext_16_32 (imm c)))) c))
exec GroupOp.andi c = finish (some (gpr_set (rt c) (bit_and (gpr_rs c) (imm c)) c))
exec GroupOp.ori c = finish (some (gpr_set (rt c) (bit_or (gpr_rs c) (imm c)) c))
exec GroupOp.xori c = finish (some (gpr_set (rt c) (bit_xor (gpr_rs c) (imm c)) c))
exec GroupOp.lui c = finish (some (gpr_set (rt c) (shl (imm c) 16) c))
exec GroupOp.lb c = finish (Access.lb c)
exec GroupOp.lh c = finish (Access.lh c)
exec GroupOp.lwl c = finish (Access.lwl c)
exec GroupOp.lw c = finish (Access.lw c)
exec GroupOp.lbu c = finish (Access.lbu c)
exec GroupOp.lhu c = finish (Access.lhu c)
exec GroupOp.lwr c = finish (Access.lwr c)
exec GroupOp.sb c = finish (Access.sb c)
exec GroupOp.sh c = finish (Access.sh c)
exec GroupOp.swl c = finish (Access.swl c)
exec GroupOp.sw c = finish (Access.sw c)
exec GroupOp.swr c = finish (Access.swr c)

unfoldable pub enter_slot : Ctx → Ctx
enter_slot c = record c {
  cpu = record (c.cpu) {
    in_branch_delay_slot = c.cpu.next_in_branch_delay_slot;
    next_in_branch_delay_slot = Bool.false;
  };
}

unfoldable pub check_pc : Ctx → Ctx
check_pc c = if bit_and c.cpu.pc 3 == 0 then c else raise_exception ExcCode.adel c

unfoldable pub set_curr_pc : Ctx → Ctx
set_curr_pc c = record c { cpu = record (c.cpu) { curr_pc = c.cpu.pc } }

-- The step up to the load of the instruction word: the delay slots move on, and a misaligned
-- program counter raises an exception.
unfoldable pub begin : Ctx → Ctx
unfolding load_delay_process enter_slot check_pc set_curr_pc
begin c = set_curr_pc (check_pc (load_delay_process (enter_slot c)))

-- The step between the load of the instruction word and the `switch`.
unfoldable pub advance : ℕ → Ctx → Ctx
advance word c = record c {
  cpu = record (c.cpu) { instr = word; pc = c.cpu.next_pc; next_pc = add32 c.cpu.next_pc 4 };
}

-- The outer `switch`, on the primary opcode.
unfoldable pub dispatch : Ctx → Option Ctx
unfolding exec
dispatch c = elim (decode_op (instr_op c.cpu.instr)) [ some i ↦ exec i c | none ↦ some (illegal c) ]

unfoldable pub step : Ctx → Option Ctx
unfolding begin advance dispatch
step c = do
  (word, fetched) ← Bus.load_word (vaddr_to_paddr (begin c).cpu.curr_pc) (begin c)
  dispatch (advance word fetched)
