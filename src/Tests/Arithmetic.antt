-- ===== src/Tests/Arithmetic.antt =====
-- Instructions on two registers of a concrete machine.
use psycho.Prelude.{ℕ, ◌+◌, ◌*◌, ◌^◌, ◌<◌, ◌≡◌, ◌==◌, if◌then◌else◌, some, arith, refl}
use psycho.Prelude.Int.{◌*ℤ◌}
use psycho.Word.{s32}
use psycho.State.{Ctx}
use psycho.Word.{sign_ext_16_32}
use psycho.CpuDefs.{instr_rs}
use psycho.Cpu.{ExcCode, raise_exception, gpr_set}
use psycho.Cpu.Special.{gpr_rs, gpr_rt, mult, multu, divu}
use psycho.Cpu.Step.{begin, advance}
use psycho.Cpu.Valid.{IsWide}
use psycho.Cpu.Muldiv.{hi_lo, multu-divu}
use psycho.Word.{add32, sub32}
use psycho.Cpu.Special.{rt, rd, add, sub}
use psycho.Cpu.Step.{imm, addi}
use psycho.Cpu.Overflow.{sum_overflows, difference_overflows, overflow_lem}
use psycho.Prelude.{true}
use psycho.Prelude.Int.{pos, negsuc}
use psycho.Word.{is_neg}
use psycho.CpuDefs.{calc_branch_addr}
use psycho.Cpu.Decode.{GroupOp}
use psycho.Cpu.Special.{div}
use psycho.Cpu.Step.{exec}
use psycho.Cpu.Division.{Cuts, is_exceptional, div_lem}
use psycho.Cpu.Branches.{taken, exec_branch_lem}
use psycho.Cpu.Signed.{pattern64, hi_lo-mult}
use psycho.Tests.{machine, no_load-IsLoad}

-- -1 and 5 in `gpr[1]` and `gpr[2]`, and an instruction on them.
abbrev operands : ℕ → Ctx
operands instr = record machine {
  cpu = record (machine.cpu) {
    instr = instr;
    gpr = λ (r : ℕ). if r == 1 then 0xFFFF_FFFF else if r == 2 then 5 else 0;
  };
}

operands-IsWide : (instr : ℕ) → instr < 2 ^ 32 → IsWide (operands instr).cpu
operands-IsWide instr h = record {
  gpr_word = λ r. ground arith;
  cop0_word = λ r. omega arith;
  hi_word = omega arith;
  lo_word = omega arith;
  curr_pc_word = omega arith;
  pc_word = omega arith;
  next_pc_word = omega arith;
  instr_word = h;
  next_load = no_load-IsLoad;
  pend_load = no_load-IsLoad;
}

-- `mult $1, $2`
hi_lo-mult_example :
    let c = operands 0x0022_0018 in hi_lo (mult c) ≡ pattern64 (s32 (gpr_rs c) *ℤ s32 (gpr_rt c))
hi_lo-mult_example = hi_lo-mult (operands 0x0022_0018) (operands-IsWide 0x0022_0018 (omega arith))

-- `divu $1, $2`, and the operands of its word as those of `multu`
multu-divu_example :
    let c = operands 0x0022_001B in
    let d = divu c in
    (hi_lo (multu c) ≡ gpr_rs c * gpr_rt c)
    × (if gpr_rt c == 0
        then (d.cpu.lo ≡ 0xFFFF_FFFF) × (d.cpu.hi ≡ gpr_rs c)
        else (d.cpu.lo * gpr_rt c + d.cpu.hi ≡ gpr_rs c) × (d.cpu.hi < gpr_rt c))
multu-divu_example = multu-divu (operands 0x0022_001B) (operands-IsWide 0x0022_001B (omega arith))

-- `addi $3, $1, -1`, and the fields of its word as those of `add` and `sub`
overflow_example :
    let c = operands 0x2023_FFFF in
    (add c ≡ (
      if sum_overflows (gpr_rs c) (gpr_rt c)
      then raise_exception ExcCode.ov c
      else gpr_set (rd c) (add32 (gpr_rs c) (gpr_rt c)) c))
    × (addi c ≡ (
        if sum_overflows (sign_ext_16_32 (imm c)) (gpr_rs c)
        then raise_exception ExcCode.ov c
        else gpr_set (rt c) (add32 (sign_ext_16_32 (imm c)) (gpr_rs c)) c))
    × (sub c ≡ (
        if difference_overflows (gpr_rs c) (gpr_rt c)
        then raise_exception ExcCode.ov c
        else gpr_set (rd c) (sub32 (gpr_rs c) (gpr_rt c)) c))
overflow_example = overflow_lem (operands 0x2023_FFFF) (operands-IsWide 0x2023_FFFF (omega arith))

-- `div $1, $2`
div_example :
    let c = operands 0x0022_001A in
    let a = gpr_rs c in
    let b = gpr_rt c in
    let d = div c in
    if b == 0
    then (d.cpu.hi ≡ a) × (s32 d.cpu.lo ≡ (if is_neg a then pos 1 else negsuc 0))
    else if is_exceptional a b
    then (d.cpu.lo ≡ a) × (d.cpu.hi ≡ 0)
    else Cuts a b d.cpu.lo d.cpu.hi
div_example = div_lem (operands 0x0022_001A) (operands-IsWide 0x0022_001A (omega arith))

-- `blez $1, 4`, which is taken.
is_taken : taken GroupOp.blez (operands 0x1820_0004) ≡ some true
unfolding instr_rs
is_taken = refl

exec_branch_example :
    let c = operands 0x1820_0004 in
    (d : Ctx) × (exec GroupOp.blez c ≡ some d)
    × (let slot = advance 0 (begin d) in
        (slot.cpu.curr_pc ≡ c.cpu.pc)
        × (slot.cpu.in_branch_delay_slot ≡ true)
        × (slot.cpu.pc
            ≡ (if true then calc_branch_addr c.cpu.instr c.cpu.curr_pc else c.cpu.next_pc)))
exec_branch_example =
    exec_branch_lem (operands 0x1820_0004) GroupOp.blez true 0
      (operands-IsWide 0x1820_0004 (omega arith)) refl refl is_taken
