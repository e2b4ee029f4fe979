-- ===== src/Cpu/Overflow.antt =====
-- `add`, `addi` and `sub` of core/cpu.c: when they trap, and what they write when they do not.
use psycho.Prelude.{ℕ, ◌^◌, ◌<◌, ◌≡◌, arith, if◌then◌else◌, Bool, false, not}
use psycho.Word.{add32, sub32, is_neg, sign_ext_16_32, sadd_overflow, ssub_overflow}
use psycho.Word.Bounds.{sign_ext_16_32-IsWord}
use psycho.Word.Arith.{sadd_overflow_lem, ssub_overflow_lem}
use psycho.State.{Ctx}
use psycho.CpuDefs.{instr_rs, instr_rt}
use psycho.Cpu.{gpr_set, raise_exception, ExcCode}
use psycho.Cpu.Special.{rt, rd, gpr_rs, gpr_rt, set_or_overflow, add, sub}
use psycho.Cpu.Step.{imm, addi}
use psycho.Cpu.Valid.{IsWide}

-- Operands of one sign with a sum of the other.
abbrev pub sum_overflows : ℕ → ℕ → Bool
sum_overflows a b =
    if is_neg a
    then (if is_neg b then not (is_neg (add32 a b)) else false)
    else (if is_neg b then false else is_neg (add32 a b))

-- Operands of two signs with a difference of the second's.
abbrev pub difference_overflows : ℕ → ℕ → Bool
difference_overflows a b =
    if is_neg a
    then (if is_neg b then false else not (is_neg (sub32 a b)))
    else (if is_neg b then is_neg (sub32 a b) else false)

sum_lem :
    (a b reg : ℕ) (c : Ctx)
    → a < 2 ^ 32
    → b < 2 ^ 32
    → set_or_overflow reg (sadd_overflow a b) c
      ≡ (if sum_overflows a b then raise_exception ExcCode.ov c else gpr_set reg (add32 a b) c)
sum_lem a b reg c h k = ground (arith, sadd_overflow_lem a b h k)

difference_lem :
    (a b reg : ℕ) (c : Ctx)
    → a < 2 ^ 32
    → b < 2 ^ 32
    → set_or_overflow reg (ssub_overflow a b) c ≡ (
        if difference_overflows a b
        then raise_exception ExcCode.ov c
        else gpr_set reg (sub32 a b) c)
difference_lem a b reg c h k = ground (arith, ssub_overflow_lem a b h k)

module _ (c : Ctx) (w : IsWide c.cpu) where
  -- In a well-formed CPU, `add` traps exactly if its operands have one sign and the 32-bit sum has
  -- the other, and writes the sum otherwise.
  pub add_lem : add c ≡ (
      if sum_overflows (gpr_rs c) (gpr_rt c)
      then raise_exception ExcCode.ov c
      else gpr_set (rd c) (add32 (gpr_rs c) (gpr_rt c)) c)
  unfolding add
  add_lem = sum_lem _ _ _ c (w.gpr_word (instr_rs c.cpu.instr)) (w.gpr_word (instr_rt c.cpu.instr))

  -- In a well-formed CPU, `addi` traps and writes in the same way as `add`, with the sign-extended
  -- immediate as its operand and `rt` as its target.
  pub addi_lem : addi c ≡ (
      if sum_overflows (sign_ext_16_32 (imm c)) (gpr_rs c)
      then raise_exception ExcCode.ov c
      else gpr_set (rt c) (add32 (sign_ext_16_32 (imm c)) (gpr_rs c)) c)
  unfolding addi
  addi_lem = sum_lem _ _ _ c (sign_ext_16_32-IsWord (imm c)) (w.gpr_word (instr_rs c.cpu.instr))

  -- In a well-formed CPU, `sub` traps exactly if its operands have two signs and the 32-bit
  -- difference has that of the second, and writes the difference otherwise.
  pub sub_lem : sub c ≡ (
      if difference_overflows (gpr_rs c) (gpr_rt c)
      then raise_exception ExcCode.ov c
      else gpr_set (rd c) (sub32 (gpr_rs c) (gpr_rt c)) c)
  unfolding sub
  sub_lem =
      difference_lem _ _ _ c (w.gpr_word (instr_rs c.cpu.instr)) (w.gpr_word (instr_rt c.cpu.instr))

  -- In a well-formed CPU, `add` and `addi` raise the overflow exception exactly if their operands have
  -- one sign and the 32-bit sum the other, and `sub` exactly if its operands have two signs and the
  -- 32-bit difference that of the second. Otherwise each writes its 32-bit result.
  pub overflow_lem :
      (add c ≡ (
        if sum_overflows (gpr_rs c) (gpr_rt c)
        then raise_exception ExcCode.ov c
        else gpr_set (rd c) (add32 (gpr_rs c) (gpr_rt c)) c))
      × (addi c ≡ (
          if sum_overflows (sign_ext_16_32 (imm c)) (gpr_rs c)
          then raise_exception ExcCode.ov c
          else gpr_set (rt c) (add32 (sign_ext_16_32 (imm c)) (gpr_rs c)) c))
      × (sub c ≡ (
          if difference_overflows (gpr_rs c) (gpr_rt c)
          then raise_exception ExcCode.ov c
          else gpr_set (rd c) (sub32 (gpr_rs c) (gpr_rt c)) c))
  overflow_lem = (add_lem, addi_lem, sub_lem)
