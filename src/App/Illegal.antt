-- ===== src/App/Illegal.antt =====
-- Which instructions of core/cpu.c tell the host of an illegal one.
use psycho.Prelude.{◌≡◌, ◌∷◌, arith, if◌then◌else◌, Bool, true, false, Option, none, some}
use psycho.State.{Ctx, cpu_illegal}
use psycho.Memory.{read, write}
use psycho.Log.{handled}
use psycho.Bus
use psycho.CpuDefs.{instr_op, instr_funct}
use psycho.Cpu.{
  illegal, branch_if, jmp, gpr_set, gpr_set_delayed, raise_exception, load_delay_process,
  dbg_data_bp_chk,
}
use psycho.Cpu.Access
use psycho.Cpu.Legal.{is_group, is_instruction}
use psycho.Cpu.Decode.{GroupOp, GroupSpecial, decode_op, decode_special}
use psycho.Cpu.Special.{exec_special, clear_zero, step_special}
use psycho.Cpu.Step.{
  bcond, step_cop0, jal, addi, finish, exec, dispatch, begin, enter_slot, check_pc, set_curr_pc,
}
use psycho.App.Answer.{heard}

-- From `c` on the host was told of nothing but messages.
abbrev pub Quiet : Ctx → Option Ctx → Type 0
Quiet c none = Unit {0}
Quiet c (some d) = heard d.events ≡ heard c.events

module _ (c : Ctx) where
  lb-Quiet : Quiet c (Access.lb c)
  unfolding Access.lb Bus.load_byte dbg_data_bp_chk gpr_set_delayed read raise_exception handled
  lb-Quiet = ground arith

  lh-Quiet : Quiet c (Access.lh c)
  unfolding Access.lh Bus.load_halfword dbg_data_bp_chk gpr_set_delayed read raise_exception handled
  lh-Quiet = ground arith

  lwl-Quiet : Quiet c (Access.lwl c)
  unfolding Access.lwl Bus.load_word dbg_data_bp_chk gpr_set_delayed read raise_exception handled
  lwl-Quiet = ground arith

  lw-Quiet : Quiet c (Access.lw c)
  unfolding Access.lw Bus.load_word dbg_data_bp_chk gpr_set_delayed read raise_exception handled
  lw-Quiet = ground arith

  lbu-Quiet : Quiet c (Access.lbu c)
  unfolding Access.lbu Bus.load_byte dbg_data_bp_chk gpr_set_delayed read raise_exception handled
  lbu-Quiet = ground arith

  lhu-Quiet : Quiet c (Access.lhu c)
  unfolding Access.lhu Bus.load_halfword dbg_data_bp_chk gpr_set_delayed read raise_exception
      handled
  lhu-Quiet = ground arith

  lwr-Quiet : Quiet c (Access.lwr c)
  unfolding Access.lwr Bus.load_word dbg_data_bp_chk gpr_set_delayed read raise_exception handled
  lwr-Quiet = ground arith

  sb-Quiet : Quiet c (Access.sb c)
  unfolding Access.sb Bus.store_byte dbg_data_bp_chk write raise_exception handled
  sb-Quiet = ground arith

  sh-Quiet : Quiet c (Access.sh c)
  unfolding Access.sh Bus.store_halfword dbg_data_bp_chk write raise_exception handled
  sh-Quiet = ground arith

  swl-Quiet : Quiet c (Access.swl c)
  unfolding Access.swl Bus.load_word Bus.store_word dbg_data_bp_chk read write raise_exception
      handled
  swl-Quiet = ground arith

  sw-Quiet : Quiet c (Access.sw c)
  unfolding Access.sw Bus.store_word dbg_data_bp_chk write raise_exception handled
  sw-Quiet = ground arith

  swr-Quiet : Quiet c (Access.swr c)
  unfolding Access.swr Bus.load_word Bus.store_word dbg_data_bp_chk read write raise_exception
      handled
  swr-Quiet = ground arith

  exec_special-Quiet : (i : GroupSpecial) → Quiet c (some (exec_special i c))
  unfolding exec_special gpr_set jmp raise_exception handled
  exec_special-Quiet GroupSpecial.sll = ground arith
  exec_special-Quiet _ = ground arith

-- Messages apart, the host was told from `c` on of an illegal instruction if `legal` does not hold, and of
-- nothing if it does.
abbrev pub Tells : Bool → Ctx → Option Ctx → Type 0
Tells legal c none = Unit {0}
Tells legal c (some d) =
    heard d.events ≡ (if legal then heard c.events else cpu_illegal ∷ heard c.events)

illegal-Tells : (c : Ctx) → Tells false c (some (illegal c))
unfolding illegal handled
illegal-Tells c = ground arith

finish-Tells : (c : Ctx) (o : Option Ctx) → Quiet c o → Tells true c (finish o)
unfolding clear_zero
finish-Tells c none q = tt
finish-Tells c (some d) q = q

module _ (c : Ctx) where
  step_special-Tells : Tells (is_group GroupOp.group_special c.cpu.instr) c (some (step_special c))
  unfolding step_special clear_zero
  step_special-Tells =
      elim (decode_special (instr_funct c.cpu.instr))
        as (λ o.
          Tells (elim o as (λ y. Bool) [ some i ↦ true | none ↦ false ]) c
            (some (elim o as (λ y. Ctx) [
              | some i ↦ clear_zero (exec_special i c)
              | none ↦ illegal c
            ]))) [ some i ↦ exec_special-Quiet c i | none ↦ illegal-Tells c ]

  step_cop0-Tells : Tells (is_group GroupOp.group_cop0 c.cpu.instr) c (some (step_cop0 c))
  unfolding step_cop0 clear_zero gpr_set illegal handled
  step_cop0-Tells = ground arith

  exec-Tells : (i : GroupOp) → Tells (is_group i c.cpu.instr) c (exec i c)
  unfolding exec bcond jal addi clear_zero branch_if jmp gpr_set raise_exception handled
  exec-Tells GroupOp.group_special = step_special-Tells
  exec-Tells GroupOp.group_cop0 = step_cop0-Tells
  exec-Tells GroupOp.lb = finish-Tells c _ (lb-Quiet c)
  exec-Tells GroupOp.lh = finish-Tells c _ (lh-Quiet c)
  exec-Tells GroupOp.lwl = finish-Tells c _ (lwl-Quiet c)
  exec-Tells GroupOp.lw = finish-Tells c _ (lw-Quiet c)
  exec-Tells GroupOp.lbu = finish-Tells c _ (lbu-Quiet c)
  exec-Tells GroupOp.lhu = finish-Tells c _ (lhu-Quiet c)
  exec-Tells GroupOp.lwr = finish-Tells c _ (lwr-Quiet c)
  exec-Tells GroupOp.sb = finish-Tells c _ (sb-Quiet c)
  exec-Tells GroupOp.sh = finish-Tells c _ (sh-Quiet c)
  exec-Tells GroupOp.swl = finish-Tells c _ (swl-Quiet c)
  exec-Tells GroupOp.sw = finish-Tells c _ (sw-Quiet c)
  exec-Tells GroupOp.swr = finish-Tells c _ (swr-Quiet c)
  exec-Tells _ = ground arith

  -- A decoded instruction tells the host exactly if its word is not an instruction.
  pub dispatch-Tells : Tells (is_instruction c.cpu.instr) c (dispatch c)
  unfolding dispatch is_instruction
  dispatch-Tells =
      elim (decode_op (instr_op c.cpu.instr))
        as (λ o.
          Tells (elim o as (λ y. Bool) [ some i ↦ is_group i c.cpu.instr | none ↦ false ]) c
            (elim o as (λ y. Option Ctx) [ some i ↦ exec i c | none ↦ some (illegal c) ])) [
              | some i ↦ exec-Tells i
              | none ↦ illegal-Tells c
            ]

  pub begin-Quiet : Quiet c (some (begin c))
  unfolding begin enter_slot check_pc set_curr_pc load_delay_process raise_exception handled
  begin-Quiet = ground arith
