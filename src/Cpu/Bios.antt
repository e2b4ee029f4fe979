-- ===== src/Cpu/Bios.antt =====
-- No instruction of core/cpu.c changes the BIOS.
use psycho.Prelude.{ℕ, ◌≡◌, arith, sym, ap, ◌∙◌, Option, none, some, of_some}
use psycho.State.{Ctx}
use psycho.Memory.{read, write}
use psycho.CpuDefs.{instr_op, instr_funct, vaddr_to_paddr}
use psycho.Bus.{load_word, load_halfword, load_byte, store_word, store_halfword, store_byte}
use psycho.Cpu.{
  illegal, branch_if, jmp, gpr_set, gpr_set_delayed, raise_exception, dbg_data_bp_chk,
  get_phys_addr, load_delay_process,
}
use psycho.Cpu.Decode.{GroupOp, GroupSpecial, decode_op, decode_special}
use psycho.Cpu.Special.{exec_special, clear_zero, step_special}
use psycho.Cpu.Access.{lb, lh, lwl, lw, lbu, lhu, lwr, sb, sh, swl, sw, swr}
use psycho.Cpu.Step.{
  bcond, step_cop0, rfe, jal, addi, finish, exec, begin, enter_slot, check_pc, set_curr_pc, advance,
  dispatch, step,
}
use psycho.Cpu.Valid.Access.{bind-some}
use psycho.Cpu.Valid.Step.{bcond-SameBus, exec_special-SameBus}

-- Two contexts with the same BIOS.
abbrev pub SameBios : Ctx → Ctx → Type 0
SameBios c d = d.bus.bios ≡ c.bus.bios

module _ (c d : Ctx) where
  lb-SameBios : lb c ≡ some d → SameBios c d
  unfolding lb get_phys_addr dbg_data_bp_chk raise_exception gpr_set_delayed load_byte read
  lb-SameBios h = ground arith

  lbu-SameBios : lbu c ≡ some d → SameBios c d
  unfolding lbu get_phys_addr dbg_data_bp_chk raise_exception gpr_set_delayed load_byte read
  lbu-SameBios h = ground arith

  lh-SameBios : lh c ≡ some d → SameBios c d
  unfolding lh get_phys_addr dbg_data_bp_chk raise_exception gpr_set_delayed load_halfword read
  lh-SameBios h = ground arith

  lw-SameBios : lw c ≡ some d → SameBios c d
  unfolding lw get_phys_addr dbg_data_bp_chk raise_exception gpr_set_delayed load_word read
  lw-SameBios h = ground arith

  sw-SameBios : sw c ≡ some d → SameBios c d
  unfolding sw get_phys_addr dbg_data_bp_chk raise_exception store_word write
  sw-SameBios h = ground arith

  swl-SameBios : swl c ≡ some d → SameBios c d
  unfolding swl get_phys_addr dbg_data_bp_chk raise_exception load_word read store_word write
  swl-SameBios h = ground arith

  lhu-SameBios : lhu c ≡ some d → SameBios c d
  unfolding lhu get_phys_addr dbg_data_bp_chk raise_exception gpr_set_delayed load_halfword read
  lhu-SameBios h = ground arith

  lwl-SameBios : lwl c ≡ some d → SameBios c d
  unfolding lwl get_phys_addr dbg_data_bp_chk raise_exception gpr_set_delayed load_word read
  lwl-SameBios h = ground arith

  lwr-SameBios : lwr c ≡ some d → SameBios c d
  unfolding lwr get_phys_addr dbg_data_bp_chk raise_exception gpr_set_delayed load_word read
  lwr-SameBios h = ground arith

  sb-SameBios : sb c ≡ some d → SameBios c d
  unfolding sb get_phys_addr dbg_data_bp_chk raise_exception store_byte write
  sb-SameBios h = ground arith

  sh-SameBios : sh c ≡ some d → SameBios c d
  unfolding sh get_phys_addr dbg_data_bp_chk raise_exception store_halfword write
  sh-SameBios h = ground arith

  swr-SameBios : swr c ≡ some d → SameBios c d
  unfolding swr get_phys_addr dbg_data_bp_chk raise_exception load_word read store_word write
  swr-SameBios h = ground arith

  addi-SameBios : finish (some (addi c)) ≡ some d → SameBios c d
  unfolding addi clear_zero raise_exception gpr_set
  addi-SameBios h = ground arith

  step_cop0-SameBios : some (step_cop0 c) ≡ some d → SameBios c d
  unfolding step_cop0 rfe clear_zero gpr_set illegal
  step_cop0-SameBios h = ground arith

  bcond-SameBios : finish (some (bcond c)) ≡ some d → SameBios c d
  unfolding clear_zero
  bcond-SameBios h = grind (arith, bcond-SameBus c)

  special-SameBios : some (step_special c) ≡ some d → SameBios c d
  unfolding step_special clear_zero illegal
  special-SameBios = go (decode_special (instr_funct c.cpu.instr))
    where
      go :
          (o : Option GroupSpecial)
          → some
              (elim o as (λ x. Ctx) [ some i ↦ clear_zero (exec_special i c) | none ↦ illegal c ])
            ≡ some d
          → SameBios c d
      go none h = ground arith
      go (some i) h = grind (arith, exec_special-SameBus c i)

  ended :
      (o : Option Ctx) → ((x : Ctx) → o ≡ some x → SameBios c x) → finish o ≡ some d → SameBios c d
  unfolding clear_zero
  ended none f h = cc
  ended (some x) f h = grind (arith, f x)

exec-SameBios : (c d : Ctx) (i : GroupOp) → exec i c ≡ some d → SameBios c d
unfolding exec clear_zero gpr_set jmp branch_if jal
exec-SameBios c d GroupOp.group_special h = special-SameBios c d h
exec-SameBios c d GroupOp.group_bcond h = bcond-SameBios c d h
exec-SameBios c d GroupOp.group_cop0 h = step_cop0-SameBios c d h
exec-SameBios c d GroupOp.addi h = addi-SameBios c d h
exec-SameBios c d GroupOp.lb h = ended c d _ (λ x. lb-SameBios c x) h
exec-SameBios c d GroupOp.lh h = ended c d _ (λ x. lh-SameBios c x) h
exec-SameBios c d GroupOp.lwl h = ended c d _ (λ x. lwl-SameBios c x) h
exec-SameBios c d GroupOp.lw h = ended c d _ (λ x. lw-SameBios c x) h
exec-SameBios c d GroupOp.lbu h = ended c d _ (λ x. lbu-SameBios c x) h
exec-SameBios c d GroupOp.lhu h = ended c d _ (λ x. lhu-SameBios c x) h
exec-SameBios c d GroupOp.lwr h = ended c d _ (λ x. lwr-SameBios c x) h
exec-SameBios c d GroupOp.sb h = ended c d _ (λ x. sb-SameBios c x) h
exec-SameBios c d GroupOp.sh h = ended c d _ (λ x. sh-SameBios c x) h
exec-SameBios c d GroupOp.swl h = ended c d _ (λ x. swl-SameBios c x) h
exec-SameBios c d GroupOp.sw h = ended c d _ (λ x. sw-SameBios c x) h
exec-SameBios c d GroupOp.swr h = ended c d _ (λ x. swr-SameBios c x) h
exec-SameBios c d _ h = ap (λ (x : Ctx). x.bus.bios) (sym (of_some h))

dispatch-SameBios : (c d : Ctx) → dispatch c ≡ some d → SameBios c d
unfolding dispatch illegal
dispatch-SameBios c d = go (decode_op (instr_op c.cpu.instr))
  where
    go :
        (o : Option GroupOp)
        → (elim o as (λ x. Option Ctx) [ some i ↦ exec i c | none ↦ some (illegal c) ]) ≡ some d
        → SameBios c d
    go (some i) h = exec-SameBios c d i h
    go none h = ground arith

begin-SameBios : (c : Ctx) → SameBios c (begin c)
unfolding begin enter_slot load_delay_process check_pc set_curr_pc raise_exception
begin-SameBios c = ground arith

load_word-SameBios : (p v : ℕ) (c d : Ctx) → load_word p c ≡ some (v, d) → SameBios c d
unfolding load_word read
load_word-SameBios p v c d h = ground arith

-- A step changes no byte of the BIOS.
pub step-SameBios : (c d : Ctx) → step c ≡ some d → SameBios c d
unfolding step advance
step-SameBios c d h =
    let (r, e, k) = bind-some (load_word (vaddr_to_paddr (begin c).cpu.curr_pc) (begin c)) _ h in
    dispatch-SameBios (advance r.0 r.1) d k
    ∙ load_word-SameBios _ r.0 (begin c) r.1 e
    ∙ begin-SameBios c
