-- ===== src/Cpu/Alike/Step.antt =====
-- A whole step from two states with the same registers and memory.
use mathlib.Core.Path.{subst}
use psycho.Prelude.{ℕ, ◌≡◌, arith, sym, ◌∙◌, Option, none, some, ◌>>=◌}
use psycho.State.{Ctx}
use psycho.Memory.{read}
use psycho.Bus
use psycho.CpuDefs.{instr_op, instr_funct, vaddr_to_paddr}
use psycho.Cpu.{illegal, branch_if, jmp, gpr_set, raise_exception, load_delay_process}
use psycho.Cpu.Decode.{GroupOp, decode_op, decode_special}
use psycho.Cpu.Special.{exec_special, clear_zero, step_special}
use psycho.Cpu.Step.{
  bcond, step_cop0, jal, addi, finish, exec, begin, enter_slot, check_pc, set_curr_pc, advance,
  dispatch, step,
}
use psycho.Cpu.Alike.{Alike, Keeps, dress, dress-Alike, exec_special-dress, exec_special-Keeps}
use psycho.Cpu.Alike.Access.{
  Agrees, lb-Agrees, lh-Agrees, lwl-Agrees, lw-Agrees, lbu-Agrees, lhu-Agrees, lwr-Agrees,
  sb-Agrees, sh-Agrees, swl-Agrees, sw-Agrees, swr-Agrees,
}

finish-Agrees : (c : Ctx) (o o' : Option Ctx) → Agrees c o o' → Agrees c (finish o) (finish o')
unfolding clear_zero
finish-Agrees c none none a = tt
finish-Agrees c none (some d') a = absurd a
finish-Agrees c (some d) none a = absurd a
finish-Agrees c (some d) (some d') (a, k) = ground arith

module _ (x c : Ctx) where
  illegal-Agrees : Agrees c (some (illegal c)) (some (illegal (dress x c)))
  unfolding illegal
  illegal-Agrees = ground arith

  step_special-Agrees : Agrees c (some (step_special c)) (some (step_special (dress x c)))
  unfolding step_special clear_zero
  step_special-Agrees =
      elim (decode_special (instr_funct c.cpu.instr))
        as (λ o.
          Agrees c
            (some
              (elim o as (λ y. Ctx) [ some i ↦ clear_zero (exec_special i c) | none ↦ illegal c ]))
            (some (elim o as (λ y. Ctx) [
              | some i ↦ clear_zero (exec_special i (dress x c))
              | none ↦ illegal (dress x c)
            ]))) [
              | some i ↦
                  finish-Agrees c (some (exec_special i c)) (some (exec_special i (dress x c)))
                    (exec_special-dress x c i, exec_special-Keeps x c i)
              | none ↦ illegal-Agrees
            ]

  exec-Agrees : (i : GroupOp) → Agrees c (exec i c) (exec i (dress x c))
  unfolding exec bcond step_cop0 jal addi clear_zero branch_if jmp gpr_set raise_exception illegal
  exec-Agrees GroupOp.group_special = step_special-Agrees
  exec-Agrees GroupOp.lb = finish-Agrees c _ _ (lb-Agrees x c)
  exec-Agrees GroupOp.lh = finish-Agrees c _ _ (lh-Agrees x c)
  exec-Agrees GroupOp.lwl = finish-Agrees c _ _ (lwl-Agrees x c)
  exec-Agrees GroupOp.lw = finish-Agrees c _ _ (lw-Agrees x c)
  exec-Agrees GroupOp.lbu = finish-Agrees c _ _ (lbu-Agrees x c)
  exec-Agrees GroupOp.lhu = finish-Agrees c _ _ (lhu-Agrees x c)
  exec-Agrees GroupOp.lwr = finish-Agrees c _ _ (lwr-Agrees x c)
  exec-Agrees GroupOp.sb = finish-Agrees c _ _ (sb-Agrees x c)
  exec-Agrees GroupOp.sh = finish-Agrees c _ _ (sh-Agrees x c)
  exec-Agrees GroupOp.swl = finish-Agrees c _ _ (swl-Agrees x c)
  exec-Agrees GroupOp.sw = finish-Agrees c _ _ (sw-Agrees x c)
  exec-Agrees GroupOp.swr = finish-Agrees c _ _ (swr-Agrees x c)
  exec-Agrees _ = ground arith

  dispatch-Agrees : Agrees c (dispatch c) (dispatch (dress x c))
  unfolding dispatch
  dispatch-Agrees =
      elim (decode_op (instr_op c.cpu.instr))
        as (λ o.
          Agrees c (elim o as (λ y. Option Ctx) [ some i ↦ exec i c | none ↦ some (illegal c) ])
            (elim o as (λ y. Option Ctx) [
              | some i ↦ exec i (dress x c)
              | none ↦ some (illegal (dress x c))
            ])) [ some i ↦ exec-Agrees i | none ↦ illegal-Agrees ]

  begin-Agrees : Agrees c (some (begin c)) (some (begin (dress x c)))
  unfolding begin enter_slot check_pc set_curr_pc load_delay_process raise_exception
  begin-Agrees = ground arith

Agrees-Keeps : (b c : Ctx) (o o' : Option Ctx) → Keeps b c → Agrees c o o' → Agrees b o o'
Agrees-Keeps b c none none k a = tt
Agrees-Keeps b c none (some d') k a = absurd a
Agrees-Keeps b c (some d) none k a = absurd a
Agrees-Keeps b c (some d) (some d') k (a, l) = (
  a,
  record {
    kept_log = l.kept_log ∙ k.kept_log;
    kept_disasm = l.kept_disasm ∙ k.kept_disasm;
    kept_bios_trace = l.kept_bios_trace ∙ k.kept_bios_trace;
  },
)

-- Two fetches of one word.
abbrev Fetched : Ctx → Option (ℕ × Ctx) → Option (ℕ × Ctx) → Type 0
Fetched c none none = Unit {0}
Fetched c (some (v, d)) (some (v', d')) = (v' ≡ v) × Alike d d' × Keeps c d
Fetched c _ _ = ⊥

load_word-Fetched :
    (p : ℕ) (x c : Ctx) → Fetched c (Bus.load_word p c) (Bus.load_word p (dress x c))
unfolding Bus.load_word read
load_word-Fetched p x c = ground arith

abbrev continue : ℕ × Ctx → Option Ctx
continue (word, d) = dispatch (advance word d)

continue-dress :
    (c d d' : Ctx) (word : ℕ)
    → Alike d d'
    → Keeps c d
    → Agrees c (continue (word, d)) (continue (word, d'))
unfolding advance
continue-dress c d d' word a k =
    let k' : Keeps c (advance word d) = record {
      kept_log = k.kept_log;
      kept_disasm = k.kept_disasm;
      kept_bios_trace = k.kept_bios_trace;
    } in
    subst (λ e. Agrees c (dispatch (advance word d)) (dispatch (advance word e)))
      (sym (dress-Alike d d' a))
      (Agrees-Keeps c (advance word d) _ _ k' (dispatch-Agrees d' (advance word d)))

continue-Agrees :
    (c : Ctx) (o o' : Option (ℕ × Ctx))
    → Fetched c o o'
    → Agrees c (o >>= continue) (o' >>= continue)
continue-Agrees c none none f = tt
continue-Agrees c none (some r) f = absurd f
continue-Agrees c (some r) none f = absurd f
continue-Agrees c (some (v, d)) (some (v', d')) (e, a, k) =
    subst (λ (w : ℕ). Agrees c (continue (v, d)) (continue (w, d'))) (sym e)
      (continue-dress c d d' v a k)

fetch : Ctx → Option (ℕ × Ctx)
fetch b = Bus.load_word (vaddr_to_paddr b.cpu.curr_pc) b

fetch-Agrees :
    (c b b' : Ctx)
    → Alike b b'
    → Keeps c b
    → Agrees c (fetch b >>= continue) (fetch b' >>= continue)
unfolding fetch
fetch-Agrees c b b' a k =
    subst (λ e. Agrees c (fetch b >>= continue) (fetch e >>= continue)) (sym (dress-Alike b b' a))
      (Agrees-Keeps c b _ _ k (continue-Agrees b _ _ (load_word-Fetched _ b' b)))

-- From two states with the same registers and memory, a step has a result in both or in neither;
-- the results have the same registers and memory, and the log's levels, the disassembler and the
-- trace of BIOS calls are as they were.
pub step-Agrees : (c c' : Ctx) → Alike c c' → Agrees c (step c) (step c')
unfolding step fetch
step-Agrees c c' a =
    subst (λ e. Agrees c (step c) (step e)) (sym (dress-Alike c c' a))
      (fetch-Agrees c _ _ (begin-Agrees c' c).0 (begin-Agrees c' c).1)
