-- ===== src/Cpu/Alu/Dispatch.antt =====
-- The instruction words that compute one register, through the `switch`es of `psycho_cpu_step`.
use mathlib.Core.Option
use mathlib.Core.Path.{subst}
use psycho.Prelude.{ℕ, ◌≡◌, refl, ap, Option, none, some}
use psycho.State.{Ctx}
use psycho.CpuDefs.{instr_op, instr_funct}
use psycho.Cpu.{gpr_set, illegal}
use psycho.Cpu.Decode.{GroupOp, GroupSpecial, decode_op, decode_special}
use psycho.Cpu.Special.{rt, rd, gpr_rs, gpr_rt, shamt, exec_special, clear_zero, step_special}
use psycho.Cpu.Step.{exec, imm, dispatch}
use psycho.Cpu.Valid.{IsWide}
use psycho.Cpu.Alu.{imm_value, special_value, exec-imm_value, exec_special-special_value}

-- The register that an instruction computes from others, with its value; none if it does something
-- else, or overflows.
abbrev pub computed_special : Ctx → Option (ℕ × ℕ)
computed_special c = elim (decode_special (instr_funct c.cpu.instr)) [
  | some i ↦ Option.map (λ v. (rd c, v)) (special_value i (gpr_rs c) (gpr_rt c) (shamt c))
  | none ↦ none
]

abbrev pub computed_group : GroupOp → Ctx → Option (ℕ × ℕ)
computed_group GroupOp.group_special c = computed_special c
computed_group i c = Option.map (λ v. (rt c, v)) (imm_value i (gpr_rs c) (imm c))

unfoldable pub computed : Ctx → Option (ℕ × ℕ)
computed c = elim (decode_op (instr_op c.cpu.instr)) [ some i ↦ computed_group i c | none ↦ none ]

module _ (c : Ctx) (w : IsWide c.cpu) where
  Does : Option (ℕ × ℕ) → Option Ctx → Type 0
  Does none o = Unit {0}
  Does (some (r, v)) o = o ≡ some (clear_zero (gpr_set r v c))

  special-Does :
      (i : GroupSpecial)
      → Does
          (Option.map (λ v. (rd c, v)) (special_value i (gpr_rs c) (gpr_rt c) (shamt c)))
          (some (clear_zero (exec_special i c)))
  unfolding Does
  special-Does i = go (special_value i (gpr_rs c) (gpr_rt c) (shamt c)) refl
    where
      go :
          (o : Option ℕ)
          → special_value i (gpr_rs c) (gpr_rt c) (shamt c) ≡ o
          → Does (Option.map (λ v. (rd c, v)) o) (some (clear_zero (exec_special i c)))
      go none e = tt
      go (some v) e = ap (λ d. some (clear_zero d)) (exec_special-special_value c w i v e)

  imm-Does :
      (i : GroupOp) → Does (Option.map (λ v. (rt c, v)) (imm_value i (gpr_rs c) (imm c))) (exec i c)
  unfolding Does
  imm-Does i = go (imm_value i (gpr_rs c) (imm c)) refl
    where
      go :
          (o : Option ℕ)
          → imm_value i (gpr_rs c) (imm c) ≡ o
          → Does (Option.map (λ v. (rt c, v)) o) (exec i c)
      go none e = tt
      go (some v) e = exec-imm_value c w i v e

  group-Does : (i : GroupOp) → Does (computed_group i c) (exec i c)
  unfolding exec step_special
  group-Does GroupOp.group_special =
      elim (decode_special (instr_funct c.cpu.instr))
        as (λ o.
          Does
            (elim o as (λ y. Option (ℕ × ℕ)) [
              | some i ↦
                  Option.map (λ v. (rd c, v)) (special_value i (gpr_rs c) (gpr_rt c) (shamt c))
              | none ↦ none
            ])
            (some (elim o as (λ y. Ctx) [
              | some i ↦ clear_zero (exec_special i c)
              | none ↦ illegal c
            ]))) [ some i ↦ special-Does i | none ↦ unfold Does in tt ]
  group-Does i = imm-Does i

  dispatch-Does : Does (computed c) (dispatch c)
  unfolding dispatch computed
  dispatch-Does =
      elim (decode_op (instr_op c.cpu.instr))
        as (λ o.
          Does (elim o as (λ y. Option (ℕ × ℕ)) [ some i ↦ computed_group i c | none ↦ none ])
            (elim o as (λ y. Option Ctx) [ some i ↦ exec i c | none ↦ some (illegal c) ])) [
              | some i ↦ group-Does i
              | none ↦ unfold Does in tt
            ]

-- In a well-formed CPU, an instruction word that computes a register from others without an overflow
-- has a result, the write of what the architecture says: sums and differences of the signed values,
-- exact or modulo 2^32, a signed immediate, comparisons of the signed or the unsigned values, bitwise
-- operations, arithmetic shifts as division towards minus infinity, and shifts by a register modulo 32.
pub dispatch-computed :
    (c : Ctx) (r v : ℕ)
    → IsWide c.cpu
    → computed c ≡ some (r, v)
    → dispatch c ≡ some (clear_zero (gpr_set r v c))
dispatch-computed c r v w e =
    unfold Does in subst (λ o. Does c w o (dispatch c)) e (dispatch-Does c w)
