-- ===== src/Cpu/Valid/Step.antt =====
-- The invariant through `psycho_cpu_step`.
use mathlib.Core.Path.{subst}
use psycho.Prelude.{ℕ, ◌^◌, ◌<◌, ◌≡◌, arith, bit_and, refl, ◌==◌}
use psycho.Prelude.{Option, none, some, Bool, of_some, sym, if_both, Bool-cases, inl, inr}
use psycho.Bits.{bit_and-le_left, bit_and-le_right, bit_or-lt, bit_xor-lt}
use psycho.Word.Bounds.{truth-word, sadd_overflow-word}
use psycho.State.{Ctx, cop0_sr, gpr_ra}
use psycho.CpuDefs.{instr_funct, calc_jmp_addr}
use psycho.CpuDefs.Fields.{instr_imm_lem}
use psycho.Memory.{update}
use psycho.Bus.View.{IsSized}
use psycho.Bus.Bytes.{HoldsBytes}
use psycho.Cpu.{illegal, branch_if, jmp, gpr_set, raise_exception}
use psycho.Cpu.Decode.{GroupOp, GroupSpecial, decode_special}
use psycho.Cpu.Special.{rs, rt, rd, gpr_rs, set_or_overflow, clear_zero, step_special}
use psycho.Cpu.Special.{exec_special, jalr, div, divu}
use psycho.Cpu.Step.{imm, link_ra, bcond, jal, addi, rfe, sr_pop, step_cop0, finish, exec}
use psycho.Cpu.Valid.{IsWord, IsWide, IsValid, gpr_set-IsWide, jmp-IsWide, branch_if-IsWide}
use psycho.Cpu.Valid.{update-IsWord}
use psycho.Cpu.Valid.Special.{set_or_overflow-IsWide, exec_special-IsWide, clear_zero-IsValid}
use psycho.Cpu.Valid.Special.{illegal-IsValid}
use psycho.Cpu.Valid.Access.{Good, lb-Good, lbu-Good}
use psycho.Cpu.Valid.Access.{lh-Good, lhu-Good, lw-Good, lwl-Good, lwr-Good, sb-Good, sh-Good}
use psycho.Cpu.Valid.Access.{sw-Good, swl-Good, swr-Good}

-- The machine between two steps.
pub record Machine (c : Ctx) : Type 0 where
  pub valid : IsValid c.cpu
  pub bytes : HoldsBytes c.bus
  pub sized : IsSized c.bus

-- Two contexts with one memory.
abbrev pub SameBus : Ctx → Ctx → Type 0
SameBus c d = d.bus ≡ c.bus

module _ (c : Ctx) where
  set_or_overflow-SameBus : (r : ℕ) (o : Option ℕ) → SameBus c (set_or_overflow r o c)
  unfolding raise_exception gpr_set
  set_or_overflow-SameBus r none = refl
  set_or_overflow-SameBus r (some s) = refl

  jalr-SameBus : SameBus c (jalr c)
  unfolding jalr jmp raise_exception gpr_set
  jalr-SameBus = ground arith

  div-SameBus : SameBus c (div c)
  unfolding div
  div-SameBus = ground arith

  divu-SameBus : SameBus c (divu c)
  unfolding divu
  divu-SameBus = ground arith

  pub exec_special-SameBus : (i : GroupSpecial) → SameBus c (exec_special i c)
  unfolding exec_special gpr_set jmp raise_exception
  exec_special-SameBus GroupSpecial.sll = refl
  exec_special-SameBus GroupSpecial.jalr = jalr-SameBus
  exec_special-SameBus GroupSpecial.div = div-SameBus
  exec_special-SameBus GroupSpecial.divu = divu-SameBus
  exec_special-SameBus GroupSpecial.add = set_or_overflow-SameBus _ _
  exec_special-SameBus GroupSpecial.sub = set_or_overflow-SameBus _ _
  exec_special-SameBus _ = refl

  pub bcond-SameBus : SameBus c (bcond c)
  unfolding bcond branch_if gpr_set
  bcond-SameBus = if_both (SameBus c) (bit_and (rt c) 0x1E == 0x10) refl refl

module _ (c : Ctx) (m : Machine c) where
  wide : IsWide c.cpu
  wide = m.valid.wide

  good : Good c
  good = record { wide = wide; bytes = m.bytes; sized = m.sized }

  kept : (d : Ctx) → IsValid d.cpu → SameBus c d → Machine d
  kept d v e = record {
    valid = v;
    bytes = subst HoldsBytes (sym e) m.bytes;
    sized = subst IsSized (sym e) m.sized;
  }

  cleared : (d : Ctx) → IsWide d.cpu → SameBus c d → Machine (clear_zero d)
  cleared d w e = kept (clear_zero d) (clear_zero-IsValid d w) (unfold clear_zero in e)

  -- What follows an instruction that leaves the memory alone.
  ended : (d c' : Ctx) → IsWide d.cpu → SameBus c d → finish (some d) ≡ some c' → Machine c'
  ended d c' w e h = subst Machine (of_some h) (cleared d w e)

  ended_access :
      (o : Option Ctx) (c' : Ctx)
      → ((d : Ctx) → o ≡ some d → Good d)
      → finish o ≡ some c'
      → Machine c'
  ended_access none c' g h = cc
  ended_access (some d) c' g h =
      let good = g d refl in
      subst Machine (of_some h) (record {
        valid = clear_zero-IsValid d good.wide;
        bytes = unfold clear_zero in good.bytes;
        sized = unfold clear_zero in good.sized;
      })

  sr_pop-IsWord : (sr : ℕ) → IsWord (sr_pop sr)
  sr_pop-IsWord sr =
      bit_or-lt 32 _ _ (omega (arith, bit_and-le_right sr 0xFFFF_FFF0))
        (omega (arith, bit_and-le_right sr 0x3C))

  -- A register of the system coprocessor is given a word.
  cop0-Machine :
      (r v : ℕ)
      → IsWord v
      → Machine (clear_zero (record c { cpu = record (c.cpu) { cop0 = update c.cpu.cop0 r v } }))
  cop0-Machine r v h =
      kept _
        (clear_zero-IsValid _ (
          let w : IsWide c.cpu = wide in
          let u : (i : ℕ) → IsWord (update c.cpu.cop0 r v i) = update-IsWord _ r v w.cop0_word h in
          grind arith))
        (unfold clear_zero in refl)

  step_cop0-Machine : Machine (step_cop0 c)
  unfolding step_cop0 rfe
  step_cop0-Machine =
      if_both Machine _
        (cleared (gpr_set (rt c) (c.cpu.cop0 (rd c)) c)
          (gpr_set-IsWide c wide (rt c) _ (wide.cop0_word (rd c))) (unfold gpr_set in refl))
        (if_both Machine _ (cop0-Machine (rd c) _ (wide.gpr_word (rt c))) (
          if_both Machine _ (cop0-Machine cop0_sr _ (sr_pop-IsWord _))
            (kept (illegal c) (illegal-IsValid c m.valid) (unfold illegal in refl))))

  step_special-Machine : Machine (step_special c)
  unfolding step_special
  step_special-Machine =
      elim (decode_special (instr_funct c.cpu.instr))
        as (λ o.
          Machine
            (elim o as (λ x. Ctx) [ some i ↦ clear_zero (exec_special i c) | none ↦ illegal c ])) [
              | some i ↦
                  cleared (exec_special i c) (exec_special-IsWide c wide i)
                    (exec_special-SameBus c i)
              | none ↦ kept (illegal c) (illegal-IsValid c m.valid) (unfold illegal in refl)
            ]

  link_ra-IsWide : IsWide (link_ra c).cpu
  link_ra-IsWide = gpr_set-IsWide c wide gpr_ra _ (omega arith)

  bcond-IsWide : IsWide (bcond c).cpu
  unfolding bcond
  bcond-IsWide = elim (Bool-cases (bit_and (rt c) 0x1E == 0x10)) [
    | inl e ↦ rw e (branch_if-IsWide _ link_ra-IsWide _)
    | inr e ↦ rw e (branch_if-IsWide c wide _)
  ]

  imm-word : imm c < 2 ^ 16
  imm-word = omega (arith, instr_imm_lem c.cpu.instr)

  calc_jmp_addr-IsWord : (instr pc : ℕ) → IsWord (calc_jmp_addr instr pc)
  unfolding calc_jmp_addr
  calc_jmp_addr-IsWord instr pc =
      bit_or-lt 32 _ _ (omega arith) (omega (arith, bit_and-le_right pc 0xF000_0000))

  write_rt : (v : ℕ) → IsWord v → IsWide (gpr_set (rt c) v c).cpu
  write_rt = gpr_set-IsWide c wide (rt c)

  branch-Machine : (b : Bool) (c' : Ctx) → finish (some (branch_if b c)) ≡ some c' → Machine c'
  branch-Machine b c' =
      ended (branch_if b c) c' (branch_if-IsWide c wide b) (unfold branch_if in refl)

  rt-Machine :
      (v : ℕ) (c' : Ctx) → IsWord v → finish (some (gpr_set (rt c) v c)) ≡ some c' → Machine c'
  rt-Machine v c' h = ended (gpr_set (rt c) v c) c' (write_rt v h) (unfold gpr_set in refl)

  jal-IsWide : IsWide (jal c).cpu
  unfolding jal
  jal-IsWide = jmp-IsWide (link_ra c) link_ra-IsWide _ (calc_jmp_addr-IsWord _ _)

  jal-SameBus : SameBus c (jal c)
  unfolding jal jmp gpr_set
  jal-SameBus = refl

  addi-IsWide : IsWide (addi c).cpu
  unfolding addi
  addi-IsWide = set_or_overflow-IsWide c wide _ _ (λ s. sadd_overflow-word _ _)

  addi-SameBus : SameBus c (addi c)
  unfolding addi
  addi-SameBus = set_or_overflow-SameBus c _ _

  pub exec-Machine : (i : GroupOp) (c' : Ctx) → exec i c ≡ some c' → Machine c'
  unfolding exec
  exec-Machine GroupOp.group_special c' h = subst Machine (of_some h) step_special-Machine
  exec-Machine GroupOp.group_bcond c' h = ended (bcond c) c' bcond-IsWide (bcond-SameBus c) h
  exec-Machine GroupOp.group_cop0 c' h = subst Machine (of_some h) step_cop0-Machine
  exec-Machine GroupOp.j c' h =
      ended (jmp (calc_jmp_addr c.cpu.instr c.cpu.curr_pc) c) c'
        (jmp-IsWide c wide _ (calc_jmp_addr-IsWord _ _)) (unfold jmp in refl) h
  exec-Machine GroupOp.jal c' h = ended (jal c) c' jal-IsWide jal-SameBus h
  exec-Machine GroupOp.beq c' h = branch-Machine _ c' h
  exec-Machine GroupOp.bne c' h = branch-Machine _ c' h
  exec-Machine GroupOp.blez c' h = branch-Machine _ c' h
  exec-Machine GroupOp.bgtz c' h = branch-Machine _ c' h
  exec-Machine GroupOp.addi c' h = ended (addi c) c' addi-IsWide addi-SameBus h
  exec-Machine GroupOp.addiu c' h = rt-Machine _ c' (omega arith) h
  exec-Machine GroupOp.slti c' h = rt-Machine _ c' (truth-word _) h
  exec-Machine GroupOp.sltiu c' h = rt-Machine _ c' (truth-word _) h
  exec-Machine GroupOp.andi c' h =
      rt-Machine _ c' (omega (arith, wide.gpr_word (rs c), bit_and-le_left (gpr_rs c) (imm c))) h
  exec-Machine GroupOp.ori c' h =
      rt-Machine _ c' (bit_or-lt 32 _ _ (wide.gpr_word (rs c)) (omega (arith, imm-word))) h
  exec-Machine GroupOp.xori c' h =
      rt-Machine _ c' (bit_xor-lt 32 _ _ (wide.gpr_word (rs c)) (omega (arith, imm-word))) h
  exec-Machine GroupOp.lui c' h = rt-Machine _ c' (omega arith) h
  exec-Machine GroupOp.lb c' h = ended_access _ c' (λ d. lb-Good c d good) h
  exec-Machine GroupOp.lh c' h = ended_access _ c' (λ d. lh-Good c d good) h
  exec-Machine GroupOp.lwl c' h = ended_access _ c' (λ d. lwl-Good c d good) h
  exec-Machine GroupOp.lw c' h = ended_access _ c' (λ d. lw-Good c d good) h
  exec-Machine GroupOp.lbu c' h = ended_access _ c' (λ d. lbu-Good c d good) h
  exec-Machine GroupOp.lhu c' h = ended_access _ c' (λ d. lhu-Good c d good) h
  exec-Machine GroupOp.lwr c' h = ended_access _ c' (λ d. lwr-Good c d good) h
  exec-Machine GroupOp.sb c' h = ended_access _ c' (λ d. sb-Good c d good) h
  exec-Machine GroupOp.sh c' h = ended_access _ c' (λ d. sh-Good c d good) h
  exec-Machine GroupOp.swl c' h = ended_access _ c' (λ d. swl-Good c d good) h
  exec-Machine GroupOp.sw c' h = ended_access _ c' (λ d. sw-Good c d good) h
  exec-Machine GroupOp.swr c' h = ended_access _ c' (λ d. swr-Good c d good) h
