-- ===== src/Cpu/Arch/System.antt =====
-- `mfc0`, `mtc0` and `rfe` of core/cpu.c against their effects.
use psycho.Prelude.{ℕ, ◌≡◌, ◌==◌, refl, sym, ap, ◌∙◌, Bool-cases, inl, inr, some, of_some}
use psycho.State.{Ctx, cop0_sr}
use psycho.CpuDefs.{instr_rs, instr_rt, instr_rd, instr_funct}
use psycho.Cpu.Step.{step_cop0, rfe, sr_pop}
use psycho.Cpu.Valid.{IsWide}
use psycho.Cpu.Exceptions.{sr_pop_lem}
use psycho.Cpu.Arch.{view, Effect, sets_cop0, popped}
use psycho.Cpu.Arch.Instr.{cop0_effect}
use psycho.Cpu.Arch.Effects.{Effects, ready, writes-Effects, sets_cop0-Effects}
use psycho.Cpu.Arch.Plain.{follow, nothing-ne-some}

module _ (c : Ctx) (word : ℕ) (w : IsWide (ready word c).cpu) (z : (view c).reg 0 ≡ 0) where
  popped_sr :
      sets_cop0 cop0_sr (popped (c.cpu.cop0 cop0_sr))
      ≡ sets_cop0 cop0_sr (sr_pop (c.cpu.cop0 cop0_sr))
  popped_sr = ap (sets_cop0 cop0_sr) (sym (sr_pop_lem (c.cpu.cop0 cop0_sr) (w.cop0_word cop0_sr)))

  pub cop0-Effects :
      (e : Effect)
      → cop0_effect word (view c) ≡ some e
      → Effects c e (some (step_cop0 (ready word c)))
  unfolding step_cop0 rfe
  cop0-Effects e h = elim (Bool-cases (instr_rs word == 0x00)) [
    | inl m ↦ rw m (
        follow c (of_some (rw m at h)) refl
          (writes-Effects c word w.next_load z (instr_rt word) (c.cpu.cop0 (instr_rd word))))
    | inr m ↦ elim (Bool-cases (instr_rs word == 0x04)) [
      | inl t ↦
          rw (m, t)
            (follow c (of_some (rw (m, t) at h)) refl (
              sets_cop0-Effects c word w.next_load z (instr_rd word)
                ((view c).reg (instr_rt word))))
      | inr t ↦ elim (Bool-cases (instr_funct word == 0x10)) [
        | inl r ↦
            rw (m, t, r)
              (follow c (sym popped_sr ∙ of_some (rw (m, t, r) at h)) refl
                (sets_cop0-Effects c word w.next_load z cop0_sr (sr_pop (c.cpu.cop0 cop0_sr))))
        | inr r ↦ absurd (nothing-ne-some e (rw (m, t, r) at h))
      ]
    ]
  ]
