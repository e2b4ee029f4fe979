-- ===== src/Cpu/Arch/Plain.antt =====
-- The instructions of the opcode 0, and those on a register and an immediate, against their effects.
use mathlib.Core.Path.{subst}
use psycho.Prelude.{
  ℕ, ◌+◌, ◌*◌, ◌/◌, ◌%◌, ◌^◌, ◌≡◌, ◌≢◌, ◌==◌, arith, refl, sym, ap, ◌∙◌, if◌then◌else◌, bit_and,
  false, Bool-cases, inl, inr, Option, none, some, of_some,
}
use psycho.Bits.{bit_and_mask}
use psycho.Cpu.Branches.{slt-zero}
use psycho.Word.{is_neg, shr, sdiv, srem, s32, to_int, sadd_overflow, ssub_overflow}
use psycho.Prelude.Int.{ℤ, ◌+ℤ◌}
use psycho.State.{Ctx}
use psycho.CpuDefs.{instr_rs, instr_rt, instr_rd, instr_shamt, instr_imm, instr_funct}
use psycho.Cpu.{gpr_set, illegal, raise_exception, ExcCode}
use psycho.Cpu.Decode.{GroupOp, GroupSpecial, decode_special}
use psycho.Cpu.Special.{
  clear_zero, exec_special, set_hi_lo, mult, multu, div, divu, jalr, step_special, add, sub,
  set_or_overflow,
}
use psycho.Cpu.Step.{exec, addi}
use psycho.Cpu.Valid.{IsWide}
use psycho.Cpu.Alu.{
  s16, s32-sign_ext, imm_value, special_value, exec-imm_value, exec_special-special_value,
}
use psycho.Cpu.Muldiv.{hi_lo-multu}
use psycho.Cpu.Signed.{hi_lo-mult}
use psycho.Cpu.Arch.{Arch, view, Effect, sets_hi_lo, traps, apply}
use psycho.Cpu.Arch.Instr.{
  outside_slot, written, or_overflow, signed_quotient, unsigned_quotient, special_effect,
  special_word,
}
use psycho.Cpu.Arch.Effects.{
  Effects, ready, writes-Effects, sets_hi_lo-Effects, jumps-Effects, jumps_and_links-Effects,
  traps-Effects,
}

-- The same result by another name, and for another effect.
pub follow :
    (c : Ctx) {e e' : Effect} {o o' : Option Ctx}
    → e ≡ e'
    → o' ≡ o
    → Effects c e o
    → Effects c e' o'
follow c p q (d, r, s) = (d, q ∙ r, subst (λ k. view d ≡ apply k (view c)) p s)

pub outside : (a : Arch) {e e' : Effect} → outside_slot a e ≡ some e' → (a.slot ≡ false) × (e ≡ e')
outside a h = elim (Bool-cases a.slot) [ inl s ↦ absurd cc | inr s ↦ (s, of_some (rw s at h)) ]

product_halves :
    (q p : ℕ)
    → shr q 32 * 2 ^ 32 + bit_and q 0xFFFF_FFFF ≡ p
    → sets_hi_lo (p / 2 ^ 32) (p % 2 ^ 32) ≡ sets_hi_lo (shr q 32) (bit_and q 0xFFFF_FFFF)
product_halves q p h =
    let hi : p / 2 ^ 32 ≡ shr q 32 = omega (arith, bit_and_mask 32 q) in
    let lo : p % 2 ^ 32 ≡ bit_and q 0xFFFF_FFFF = omega (arith, bit_and_mask 32 q) in
    rw (hi, lo) refl

abbrev pub nothing : Option Effect
nothing = none

pub nothing-ne-some : (e : Effect) → nothing ≢ some e
nothing-ne-some e h = cc

module _ (c : Ctx) (word : ℕ) (w : IsWide (ready word c).cpu) (z : (view c).reg 0 ≡ 0) where
  abbrev rs_value : ℕ
  rs_value = (view c).reg (instr_rs word)

  abbrev rt_value : ℕ
  rt_value = (view c).reg (instr_rt word)

  sets :
      (hi lo : ℕ) {e : Effect}
      → sets_hi_lo hi lo ≡ e
      → Effects c e (some (clear_zero (set_hi_lo hi lo (ready word c))))
  sets hi lo h = follow c h refl (sets_hi_lo-Effects c word w.next_load z hi lo)

  written-Effects :
      (r v : ℕ) (e : Effect) (o : Option Ctx)
      → o ≡ some (clear_zero (gpr_set r v (ready word c)))
      → written r (some v) ≡ some e
      → Effects c e o
  written-Effects r v e o q h = follow c (of_some h) q (writes-Effects c word w.next_load z r v)

  special_value-Effects :
      (i : GroupSpecial) (o : Option ℕ) (e : Effect)
      → special_value i rs_value rt_value (instr_shamt word) ≡ o
      → written (instr_rd word) o ≡ some e
      → Effects c e (some (clear_zero (exec_special i (ready word c))))
  special_value-Effects i none e q h = cc
  special_value-Effects i (some v) e q h =
      written-Effects (instr_rd word) v e _
        (ap (λ d. some (clear_zero d)) (exec_special-special_value (ready word c) w i v q)) h

  traps-Effects_outside :
      (exc : ExcCode) (e : Effect)
      → outside_slot (view c) (traps exc) ≡ some e
      → Effects c e (some (clear_zero (raise_exception exc (ready word c))))
  traps-Effects_outside exc e h =
      follow c (outside (view c) h).1 refl (traps-Effects c word w.next_load z exc w)

  -- A sum or a difference, by the result of the test for an overflow.
  set_or_overflow-Effects :
      (r : ℕ) (o : Option ℕ) (e : Effect)
      → or_overflow r o (view c) ≡ some e
      → Effects c e (some (clear_zero (set_or_overflow r o (ready word c))))
  set_or_overflow-Effects r none e h = traps-Effects_outside ExcCode.ov e h
  set_or_overflow-Effects r (some v) e h = written-Effects r v e _ refl h

  pub addi-Effects :
      (e : Effect)
      → or_overflow (instr_rt word) (imm_value GroupOp.addi rs_value (instr_imm word)) (view c)
        ≡ some e
      → Effects c e (exec GroupOp.addi (ready word c))
  unfolding exec addi sadd_overflow
  addi-Effects e h =
      let sum : ℤ → Option Ctx = λ x. some (
        clear_zero (set_or_overflow (instr_rt word) (to_int (x +ℤ s32 rs_value)) (ready word c))) in
      follow c refl (ap sum (s32-sign_ext (instr_imm word))) (
        set_or_overflow-Effects (instr_rt word) (to_int (s16 (instr_imm word) +ℤ s32 rs_value)) e h)

  pub imm_value-Effects :
      (i : GroupOp) (o : Option ℕ) (e : Effect)
      → imm_value i rs_value (instr_imm word) ≡ o
      → written (instr_rt word) o ≡ some e
      → Effects c e (exec i (ready word c))
  imm_value-Effects i none e q h = cc
  imm_value-Effects i (some v) e q h =
      written-Effects (instr_rt word) v e _ (exec-imm_value (ready word c) w i v q) h

  div-Effects :
      (e : Effect)
      → signed_quotient rs_value rt_value ≡ e
      → Effects c e (some (clear_zero (div (ready word c))))
  unfolding div
  div-Effects e h = elim (Bool-cases (rt_value == 0)) [
    | inl y ↦
        let sign = slt-zero rs_value (w.gpr_word (instr_rs word)) in
        rw (y, sign) (sets rs_value (if is_neg rs_value then 1 else 0xFFFF_FFFF) (rw y at h))
    | inr y ↦
        elim (Bool-cases (if rs_value == 0x8000_0000 then rt_value == 0xFFFF_FFFF else false)) [
          | inl x ↦ rw (y, x) (sets 0 rs_value (rw (y, x) at h))
          | inr x ↦
              rw (y, x) (sets (srem rs_value rt_value) (sdiv rs_value rt_value) (rw (y, x) at h))
        ]
  ]

  divu-Effects :
      (e : Effect)
      → unsigned_quotient rs_value rt_value ≡ e
      → Effects c e (some (clear_zero (divu (ready word c))))
  unfolding divu
  divu-Effects e h = elim (Bool-cases (rt_value == 0)) [
    | inl y ↦ rw y (sets rs_value 0xFFFF_FFFF (rw y at h))
    | inr y ↦ rw y (sets (rs_value % rt_value) (rs_value / rt_value) (rw y at h))
  ]

  jalr-Effects :
      (e : Effect)
      → special_effect GroupSpecial.jalr word (view c) ≡ some e
      → Effects c e (some (clear_zero (jalr (ready word c))))
  unfolding jalr
  jalr-Effects e h =
      let low : bit_and rs_value 3 ≡ rs_value % 4 = bit_and_mask 2 rs_value in
      elim (Bool-cases (rs_value % 4 == 0)) [
        | inl y ↦
            follow c (outside (view c) (rw y at h)).1 (rw (low, y) refl)
              (jumps_and_links-Effects c word w.next_load z (instr_rd word) rs_value)
        | inr y ↦ absurd (nothing-ne-some e (rw y at h))
      ]

  pub special-Effects :
      (i : GroupSpecial) (e : Effect)
      → special_effect i word (view c) ≡ some e
      → Effects c e (some (clear_zero (exec_special i (ready word c))))
  unfolding exec_special mult multu add sub sadd_overflow ssub_overflow
  special-Effects GroupSpecial.jr e h =
      follow c (outside (view c) h).1 refl (jumps-Effects c word w.next_load z rs_value)
  special-Effects GroupSpecial.jalr e h = jalr-Effects e h
  special-Effects GroupSpecial.syscall e h = traps-Effects_outside ExcCode.sys e h
  special-Effects GroupSpecial.break e h = traps-Effects_outside ExcCode.bp e h
  special-Effects GroupSpecial.add e h = set_or_overflow-Effects (instr_rd word) _ e h
  special-Effects GroupSpecial.sub e h = set_or_overflow-Effects (instr_rd word) _ e h
  special-Effects GroupSpecial.mfhi e h = written-Effects (instr_rd word) c.cpu.hi e _ refl h
  special-Effects GroupSpecial.mflo e h = written-Effects (instr_rd word) c.cpu.lo e _ refl h
  special-Effects GroupSpecial.mthi e h = sets rs_value c.cpu.lo (of_some h)
  special-Effects GroupSpecial.mtlo e h = sets c.cpu.hi rs_value (of_some h)
  special-Effects GroupSpecial.mult e h =
      sets _ _ (sym (product_halves _ _ (hi_lo-mult (ready word c) w)) ∙ of_some h)
  special-Effects GroupSpecial.multu e h =
      sets _ _ (sym (product_halves _ _ (hi_lo-multu (ready word c) w)) ∙ of_some h)
  special-Effects GroupSpecial.div e h = div-Effects e (of_some h)
  special-Effects GroupSpecial.divu e h = divu-Effects e (of_some h)
  special-Effects i e h = special_value-Effects i _ e refl h

  pub special_word-Effects :
      (e : Effect)
      → special_word word (view c) ≡ some e
      → Effects c e (exec GroupOp.group_special (ready word c))
  unfolding exec step_special
  special_word-Effects e h = go (decode_special (instr_funct word)) h
    where
      go :
          (o : Option GroupSpecial)
          → (elim o as (λ x. Option Effect) [
            | some i ↦ special_effect i word (view c)
            | none ↦ none
          ])
            ≡ some e
          → Effects c e (
              some (elim o as (λ x. Ctx) [
                | some i ↦ clear_zero (exec_special i (ready word c))
                | none ↦ illegal (ready word c)
              ]))
      go none k = cc
      go (some i) k = special-Effects i e k
