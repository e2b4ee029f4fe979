-- ===== src/Cpu/Valid/Special.antt =====
-- The invariant through the instructions of `INSTR_GROUP_SPECIAL`.
use psycho.Prelude.{ℕ, ◌*◌, ◌≡◌, arith, bit_and, refl}
use psycho.Prelude.{Option, none, some, if_both, if◌then◌else◌}
use psycho.Bits.{bit_and-le_left, bit_and-le_right, bit_or-lt, bit_xor-lt}
use psycho.Word.{u64, shr, add32, slt}
use psycho.Word.Bounds.{
  shr-le, sar-word, truth-word, sdiv-word, srem-word, sadd_overflow-word, ssub_overflow-word,
}
use psycho.State.{Ctx}
use psycho.CpuDefs.{instr_funct}
use psycho.Cpu.{illegal, gpr_set, ExcCode}
use psycho.Cpu.Decode.{GroupSpecial, decode_special}
use psycho.Cpu.Special.{rs, rt, rd, shamt, gpr_rs, gpr_rt, set_hi_lo, jalr, div, divu}
use psycho.Cpu.Special.{set_or_overflow, exec_special, clear_zero, step_special}
use psycho.Cpu.Valid.{IsWord, IsWide, IsValid, gpr_set-IsWide, jmp-IsWide, raise_exception-IsWide}
use psycho.Cpu.Valid.{update-IsWord}

abbrev WideAfter : Ctx → Type 0
WideAfter c = IsWide c.cpu

module _ (c : Ctx) (w : IsWide c.cpu) where
  pub set_hi_lo-IsWide : (hi lo : ℕ) → IsWord hi → IsWord lo → IsWide (set_hi_lo hi lo c).cpu
  set_hi_lo-IsWide hi lo p q = grind arith

  pub set_or_overflow-IsWide :
      (reg : ℕ) (o : Option ℕ)
      → ((s : ℕ) → o ≡ some s → IsWord s)
      → IsWide (set_or_overflow reg o c).cpu
  set_or_overflow-IsWide reg none h = raise_exception-IsWide c w ExcCode.ov
  set_or_overflow-IsWide reg (some s) h = gpr_set-IsWide c w reg s (h s refl)

  rs-IsWord : IsWord (gpr_rs c)
  rs-IsWord = w.gpr_word (rs c)

  rt-IsWord : IsWord (gpr_rt c)
  rt-IsWord = w.gpr_word (rt c)

  jalr-IsWide : IsWide (jalr c).cpu
  unfolding jalr
  jalr-IsWide =
      let linked = gpr_set-IsWide c w (rd c) (add32 c.cpu.curr_pc (4 * 2)) (omega arith) in
      if_both WideAfter _ (jmp-IsWide _ linked _ rs-IsWord)
        (raise_exception-IsWide _ linked ExcCode.adel)

  product-IsWide :
      (x y : ℕ)
      → IsWide (set_hi_lo (shr (u64 (x * y)) 32) (bit_and (u64 (x * y)) 0xFFFF_FFFF) c).cpu
  product-IsWide x y =
      set_hi_lo-IsWide _ _ (omega arith) (omega (arith, bit_and-le_right (u64 (x * y)) 0xFFFF_FFFF))

  slt_quotient : IsWord (if slt (gpr_rs c) 0 then 1 else 0xFFFF_FFFF)
  slt_quotient = ground arith

  div-IsWide : IsWide (div c).cpu
  unfolding div
  div-IsWide = ground (
    arith,
    w,
    rs-IsWord,
    srem-word (gpr_rs c) (gpr_rt c) rs-IsWord,
    sdiv-word (gpr_rs c) (gpr_rt c) rs-IsWord,
    λ (r : ℕ). w.gpr_word r,
    λ (r : ℕ). w.cop0_word r,
  )

  divu-IsWide : IsWide (divu c).cpu
  unfolding divu
  divu-IsWide =
      if_both WideAfter _ (set_hi_lo-IsWide _ _ rs-IsWord (omega arith))
        (set_hi_lo-IsWide _ _ (omega (arith, rs-IsWord)) (omega (arith, rs-IsWord)))

  write_rd : (v : ℕ) → IsWord v → IsWide (gpr_set (rd c) v c).cpu
  write_rd = gpr_set-IsWide c w (rd c)

  pub exec_special-IsWide : (i : GroupSpecial) → IsWide (exec_special i c).cpu
  unfolding exec_special
  exec_special-IsWide GroupSpecial.sll = write_rd _ (omega arith)
  exec_special-IsWide GroupSpecial.srl =
      write_rd _ (omega (arith, rt-IsWord, shr-le (gpr_rt c) (shamt c)))
  exec_special-IsWide GroupSpecial.sra = write_rd _ (sar-word _ _ rt-IsWord)
  exec_special-IsWide GroupSpecial.sllv = write_rd _ (omega arith)
  exec_special-IsWide GroupSpecial.srlv =
      write_rd _ (omega (arith, rt-IsWord, shr-le (gpr_rt c) (bit_and (gpr_rs c) 0x1F)))
  exec_special-IsWide GroupSpecial.srav = write_rd _ (sar-word _ _ rt-IsWord)
  exec_special-IsWide GroupSpecial.jr = jmp-IsWide c w _ rs-IsWord
  exec_special-IsWide GroupSpecial.jalr = jalr-IsWide
  exec_special-IsWide GroupSpecial.syscall = raise_exception-IsWide c w ExcCode.sys
  exec_special-IsWide GroupSpecial.break = raise_exception-IsWide c w ExcCode.bp
  exec_special-IsWide GroupSpecial.mfhi = write_rd _ w.hi_word
  exec_special-IsWide GroupSpecial.mthi = set_hi_lo-IsWide _ _ rs-IsWord w.lo_word
  exec_special-IsWide GroupSpecial.mflo = write_rd _ w.lo_word
  exec_special-IsWide GroupSpecial.mtlo = set_hi_lo-IsWide _ _ w.hi_word rs-IsWord
  exec_special-IsWide GroupSpecial.mult = product-IsWide _ _
  exec_special-IsWide GroupSpecial.multu = product-IsWide _ _
  exec_special-IsWide GroupSpecial.div = div-IsWide
  exec_special-IsWide GroupSpecial.divu = divu-IsWide
  exec_special-IsWide GroupSpecial.add = set_or_overflow-IsWide _ _ (λ s. sadd_overflow-word _ _)
  exec_special-IsWide GroupSpecial.addu = write_rd _ (omega arith)
  exec_special-IsWide GroupSpecial.sub = set_or_overflow-IsWide _ _ (λ s. ssub_overflow-word _ _)
  exec_special-IsWide GroupSpecial.subu = write_rd _ (omega arith)
  exec_special-IsWide GroupSpecial.and =
      write_rd _ (omega (arith, rs-IsWord, bit_and-le_left (gpr_rs c) (gpr_rt c)))
  exec_special-IsWide GroupSpecial.or = write_rd _ (bit_or-lt 32 _ _ rs-IsWord rt-IsWord)
  exec_special-IsWide GroupSpecial.xor = write_rd _ (bit_xor-lt 32 _ _ rs-IsWord rt-IsWord)
  exec_special-IsWide GroupSpecial.nor = write_rd _ (omega arith)
  exec_special-IsWide GroupSpecial.slt = write_rd _ (truth-word _)
  exec_special-IsWide GroupSpecial.sltu = write_rd _ (truth-word _)

-- The end of a step restores what an instruction may have written to `gpr[0]`.
pub clear_zero-IsValid : (c : Ctx) → IsWide c.cpu → IsValid (clear_zero c).cpu
unfolding clear_zero
clear_zero-IsValid c w = grind (arith, update-IsWord)

pub illegal-IsValid : (c : Ctx) → IsValid c.cpu → IsValid (illegal c).cpu
unfolding illegal
illegal-IsValid c v = v

pub step_special-IsValid : (c : Ctx) → IsValid c.cpu → IsValid (step_special c).cpu
unfolding step_special
step_special-IsValid c v = go (decode_special (instr_funct c.cpu.instr))
  where
    go :
        (o : Option GroupSpecial)
        → IsValid
            (elim o as (λ x. Ctx) [ some i ↦ clear_zero (exec_special i c) | none ↦ illegal c ]).cpu
    go none = illegal-IsValid c v
    go (some i) = clear_zero-IsValid (exec_special i c) (exec_special-IsWide c v.wide i)
