-- ===== src/Cpu/Alu.antt =====
-- The instructions of core/cpu.c that compute one register from others, against arithmetic on integers.
pub mod Dispatch
use mathlib.Core.Option
use mathlib.Core.Path.{subst}
use native.Mathlib.Nat.{div-le_self}
use psycho.Prelude.{
  ℕ, ◌-◌, ◌*◌, ◌/◌, ◌%◌, ◌^◌, ◌<◌, ◌≡◌, bit_and, bit_or, bit_xor, ltb, if◌then◌else◌, truth, arith,
  refl, ap, sym, ◌∙◌, Bool-cases, inl, inr, Option, none, some, of_some,
}
use psycho.Prelude.Int.{ℤ, pos, negsuc, ◌+ℤ◌, ◌-ℤ◌, ltb_ℤ}
use psycho.Bits.{bit_and_mask, bit_xor_mask, bit_or-lt}
use psycho.Word.{
  u16, s32, wrap, sar, shr, shl, slt, add32, sub32, sign_ext_16_32, to_int, sadd_overflow,
  ssub_overflow,
}
use psycho.State.{Ctx}
use psycho.CpuDefs.{instr_op, instr_funct, instr_rs, instr_rt}
use psycho.CpuDefs.Fields.{instr_imm_lem}
use psycho.Cpu.{gpr_set}
use psycho.Cpu.Decode.{GroupOp, GroupSpecial, decode_op, decode_special}
use psycho.Cpu.Special.{
  gpr_rs, gpr_rt, rt, rd, shamt, exec_special, clear_zero, set_or_overflow, add, sub,
}
use psycho.Cpu.Step.{exec, imm, addi}
use psycho.Cpu.Valid.{IsWide}

-- The integer of 16 bits in two's complement.
abbrev pub s16 : ℕ → ℤ
s16 x = if ltb (u16 x) 0x8000 then pos (u16 x) else negsuc (0xFFFF - u16 x)

-- An integer divided by a power of two, towards minus infinity.
abbrev pub floor_half : ℤ → ℕ → ℤ
floor_half (pos n) k = pos (n / 2 ^ k)
floor_half (negsuc n) k = negsuc (n / 2 ^ k)

sign_ext-s16 : (x : ℕ) → sign_ext_16_32 x ≡ wrap (s16 x)
unfolding sign_ext_16_32 wrap
sign_ext-s16 x = ground arith

pub s32-sign_ext : (x : ℕ) → s32 (sign_ext_16_32 x) ≡ s16 x
unfolding s32 sign_ext_16_32
s32-sign_ext x = ground arith

sar-floor_half : (x k : ℕ) → x < 2 ^ 32 → sar x k ≡ wrap (floor_half (s32 x) k)
unfolding sar wrap s32
sar-floor_half x k h = elim (Bool-cases (ltb x 0x8000_0000)) [
  | inl e ↦ rw e (omega (arith, div-le_self x (2 ^ k)))
  | inr e ↦ rw e (omega (arith, div-le_self (0xFFFF_FFFF - x) (2 ^ k)))
]

add32-wrap : (a b : ℕ) → a < 2 ^ 32 → b < 2 ^ 32 → add32 a b ≡ wrap (s32 a +ℤ s32 b)
unfolding wrap s32 ◌+ℤ◌
add32-wrap a b h k = ground arith

sub32-wrap : (a b : ℕ) → a < 2 ^ 32 → b < 2 ^ 32 → sub32 a b ≡ wrap (s32 a -ℤ s32 b)
unfolding wrap s32 ◌-ℤ◌
sub32-wrap a b h k = ground arith

add32-imm : (a x : ℕ) → a < 2 ^ 32 → add32 (sign_ext_16_32 x) a ≡ wrap (s32 a +ℤ s16 x)
unfolding wrap s32 ◌+ℤ◌ sign_ext_16_32
add32-imm a x h = ground arith

-- What an instruction makes of the register `rs` and the immediate, for `rt`; none if it computes no
-- register, or overflows.
abbrev pub imm_value : GroupOp → ℕ → ℕ → Option ℕ
imm_value GroupOp.addi s x = to_int (s16 x +ℤ s32 s)
imm_value GroupOp.addiu s x = some (wrap (s32 s +ℤ s16 x))
imm_value GroupOp.slti s x = some (truth (ltb_ℤ (s32 s) (s16 x)))
imm_value GroupOp.sltiu s x = some (truth (ltb s (wrap (s16 x))))
imm_value GroupOp.andi s x = some (bit_and s x)
imm_value GroupOp.ori s x = some (bit_or s x)
imm_value GroupOp.xori s x = some (bit_xor s x)
imm_value GroupOp.lui s x = some (x * 2 ^ 16)
imm_value _ s x = none

-- What an instruction of the opcode 0 makes of the registers `rs` and `rt` and the shift amount, for
-- `rd`; none if it overflows, or does not make a register of these.
abbrev pub special_value : GroupSpecial → ℕ → ℕ → ℕ → Option ℕ
special_value GroupSpecial.sll s t k = some (t * 2 ^ k % 2 ^ 32)
special_value GroupSpecial.srl s t k = some (t / 2 ^ k)
special_value GroupSpecial.sra s t k = some (wrap (floor_half (s32 t) k))
special_value GroupSpecial.sllv s t k = some (t * 2 ^ (s % 32) % 2 ^ 32)
special_value GroupSpecial.srlv s t k = some (t / 2 ^ (s % 32))
special_value GroupSpecial.srav s t k = some (wrap (floor_half (s32 t) (s % 32)))
special_value GroupSpecial.add s t k = to_int (s32 s +ℤ s32 t)
special_value GroupSpecial.addu s t k = some (wrap (s32 s +ℤ s32 t))
special_value GroupSpecial.sub s t k = to_int (s32 s -ℤ s32 t)
special_value GroupSpecial.subu s t k = some (wrap (s32 s -ℤ s32 t))
special_value GroupSpecial.and s t k = some (bit_and s t)
special_value GroupSpecial.or s t k = some (bit_or s t)
special_value GroupSpecial.xor s t k = some (bit_xor s t)
special_value GroupSpecial.nor s t k = some (bit_xor (bit_or s t) 0xFFFF_FFFF)
special_value GroupSpecial.slt s t k = some (truth (ltb_ℤ (s32 s) (s32 t)))
special_value GroupSpecial.sltu s t k = some (truth (ltb s t))
special_value _ s t k = none

module _ (c : Ctx) (w : IsWide c.cpu) where
  rs_word : gpr_rs c < 2 ^ 32
  rs_word = w.gpr_word (instr_rs c.cpu.instr)

  rt_word : gpr_rt c < 2 ^ 32
  rt_word = w.gpr_word (instr_rt c.cpu.instr)

  to_rt :
      (a v : ℕ)
      → a ≡ v
      → some (clear_zero (gpr_set (rt c) a c)) ≡ some (clear_zero (gpr_set (rt c) v c))
  to_rt a v e = ap (λ x. some (clear_zero (gpr_set (rt c) x c))) e

  to_rd : (a v : ℕ) → a ≡ v → gpr_set (rd c) a c ≡ gpr_set (rd c) v c
  to_rd a v e = ap (λ x. gpr_set (rd c) x c) e

  pub exec-imm_value :
      (i : GroupOp) (v : ℕ)
      → imm_value i (gpr_rs c) (imm c) ≡ some v
      → exec i c ≡ some (clear_zero (gpr_set (rt c) v c))
  unfolding exec slt addi sadd_overflow
  exec-imm_value GroupOp.addi v e =
      let sum : sadd_overflow (sign_ext_16_32 (imm c)) (gpr_rs c) ≡ some v =
        ap (λ (x : ℤ). to_int (x +ℤ s32 (gpr_rs c))) (s32-sign_ext (imm c)) ∙ e in
      ap (λ o. some (clear_zero (set_or_overflow (rt c) o c))) sum
  exec-imm_value GroupOp.addiu v e = to_rt _ v (add32-imm _ (imm c) rs_word ∙ of_some e)
  exec-imm_value GroupOp.slti v e =
      to_rt _ v (ap (λ x. truth (ltb_ℤ (s32 (gpr_rs c)) x)) (s32-sign_ext (imm c)) ∙ of_some e)
  exec-imm_value GroupOp.sltiu v e =
      to_rt _ v (ap (λ x. truth (ltb (gpr_rs c) x)) (sign_ext-s16 (imm c)) ∙ of_some e)
  exec-imm_value GroupOp.andi v e = to_rt _ v (of_some e)
  exec-imm_value GroupOp.ori v e = to_rt _ v (of_some e)
  exec-imm_value GroupOp.xori v e = to_rt _ v (of_some e)
  exec-imm_value GroupOp.lui v e = to_rt _ v (omega (arith, instr_imm_lem c.cpu.instr) ∙ of_some e)
  exec-imm_value _ v e = cc

  low_five : bit_and (gpr_rs c) 0x1F ≡ gpr_rs c % 32
  low_five = bit_and_mask 5 (gpr_rs c)

  pub exec_special-special_value :
      (i : GroupSpecial) (v : ℕ)
      → special_value i (gpr_rs c) (gpr_rt c) (shamt c) ≡ some v
      → exec_special i c ≡ gpr_set (rd c) v c
  unfolding exec_special slt add sub sadd_overflow ssub_overflow
  exec_special-special_value GroupSpecial.sll v e = to_rd _ v (of_some e)
  exec_special-special_value GroupSpecial.srl v e = to_rd _ v (of_some e)
  exec_special-special_value GroupSpecial.sra v e =
      to_rd _ v (sar-floor_half _ _ rt_word ∙ of_some e)
  exec_special-special_value GroupSpecial.sllv v e =
      to_rd _ v (ap (shl (gpr_rt c)) low_five ∙ of_some e)
  exec_special-special_value GroupSpecial.srlv v e =
      to_rd _ v (ap (shr (gpr_rt c)) low_five ∙ of_some e)
  exec_special-special_value GroupSpecial.srav v e =
      to_rd _ v (ap (sar (gpr_rt c)) low_five ∙ sar-floor_half _ _ rt_word ∙ of_some e)
  exec_special-special_value GroupSpecial.add v e = ap (λ o. set_or_overflow (rd c) o c) e
  exec_special-special_value GroupSpecial.sub v e = ap (λ o. set_or_overflow (rd c) o c) e
  exec_special-special_value GroupSpecial.addu v e =
      to_rd _ v (add32-wrap _ _ rs_word rt_word ∙ of_some e)
  exec_special-special_value GroupSpecial.subu v e =
      to_rd _ v (sub32-wrap _ _ rs_word rt_word ∙ of_some e)
  exec_special-special_value GroupSpecial.and v e = to_rd _ v (of_some e)
  exec_special-special_value GroupSpecial.or v e = to_rd _ v (of_some e)
  exec_special-special_value GroupSpecial.xor v e = to_rd _ v (of_some e)
  exec_special-special_value GroupSpecial.nor v e =
      to_rd _ v (sym (bit_xor_mask 32 _ (bit_or-lt 32 _ _ rs_word rt_word)) ∙ of_some e)
  exec_special-special_value GroupSpecial.slt v e = to_rd _ v (of_some e)
  exec_special-special_value GroupSpecial.sltu v e = to_rd _ v (of_some e)
  exec_special-special_value _ v e = cc
