-- ===== src/Cpu/Arch/Groups.antt =====
-- The outer `switch` of `psycho_cpu_step`, on the primary opcode, against the effects.
use psycho.Prelude.{ℕ, ◌≡◌, arith, refl, some}
use psycho.Bits.{bit_and_mask}
use psycho.Word.{sign_ext_8_32, sign_ext_16_32}
use psycho.State.{Ctx}
use psycho.CpuDefs.{instr_rs}
use psycho.Bus.Bytes.{HoldsBytes}
use psycho.Bus.View.{IsSized}
use psycho.Bus.Widths.{Width}
use psycho.Cpu.Arch.{view, Effect}
use psycho.Cpu.Arch.Effects.{Effects, ready}
use psycho.Cpu.Arch.Plain.{follow}
use psycho.Cpu.Arch.Data.{group_effect}
use psycho.Cpu.Special.{gpr_rt}
use psycho.Cpu.Decode.{GroupOp}
use psycho.Cpu.Step.{exec}
use psycho.Cpu.Valid.{IsWide}
use psycho.Cpu.Branches.{zero-slt}
use psycho.Cpu.Arch.Branching.{not_positive, branch-Effects, bcond-Effects, j-Effects, jal-Effects}
use psycho.Cpu.Arch.Plain.{special_word-Effects, imm_value-Effects, addi-Effects}
use psycho.Cpu.Arch.System.{cop0-Effects}
use psycho.Cpu.Arch.Access.{
  lb-loads, lbu-loads, lh-loads, lhu-loads, lw-loads, sb-stores, sh-stores, lh-traps, lhu-traps,
  lw-traps, sh-traps,
}
use psycho.Cpu.Arch.Memory.{paddr, checked, load-Effects, store-Effects, sw-Effects}
use psycho.Cpu.Arch.Unaligned.{lwl-Effects, lwr-Effects, swl-Effects, swr-Effects}

module _ (c : Ctx) (instr : ℕ) (w : IsWide (ready instr c).cpu) (z : (view c).reg 0 ≡ 0) where
  pub group-Effects :
      (i : GroupOp) (e : Effect)
      → IsSized c.bus
      → HoldsBytes c.bus
      → group_effect i instr (view c) ≡ some e
      → Effects c e (exec i (ready instr c))
  unfolding exec
  group-Effects GroupOp.lb e s b h =
      load-Effects c instr w z Width.byte sign_ext_8_32 e _ s h
        (λ p v d m. lb-loads (ready instr c) p (paddr c instr w z p d) (checked c instr w z p d) v)
        (λ p d m. absurd (omega arith))
  group-Effects GroupOp.lbu e s b h =
      load-Effects c instr w z Width.byte (λ v. v) e _ s h
        (λ p v d m. lbu-loads (ready instr c) p (paddr c instr w z p d) (checked c instr w z p d) v)
        (λ p d m. absurd (omega arith))
  group-Effects GroupOp.lh e s b h =
      load-Effects c instr w z Width.halfword sign_ext_16_32 e _ s h
        (λ p v d m.
          lh-loads (ready instr c) p (paddr c instr w z p d) (checked c instr w z p d) v m)
        (λ p d. lh-traps (ready instr c) p (paddr c instr w z p d) (checked c instr w z p d))
  group-Effects GroupOp.lhu e s b h =
      load-Effects c instr w z Width.halfword (λ v. v) e _ s h
        (λ p v d m.
          lhu-loads (ready instr c) p (paddr c instr w z p d) (checked c instr w z p d) v m)
        (λ p d. lhu-traps (ready instr c) p (paddr c instr w z p d) (checked c instr w z p d))
  group-Effects GroupOp.lw e s b h =
      load-Effects c instr w z Width.word (λ v. v) e _ s h
        (λ p v d m.
          lw-loads (ready instr c) p (paddr c instr w z p d) (checked c instr w z p d) v m)
        (λ p d. lw-traps (ready instr c) p (paddr c instr w z p d) (checked c instr w z p d))
  group-Effects GroupOp.sb e s b h =
      store-Effects c instr w z Width.byte _ e _ s b h
        (omega (arith, bit_and_mask 8 (gpr_rt (ready instr c))))
        (λ p d m. sb-stores (ready instr c) p (paddr c instr w z p d) (checked c instr w z p d))
        (λ p d m. absurd (omega arith))
  group-Effects GroupOp.sh e s b h =
      store-Effects c instr w z Width.halfword _ e _ s b h
        (omega (arith, bit_and_mask 16 (gpr_rt (ready instr c))))
        (λ p d m. sh-stores (ready instr c) p (paddr c instr w z p d) (checked c instr w z p d) m)
        (λ p d. sh-traps (ready instr c) p (paddr c instr w z p d) (checked c instr w z p d))
  group-Effects GroupOp.sw e s b h = sw-Effects c instr w z e s b h
  group-Effects GroupOp.lwl e s b h = lwl-Effects c instr w z e s b h
  group-Effects GroupOp.lwr e s b h = lwr-Effects c instr w z e s b h
  group-Effects GroupOp.swl e s b h = swl-Effects c instr w z e s b h
  group-Effects GroupOp.swr e s b h = swr-Effects c instr w z e s b h
  group-Effects GroupOp.group_special e s b h = special_word-Effects c instr w z e h
  group-Effects GroupOp.group_bcond e s b h = bcond-Effects c instr w z e h
  group-Effects GroupOp.j e s b h = j-Effects c instr w z e h
  group-Effects GroupOp.jal e s b h = jal-Effects c instr w z e h
  group-Effects GroupOp.beq e s b h = branch-Effects c instr w z _ _ e refl h
  group-Effects GroupOp.bne e s b h = branch-Effects c instr w z _ _ e refl h
  group-Effects GroupOp.blez e s b h =
      branch-Effects c instr w z _ _ e
        (not_positive ((view c).reg (instr_rs instr)) (w.gpr_word (instr_rs instr))) h
  group-Effects GroupOp.bgtz e s b h =
      branch-Effects c instr w z _ _ e
        (zero-slt ((view c).reg (instr_rs instr)) (w.gpr_word (instr_rs instr))) h
  group-Effects GroupOp.group_cop0 e s b h = follow c refl refl (cop0-Effects c instr w z e h)
  group-Effects GroupOp.addi e s b h = addi-Effects c instr w z e h
  group-Effects i e s b h = imm_value-Effects c instr w z i _ e refl h
