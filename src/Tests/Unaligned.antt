-- ===== src/Tests/Unaligned.antt =====
-- A word of the BIOS and one of RAM, each across two aligned words.
use psycho.Prelude.{ℕ, ◌<◌, ◌^◌, ◌≡◌, ◌==◌, if◌then◌else◌, some, arith, refl}
use psycho.State.{Ctx}
use psycho.Memory.{le_value}
use psycho.Bus.View.{byte_at}
use psycho.Bus.Stores.{stored}
use psycho.CpuDefs.{instr_rs, instr_rt, instr_off, get_vaddr, vaddr_to_paddr}
use psycho.Word.{sign_ext_16_32}
use psycho.Cpu.{access_vaddr, access_paddr}
use psycho.Cpu.Access.{lwl, lwr, swl, swr}
use psycho.Cpu.Valid.{IsValid}
use psycho.Cpu.Unaligned.Memory.{then_instr}
use psycho.Cpu.Unaligned.Loads.{lwl-lwr}
use psycho.Cpu.Unaligned.Storing.{swl-swr}
use psycho.Tests.{machine, no_load-IsLoad, machine-IsSized, bios_byte, bios-IsBytes, zeros}

abbrev registers : ℕ → ℕ
registers r =
    if r == 1 then 0xDDCC_BBAA else if r == 2 then 0x1FC0_0000 else if r == 3 then 0x100 else 0

abbrev at : ℕ → Ctx
at instr = record machine { cpu = record (machine.cpu) { instr = instr; gpr = registers } }

at-IsValid : (instr : ℕ) → instr < 2 ^ 32 → IsValid (at instr).cpu
at-IsValid instr h = record {
  wide = record {
    gpr_word = λ r. ground arith;
    cop0_word = λ r. omega arith;
    hi_word = omega arith;
    lo_word = omega arith;
    curr_pc_word = omega arith;
    pc_word = omega arith;
    next_pc_word = omega arith;
    instr_word = h;
    next_load = no_load-IsLoad;
    pend_load = no_load-IsLoad;
  };
  zero_zero = refl;
}

-- `lwr $1, 1($2)` and `lwl $1, 4($2)`
lwl-lwr_example :
    (d : Ctx) × (then_instr lwr 0x8841_0004 lwl (at 0x9841_0001) ≡ some d)
    × (d.bus ≡ machine.bus)
    × (d.cpu.ld_pend ≡ record { dst = 1; val = le_value 4 bios_byte 1 })
unfolding instr_rs instr_rt instr_off get_vaddr vaddr_to_paddr sign_ext_16_32 access_vaddr
    access_paddr byte_at
lwl-lwr_example =
    lwl-lwr (at 0x9841_0001) 0x8841_0004 0x1FC0_0000 1 bios_byte
      (at-IsValid 0x9841_0001 (omega arith)) machine-IsSized (λ j h. ground arith) bios-IsBytes refl
      (omega arith) (omega arith) (omega arith) (λ e. omega arith) refl (λ e. omega arith) refl refl

-- `swr $1, 1($3)` and `swl $1, 4($3)`
swl-swr_example :
    (d : Ctx) × (then_instr swr 0xA861_0004 swl (at 0xB861_0001) ≡ some d)
    × ((p : ℕ) → byte_at d.bus p ≡ stored 4 0x101 0xDDCC_BBAA machine.bus p)
unfolding instr_rs instr_rt instr_off get_vaddr vaddr_to_paddr sign_ext_16_32 access_vaddr
    access_paddr byte_at
swl-swr_example =
    swl-swr (at 0xB861_0001) 0xA861_0004 0x100 1 zeros (at-IsValid 0xB861_0001 (omega arith))
      machine-IsSized (λ j h. ground arith) (λ i. omega arith) refl refl (omega arith) (omega arith)
      (omega arith) refl (λ e. omega arith) (λ e. omega arith) refl refl
