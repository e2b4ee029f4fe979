-- ===== src/Cpu/Alike.antt =====
-- The processor of core/cpu.c from two states with the same registers and memory, whatever the log,
-- the disassembler and the trace of BIOS calls hold.
pub mod Access
pub mod Step
use psycho.Prelude.{ℕ, ◌≡◌, arith, refl, sym, Option, none, some, if◌then◌else◌, Bool, if_both}
use psycho.State.{Ctx, Cpu, Bus, Log, Disasm, BiosTrace}
use psycho.Word.{slt}
use psycho.Cpu.{
  illegal, gpr_set, gpr_set_delayed, load_delay_process, raise_exception, dbg_data_bp_chk,
  branch_if, jmp, ExcCode,
}
use psycho.Cpu.Decode.{GroupSpecial}
use psycho.Cpu.Special.{exec_special, set_or_overflow}

-- Two contexts with the same registers and the same memory.
pub record Alike (c c' : Ctx) : Type 0 where
  pub same_cpu : c'.cpu ≡ c.cpu
  pub same_bus : c'.bus ≡ c.bus

-- The log, the disassembler and the trace of `d` are those of `c`.
pub record Keeps (c d : Ctx) : Type 0 where
  pub kept_log : d.log ≡ c.log
  pub kept_disasm : d.disasm ≡ c.disasm
  pub kept_bios_trace : d.bios_trace ≡ c.bios_trace

-- `x` with the registers and the memory of `c`.
abbrev pub dress : Ctx → Ctx → Ctx
dress x c = record x { cpu = c.cpu; bus = c.bus }

pub dress-Alike : (c c' : Ctx) → Alike c c' → c' ≡ dress c' c
dress-Alike c c' a = λ i. record c' { cpu = a.same_cpu i; bus = a.same_bus i }

module _ (x c : Ctx) where
  pub exec_special-dress :
      (i : GroupSpecial) → Alike (exec_special i c) (exec_special i (dress x c))
  unfolding exec_special gpr_set jmp raise_exception
  exec_special-dress GroupSpecial.sll = ground arith
  exec_special-dress _ = ground arith

  pub exec_special-Keeps : (i : GroupSpecial) → Keeps c (exec_special i c)
  unfolding exec_special gpr_set jmp raise_exception
  exec_special-Keeps GroupSpecial.sll = ground arith
  exec_special-Keeps _ = ground arith
