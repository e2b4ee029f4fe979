-- ===== src/Tests/Processor.antt =====
-- The step of the processor and its instructions at a concrete machine.
use mathlib.Core.Path.{subst}
use psycho.Prelude.{ℕ, ◌+◌, ◌*◌, ◌/◌, ◌%◌, ◌≡◌, some, sym, ◌∙◌, arith, refl, of_some}
use psycho.State.{Ctx, cop0_sr}
use psycho.Bus
use psycho.Memory.{read}
use psycho.Bus.Total.{InBounds}
use psycho.CpuDefs.{vaddr_to_paddr}
use psycho.Word.{sign_ext_16_32}
use psycho.CpuDefs.{get_vaddr, instr_off, instr_rs}
use psycho.Cpu.{get_phys_addr, access_paddr, access_vaddr}
use psycho.Cpu.{ExcCode, raise_exception}
use psycho.Cpu.Step.{step, begin, advance, rfe}
use psycho.Cpu.Valid.Step.{Machine}
use psycho.Cpu.Valid.Run.{Runs, Runs-Machine}
use psycho.Cpu.Total.{DataInBounds, StepInBounds, step-Returns}
use psycho.Cpu.Exceptions.{rfe-raise_exception}
use psycho.Tests.{machine, machine-Machine, machine-IsValid}

fetched :
    Bus.load_word (vaddr_to_paddr (begin machine).cpu.curr_pc) (begin machine)
    ≡ some (0x8C01_0000, begin machine)
unfolding begin Bus.load_word vaddr_to_paddr read
fetched = refl

lw_InBounds : DataInBounds (advance 0x8C01_0000 (begin machine))
unfolding get_phys_addr access_paddr access_vaddr get_vaddr instr_off instr_rs vaddr_to_paddr
    advance begin sign_ext_16_32
lw_InBounds = record {
  not_behind_ram = λ e. omega arith;
  not_last_scratchpad = λ e. omega arith;
  not_last_bios = λ e. omega arith;
}

fetch_InBounds : InBounds (vaddr_to_paddr (begin machine).cpu.curr_pc)
unfolding begin vaddr_to_paddr
fetch_InBounds = record {
  not_behind_ram = λ e. omega arith;
  not_last_scratchpad = λ e. omega arith;
  not_last_bios = λ e. omega arith;
}

pub step_InBounds : StepInBounds machine
step_InBounds = record {
  fetch = fetch_InBounds;
  data_access = λ word d e h.
      subst (λ (r : ℕ × Ctx). DataInBounds (advance r.0 r.1)) (of_some (sym fetched ∙ e))
        lw_InBounds;
}

step-Returns_example : (c' : Ctx) × (step machine ≡ some c') × Machine c'
step-Returns_example = step-Returns machine machine-Machine step_InBounds

-- One step, by `step-Returns`.
abbrev done : (c' : Ctx) × (step machine ≡ some c') × Machine c'
done = step-Returns machine machine-Machine step_InBounds

Runs-Machine_example : Machine done.0
Runs-Machine_example =
    Runs-Machine {c = machine} {d = done.0} 1 machine-Machine (Runs.next Runs.start done.1)

rfe-raise_exception_example :
    let sr = machine.cpu.cop0 cop0_sr in
    (rfe (raise_exception ExcCode.bp machine)).cpu.cop0 cop0_sr
    ≡ sr / 64 * 64 + sr / 4 % 4 * 16 + sr % 16
rfe-raise_exception_example = rfe-raise_exception ExcCode.bp machine machine-IsValid.wide
