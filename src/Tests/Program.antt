-- ===== src/Tests/Program.antt =====
-- A program in the BIOS of the small machine: it makes a word in `$1`, stores it, loads it into `$2`,
-- and then has room for the load's delay. The instruction trace is on.
use psycho.Prelude.{
  ℕ, zero, suc, ◌/◌, ◌%◌, ◌^◌, ◌<◌, ◌≡◌, ◌==◌, if◌then◌else◌, Option, none, some, arith, refl, sym,
  ap, ◌∙◌, of_some, true,
}
use psycho.State.{Ctx, bios_size}
use psycho.CpuDefs.{instr_op, instr_rs, instr_rt, instr_rd, instr_shamt, instr_funct, instr_imm}
use psycho.Word.{sign_ext_16_32}
use psycho.Bus.View.{byte_at}
use psycho.Cpu.Decode.{decode_op, decode_special}
use psycho.Cpu.Valid.Step.{Machine}
use psycho.Cpu.Valid.Run.{Runs}
use psycho.Cpu.Arch.{Arch, view, apply}
use psycho.Cpu.Arch.Step.{fetch, arch_step, arch_run, Runs-arch_run}
use psycho.Context.Stepping.{Emulator}
use psycho.Context.Total.{Unterminated}
use psycho.App.{answer}
use psycho.App.Loop.{Rounds, start}
use psycho.App.Program.{OnlySteps, Rounds-arch_run}
use psycho.Disasm.Trace.{NullName}
use psycho.Tests.{machine, machine-IsValid}

-- `lui $1, 0x1234`, `ori $1, $1, 0x5678`, `sw $1, 0x100($0)` and `lw $2, 0x100($0)`
abbrev words : ℕ → ℕ
words i =
    if i == 0
    then 0x3C01_1234
    else if i == 1
    then 0x3421_5678
    else if i == 2
    then 0xAC01_0100
    else if i == 3
    then 0x8C02_0100
    else 0

abbrev program : Ctx
program = record machine {
  disasm = record (machine.disasm) { trace_instruction = true };
  bus = record (machine.bus) {
    bios = record { size = bios_size; byte = λ (i : ℕ). words (i / 4) / 256 ^ (i % 4) % 256 };
  };
}

program-Machine : Machine program
program-Machine = record {
  valid = machine-IsValid;
  bytes = record {
    ram_bytes = λ i. omega arith;
    bios_bytes = λ i. omega arith;
    scratchpad_bytes = λ i. omega arith;
  };
  sized = record { ram_sized = refl; bios_sized = refl; scratchpad_sized = refl };
}

-- A result, or the machine before the first step.
abbrev or_start : Option Arch → Arch
or_start none = view program
or_start (some a) = a

abbrev after : ℕ → Arch
after n = or_start (arch_run n (view program))

-- The word is in `$2` for the second instruction behind the load, and not for the first.
delayed_word : ((after 4).reg 2 ≡ 0) × ((after 5).reg 2 ≡ 0x1234_5678)
unfolding arch_run arch_step apply decode_op decode_special instr_op instr_rs instr_rt instr_rd
    instr_shamt instr_funct instr_imm sign_ext_16_32 byte_at
delayed_word = (refl, refl)

ran : arch_run 5 (view program) ≡ some (after 5)
unfolding arch_run arch_step apply decode_op decode_special instr_op instr_rs instr_rt instr_rd
    instr_shamt instr_funct instr_imm sign_ext_16_32 byte_at
ran = refl

Runs-arch_run_example : (d : Ctx) × Runs program 5 d × (view d ≡ after 5) × Machine d
Runs-arch_run_example = Runs-arch_run 5 program (after 5) program-Machine ran

program-Emulator : Emulator program
program-Emulator = record { machine = program-Machine; tty = omega arith }

terminated : ¬ Unterminated program
terminated u = cc

-- The first word is no instruction of the system coprocessor.
first_word : fetch (view program) ≡ some 0x3C01_1234
unfolding byte_at
first_word = refl

first_op : instr_op 0x3C01_1234 ≡ 0x0F
unfolding instr_op
first_op = refl

not_cop0 :
    (instr : ℕ) → fetch (view program) ≡ some instr → ¬ ((instr_op instr ≡ 0x10) × NullName instr)
not_cop0 instr f q =
    let same : instr_op instr ≡ 0x0F = ap instr_op (of_some (sym f ∙ first_word)) ∙ first_op in
    omega (arith, q.0)

only_steps : (k : ℕ) (x : Ctx) → k < 1 → Rounds true machine.bus.bios program k x → OnlySteps x
only_steps zero x l start = record {
  not_entry = λ e. omega arith;
  named = not_cop0;
  terminated = terminated;
}
only_steps (suc k) x l r = absurd (omega arith)

first : arch_run 1 (view program) ≡ some (after 1)
unfolding arch_run arch_step apply decode_op decode_special instr_op instr_rs instr_rt instr_rd
    instr_shamt instr_funct instr_imm sign_ext_16_32 byte_at
first = refl

-- One round of the loop.
Rounds-arch_run_example :
    (d : Ctx) × Rounds true machine.bus.bios program 1 d × (view d ≡ after 1) × Emulator d
unfolding answer
Rounds-arch_run_example =
    Rounds-arch_run machine.bus.bios program 1 (after 1) program-Emulator refl only_steps first
