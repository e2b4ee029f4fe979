-- ===== src/Tests.antt =====
-- A small machine and the theorems applied to it: a BIOS whose first instruction is
-- `lw $1, 0($0)`, memory that is zero elsewhere, and the processor after its reset.
mod Words
mod Memory
mod Processor
mod Arithmetic
mod Boot
mod Printer
mod Tty
mod Start
mod Stepping
mod App
mod Unaligned
mod Messages
mod Program
use psycho.Prelude.{ℕ, ◌==◌, if◌then◌else◌, Bool, none, [], arith, refl, ◌+◌}
use psycho.State.{Ctx, Cpu, Bus, Buffer, LoadDelay, Log, LogLevel, Disasm, BiosTrace, TtyStdout}
use psycho.State.{ram_size, bios_size, scratchpad_size}
use psycho.Cpu.{no_load}
use psycho.Cpu.Valid.{IsWide, IsValid, IsLoad}
use psycho.Cpu.Valid.Step.{Machine}
use psycho.Memory.Laws.{IsBytes}
use psycho.Bus.View.{IsSized}

abbrev pub zeros : ℕ → ℕ
zeros i = 0

abbrev pub bios_byte : ℕ → ℕ
bios_byte i = if i == 2 then 0x01 else if i == 3 then 0x8C else 0

abbrev pub ram : Buffer
ram = record { size = ram_size; byte = zeros }

abbrev pub bios : Buffer
bios = record { size = bios_size; byte = bios_byte }

abbrev pub cpu_at : ℕ → ℕ → Cpu
cpu_at start instr = record {
  gpr = zeros;
  cop0 = zeros;
  hi = 0;
  lo = 0;
  curr_pc = start;
  pc = start;
  next_pc = start + 4;
  instr = instr;
  ld_next = no_load;
  ld_pend = no_load;
  next_in_branch_delay_slot = Bool.false;
  in_branch_delay_slot = Bool.false;
}

abbrev pub machine : Ctx
machine = record {
  bus = record {
    scratchpad = record { size = scratchpad_size; byte = zeros };
    bios = bios;
    ram = ram;
  };
  cpu = cpu_at 0xBFC0_0000 0;
  disasm = record { str = []; pc = 0; len = 0; trace_instruction = Bool.false };
  log = record { modules = λ m. LogLevel.warn };
  bios_trace = record {
    tty_stdout = record { chars = zeros; len = 0 };
    result = [];
    curr_func = none;
    waiting_for_return = Bool.false;
    deref_ptrs = Bool.false;
    enable_tty_output = Bool.false;
  };
  events = [];
}

pub bios-IsBytes : IsBytes bios_byte
bios-IsBytes i = ground arith

pub no_load-IsLoad : IsLoad no_load
no_load-IsLoad = record { dst_lt = omega arith; val_word = omega arith; none_zero = λ e. refl }

pub machine-IsValid : IsValid machine.cpu
machine-IsValid = record {
  wide = record {
    gpr_word = λ r. omega arith;
    cop0_word = λ r. omega arith;
    hi_word = omega arith;
    lo_word = omega arith;
    curr_pc_word = omega arith;
    pc_word = omega arith;
    next_pc_word = omega arith;
    instr_word = omega arith;
    next_load = no_load-IsLoad;
    pend_load = no_load-IsLoad;
  };
  zero_zero = refl;
}

pub machine-IsSized : IsSized machine.bus
machine-IsSized = record { ram_sized = refl; bios_sized = refl; scratchpad_sized = refl }

pub machine-Machine : Machine machine
machine-Machine = record {
  valid = machine-IsValid;
  bytes = record {
    ram_bytes = λ i. omega arith;
    bios_bytes = bios-IsBytes;
    scratchpad_bytes = λ i. omega arith;
  };
  sized = machine-IsSized;
}
