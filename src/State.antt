-- ===== src/State.antt =====
-- The emulator's context: the structs and enums of core/include/core/{cpu,cpu-defs,bus,log,disasm,
-- bios-trace,ctx}.h, and the events that the core hands to the host's `event_cb`.
use psycho.Prelude.{ℕ, ◌-◌, Bool, Option, List}
use psycho.Text.{Text}

-- `ld_next` and `ld_pend`: a register that a load is still to write, or register 0 for none.
pub record LoadDelay : Type 0 where
  pub dst : ℕ
  pub val : ℕ

-- `struct psycho_cpu`. A register file is a function of the register's number, which is below 32.
pub record Cpu : Type 0 where
  pub gpr : ℕ → ℕ
  pub cop0 : ℕ → ℕ
  pub hi : ℕ
  pub lo : ℕ
  pub curr_pc : ℕ
  pub pc : ℕ
  pub next_pc : ℕ
  pub instr : ℕ
  pub ld_next : LoadDelay
  pub ld_pend : LoadDelay
  pub next_in_branch_delay_slot : Bool
  pub in_branch_delay_slot : Bool

-- An array of bytes with the size of its allocation.
pub record Buffer : Type 0 where
  pub size : ℕ
  pub byte : ℕ → ℕ

-- `struct psycho_bus`. The three arrays do not overlap.
pub record Bus : Type 0 where
  pub scratchpad : Buffer
  pub bios : Buffer
  pub ram : Buffer

pub data LogLevel : Type 0 where
  off info warn error debug trace : LogLevel

-- The levels of messages: all but the one that turns a module's messages off.
pub data Severity : Type 0 where
  info warn error debug trace : Severity

pub data ModuleId : Type 0 where
  ctx cpu disasm bus bios tty_stdout : ModuleId

-- `struct psycho_log_msg`; `msg` is the text up to its NUL.
pub record LogMsg : Type 0 where
  pub id : ModuleId
  pub level : LogLevel
  pub msg : Text
  pub msg_len : ℕ

pub record Log : Type 0 where
  pub modules : ModuleId → LogLevel

-- `struct psycho_disasm`; `str` is the text up to its NUL.
pub record Disasm : Type 0 where
  pub str : Text
  pub pc : ℕ
  pub len : ℕ
  pub trace_instruction : Bool

pub data FuncRet : Type 0 where
  returns_none returns_u32 : FuncRet

pub record BiosTraceFunc : Type 0 where
  pub prototype : Text
  pub ret : FuncRet

-- `tty_stdout`: a line that the program under emulation is printing.
pub record TtyStdout : Type 0 where
  pub chars : ℕ → ℕ
  pub len : ℕ

pub record BiosTrace : Type 0 where
  pub tty_stdout : TtyStdout
  pub result : Text
  pub curr_func : Option BiosTraceFunc
  pub waiting_for_return : Bool
  pub deref_ptrs : Bool
  pub enable_tty_output : Bool

-- `enum psycho_event` with the payload of each kind. The payload of a TTY message is the array.
pub data Event : Type 0 where
  cpu_illegal : Event
  log_message : LogMsg → Event
  tty_message : (ℕ → ℕ) → Event

-- `struct psycho_ctx`. The host's callback is replaced by the list of the events that it was
-- called with, the latest first.
pub record Ctx : Type 0 where
  pub bus : Bus
  pub cpu : Cpu
  pub disasm : Disasm
  pub log : Log
  pub bios_trace : BiosTrace
  pub events : List Event

-- `enum psycho_return_code`.
pub data ReturnCode : Type 0 where
  exe_size_bad exe_id_bad ok : ReturnCode

abbrev pub word_size : ℕ
word_size = 0x1_0000_0000

abbrev pub ram_addr_start : ℕ
ram_addr_start = 0x0000_0000

abbrev pub ram_addr_end : ℕ
ram_addr_end = 0x0020_0000

abbrev pub ram_size : ℕ
ram_size = ram_addr_end - ram_addr_start

abbrev pub bios_addr_start : ℕ
bios_addr_start = 0x1FC0_0000

abbrev pub bios_addr_end : ℕ
bios_addr_end = 0x1FC7_FFFF

abbrev pub bios_size : ℕ
bios_size = bios_addr_end - bios_addr_start

abbrev pub scratchpad_addr_start : ℕ
scratchpad_addr_start = 0x1F80_0000

abbrev pub scratchpad_addr_end : ℕ
scratchpad_addr_end = 0x1F80_03FF

abbrev pub scratchpad_size : ℕ
scratchpad_size = scratchpad_addr_end - scratchpad_addr_start

-- The registers of `enum psycho_cpu_gpr` and `enum psycho_cpu_cop0_regs` that the core names.
abbrev pub gpr_a0 : ℕ
gpr_a0 = 4

abbrev pub gpr_t1 : ℕ
gpr_t1 = 9

abbrev pub gpr_gp : ℕ
gpr_gp = 28

abbrev pub gpr_sp : ℕ
gpr_sp = 29

abbrev pub gpr_fp : ℕ
gpr_fp = 30

abbrev pub gpr_ra : ℕ
gpr_ra = 31

abbrev pub cop0_bda : ℕ
cop0_bda = 5

abbrev pub cop0_dcic : ℕ
cop0_dcic = 7

abbrev pub cop0_bdam : ℕ
cop0_bdam = 9

abbrev pub cop0_sr : ℕ
cop0_sr = 12

abbrev pub cop0_cause : ℕ
cop0_cause = 13

abbrev pub cop0_epc : ℕ
cop0_epc = 14

abbrev pub reset_pc : ℕ
reset_pc = 0xBFC0_0000
