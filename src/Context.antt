-- ===== src/Context.antt =====
-- core/ctx.c: setting up the emulator, its reset, a step with its traces, and the loader of PS-X
-- executables.
pub mod Loader
pub mod Start
pub mod Stepping
pub mod Total
pub mod Loading
pub mod Program
pub mod Tracing
use psycho.Prelude.{◌>>=◌}
use psycho.Prelude.{
  ℕ, zero, suc, ◌+◌, ◌==◌, ltb, if◌then◌else◌, Bool, true, false, Option, none, some, List, [], ◌∷◌,
}
use psycho.Text.{Text, text, num}
use psycho.Word.{u32, add32}
use psycho.State.{Ctx, Cpu, Bus, Buffer, BiosTrace, ReturnCode, Severity, ModuleId}
use psycho.State.{gpr_gp, gpr_sp, gpr_fp}
use psycho.Log.{log_handle}
use psycho.Memory.{read, copy, update}
use psycho.CpuDefs.{vaddr_to_paddr}
use psycho.Cpu
use psycho.Cpu.Step
use psycho.Disasm
use psycho.BiosTrace

abbrev pub exe_min_size : ℕ
exe_min_size = 0x800

abbrev pub exe_off_initial_pc : ℕ
exe_off_initial_pc = 0x010

abbrev pub exe_off_initial_gp : ℕ
exe_off_initial_gp = 0x014

abbrev pub exe_off_dest_addr : ℕ
exe_off_dest_addr = 0x018

abbrev pub exe_off_file_size : ℕ
exe_off_file_size = 0x01C

abbrev pub exe_off_initial_sp_fp_base : ℕ
exe_off_initial_sp_fp_base = 0x030

abbrev pub exe_off_initial_sp_fp_off : ℕ
exe_off_initial_sp_fp_off = 0x034

abbrev pub exe_off_code : ℕ
exe_off_code = 0x800

-- `psycho_reset`, and `psycho_init` but for the host's callback.
unfoldable pub reset : Ctx → Ctx
unfolding Cpu.reset
reset c = Cpu.reset c

unfoldable pub init : Buffer → Buffer → Ctx → Ctx
unfolding reset
init ram_data bios_data c =
    reset (record c { bus = record (c.bus) { bios = bios_data; ram = ram_data } })

-- `psycho_step`.
unfoldable pub step : Ctx → Option Ctx
step c0 = do
  c1 ← (if c0.disasm.trace_instruction then Disasm.trace_begin c0 else some c0)
  c2 ← BiosTrace.trace_begin c1
  c3 ← Step.step c2
  let c4 = if c3.disasm.trace_instruction then Disasm.trace_end c3 else c3
  some (BiosTrace.trace_end c4)

unfoldable pub tty_stdout_enable : Bool → Ctx → Ctx
tty_stdout_enable enable c = record c {
  bios_trace = record (c.bios_trace) { enable_tty_output = enable };
}

-- `memcmp(&data[i], s, n) == 0`, for the `n` bytes of `s`.
unfoldable pub starts_with : Text → (ℕ → ℕ) → ℕ → Bool
starts_with [] f i = true
starts_with (x ∷ xs) f i = let rest = starts_with xs f (i + 1) in if f i == x then rest else false

-- RAM, the program counters and the registers that a program starts with. A base of 0 leaves
-- `gpr[29]` as it was, but for the offset.
unfoldable pub enter_image : ℕ → ℕ → ℕ → ℕ → Buffer → Ctx → Ctx
enter_image pc gp base sp_fp_off ram c =
    let sp = if base == 0 then c.cpu.gpr gpr_sp else base in
    let with_gp = update c.cpu.gpr gpr_gp gp in
    let with_fp = update with_gp gpr_fp (add32 base sp_fp_off) in
    record c {
      cpu = record (c.cpu) {
        pc = pc;
        next_pc = add32 pc 4;
        gpr = update with_fp gpr_sp (add32 sp sp_fp_off);
      };
      bus = record (c.bus) { ram = ram };
    }

-- The part of `psycho_exe_load` behind its two checks.
unfoldable pub exe_load_image : Buffer → Ctx → Option Ctx
unfolding enter_image
exe_load_image exe c = do
  pc ← read 4 exe exe_off_initial_pc
  gp ← read 4 exe exe_off_initial_gp
  dst_addr ← read 4 exe exe_off_dest_addr
  file_size ← read 4 exe exe_off_file_size
  ram ← copy c.bus.ram (vaddr_to_paddr dst_addr) exe exe_off_code file_size
  base ← read 4 exe exe_off_initial_sp_fp_base
  sp_fp_off ← read 4 exe exe_off_initial_sp_fp_off
  some (
      log_handle ModuleId.ctx Severity.info (text "EXE loaded") []
        (enter_image pc gp base sp_fp_off ram c))

abbrev pub exe_id : Text
exe_id = text "PS-X EXE"

unfoldable pub exe_load : Buffer → Ctx → Option (ReturnCode × Ctx)
unfolding starts_with exe_load_image
exe_load exe c =
    let loaded = (do d ← exe_load_image exe c; some (ReturnCode.ok, d)) in
    if ltb exe.size exe_min_size
    then some (ReturnCode.exe_size_bad, c)
    else if starts_with exe_id exe.byte 0
    then loaded
    else some (ReturnCode.exe_id_bad, c)
