-- ===== src/Context/Loader.antt =====
-- `psycho_exe_load` of core/ctx.c: what it puts in memory and in the CPU, and when it refuses.
use psycho.Prelude.{
  ℕ, ◌+◌, ◌-◌, ◌≤◌, ◌<◌, ◌≡◌, ◌≢◌, ◌⊎◌, arith, true, false, some, refl, if◌then◌else◌, ◌==◌, leb,
  ltb, [],
}
use psycho.Word.{add32}
use psycho.State.{Ctx, Buffer, ReturnCode, Severity, ModuleId, gpr_gp, gpr_sp, gpr_fp}
use psycho.Memory.{le_value, read, copy}
use psycho.Log.{log_handle}
use psycho.Text.{text}
use psycho.CpuDefs.{vaddr_to_paddr}
use psycho.Context.{starts_with, exe_id, enter_image, exe_load_image, exe_load}
use psycho.Context

-- The words of an executable's header.
abbrev pub header : Buffer → ℕ → ℕ
header exe i = le_value 4 exe.byte i

abbrev pub destination : Buffer → ℕ
destination exe = vaddr_to_paddr (header exe Context.exe_off_dest_addr)

abbrev pub file_size : Buffer → ℕ
file_size exe = header exe Context.exe_off_file_size

abbrev pub base : Buffer → ℕ
base exe = header exe Context.exe_off_initial_sp_fp_base

abbrev pub offset : Buffer → ℕ
offset exe = header exe Context.exe_off_initial_sp_fp_off

-- An executable with the identification that holds its code, which RAM has room for.
pub record Fits (exe ram : Buffer) : Type 0 where
  pub min_size : Context.exe_min_size ≤ exe.size
  pub identified : starts_with exe_id exe.byte 0 ≡ true
  pub held : Context.exe_off_code + file_size exe ≤ exe.size
  pub room : destination exe + file_size exe ≤ ram.size

-- What an executable leaves: its code in RAM and every other byte kept, the program counters at
-- its entry, and its registers.
pub record Loaded (exe : Buffer) (c d : Ctx) : Type 0 where
  pub code :
      (i : ℕ)
      → i < file_size exe
      → d.bus.ram.byte (destination exe + i) ≡ exe.byte (Context.exe_off_code + i)
  pub below : (a : ℕ) → a < destination exe → d.bus.ram.byte a ≡ c.bus.ram.byte a
  pub above : (a : ℕ) → destination exe + file_size exe ≤ a → d.bus.ram.byte a ≡ c.bus.ram.byte a
  pub entry : d.cpu.pc ≡ header exe Context.exe_off_initial_pc
  pub next : d.cpu.next_pc ≡ add32 (header exe Context.exe_off_initial_pc) 4
  pub global_pointer : d.cpu.gpr gpr_gp ≡ header exe Context.exe_off_initial_gp
  pub frame_pointer : d.cpu.gpr gpr_fp ≡ add32 (base exe) (offset exe)
  pub stack_pointer :
      d.cpu.gpr gpr_sp ≡ add32 (if base exe == 0 then c.cpu.gpr gpr_sp else base exe) (offset exe)
  pub zero_kept : d.cpu.gpr 0 ≡ c.cpu.gpr 0
  pub same_bios : d.bus.bios ≡ c.bus.bios
  pub same_scratchpad : d.bus.scratchpad ≡ c.bus.scratchpad

read_lem : (n : ℕ) (b : Buffer) (i : ℕ) → i + n ≤ b.size → read n b i ≡ some (le_value n b.byte i)
unfolding read
read_lem n b i h = ground arith

abbrev pub copied : Buffer → ℕ → Buffer → ℕ → ℕ → Buffer
copied dst i src j n = record dst {
  byte = λ (a : ℕ).
      if leb i a
      then (if ltb a (i + n) then src.byte (j + (a - i)) else dst.byte a)
      else dst.byte a;
}

copy_lem :
    (dst : Buffer) (i : ℕ) (src : Buffer) (j n : ℕ)
    → i + n ≤ dst.size
    → j + n ≤ src.size
    → copy dst i src j n ≡ some (copied dst i src j n)
unfolding copy
copy_lem dst i src j n h k = ground arith

module _ (exe : Buffer) (c : Ctx) (f : Fits exe c.bus.ram) where
  abbrev pub ram_with_code : Buffer
  ram_with_code = copied c.bus.ram (destination exe) exe Context.exe_off_code (file_size exe)

  abbrev pub entered : Ctx
  entered = log_handle ModuleId.ctx Severity.info (text "EXE loaded") [] (
      enter_image (header exe Context.exe_off_initial_pc) (header exe Context.exe_off_initial_gp)
        (base exe) (offset exe) ram_with_code c)

  exe_load_image-entered : exe_load_image exe c ≡ some entered
  unfolding exe_load_image
  exe_load_image-entered =
      rw
        (
          read_lem 4 exe Context.exe_off_initial_pc (omega (arith, f.min_size)),
          read_lem 4 exe Context.exe_off_initial_gp (omega (arith, f.min_size)),
          read_lem 4 exe Context.exe_off_dest_addr (omega (arith, f.min_size)),
          read_lem 4 exe Context.exe_off_file_size (omega (arith, f.min_size)),
          copy_lem c.bus.ram (destination exe) exe Context.exe_off_code (file_size exe) f.room
              f.held,
          read_lem 4 exe Context.exe_off_initial_sp_fp_base (omega (arith, f.min_size)),
          read_lem 4 exe Context.exe_off_initial_sp_fp_off (omega (arith, f.min_size)),
        )
        refl

  pub exe_load-entered : exe_load exe c ≡ some (ReturnCode.ok, entered)
  unfolding exe_load
  exe_load-entered = ground (arith, f.min_size, f.identified, exe_load_image-entered)

  entered-Loaded : Loaded exe c entered
  unfolding enter_image
  entered-Loaded = record {
    code = λ i h. ground arith;
    below = λ a h. ground arith;
    above = λ a h. ground arith;
    entry = refl;
    next = refl;
    global_pointer = refl;
    frame_pointer = refl;
    stack_pointer = refl;
    zero_kept = refl;
    same_bios = refl;
    same_scratchpad = refl;
  }

-- An executable that fits is loaded: the result is ok, with the code, the program counters and
-- the registers that its header asks for, and nothing else of memory changed.
pub exe_load-Loaded :
    (exe : Buffer) (c : Ctx)
    → Fits exe c.bus.ram
    → (d : Ctx) × (exe_load exe c ≡ some (ReturnCode.ok, d)) × Loaded exe c d
exe_load-Loaded exe c f = (entered exe c f, exe_load-entered exe c f, entered-Loaded exe c f)

-- A load that does not answer ok has changed nothing, and the executable is too short or lacks the
-- identification.
pub exe_load-refused :
    (exe : Buffer) (c d : Ctx) (code : ReturnCode)
    → exe_load exe c ≡ some (code, d)
    → code ≢ ReturnCode.ok
    → (d ≡ c) × ((exe.size < Context.exe_min_size) ⊎ (starts_with exe_id exe.byte 0 ≡ false))
unfolding exe_load
exe_load-refused exe c d code h n = ground arith
