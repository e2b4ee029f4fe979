-- ===== src/Tests/Boot.antt =====
-- Setting up the machine, and loading an executable of one instruction.
use psycho.Prelude.{ℕ, ◌==◌, if◌then◌else◌, ◌≡◌, some, arith, refl}
use psycho.State.{Ctx, Buffer, ReturnCode}
use psycho.Text.{text}
use psycho.CpuDefs.{vaddr_to_paddr}
use psycho.Memory.Laws.{IsBytes}
use psycho.Context.{exe_load, starts_with}
use psycho.Context.Loader.{Fits, Loaded, exe_load-Loaded}
use psycho.Context.Stepping.{Emulator}
use psycho.Context.Loading.{exe_load-Emulator}
use psycho.Tests.{machine, machine-Machine}

-- `PS-X EXE`, the entry 0x80010000, four bytes of code for that address, and the code.
abbrev exe_byte : ℕ → ℕ
exe_byte i =
    if i == 0
    then b'P'
    else if i == 1
    then b'S'
    else if i == 2
    then b'-'
    else if i == 3
    then b'X'
    else if i == 4
    then b' '
    else if i == 5
    then b'E'
    else if i == 6
    then b'X'
    else if i == 7
    then b'E'
    else if i == 0x12
    then 0x01
    else if i == 0x13
    then 0x80
    else if i == 0x1A
    then 0x01
    else if i == 0x1B
    then 0x80
    else if i == 0x1C
    then 4
    else if i == 0x803
    then 0x8C
    else 0

abbrev exe : Buffer
exe = record { size = 0x804; byte = exe_byte }

exe-IsBytes : IsBytes exe_byte
exe-IsBytes i = ground arith

exe-Fits : Fits exe machine.bus.ram
unfolding starts_with text vaddr_to_paddr
exe-Fits = record {
  min_size = omega arith;
  identified = refl;
  held = omega arith;
  room = omega arith;
}

exe_load-Loaded_example :
    (d : Ctx) × (exe_load exe machine ≡ some (ReturnCode.ok, d)) × Loaded exe machine d
exe_load-Loaded_example = exe_load-Loaded exe machine exe-Fits

-- The loaded executable, by `exe_load-Loaded`.
abbrev loaded : (d : Ctx) × (exe_load exe machine ≡ some (ReturnCode.ok, d)) × Loaded exe machine d
loaded = exe_load-Loaded exe machine exe-Fits

exe_load-Emulator_example : Emulator loaded.0
exe_load-Emulator_example =
    exe_load-Emulator exe machine loaded.0 ReturnCode.ok exe-IsBytes
      (record { machine = machine-Machine; tty = omega arith }) loaded.1
