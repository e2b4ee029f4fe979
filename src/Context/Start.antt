-- ===== src/Context/Start.antt =====
-- The invariant of the processor and the memory after `psycho_init` and `psycho_exe_load` of
-- core/ctx.c.
use psycho.Prelude.{ℕ, ◌≡◌, arith, some}
use psycho.State.{Ctx, Buffer, ReturnCode, ram_size, bios_size, scratchpad_size}
use psycho.Memory.{le_value}
use psycho.Memory.Laws.{IsBytes, le_value-lt}
use psycho.Bus.View.{IsSized}
use psycho.Bus.Bytes.{HoldsBytes}
use psycho.Cpu
use psycho.Cpu.Valid.{IsWide, IsValid, IsWord, update-IsWord}
use psycho.Cpu.Valid.Step.{Machine}
use psycho.Context.{init, reset, exe_load, enter_image}
use psycho.Context.Loader.{Fits, entered, exe_load-entered}

-- `psycho_init` with arrays of the declared sizes that hold bytes, in a context whose registers
-- are words, gives a machine with its invariant.
pub init-Machine :
    (ram bios : Buffer) (c : Ctx)
    → IsValid c.cpu
    → IsBytes ram.byte
    → IsBytes bios.byte
    → IsBytes c.bus.scratchpad.byte
    → ram.size ≡ ram_size
    → bios.size ≡ bios_size
    → c.bus.scratchpad.size ≡ scratchpad_size
    → Machine (init ram bios c)
unfolding init reset Cpu.reset
init-Machine ram bios c v hr hb hs zr zb zs = record {
  valid = unfold Cpu.reset in grind arith;
  bytes = record { ram_bytes = hr; bios_bytes = hb; scratchpad_bytes = hs };
  sized = record { ram_sized = zr; bios_sized = zb; scratchpad_sized = zs };
}

module _ (exe : Buffer) (c : Ctx) (f : Fits exe c.bus.ram) (h : IsBytes exe.byte)
    (m : Machine c) where
  entered-IsWide : IsWide (entered exe c f).cpu
  unfolding enter_image
  entered-IsWide =
      let v : IsValid c.cpu = m.valid in
      let words : (i : ℕ) → IsWord (le_value 4 exe.byte i) = λ i. le_value-lt 4 exe.byte i h in
      grind (arith, update-IsWord)

  entered-HoldsBytes : HoldsBytes (entered exe c f).bus
  unfolding enter_image
  entered-HoldsBytes = let b : HoldsBytes c.bus = m.bytes in grind arith

  entered-Machine : Machine (entered exe c f)
  unfolding enter_image
  entered-Machine = record {
    valid = record { wide = entered-IsWide; zero_zero = m.valid.zero_zero };
    bytes = entered-HoldsBytes;
    sized = let z : IsSized c.bus = m.sized in grind arith;
  }

-- An executable of bytes that fits is loaded into a machine with its invariant, and the machine
-- keeps it.
pub exe_load-Machine :
    (exe : Buffer) (c : Ctx)
    → Fits exe c.bus.ram
    → IsBytes exe.byte
    → Machine c
    → (d : Ctx) × (exe_load exe c ≡ some (ReturnCode.ok, d)) × Machine d
exe_load-Machine exe c f h m =
    (entered exe c f, exe_load-entered exe c f, entered-Machine exe c f h m)
