-- ===== src/Bus/Bytes.antt =====
-- The arrays keep holding bytes, so the loads return words, halfwords and bytes.
use psycho.Prelude.{ℕ, ◌^◌, ◌<◌, ◌≡◌, some, arith, bit_and}
use psycho.State.{Ctx, Bus}
use psycho.Memory.{read, write}
use psycho.Memory.Laws.{IsBytes, le_value-lt, le_update-IsBytes}
use psycho.Bus.{load_word, load_halfword, load_byte}
use psycho.Bus.{store_word, store_halfword, store_byte}

pub record HoldsBytes (b : Bus) : Type 0 where
  pub ram_bytes : IsBytes b.ram.byte
  pub bios_bytes : IsBytes b.bios.byte
  pub scratchpad_bytes : IsBytes b.scratchpad.byte

-- What a load gives: a value in range, in a context with the same processor and memory.
pub record Loads (n : ℕ) (c : Ctx) (v : ℕ) (c' : Ctx) : Type 0 where
  pub value_lt : v < 256 ^ n
  pub same_cpu : c'.cpu ≡ c.cpu
  pub same_bus : c'.bus ≡ c.bus

module _ (c : Ctx) (h : HoldsBytes c.bus) (p v : ℕ) (c' : Ctx) where
  pub load_word-Loads : load_word p c ≡ some (v, c') → Loads 4 c v c'
  unfolding load_word read
  load_word-Loads e = ground (
    arith,
    le_value-lt 4 c.bus.ram.byte p h.ram_bytes,
    le_value-lt 4 c.bus.scratchpad.byte (bit_and p 0xFFF) h.scratchpad_bytes,
    le_value-lt 4 c.bus.bios.byte (bit_and p 0xF_FFFF) h.bios_bytes,
  )

  pub load_halfword-Loads : load_halfword p c ≡ some (v, c') → Loads 2 c v c'
  unfolding load_halfword read
  load_halfword-Loads e = ground (
    arith,
    le_value-lt 2 c.bus.ram.byte p h.ram_bytes,
    le_value-lt 2 c.bus.scratchpad.byte (bit_and p 0xFFF) h.scratchpad_bytes,
  )

  pub load_byte-Loads : load_byte p c ≡ some (v, c') → Loads 1 c v c'
  unfolding load_byte read
  load_byte-Loads e = ground (
    arith,
    le_value-lt 1 c.bus.ram.byte p h.ram_bytes,
    le_value-lt 1 c.bus.scratchpad.byte (bit_and p 0xFFF) h.scratchpad_bytes,
    le_value-lt 1 c.bus.bios.byte (bit_and p 0xF_FFFF) h.bios_bytes,
  )

-- What a store leaves: the same processor, BIOS and sizes, and bytes in every array.
pub record Stores (c c' : Ctx) : Type 0 where
  pub cpu_kept : c'.cpu ≡ c.cpu
  pub bios_kept : c'.bus.bios ≡ c.bus.bios
  pub ram_size_kept : c'.bus.ram.size ≡ c.bus.ram.size
  pub scratchpad_size_kept : c'.bus.scratchpad.size ≡ c.bus.scratchpad.size
  pub bytes_kept : HoldsBytes c'.bus

module _ (c : Ctx) (h : HoldsBytes c.bus) (p v : ℕ) (c' : Ctx) where
  pub store_word-Stores : store_word p v c ≡ some c' → Stores c c'
  unfolding store_word write
  store_word-Stores e = grind (arith, le_update-IsBytes)

  pub store_halfword-Stores : store_halfword p v c ≡ some c' → Stores c c'
  unfolding store_halfword write
  store_halfword-Stores e = grind (arith, le_update-IsBytes)

  pub store_byte-Stores : store_byte p v c ≡ some c' → Stores c c'
  unfolding store_byte write
  store_byte-Stores e = grind (arith, le_update-IsBytes)
