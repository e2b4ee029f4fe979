-- ===== src/Bus/Faults.antt =====
-- Which bus accesses leave the arrays, and the round trip of a word through memory.
use psycho.Prelude.{ℕ, ◌+◌, ◌%◌, ◌^◌, ◌<◌, ◌≤◌}
use psycho.Prelude.{true, none, some, ◌≡◌, ◌⊎◌, ◌↔◌, arith, bit_and}
use psycho.State.{Ctx, ram_size, bios_size, scratchpad_size, scratchpad_addr_start}
use psycho.State.{ram_addr_start, ram_addr_end, bios_addr_start, bios_addr_end, scratchpad_addr_end}
use psycho.Memory.{read, write}
use psycho.Memory.Laws.{le_value-le_update}
use psycho.Bus.{load_word, store_word}
use psycho.Bus.View.{IsSized}
use psycho.Bus.Laws.{scratchpad_offset, bios_offset}
use psycho.Bus.Stores.{is_writable}

-- `n` bytes at `p`, within a `case` range, that reach past an array of `size` bytes.
abbrev pub Overruns : ℕ → ℕ → ℕ → ℕ → ℕ → Type 0
Overruns start end size n p = (start ≤ p) × (p ≤ end) × (start + size < p + n)

abbrev pub OverrunsRam : ℕ → ℕ → Type 0
OverrunsRam = Overruns ram_addr_start ram_addr_end ram_size

abbrev pub OverrunsScratchpad : ℕ → ℕ → Type 0
OverrunsScratchpad = Overruns scratchpad_addr_start scratchpad_addr_end scratchpad_size

abbrev pub OverrunsBios : ℕ → ℕ → Type 0
OverrunsBios = Overruns bios_addr_start bios_addr_end bios_size

module _ (c : Ctx) (z : IsSized c.bus) (p : ℕ) where
  -- With the application's arrays a word load has no defined result exactly if it reaches past
  -- the end of RAM, of the scratchpad or of the BIOS from an address of that region.
  pub load_word-eq-none_iff :
      (load_word p c ≡ none) ↔ (OverrunsRam 4 p ⊎ OverrunsScratchpad 4 p ⊎ OverrunsBios 4 p)
  unfolding load_word read
  load_word-eq-none_iff =
      ground
        (arith, z.ram_sized, z.bios_sized, z.scratchpad_sized, scratchpad_offset p, bios_offset p)

  -- With arrays of the declared sizes, a word load at an aligned address has no defined result at
  -- exactly three addresses: the word behind RAM, and the last words of the scratchpad and the
  -- BIOS, whose arrays are one byte short.
  pub aligned_load-eq-none_iff :
      p % 4 ≡ 0
      → (load_word p c ≡ none) ↔ ((p ≡ 0x0020_0000) ⊎ (p ≡ 0x1F80_03FC) ⊎ (p ≡ 0x1FC7_FFFC))
  aligned_load-eq-none_iff h = ground (arith, load_word-eq-none_iff)

  pub store_word-eq-none_iff :
      (w : ℕ) → (store_word p w c ≡ none) ↔ (OverrunsRam 4 p ⊎ OverrunsScratchpad 4 p)
  unfolding store_word write
  store_word-eq-none_iff w = ground (arith, z.ram_sized, z.scratchpad_sized, scratchpad_offset p)

-- A word that was stored into RAM or the scratchpad, by a store with a result, is loaded back.
pub load_word-store_word :
    (c c' : Ctx) (p w : ℕ)
    → w < 2 ^ 32
    → is_writable p ≡ true
    → store_word p w c ≡ some c'
    → load_word p c' ≡ some (w, c')
unfolding load_word store_word read write
load_word-store_word c c' p w fits h e = ground (
  arith,
  le_value-le_update 4 c.bus.ram.byte p w,
  le_value-le_update 4 c.bus.scratchpad.byte (bit_and p 0xFFF) w,
)
