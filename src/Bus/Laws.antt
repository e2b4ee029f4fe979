-- ===== src/Bus/Laws.antt =====
-- The bus refines the memory map of `Bus.View`.
use mathlib.Core.Option
use psycho.Prelude.{ℕ, suc, ◌+◌, ◌-◌, ◌<◌, if◌then◌else◌}
use psycho.Prelude.{Bool, true, false, Option, some, ◌≡◌, ◌⊎◌, arith, bit_and}
use psycho.Bits.{bit_and_mask}
use psycho.Prelude.{[], ◌∷◌, Bool-cases, inl, inr}
use psycho.Text.{text, num}
use psycho.Log.{log_handle}
use psycho.State.{Severity, ModuleId}
use psycho.State.{Ctx, Bus}
use psycho.State.{bios_addr_start, scratchpad_addr_start}
use psycho.Memory.{read}
use psycho.Bus.{is_ram, is_scratchpad, is_bios, load_word, load_halfword, load_byte}
use psycho.Bus.View.{byte_in, byte_at, IsSized, value_at, read-value_at}

-- `paddr & 0xFFF` and `paddr & 0xFFFFF` are the offsets into the scratchpad and the BIOS.
pub scratchpad_offset :
    (p : ℕ) → is_scratchpad p ≡ true → bit_and p 0xFFF ≡ p - scratchpad_addr_start
scratchpad_offset p h = ground (arith, bit_and_mask 12 p)

pub bios_offset : (p : ℕ) → is_bios p ≡ true → bit_and p 0xF_FFFF ≡ p - bios_addr_start
bios_offset p h = ground (arith, bit_and_mask 20 p)

module _ (b : Bus) (z : IsSized b) where
  -- Within a region the map's bytes are those of one array, up to the array's end.
  ram_window : (p j : ℕ) → is_ram p ≡ true → j < 4 → byte_at b (p + j) ≡ byte_in b.ram (p + j)
  unfolding byte_at
  ram_window p j h k = ground (arith, z.ram_sized)

  scratchpad_window :
      (p j : ℕ)
      → is_scratchpad p ≡ true
      → j < 4
      → byte_at b (p + j) ≡ byte_in b.scratchpad (p - scratchpad_addr_start + j)
  unfolding byte_at
  scratchpad_window p j h k = ground (arith, z.scratchpad_sized)

  bios_window :
      (p j : ℕ)
      → is_bios p ≡ true
      → j < 4
      → byte_at b (p + j) ≡ byte_in b.bios (p - bios_addr_start + j)
  unfolding byte_at
  bios_window p j h k = ground (arith, z.bios_sized)

abbrev pub is_mapped : ℕ → Bool
is_mapped p = if is_ram p then true else if is_scratchpad p then true else is_bios p

-- What a load of `n` bytes promises: the little-endian value of the bytes that the map holds, or
-- all ones and a warning where there is no memory.
abbrev pub loaded : ℕ → ℕ → ℕ → Ctx → Ctx → Option (ℕ × Ctx)
loaded n p ones c warned =
    if is_mapped p
    then Option.map (λ v. (v, c)) (value_at n (byte_at c.bus) p)
    else some (ones, warned)

-- The regions do not overlap.
not_bios : (p : ℕ) → (is_ram p ≡ true) ⊎ (is_scratchpad p ≡ true) → is_bios p ≡ false
not_bios p h = ground arith

module _ (c : Ctx) (z : IsSized c.bus) where
  ram_read :
      (n p : ℕ)
      → n < 4
      → is_ram p ≡ true
      → value_at (suc n) (byte_at c.bus) p ≡ read (suc n) c.bus.ram p
  ram_read n p k h =
      read-value_at n c.bus.ram (byte_at c.bus) p p (λ j q. ram_window c.bus z p j h (omega arith))

  scratchpad_read :
      (n p : ℕ)
      → n < 4
      → is_scratchpad p ≡ true
      → value_at (suc n) (byte_at c.bus) p ≡ read (suc n) c.bus.scratchpad (bit_and p 0xFFF)
  scratchpad_read n p k h = rw (scratchpad_offset p h) (
      read-value_at n c.bus.scratchpad (byte_at c.bus) p (p - scratchpad_addr_start)
        (λ j q. scratchpad_window c.bus z p j h (omega arith)))

  bios_read :
      (n p : ℕ)
      → n < 4
      → is_bios p ≡ true
      → value_at (suc n) (byte_at c.bus) p ≡ read (suc n) c.bus.bios (bit_and p 0xF_FFFF)
  bios_read n p k h = rw (bios_offset p h) (
      read-value_at n c.bus.bios (byte_at c.bus) p (p - bios_addr_start)
        (λ j q. bios_window c.bus z p j h (omega arith)))

  -- With arrays of the declared sizes, a word load returns the little-endian word of the memory map
  -- at every mapped address and changes nothing, or has no result if a byte of the word is missing;
  -- at any other address it returns all ones and warns.
  pub load_word-value_at :
      (p : ℕ)
      → load_word p c
        ≡ loaded 4 p 0xFFFF_FFFF c (
            log_handle ModuleId.bus Severity.warn
              (text "Unknown word load: 0x%08X; returning 0xFFFF'FFFF")
              (num p ∷ [])
              c)
  unfolding load_word
  load_word-value_at p = elim (Bool-cases (is_ram p)) [
    | inl h ↦ rw (h, ram_read 3 p (omega arith) h)
    | inr h ↦ elim (Bool-cases (is_scratchpad p)) [
      | inl h' ↦ rw (h, h', scratchpad_read 3 p (omega arith) h')
      | inr h' ↦ elim (Bool-cases (is_bios p)) [
        | inl k ↦ rw (h, h', k, bios_read 3 p (omega arith) k)
        | inr k ↦ rw (h, h', k)
      ]
    ]
  ]

  -- With arrays of the declared sizes, a byte load returns the byte of the memory map at every mapped
  -- address, or has no result if the arrays lack it; at any other it returns all ones and warns.
  pub load_byte-value_at :
      (p : ℕ)
      → load_byte p c
        ≡ loaded 1 p 0xFF c (
            log_handle ModuleId.bus Severity.warn
              (text "Unknown byte load: 0x%08X; returning 0xFF")
              (num p ∷ [])
              c)
  unfolding load_byte
  load_byte-value_at p = elim (Bool-cases (is_ram p)) [
    | inl h ↦ rw (h, ram_read 0 p (omega arith) h)
    | inr h ↦ elim (Bool-cases (is_scratchpad p)) [
      | inl h' ↦ rw (h, h', scratchpad_read 0 p (omega arith) h')
      | inr h' ↦ elim (Bool-cases (is_bios p)) [
        | inl k ↦ rw (h, h', k, bios_read 0 p (omega arith) k)
        | inr k ↦ rw (h, h', k)
      ]
    ]
  ]

  -- With arrays of the declared sizes, a halfword load returns the little-endian halfword of the
  -- memory map in RAM and the scratchpad, or has no result if a byte of it is missing; at any other
  -- address, those of the BIOS too, it returns all ones and warns.
  pub load_halfword-value_at :
      (p : ℕ)
      → let warned =
          log_handle ModuleId.bus Severity.warn
            (text "Unknown halfword load: 0x%08X; returning 0xFFFF")
            (num p ∷ [])
            c in
        load_halfword p c
        ≡ (if is_bios p then some (0xFFFF, warned) else loaded 2 p 0xFFFF c warned)
  unfolding load_halfword
  load_halfword-value_at p = elim (Bool-cases (is_ram p)) [
    | inl h ↦ rw (not_bios p (inl h), h, ram_read 1 p (omega arith) h)
    | inr h ↦ elim (Bool-cases (is_scratchpad p)) [
      | inl h' ↦ rw (not_bios p (inr h'), h, h', scratchpad_read 1 p (omega arith) h')
      | inr h' ↦ elim (Bool-cases (is_bios p)) [ inl k ↦ rw (h, h', k) | inr k ↦ rw (h, h', k) ]
    ]
  ]
