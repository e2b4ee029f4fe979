-- ===== src/Bus.antt =====
-- core/bus.c: the memory map. `none` is an access that leaves the array that `paddr` selects,
-- which C leaves undefined.
pub mod View
pub mod Laws
pub mod Stores
pub mod Widths
pub mod Faults
pub mod Bytes
pub mod Total
use mathlib.Core.Option
use psycho.Prelude.{ℕ, ◌+◌, bit_and, in_range, if◌then◌else◌, Bool, Option, some, [], ◌∷◌}
use psycho.Text.{text, num}
use psycho.Word.{u8, u16}
use psycho.State.{Ctx, Bus, Buffer, Severity, ModuleId}
use psycho.State.{ram_addr_start, ram_addr_end, bios_addr_start, bios_addr_end}
use psycho.State.{scratchpad_addr_start, scratchpad_addr_end}
use psycho.Log.{log_handle}
use psycho.Memory.{read, write}

abbrev pub is_ram : ℕ → Bool
is_ram paddr = in_range ram_addr_start ram_addr_end paddr

abbrev pub is_scratchpad : ℕ → Bool
is_scratchpad paddr = in_range scratchpad_addr_start scratchpad_addr_end paddr

abbrev pub is_bios : ℕ → Bool
is_bios paddr = in_range bios_addr_start bios_addr_end paddr

-- A read returns its value beside the context, and a write the context with the new array.
abbrev pub reading : ℕ → Buffer → ℕ → Ctx → Option (ℕ × Ctx)
reading n b i c = Option.map (λ v. (v, c)) (read n b i)

abbrev pub write_ram : ℕ → ℕ → ℕ → Ctx → Option Ctx
write_ram n i v c =
    Option.map (λ b. record c { bus = record (c.bus) { ram = b } }) (write n c.bus.ram i v)

abbrev pub write_scratchpad : ℕ → ℕ → ℕ → Ctx → Option Ctx
write_scratchpad n i v c =
    Option.map (λ b. record c { bus = record (c.bus) { scratchpad = b } })
      (write n c.bus.scratchpad i v)

unfoldable pub load_word : ℕ → Ctx → Option (ℕ × Ctx)
load_word paddr c =
    if is_ram paddr
    then reading 4 c.bus.ram paddr c
    else if is_scratchpad paddr
    then reading 4 c.bus.scratchpad (bit_and paddr 0xFFF) c
    else if is_bios paddr
    then reading 4 c.bus.bios (bit_and paddr 0xF_FFFF) c
    else some (
      0xFFFF_FFFF,
      log_handle ModuleId.bus Severity.warn
          (text "Unknown word load: 0x%08X; returning 0xFFFF'FFFF") (num paddr ∷ []) c,
    )

unfoldable pub peek_word : ℕ → Ctx → Option (ℕ × Ctx)
unfolding load_word
peek_word paddr c = load_word paddr c

unfoldable pub load_halfword : ℕ → Ctx → Option (ℕ × Ctx)
load_halfword paddr c =
    if is_ram paddr
    then reading 2 c.bus.ram paddr c
    else if is_scratchpad paddr
    then reading 2 c.bus.scratchpad (bit_and paddr 0xFFF) c
    else some (
      0xFFFF,
      log_handle ModuleId.bus Severity.warn (text "Unknown halfword load: 0x%08X; returning 0xFFFF")
          (num paddr ∷ []) c,
    )

unfoldable pub load_byte : ℕ → Ctx → Option (ℕ × Ctx)
load_byte paddr c =
    if is_ram paddr
    then reading 1 c.bus.ram paddr c
    else if is_scratchpad paddr
    then reading 1 c.bus.scratchpad (bit_and paddr 0xFFF) c
    else if is_bios paddr
    then reading 1 c.bus.bios (bit_and paddr 0xF_FFFF) c
    else some (
      0xFF,
      log_handle ModuleId.bus Severity.warn (text "Unknown byte load: 0x%08X; returning 0xFF")
          (num paddr ∷ []) c,
    )

unfoldable pub store_word : ℕ → ℕ → Ctx → Option Ctx
store_word paddr word c =
    if is_ram paddr
    then write_ram 4 paddr word c
    else if is_scratchpad paddr
    then write_scratchpad 4 (bit_and paddr 0xFFF) word c
    else some (
        log_handle ModuleId.bus Severity.warn
          (text "Unknown word store: 0x%08X <- 0x%08X; ignoring") (num paddr ∷ num word ∷ []) c)

-- The parameters' types `u16` and `u8` cut the values below.
unfoldable pub store_halfword : ℕ → ℕ → Ctx → Option Ctx
store_halfword paddr halfword c =
    if is_ram paddr
    then write_ram 2 paddr (u16 halfword) c
    else if is_scratchpad paddr
    then write_scratchpad 2 (bit_and paddr 0xFFF) (u16 halfword) c
    else some (
        log_handle ModuleId.bus Severity.warn
          (text "Unknown halfword store: 0x%08X <- 0x%04X; ignoring")
          (num paddr ∷ num (u16 halfword) ∷ []) c)

unfoldable pub store_byte : ℕ → ℕ → Ctx → Option Ctx
store_byte paddr byte c =
    if is_ram paddr
    then write_ram 1 paddr (u8 byte) c
    else if is_scratchpad paddr
    then write_scratchpad 1 (bit_and paddr 0xFFF) (u8 byte) c
    else some (
        log_handle ModuleId.bus Severity.warn
          (text "Unknown byte store: 0x%08X <- 0x%02X; ignoring") (num paddr ∷ num (u8 byte) ∷ [])
          c)
