-- ===== src/Bus/Widths.antt =====
-- The three widths of the loads and stores of core/bus.c together, against the memory map of
-- Bus/View.antt.
use psycho.Prelude.{ℕ, ◌≡◌, Bool, false, Option, some, [], ◌∷◌, if◌then◌else◌}
use psycho.Text.{Text, text, num}
use psycho.Word.{u8, u16}
use psycho.State.{Ctx, Severity, ModuleId}
use psycho.Log.{log_handle}
use psycho.Bus.{
  is_bios, load_word, load_halfword, load_byte, store_word, store_halfword, store_byte,
}
use psycho.Bus.View.{byte_at, IsSized}
use psycho.Bus.Laws.{loaded, load_word-value_at, load_halfword-value_at, load_byte-value_at}
use psycho.Bus.Stores.{stored, byte_at-store_word, byte_at-store_halfword, byte_at-store_byte}

pub data Width : Type 0 where
  word halfword byte : Width

abbrev pub load : Width → ℕ → Ctx → Option (ℕ × Ctx)
load Width.word = load_word
load Width.halfword = load_halfword
load Width.byte = load_byte

abbrev pub store : Width → ℕ → ℕ → Ctx → Option Ctx
store Width.word = store_word
store Width.halfword = store_halfword
store Width.byte = store_byte

abbrev pub bytes : Width → ℕ
bytes Width.word = 4
bytes Width.halfword = 2
bytes Width.byte = 1

-- The part of a register that is stored.
abbrev pub low : Width → ℕ → ℕ
low Width.word v = v
low Width.halfword v = u16 v
low Width.byte v = u8 v

abbrev pub ones : Width → ℕ
ones Width.word = 0xFFFF_FFFF
ones Width.halfword = 0xFFFF
ones Width.byte = 0xFF

abbrev pub warning : Width → Text
warning Width.word = text "Unknown word load: 0x%08X; returning 0xFFFF'FFFF"
warning Width.halfword = text "Unknown halfword load: 0x%08X; returning 0xFFFF"
warning Width.byte = text "Unknown byte load: 0x%08X; returning 0xFF"

-- The BIOS is not mapped for halfwords.
abbrev pub unmapped : Width → ℕ → Bool
unmapped Width.halfword p = is_bios p
unmapped _ p = false

-- With arrays of the declared sizes, a load of any width returns the little-endian value of the
-- memory map at every mapped address and changes nothing, or has no result if a byte of it is
-- missing; at any other address, and for halfwords at those of the BIOS, it returns all ones and
-- warns.
pub load-value_at :
    (c : Ctx) (w : Width) (p : ℕ)
    → IsSized c.bus
    → let warned = log_handle ModuleId.bus Severity.warn (warning w) (num p ∷ []) c in
      load w p c
      ≡ (if unmapped w p then some (ones w, warned) else loaded (bytes w) p (ones w) c warned)
load-value_at c Width.word p z = load_word-value_at c z p
load-value_at c Width.halfword p z = load_halfword-value_at c z p
load-value_at c Width.byte p z = load_byte-value_at c z p

-- With arrays of the declared sizes, a store of any width that has a result puts the low bytes of
-- the register at its address, where that is writable, and changes no other byte of the memory map.
pub byte_at-store :
    (c d : Ctx) (w : Width) (p v q : ℕ)
    → IsSized c.bus
    → store w p v c ≡ some d
    → byte_at d.bus q ≡ stored (bytes w) p (low w v) c.bus q
byte_at-store c d Width.word p v q z h = byte_at-store_word c d z p v q h
byte_at-store c d Width.halfword p v q z h = byte_at-store_halfword c d z p v q h
byte_at-store c d Width.byte p v q z h = byte_at-store_byte c d z p v q h
