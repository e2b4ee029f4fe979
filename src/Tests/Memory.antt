-- ===== src/Tests/Memory.antt =====
-- The bus at concrete addresses.
use psycho.Prelude.{ℕ, ◌≡◌, ◌⊎◌, ◌↔◌, none, some, arith, refl, if◌then◌else◌, [], ◌∷◌}
use psycho.Text.{num}
use psycho.State.{Ctx, Severity, ModuleId, ram_size}
use psycho.Log.{log_handle}
use psycho.Memory.{write, le_update}
use psycho.Bus.{load_word, store_word}
use psycho.Bus.View.{byte_at}
use psycho.Bus.Laws.{loaded}
use psycho.Bus.Stores.{stored}
use psycho.Bus.Widths.{
  Width, load, bytes, low, ones, warning, unmapped, load-value_at, byte_at-store,
}
use psycho.Bus.Faults.{aligned_load-eq-none_iff}
use psycho.Tests.{machine, machine-IsSized, zeros}

load-value_at_example :
    let p : ℕ = 0x1FC0_0002 in
    let warned =
      log_handle ModuleId.bus Severity.warn (warning Width.halfword) (num p ∷ []) machine in
    load Width.halfword p machine ≡ (
      if unmapped Width.halfword p
      then some (ones Width.halfword, warned)
      else loaded (bytes Width.halfword) p (ones Width.halfword) machine warned)
load-value_at_example = load-value_at machine Width.halfword 0x1FC0_0002 machine-IsSized

-- The machine after a store into RAM.
abbrev with_ram : ℕ → ℕ → ℕ → Ctx
with_ram n p w = record machine {
  bus = record (machine.bus) { ram = record { size = ram_size; byte = le_update n zeros p w } };
}

word_stored : store_word 0x10 0xDEAD_BEEF machine ≡ some (with_ram 4 0x10 0xDEAD_BEEF)
unfolding store_word write
word_stored = refl

byte_at-store_example :
    byte_at (with_ram 4 0x10 0xDEAD_BEEF).bus 0x12
    ≡ stored (bytes Width.word) 0x10 (low Width.word 0xDEAD_BEEF) machine.bus 0x12
byte_at-store_example =
    byte_at-store machine (with_ram 4 0x10 0xDEAD_BEEF) Width.word 0x10 0xDEAD_BEEF 0x12
      machine-IsSized word_stored

aligned_load-eq-none_iff_example :
    let p : ℕ = 0x0020_0000 in
    (load_word p machine ≡ none) ↔ ((p ≡ 0x0020_0000) ⊎ (p ≡ 0x1F80_03FC) ⊎ (p ≡ 0x1FC7_FFFC))
aligned_load-eq-none_iff_example =
    aligned_load-eq-none_iff machine machine-IsSized 0x0020_0000 (omega arith)
