-- ===== src/Bus/View.antt =====
-- The memory map as a partial function from physical addresses to bytes, against which the bus
-- is specified.
use psycho.Prelude.{ℕ, zero, suc, ◌+◌, ◌-◌, ◌*◌, ◌<◌, ltb, if◌then◌else◌}
use psycho.Prelude.{Option, none, some, ◌≡◌, arith}
use native.Mathlib.Nat.{add-zero}
use psycho.State.{Bus, Buffer, ram_size, bios_size, scratchpad_size}
use psycho.State.{ram_addr_start, bios_addr_start, scratchpad_addr_start}
use psycho.Memory.{read}
use psycho.Bus.{is_ram, is_scratchpad, is_bios}

abbrev pub byte_in : Buffer → ℕ → Option ℕ
byte_in b i = if ltb i b.size then some (b.byte i) else none

unfoldable pub byte_at : Bus → ℕ → Option ℕ
byte_at b p =
    if is_ram p
    then byte_in b.ram (p - ram_addr_start)
    else if is_scratchpad p
    then byte_in b.scratchpad (p - scratchpad_addr_start)
    else if is_bios p
    then byte_in b.bios (p - bios_addr_start)
    else none

-- The allocations that app/main.c and `struct psycho_bus` make.
pub record IsSized (b : Bus) : Type 0 where
  pub ram_sized : b.ram.size ≡ ram_size
  pub bios_sized : b.bios.size ≡ bios_size
  pub scratchpad_sized : b.scratchpad.size ≡ scratchpad_size

abbrev prepend : Option ℕ → Option ℕ → Option ℕ
prepend none rest = none
prepend (some x) none = none
prepend (some x) (some rest) = some (x + 256 * rest)

-- The little-endian integer in `n` bytes from an address on, if all of them are there.
abbrev pub value_at : ℕ → (ℕ → Option ℕ) → ℕ → Option ℕ
value_at zero view p = some 0
value_at (suc n) view p = prepend (view p) (value_at n view (p + 1))

skip : (p j : ℕ) → p + suc j ≡ p + 1 + j
skip p j = omega arith

pub read-value_at :
    (n : ℕ) (b : Buffer) (view : ℕ → Option ℕ) (p i : ℕ)
    → ((j : ℕ) → j < suc n → view (p + j) ≡ byte_in b (i + j))
    → value_at (suc n) view p ≡ read (suc n) b i
unfolding read
read-value_at zero b view p i h = ground (arith, h 0 (omega arith), add-zero p, add-zero i)
read-value_at (suc n) b view p i h =
    let here : view p ≡ byte_in b i = ground (arith, h 0 (omega arith), add-zero p, add-zero i) in
    let rest : value_at (suc n) view (p + 1) ≡ read (suc n) b (i + 1) =
      read-value_at n b view (p + 1) (i + 1)
        (λ j q. ground (arith, h (suc j) (omega arith), skip p j, skip i j)) in
    rw (here, rest) (ground arith)
