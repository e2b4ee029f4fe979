-- ===== src/Memory.antt =====
-- `memcpy` between bytes and integers on a little-endian host, within an allocation.
pub mod Laws
use psycho.Prelude.{ℕ, zero, suc, ◌+◌, ◌-◌, ◌*◌, ◌/◌, ◌%◌, ◌==◌, leb, ltb, if◌then◌else◌}
use psycho.Prelude.{Option, none, some}
use psycho.State.{Buffer}

-- The integer in the `n` bytes from index `i` on.
abbrev pub le_value : ℕ → (ℕ → ℕ) → ℕ → ℕ
le_value zero f i = 0
le_value (suc n) f i = f i + 256 * le_value n f (i + 1)

abbrev pub update {ℓ} : {A : Type ℓ} → (ℕ → A) → ℕ → A → ℕ → A
update f i v j = if i == j then v else f j

-- The bytes after the lowest `n` bytes of `v` are put at index `i`.
abbrev pub le_update : ℕ → (ℕ → ℕ) → ℕ → ℕ → ℕ → ℕ
le_update zero f i v = f
le_update (suc n) f i v = update (le_update n f (i + 1) (v / 256)) i (v % 256)

-- An access that leaves the allocation has no defined result.
unfoldable pub read : ℕ → Buffer → ℕ → Option ℕ
read n b i = if leb (i + n) b.size then some (le_value n b.byte i) else none

unfoldable pub write : ℕ → Buffer → ℕ → ℕ → Option Buffer
write n b i v =
    if leb (i + n) b.size then some (record b { byte = le_update n b.byte i v }) else none

-- `memcpy(&dst[i], &src[j], n)` between two arrays.
unfoldable pub copy : Buffer → ℕ → Buffer → ℕ → ℕ → Option Buffer
copy dst i src j n =
    let copied = λ (a : ℕ).
      if leb i a
      then (if ltb a (i + n) then src.byte (j + (a - i)) else dst.byte a)
      else dst.byte a in
    if leb (i + n) dst.size
    then (if leb (j + n) src.size then some (record dst { byte = copied }) else none)
    else none
