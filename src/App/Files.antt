-- ===== src/App/Files.antt =====
-- `load_bios_file` and `load_exe_file` of app/main.c, over what the C library gives.
use psycho.Prelude.{
  ℕ, ◌==◌, ltb, if◌then◌else◌, Bool, true, false, Option, none, some, ◌≤◌, ◌<◌, ◌≡◌,
}
use psycho.Text.{Text, text}
use psycho.State.{Buffer, bios_size}

-- What a call of `fread` puts at the head of its array.
pub record Read : Type 0 where
  pub count : ℕ
  pub byte : ℕ → ℕ

-- The C library over an unknown state, which has `errno`, the files and the heap. `none` is a negative
-- result of `stat`, or a null pointer.
pub record Os : Type 1 where
  pub World : Type 0
  pub Stream : Type 0
  pub stat : Text → World → Option ℕ × World
  pub fopen : Text → Text → World → Option Stream × World
  pub fread : Stream → ℕ → World → Read × World
  pub ferror : Stream → World → Bool
  pub fclose : Stream → World → World
  pub malloc : ℕ → World → Option (ℕ → ℕ) × World
  pub free : World → World
  pub strerror : World → Text

-- What the C standard says of the counts and the bytes.
pub record IsLawful (os : Os) : Type 0 where
  pub fread_count : (f : os.Stream) (n : ℕ) (w : os.World) → (os.fread f n w).0.count ≤ n
  pub fread_byte : (f : os.Stream) (n : ℕ) (w : os.World) (i : ℕ) → (os.fread f n w).0.byte i < 256
  pub malloc_byte :
      (n : ℕ) (w : os.World) (block : ℕ → ℕ)
      → (os.malloc n w).0 ≡ some block
      → (i : ℕ) → block i < 256

-- The array of `n` bytes with the ones that were read at its head.
unfoldable pub filled : ℕ → (ℕ → ℕ) → Read → Buffer
filled n old r = record { size = n; byte = λ i. if ltb i r.count then r.byte i else old i }

module _ (os : Os) where
  open os use {World, Stream, stat, fopen, fread, ferror, fclose, malloc, free}

  -- A function's result, the array, and the state.
  abbrev pub Loaded : Type 0
  Loaded = Bool × Buffer × World

  -- `(bytes_read != n) || ferror(handle)`.
  abbrev pub is_short : Stream → ℕ → Read → World → Bool
  is_short f n r w = if r.count == n then ferror f w else true

  -- The part behind a successful `fopen`.
  unfoldable pub read_bios : Stream → Buffer → World → Loaded
  unfolding filled
  read_bios f bios w =
      let (r, v) = fread f bios_size w in
      let bios' = filled bios_size bios.byte r in
      if is_short f bios_size r v then (false, bios', fclose f v) else (true, bios', v)

  -- The part behind `fopen`.
  unfoldable pub bios_of_handle : Buffer → World → Option Stream → Loaded
  unfolding read_bios
  bios_of_handle bios w none = (false, bios, w)
  bios_of_handle bios w (some f) = read_bios f bios w

  -- The part behind `stat`.
  unfoldable pub bios_of_stat : Text → Buffer → World → Option ℕ → Loaded
  unfolding bios_of_handle
  bios_of_stat name bios w none = (false, bios, w)
  bios_of_stat name bios w (some size) =
      let (handle, v) = fopen name (text "rb") w in bios_of_handle bios v handle

  unfoldable pub load_bios_file : Text → Buffer → World → Loaded
  unfolding bios_of_stat
  load_bios_file name bios w = let (st, v) = stat name w in bios_of_stat name bios v st

  -- The part behind a successful `fopen`, with the block that `malloc` gave. A load that fails
  -- leaves `exe_data` freed.
  unfoldable pub read_exe : Stream → ℕ → (ℕ → ℕ) → World → Option Buffer × World
  unfolding filled
  read_exe f size block w =
      let (r, v) = fread f size w in
      if is_short f size r v then (none, free (fclose f v)) else (some (filled size block r), v)

  -- The part behind `malloc`. Without memory, `fread` writes through a null pointer, but for an empty
  -- file.
  unfoldable pub exe_of_block : Stream → ℕ → World → Option (ℕ → ℕ) → Option (Option Buffer × World)
  unfolding read_exe
  exe_of_block f size w (some block) = some (read_exe f size block w)
  exe_of_block f size w none = if size == 0 then some (read_exe f size (λ i. 0) w) else none

  -- The part behind `fopen`.
  unfoldable pub exe_of_handle : ℕ → World → Option Stream → Option (Option Buffer × World)
  unfolding exe_of_block
  exe_of_handle size w none = some (none, w)
  exe_of_handle size w (some f) =
      let (exe_data, v) = malloc size w in exe_of_block f size v exe_data

  -- The part behind `stat`.
  unfoldable pub exe_of_stat : Text → World → Option ℕ → Option (Option Buffer × World)
  unfolding exe_of_handle
  exe_of_stat name w none = some (none, w)
  exe_of_stat name w (some size) =
      let (handle, v) = fopen name (text "rb") w in exe_of_handle size v handle

  -- `exe_data` with `exe_size`; `none` within is the result `false`.
  unfoldable pub load_exe_file : Text → World → Option (Option Buffer × World)
  unfolding exe_of_stat
  load_exe_file name w = let (st, v) = stat name w in exe_of_stat name v st
