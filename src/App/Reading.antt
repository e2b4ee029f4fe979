-- ===== src/App/Reading.antt =====
-- What the two loads of app/main.c have read when they answer `true`.
use mathlib.Core.Path.{subst}
use psycho.Prelude.{
  ℕ, ◌≡◌, ◌⊎◌, ◌==◌, arith, refl, sym, of_some, inl, inr, if_cases, true, false, Option, none, some,
}
use psycho.Text.{Text, text}
use psycho.State.{Buffer, bios_size}
use psycho.App.Files.{
  Read, Os, filled, is_short, read_bios, bios_of_handle, bios_of_stat, load_bios_file, read_exe,
  exe_of_block, exe_of_handle, exe_of_stat, load_exe_file,
}

module _ (os : Os) where
  open os use {World, Stream, stat, fopen, fread, ferror, strerror}

  -- The state once `name` was looked up and opened.
  abbrev pub opened : Text → World → World
  opened name w = (fopen name (text "rb") (stat name w).1).1

  -- The file `name` was there in `w` and was opened, and in `v` all `n` bytes of it were read, without
  -- an error.
  pub record WasRead (name : Text) (w v : World) (n : ℕ) (r : Read) : Type 0 where
    pub size : ℕ
    pub handle : Stream
    pub stat_eq : (stat name w).0 ≡ some size
    pub fopen_eq : (fopen name (text "rb") (stat name w).1).0 ≡ some handle
    pub fread_eq : (fread handle n v).0 ≡ r
    pub whole : r.count ≡ n
    pub no_error : ferror handle (fread handle n v).1 ≡ false

  not_short :
      (f : Stream) (n : ℕ) (r : Read) (w : World)
      → is_short os f n r w ≡ false
      → (r.count ≡ n) × (ferror f w ≡ false)
  not_short f n r w h = ground arith

  read_bios-true :
      (f : Stream) (bios b : Buffer) (w v : World)
      → read_bios os f bios w ≡ (true, b, v)
      → (b ≡ filled bios_size bios.byte (fread f bios_size w).0)
        × (is_short os f bios_size (fread f bios_size w).0 (fread f bios_size w).1 ≡ false)
  unfolding read_bios
  read_bios-true f bios b w v h = ground arith

  module _ (name : Text) (bios b : Buffer) (w v : World) where
    bios_by_handle :
        (size : ℕ) (handle : Option Stream)
        → (stat name w).0 ≡ some size
        → (fopen name (text "rb") (stat name w).1).0 ≡ handle
        → bios_of_handle os bios (opened name w) handle ≡ (true, b, v)
        → (r : Read) × WasRead name w (opened name w) bios_size r
          × (b ≡ filled bios_size bios.byte r)
    unfolding bios_of_handle
    bios_by_handle size none e o h = cc
    bios_by_handle size (some f) e o h =
        let x = opened name w in
        let (eq, short) = read_bios-true f bios b x v h in
        let (whole, ok) =
          not_short f bios_size (fread f bios_size x).0 (fread f bios_size x).1 short in
        (
          (fread f bios_size x).0,
          record {
            size = size;
            handle = f;
            stat_eq = e;
            fopen_eq = o;
            fread_eq = refl;
            whole = whole;
            no_error = ok;
          },
          eq,
        )

    bios_by_stat :
        (st : Option ℕ)
        → (stat name w).0 ≡ st
        → bios_of_stat os name bios (stat name w).1 st ≡ (true, b, v)
        → (r : Read) × WasRead name w (opened name w) bios_size r
          × (b ≡ filled bios_size bios.byte r)
    unfolding bios_of_stat
    bios_by_stat none e h = cc
    bios_by_stat (some size) e h = bios_by_handle size _ e refl h

    pub load_bios_file-WasRead :
        load_bios_file os name bios w ≡ (true, b, v)
        → (r : Read) × WasRead name w (opened name w) bios_size r
          × (b ≡ filled bios_size bios.byte r)
    unfolding load_bios_file
    load_bios_file-WasRead h = bios_by_stat _ refl h

  read_exe-some :
      (f : Stream) (size : ℕ) (block : ℕ → ℕ) (exe : Buffer) (w v : World)
      → read_exe os f size block w ≡ (some exe, v)
      → (exe ≡ filled size block (fread f size w).0)
        × (is_short os f size (fread f size w).0 (fread f size w).1 ≡ false)
  unfolding read_exe
  read_exe-some f size block exe w v h = ground arith

  -- The executable in memory: as many bytes as `stat` said, all of them from its file.
  pub record HoldsFile (name : Text) (w : World) (exe : Buffer) : Type 0 where
    pub read : Read
    pub block : ℕ → ℕ
    pub was_read : WasRead name w (os.malloc exe.size (opened name w)).1 exe.size read
    pub same_size : (stat name w).0 ≡ some exe.size
    pub block_is : ((os.malloc exe.size (opened name w)).0 ≡ some block) ⊎ (block ≡ (λ i. 0))
    pub exe_eq : exe ≡ filled exe.size block read

  module _ (name : Text) (exe : Buffer) (w v : World) where
    allocated : ℕ → World
    allocated size = (os.malloc size (opened name w)).1

    holds :
        (f : Stream) (size : ℕ) (block : ℕ → ℕ)
        → (stat name w).0 ≡ some size
        → (fopen name (text "rb") (stat name w).1).0 ≡ some f
        → ((os.malloc size (opened name w)).0 ≡ some block) ⊎ (block ≡ (λ i. 0))
        → read_exe os f size block (allocated size) ≡ (some exe, v)
        → HoldsFile name w exe
    unfolding allocated
    holds f size block e o m h =
        let (eq, short) = read_exe-some f size block exe (allocated size) v h in
        let r = (fread f size (allocated size)).0 in
        let (whole, ok) = not_short f size r (fread f size (allocated size)).1 short in
        let held : HoldsFile name w (filled size block r) =
          unfold filled in
          record {
            read = r;
            block = block;
            was_read = record {
              size = size;
              handle = f;
              stat_eq = e;
              fopen_eq = o;
              fread_eq = refl;
              whole = whole;
              no_error = ok;
            };
            same_size = e;
            block_is = m;
            exe_eq = refl;
          } in
        subst (HoldsFile name w) (sym eq) held

    exe_by_block :
        (f : Stream) (size : ℕ) (m : Option (ℕ → ℕ))
        → (stat name w).0 ≡ some size
        → (fopen name (text "rb") (stat name w).1).0 ≡ some f
        → (os.malloc size (opened name w)).0 ≡ m
        → exe_of_block os f size (allocated size) m ≡ some (some exe, v)
        → HoldsFile name w exe
    unfolding exe_of_block
    exe_by_block f size (some block) e o m h = holds f size block e o (inl m) (of_some h)
    exe_by_block f size none e o m h =
        if_cases (size == 0) h (λ k. holds f size (λ i. 0) e o (inr refl) (of_some k)) (λ k. cc)

    exe_by_handle :
        (size : ℕ) (handle : Option Stream)
        → (stat name w).0 ≡ some size
        → (fopen name (text "rb") (stat name w).1).0 ≡ handle
        → exe_of_handle os size (opened name w) handle ≡ some (some exe, v)
        → HoldsFile name w exe
    unfolding exe_of_handle allocated
    exe_by_handle size none e o h = cc
    exe_by_handle size (some f) e o h = exe_by_block f size _ e o refl h

    exe_by_stat :
        (st : Option ℕ)
        → (stat name w).0 ≡ st
        → exe_of_stat os name (stat name w).1 st ≡ some (some exe, v)
        → HoldsFile name w exe
    unfolding exe_of_stat
    exe_by_stat none e h = cc
    exe_by_stat (some size) e h = exe_by_handle size _ e refl h

    pub load_exe_file-HoldsFile :
        load_exe_file os name w ≡ some (some exe, v) → HoldsFile name w exe
    unfolding load_exe_file
    load_exe_file-HoldsFile h = exe_by_stat _ refl h
