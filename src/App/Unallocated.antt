-- ===== src/App/Unallocated.antt =====
-- When `main` of app/main.c goes on without the memory that it asked for.
use psycho.Prelude.{
  ℕ, ◌≡◌, ◌≢◌, ◌↔◌, if◌then◌else◌, arith, refl, ap, ◌∙◌, true, false, Option, none, some, List, ◌∷◌,
  ◌>>=◌,
}
use psycho.Text.{Text, text}
use psycho.App.Files.{
  Os, Loaded, load_bios_file, load_exe_file, exe_of_block, exe_of_handle, exe_of_stat,
}
use psycho.App.Main.{Emu, exit_failure, main, with_bios, after_exe, bios_error}
use psycho.App.Reading.{opened}

module _ (os : Os) where
  open os use {World, Stream, stat, fopen, malloc}

  -- The file was there and was opened, and `malloc` gave nothing for its bytes.
  pub record Unallocated (name : Text) (w : World) : Type 0 where
    pub size : ℕ
    pub handle : Stream
    pub stat_eq : (stat name w).0 ≡ some size
    pub fopen_eq : (fopen name (text "rb") (stat name w).1).0 ≡ some handle
    pub malloc_eq : (malloc size (opened os name w)).0 ≡ none
    pub not_empty : size ≢ 0

  module _ (name : Text) (w : World) where
    by_block :
        (f : Stream) (size : ℕ) (m : Option (ℕ → ℕ)) (v : World)
        → (exe_of_block os f size v m ≡ none) ↔ ((m ≡ none) × (size ≢ 0))
    unfolding exe_of_block
    by_block f size (some block) v = ground arith
    by_block f size none v = ground arith

    at_handle :
        (size : ℕ) (handle : Option Stream)
        → (stat name w).0 ≡ some size
        → (fopen name (text "rb") (stat name w).1).0 ≡ handle
        → exe_of_handle os size (opened os name w) handle ≡ none
        → Unallocated name w
    unfolding exe_of_handle
    at_handle size none e o k = cc
    at_handle size (some f) e o k =
        let (m, n) = (by_block f size _ _).0 k in
        record { size = size; handle = f; stat_eq = e; fopen_eq = o; malloc_eq = m; not_empty = n }

    at_stat :
        (st : Option ℕ)
        → (stat name w).0 ≡ st
        → exe_of_stat os name (stat name w).1 st ≡ none
        → Unallocated name w
    unfolding exe_of_stat
    at_stat none e k = cc
    at_stat (some size) e k = at_handle size _ e refl k

    load_exe_file-eq-none_iff : (load_exe_file os name w ≡ none) ↔ Unallocated name w
    unfolding load_exe_file exe_of_stat exe_of_handle
    load_exe_file-eq-none_iff = (
      at_stat _ refl,
      λ h.
          ap (exe_of_stat os name (stat name w).1) h.stat_eq
          ∙ ap (exe_of_handle os h.size (opened os name w)) h.fopen_eq
          ∙ (by_block h.handle h.size _ _).1 (h.malloc_eq, h.not_empty),
    )

  bind-eq-none_iff :
      {A B : Type 0} (o : Option A) (f : A → B) → ((o >>= λ x. some (f x)) ≡ none) ↔ (o ≡ none)
  bind-eq-none_iff none f = ((λ h. refl), (λ h. refl))
  bind-eq-none_iff (some a) f = ((λ h. cc), (λ h. cc))

  module _ (name bios_name exe_name : Text) (rest : List Text) (emu : Emu) (w : World) where
    -- Called with two files, `main` comes to its loop or ends by itself, in every case but one: the
    -- BIOS was loaded, the executable was there and was opened, and there was no memory for its bytes.
    -- Then it writes through a null pointer.
    pub main-eq-none_iff : (main os (name ∷ bios_name ∷ exe_name ∷ rest) emu w ≡ none) ↔ (
        ((load_bios_file os bios_name emu.bios w).0 ≡ true)
        × Unallocated exe_name (load_bios_file os bios_name emu.bios w).2)
    unfolding main with_bios
    main-eq-none_iff = go (load_bios_file os bios_name emu.bios w)
      where
        go :
            (r : Loaded os)
            → ((if r.0
                  then with_bios os name bios_name exe_name emu r.1 r.2
                  else some (exit_failure (bios_error name bios_name (os.strerror r.2)), r.2))
                ≡ none)
              ↔ ((r.0 ≡ true) × Unallocated exe_name r.2)
        go (false, bios, x) = ((λ h. cc), (λ h. cc))
        go (true, bios, x) =
            let here =
              bind-eq-none_iff (load_exe_file os exe_name x)
                (after_exe os name bios_name emu bios) in
            let there = load_exe_file-eq-none_iff exe_name x in
            ((λ h. (refl, there.0 (here.0 h))), (λ h. here.1 (there.1 h.1)))
