-- ===== src/App/Failure.antt =====
-- What `main` of app/main.c prints when one of its files cannot be loaded.
use psycho.Prelude.{◌≡◌, of_some, if◌then◌else◌, true, false, Option, none, some, List, ◌∷◌}
use psycho.Text.{Text}
use psycho.State.{Buffer}
use psycho.Cpu.Valid.Access.{bind-some}
use psycho.App.Files.{Os, Loaded, load_bios_file, load_exe_file}
use psycho.App.Main.{
  Emu, Outcome, exit_failure, main, start, with_bios, after_exe, bios_error, exe_error,
}

module _ (os : Os) (name bios_name exe_name : Text) (emu : Emu) where
  open os use {World, strerror}

  -- The text of a failure, and its state.
  printed :
      (reason : Text → Text) (t : Text) (x v : World)
      → ◌≡◌ {A = Outcome × World} (exit_failure (reason (strerror x)), x) (exit_failure t, v)
      → t ≡ reason (strerror v)
  printed reason t x v h = cc

  no_exe :
      (bios : Buffer) (r : Option Buffer × World) (v : World) (t : Text)
      → after_exe os name bios_name emu bios r ≡ (exit_failure t, v)
      → t ≡ exe_error name bios_name (strerror v)
  unfolding after_exe start
  no_exe bios (none, x) v t h = printed (exe_error name bios_name) t x v h
  no_exe bios (some exe, x) v t h = cc

  -- Once both arguments are there, a failure is the one of the BIOS if it could not be loaded, and else
  -- the one of the executable. Both name the file of the BIOS, and the executable's stays unnamed.
  pub main-exit_failure :
      (rest : List Text) (w v : World) (t : Text)
      → main os (name ∷ bios_name ∷ exe_name ∷ rest) emu w ≡ some (exit_failure t, v)
      → t ≡ (
          if (load_bios_file os bios_name emu.bios w).0
          then exe_error name bios_name (strerror v)
          else bios_error name bios_name (strerror v))
  unfolding main with_bios
  main-exit_failure rest w v t h = go (load_bios_file os bios_name emu.bios w) h
    where
      go :
          (r : Loaded os)
          → (if r.0
              then with_bios os name bios_name exe_name emu r.1 r.2
              else some (exit_failure (bios_error name bios_name (strerror r.2)), r.2))
            ≡ some (exit_failure t, v)
          → t ≡ (
              if r.0
              then exe_error name bios_name (strerror v)
              else bios_error name bios_name (strerror v))
      go (false, bios, x) k = printed (bios_error name bios_name) t x v (of_some k)
      go (true, bios, x) k =
          let (r, e, q) = bind-some (load_exe_file os exe_name x) _ k in
          no_exe bios r v t (of_some q)
