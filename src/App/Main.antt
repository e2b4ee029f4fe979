-- ===== src/App/Main.antt =====
-- `main` of app/main.c up to its loop, over what the C library gives. `none` is a null pointer that is
-- printed, or written through, which C leaves undefined.
use psycho.Prelude.{Bool, true, false, if◌then◌else◌, Option, none, some, List, [], ◌∷◌, ◌>>=◌}
use psycho.Text.{Text, text, str, format}
use psycho.State.{Ctx, Buffer}
use psycho.App.{setup}
use psycho.App.Files.{Os, load_bios_file, load_exe_file}

-- The variable `emu`.
pub record Emu : Type 0 where
  pub ram : Buffer
  pub bios : Buffer
  pub ctx : Ctx

-- The context at the head of the loop, with `exe_data`, and whether `tty_file` is open.
pub record Start : Type 0 where
  pub ctx : Ctx
  pub exe : Buffer
  pub tty_is_open : Bool

-- `EXIT_FAILURE` with the text on the standard error, or the loop, which never ends by itself.
pub data Outcome : Type 0 where
  exit_failure : Text → Outcome
  enters_loop : Start → Outcome

unfoldable pub usage : Text → Text
unfolding text format
usage name =
    format (text "%s: missing required argument.\nsyntax: %s <bios_file> <exe_file>\n")
      (str name ∷ str name ∷ [])

unfoldable pub bios_error : Text → Text → Text → Text
unfolding text format
bios_error name file reason =
    format (text "%s: error encountered loading bios file %s: %s\n")
      (str name ∷ str file ∷ str reason ∷ [])

unfoldable pub exe_error : Text → Text → Text → Text
unfolding text format
exe_error name file reason =
    format (text "%s: error encountered loading exe file %s: %s\n")
      (str name ∷ str file ∷ str reason ∷ [])

module _ (os : Os) where
  open os use {World, fopen, strerror}

  abbrev Ended : Type 0
  Ended = Outcome × World

  -- What follows both loads.
  unfoldable pub start : Emu → Buffer → Buffer → World → Ended
  unfolding setup
  start emu bios exe w =
      let (handle, v) = fopen (text "tty_file.txt") (text "w") w in
      let is_open : Bool = elim handle [ none ↦ false | some f ↦ true ] in
      (
        enters_loop (record { ctx = setup emu.ram bios emu.ctx; exe = exe; tty_is_open = is_open }),
        v,
      )

  -- What follows the load of the executable. The message names `argv[1]`.
  unfoldable pub after_exe : Text → Text → Emu → Buffer → Option Buffer × World → Ended
  unfolding start
  after_exe name bios_name emu bios (none, w) =
      (exit_failure (exe_error name bios_name (strerror w)), w)
  after_exe name bios_name emu bios (some exe, w) = start emu bios exe w

  -- What follows the load of the BIOS.
  unfoldable pub with_bios : Text → Text → Text → Emu → Buffer → World → Option Ended
  unfolding after_exe
  with_bios name bios_name exe_name emu bios w = do
    r ← load_exe_file os exe_name w
    some (after_exe name bios_name emu bios r)

  unfoldable pub main : List Text → Emu → World → Option Ended
  unfolding with_bios
  main [] emu w = none
  main (name ∷ []) emu w = some (exit_failure (usage name), w)
  main (name ∷ bios_name ∷ []) emu w = some (exit_failure (usage name), w)
  main (name ∷ bios_name ∷ exe_name ∷ rest) emu w =
      let (ok, bios, v) = load_bios_file os bios_name emu.bios w in
      if ok
      then with_bios name bios_name exe_name emu bios v
      else some (exit_failure (bios_error name bios_name (strerror v)), v)
