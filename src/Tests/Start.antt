-- ===== src/Tests/Start.antt =====
-- `main` up to its loop, over a C library that has every file, with the bytes of the BIOS in them.
use psycho.Prelude.{
  ℕ, ◌+◌, ◌≡◌, ◌==◌, ◌↔◌, if◌then◌else◌, true, false, Option, none, some, List, [], ◌∷◌, arith,
  refl, sym, of_some,
}
use psycho.Text.{Text, text}
use psycho.State.{Buffer, bios_size}
use psycho.App.{setup}
use psycho.App.Files.{
  Os, IsLawful, filled, load_bios_file, bios_of_stat, bios_of_handle, read_bios, load_exe_file,
  exe_of_stat, exe_of_handle, exe_of_block, read_exe,
}
use psycho.App.Main.{
  Emu, Start, exit_failure, enters_loop, main, with_bios, after_exe, start, exe_error, bios_error,
}
use psycho.App.Started.{Entered, main-Entered}
use psycho.App.Failure.{main-exit_failure}
use psycho.App.Unallocated.{Unallocated, main-eq-none_iff}
use psycho.Tests.{machine, ram, bios_byte, bios-IsBytes, zeros}

-- The state counts the calls of `stat`. Which of them find a file, and what `malloc` gives, is open.
abbrev os_with : (ℕ → Option ℕ) → Option (ℕ → ℕ) → Os
os_with found memory = record {
  World = ℕ;
  Stream = ℕ;
  stat = λ name w. (found w, w + 1);
  fopen = λ name mode w. (some 0, w);
  fread = λ f n w. (record { count = n; byte = bios_byte }, w);
  ferror = λ f w. false;
  fclose = λ f w. w;
  malloc = λ n w. (memory, w);
  free = λ w. w;
  strerror = λ w. text "No such file or directory";
}

abbrev pub os : Os
os = os_with (λ w. some 4) (some zeros)

pub os-IsLawful : IsLawful os
os-IsLawful = record {
  fread_count = λ f n w. omega arith;
  fread_byte = λ f n w i. bios-IsBytes i;
  malloc_byte = λ n w block h i. rw (sym (of_some h)) (omega arith);
}

abbrev pub emu : Emu
emu = record { ram = ram; bios = record { size = bios_size; byte = zeros }; ctx = machine }

abbrev pub argv : List Text
argv = text "psycho" ∷ text "bios.bin" ∷ text "game.exe" ∷ []

abbrev read_in : ℕ → Buffer
read_in n = filled n zeros (record { count = n; byte = bios_byte })

abbrev pub entered : Start
entered = record {
  ctx = setup ram (read_in bios_size) machine;
  exe = read_in 4;
  tty_is_open = true;
}

pub enters : main os argv emu 0 ≡ some (enters_loop entered, 2)
unfolding main with_bios after_exe start load_bios_file bios_of_stat bios_of_handle read_bios
    load_exe_file exe_of_stat exe_of_handle exe_of_block read_exe
enters = refl

main-Entered_example : Entered os argv emu 0 entered
main-Entered_example = main-Entered os argv emu 0 2 entered enters

-- The second file is not there.
abbrev no_exe : Os
no_exe = os_with (λ w. if w == 0 then some 4 else none) (some zeros)

abbrev printed : Text
printed = exe_error (text "psycho") (text "bios.bin") (text "No such file or directory")

fails : main no_exe argv emu 0 ≡ some (exit_failure printed, 2)
unfolding main with_bios after_exe start load_bios_file bios_of_stat bios_of_handle read_bios
    load_exe_file exe_of_stat exe_of_handle exe_of_block read_exe
fails = refl

main-exit_failure_example : printed ≡ (
    if (load_bios_file no_exe (text "bios.bin") emu.bios 0).0
    then exe_error (text "psycho") (text "bios.bin") (text "No such file or directory")
    else bios_error (text "psycho") (text "bios.bin") (text "No such file or directory"))
main-exit_failure_example =
    main-exit_failure no_exe (text "psycho") (text "bios.bin") (text "game.exe") emu [] 0 2 printed
      fails

-- There is no memory.
abbrev no_memory : Os
no_memory = os_with (λ w. some 4) none

main-eq-none_iff_example : (main no_memory argv emu 0 ≡ none) ↔ (
    ((load_bios_file no_memory (text "bios.bin") emu.bios 0).0 ≡ true)
    × Unallocated no_memory
        (text "game.exe")
        (load_bios_file no_memory (text "bios.bin") emu.bios 0).2)
main-eq-none_iff_example =
    main-eq-none_iff no_memory (text "psycho") (text "bios.bin") (text "game.exe") [] emu 0
