-- ===== src/App/Started.antt =====
-- What `main` of app/main.c has in memory when it enters its loop.
use mathlib.Core.Path.{subst}
use psycho.Prelude.{
  ℕ, ◌<◌, ◌≡◌, ◌⊎◌, if◌then◌else◌, arith, refl, ap, sym, ◌∙◌, of_some, inl, inr, true, false,
  Option, none, some, List, [], ◌∷◌,
}
use psycho.Text.{Text}
use psycho.State.{Ctx, Buffer, ram_size, bios_size, scratchpad_size}
use psycho.Memory.Laws.{IsBytes}
use psycho.Cpu.Valid.{IsValid}
use psycho.BiosTrace.Safe.{TtyInBounds}
use psycho.Context.Stepping.{Emulator}
use psycho.App.{setup}
use psycho.App.Files.{Read, Os, IsLawful, Loaded, filled, load_bios_file, load_exe_file}
use psycho.Cpu.Valid.Access.{bind-some}
use psycho.App.Main.{
  start, Emu, Start, Outcome, exit_failure, enters_loop, main, with_bios, after_exe, bios_error,
}
use psycho.App.Loop.{Rounds, main-Emulator}
use psycho.App.Reading.{WasRead, HoldsFile, opened, load_bios_file-WasRead, load_exe_file-HoldsFile}

-- What the loop starts with.
module _ (os : Os) where
  open os use {World, stat, strerror}

  -- `main` was called with two files. Each was there, was opened and was read in whole: the first
  -- into the BIOS, the second into `exe_data`, after the first.
  pub record Entered (argv : List Text) (emu : Emu) (w : World) (s : Start) : Type 0 where
    pub name : Text
    pub bios_name : Text
    pub exe_name : Text
    pub rest : List Text
    pub between : World
    pub bios_read : Read
    pub argv_eq : argv ≡ name ∷ bios_name ∷ exe_name ∷ rest
    pub bios_WasRead : WasRead os bios_name w (opened os bios_name w) bios_size bios_read
    pub exe_HoldsFile : HoldsFile os exe_name between s.exe
    pub ctx_eq : s.ctx ≡ setup emu.ram (filled bios_size emu.bios.byte bios_read) emu.ctx

  -- Injectivity of `enters_loop`.
  start_of : Start → Outcome → Start
  start_of d (enters_loop s) = s
  start_of d (exit_failure t) = d

  started :
      (name bios_name exe_name : Text) (emu : Emu) (bios : Buffer) (w v : World) (s : Start)
      → with_bios os name bios_name exe_name emu bios w ≡ some (enters_loop s, v)
      → HoldsFile os exe_name w s.exe × (s.ctx ≡ setup emu.ram bios emu.ctx)
  unfolding with_bios after_exe start start_of
  started name bios_name exe_name emu bios w v s h =
      let ((loaded, x), e, k) = bind-some (load_exe_file os exe_name w) _ h in
      go loaded x e (of_some k)
    where
      go :
          (loaded : Option Buffer) (x : World)
          → load_exe_file os exe_name w ≡ some (loaded, x)
          → after_exe os name bios_name emu bios (loaded, x) ≡ (enters_loop s, v)
          → HoldsFile os exe_name w s.exe × (s.ctx ≡ setup emu.ram bios emu.ctx)
      go none x e k = cc
      go (some exe) x e k =
          let same : start_of s (start os emu bios exe x).0 ≡ s =
            ap (λ (o : Outcome × World). start_of s o.0) k in
          (
            subst (λ (t : Start). HoldsFile os exe_name w t.exe) same
                (load_exe_file-HoldsFile os exe_name exe w x e),
            sym (ap (λ (t : Start). t.ctx) same),
          )

  -- The two loads, once the arguments are there.
  both_loaded :
      (name bios_name exe_name : Text) (rest : List Text) (emu : Emu) (w v : World) (s : Start)
      (r : Loaded os)
      → load_bios_file os bios_name emu.bios w ≡ r
      → (if r.0
          then with_bios os name bios_name exe_name emu r.1 r.2
          else some (exit_failure (bios_error name bios_name (strerror r.2)), r.2))
        ≡ some (enters_loop s, v)
      → Entered (name ∷ bios_name ∷ exe_name ∷ rest) emu w s
  both_loaded name bios_name exe_name rest emu w v s (false, bios, x) loaded h = cc
  both_loaded name bios_name exe_name rest emu w v s (true, bios, x) loaded h =
      let (r, was_read, eq) = load_bios_file-WasRead os bios_name emu.bios bios w x loaded in
      let (held, ctx_eq) = started name bios_name exe_name emu bios x v s h in
      record {
        name = name;
        bios_name = bios_name;
        exe_name = exe_name;
        rest = rest;
        between = x;
        bios_read = r;
        argv_eq = refl;
        bios_WasRead = was_read;
        exe_HoldsFile = held;
        ctx_eq = ctx_eq ∙ ap (λ (b : Buffer). setup emu.ram b emu.ctx) eq;
      }

  -- `main` enters its loop only when it was called with two files, and each of them was there, was
  -- opened and was read in whole, as many bytes as the BIOS's array has and as the executable has by
  -- `stat`; the context is then the one that is set up with that BIOS.
  pub main-Entered :
      (argv : List Text) (emu : Emu) (w v : World) (s : Start)
      → main os argv emu w ≡ some (enters_loop s, v)
      → Entered argv emu w s
  unfolding main
  main-Entered [] emu w v s h = cc
  main-Entered (name ∷ []) emu w v s h = cc
  main-Entered (name ∷ bios_name ∷ []) emu w v s h = cc
  main-Entered (name ∷ bios_name ∷ exe_name ∷ rest) emu w v s h =
      both_loaded name bios_name exe_name rest emu w v s _ refl h

  filled-IsBytes :
      (n : ℕ) (old : ℕ → ℕ) (r : Read)
      → IsBytes old
      → IsBytes r.byte
      → IsBytes (filled n old r).byte
  unfolding filled
  filled-IsBytes n old r h k i = ground (arith, h i, k i)

  module _ (l : IsLawful os) where
    WasRead-IsBytes :
        {name : Text} {w v : World} {n : ℕ} {r : Read} → WasRead os name w v n r → IsBytes r.byte
    WasRead-IsBytes {name} {w} {v} {n} h i =
        subst (λ (x : Read). x.byte i < 256) h.fread_eq (l.fread_byte h.handle n v i)

    pub HoldsFile-IsBytes :
        {name : Text} {w : World} {exe : Buffer} → HoldsFile os name w exe → IsBytes exe.byte
    HoldsFile-IsBytes {name} {w} {exe} h =
        subst (λ (b : Buffer). IsBytes b.byte) (sym h.exe_eq)
          (filled-IsBytes exe.size h.block h.read (block h.block_is) (WasRead-IsBytes h.was_read))
      where
        block :
            ((os.malloc exe.size (opened os name w)).0 ≡ some h.block) ⊎ (h.block ≡ (λ i. 0))
            → IsBytes h.block
        block (inl e) i = l.malloc_byte _ _ _ e i
        block (inr e) i = rw e (omega arith)

    -- Called on any files by a C library that keeps to its standard, `main` keeps the invariant of the
    -- context at the head of every round of its loop, if before the call the processor of `emu` was
    -- valid, the index into the TTY buffer in its array, and the arrays of bytes held bytes, with RAM
    -- and scratchpad of the declared sizes.
    pub main-Rounds-Emulator :
        (argv : List Text) (emu : Emu) (w v : World) (s : Start) (n : ℕ) (d : Ctx)
        → IsValid emu.ctx.cpu
        → TtyInBounds emu.ctx
        → IsBytes emu.ram.byte
        → IsBytes emu.bios.byte
        → IsBytes emu.ctx.bus.scratchpad.byte
        → emu.ram.size ≡ ram_size
        → emu.ctx.bus.scratchpad.size ≡ scratchpad_size
        → main os argv emu w ≡ some (enters_loop s, v)
        → Rounds s.tty_is_open s.exe s.ctx n d
        → Emulator d
    main-Rounds-Emulator argv emu w v s n d c t hr hb hs zr zs h r =
        let e = main-Entered argv emu w v s h in
        let bios = filled bios_size emu.bios.byte e.bios_read in
        main-Emulator s.tty_is_open emu.ram bios s.exe emu.ctx d n c t hr
          (filled-IsBytes bios_size emu.bios.byte e.bios_read hb (WasRead-IsBytes e.bios_WasRead))
          (HoldsFile-IsBytes e.exe_HoldsFile) hs zr (unfold filled in refl) zs
          (subst (λ (x : Ctx). Rounds s.tty_is_open s.exe x n d) e.ctx_eq r)
