-- ===== src/App/Loop.antt =====
-- The invariant of the context in the loop of `main` in app/main.c.
use mathlib.Core.Path.{subst}
use psycho.Prelude.{ℕ, zero, suc, Bool, ◌≡◌, ◌==◌, some, of_some, if_both, if_cases}
use psycho.State.{Ctx, Buffer, ram_size, bios_size, scratchpad_size}
use psycho.Log.{log_level_set_global}
use psycho.Memory.Laws.{IsBytes}
use psycho.Cpu.Valid.{IsValid}
use psycho.Cpu.Valid.Access.{bind-some}
use psycho.BiosTrace.Safe.{TtyInBounds}
use psycho.Disasm
use psycho.Context
use psycho.Context.{exe_load}
use psycho.Context.Start.{init-Machine}
use psycho.Context.Stepping.{Emulator, step-Emulator}
use psycho.Context.Loading.{exe_load-Emulator}
use psycho.App.{
  set_traces, setup, Round, trapped, next, then_step, load_at_entry, round, answer, is_zero,
  code_value, exe_entry,
}

set_traces-Emulator : (c : Ctx) → Emulator c → Emulator (set_traces c)
unfolding set_traces Disasm.trace_instruction_enable log_level_set_global
set_traces-Emulator c m = record {
  machine = record { valid = m.machine.valid; bytes = m.machine.bytes; sized = m.machine.sized };
  tty = m.tty;
}

-- The context at the head of the loop, from arrays of the declared sizes that hold bytes and a
-- context whose registers are words and whose TTY buffer has room, has the invariant.
pub setup-Emulator :
    (ram bios : Buffer) (c : Ctx)
    → IsValid c.cpu
    → TtyInBounds c
    → IsBytes ram.byte
    → IsBytes bios.byte
    → IsBytes c.bus.scratchpad.byte
    → ram.size ≡ ram_size
    → bios.size ≡ bios_size
    → c.bus.scratchpad.size ≡ scratchpad_size
    → Emulator (setup ram bios c)
unfolding setup Context.init Context.tty_stdout_enable
setup-Emulator ram bios c v t hr hb hs zr zb zs =
    let m = init-Machine ram bios c v hr hb hs zr zb zs in
    set_traces-Emulator _
      (record { machine = record { valid = m.valid; bytes = m.bytes; sized = m.sized }; tty = t })

-- What a round leaves, if it goes on.
abbrev pub Keeping : Round → Type 0
Keeping trapped = Unit {0}
Keeping (next c) = Emulator c

pub load_at_entry-Keeping :
    (exe : Buffer) (c : Ctx) (r : Round)
    → IsBytes exe.byte
    → Emulator c
    → load_at_entry exe c ≡ some r
    → Keeping r
unfolding load_at_entry
load_at_entry-Keeping exe c r h m e =
    if_cases (c.cpu.pc == exe_entry) e
      (λ entry.
        let ((code, d), q, k) = bind-some (exe_load exe c) _ entry in
        subst Keeping (of_some k) (
          if_both Keeping (is_zero (code_value code)) tt
            (set_traces-Emulator d (exe_load-Emulator exe c d code h m q))))
      (λ other. subst Keeping (of_some other) m)

then_step-Keeping : (o : Bool) (r s : Round) → Keeping r → then_step o r ≡ some s → Keeping s
unfolding then_step
then_step-Keeping o trapped s k e = subst Keeping (of_some e) tt
then_step-Keeping o (next c) s m e =
    let (d, q, k) = bind-some (Context.step c) _ e in
    let (t, p, l) = bind-some (answer o d.events) _ k in
    subst Keeping (of_some l) (if_both Keeping t tt (step-Emulator c d m q))

-- The context after `n` rounds, none of which trapped, with `tty_file` open or not.
pub data Rounds (is_open : Bool) (exe : Buffer) (c : Ctx) : ℕ → Ctx → Type 0 where
  start : Rounds is_open exe c zero c
  more :
      {n : ℕ} {d e : Ctx}
      → Rounds is_open exe c n d
      → round is_open exe d ≡ some (next e)
      → Rounds is_open exe c (suc n) e

-- However many rounds the loop makes from a context with the invariant, and whatever bytes the
-- executable has, the context has the invariant.
pub Rounds-Emulator :
    {o : Bool} {exe : Buffer} {c d : Ctx} (n : ℕ)
    → IsBytes exe.byte
    → Emulator c
    → Rounds o exe c n d
    → Emulator d
unfolding round
Rounds-Emulator n h m start = m
Rounds-Emulator {o} {exe} n h m (more {d} {e} r q) =
    let (s, p, k) = bind-some (load_at_entry exe d) _ q in
    then_step-Keeping o s (next e) (load_at_entry-Keeping exe d s h (Rounds-Emulator _ h m r) p) k

-- `main` behind the loading of its files, from a context whose registers are words, with zero in
-- `gpr[0]` and the index into the TTY buffer in its array: with bytes in a RAM, a BIOS and a
-- scratchpad of the declared sizes, and any bytes for the executable, this is so at the head of every
-- round, and the memory holds bytes in arrays of the declared sizes.
pub main-Emulator :
    (o : Bool) (ram bios exe : Buffer) (c d : Ctx) (n : ℕ)
    → IsValid c.cpu
    → TtyInBounds c
    → IsBytes ram.byte
    → IsBytes bios.byte
    → IsBytes exe.byte
    → IsBytes c.bus.scratchpad.byte
    → ram.size ≡ ram_size
    → bios.size ≡ bios_size
    → c.bus.scratchpad.size ≡ scratchpad_size
    → Rounds o exe (setup ram bios c) n d
    → Emulator d
main-Emulator o ram bios exe c d n v t hr hb he hs zr zb zs r =
    Rounds-Emulator n he (setup-Emulator ram bios c v t hr hb hs zr zb zs) r
