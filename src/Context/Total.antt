-- ===== src/Context/Total.antt =====
-- When `psycho_step` of core/ctx.c has a result.
use mathlib.Core.Path.{subst}
use psycho.Prelude.{
  ◌<◌, ◌≡◌, refl, sym, ◌∙◌, Option, none, some, if◌then◌else◌, Bool, true, false, ◌>>=◌,
}
use psycho.State.{Ctx, Cpu, BiosTrace as BiosTraceState}
use psycho.Bus.Total.{Returns, returns_of_ne}
use psycho.Disasm
use psycho.Disasm.Total.{Readable, trace_begin-Returns}
use psycho.Disasm.Trace.{Observes}
use psycho.BiosTrace
use psycho.BiosTrace.{calls_putchar, argument, c_string, tty_output_size_max}
use psycho.BiosTrace.Safe.{TtyInBounds, closed, trace_begin-eq-none_iff, trace_begin-Watches}
use psycho.Cpu.Step
use psycho.Cpu.Alike.{Alike}
use psycho.Cpu.Alike.Access.{Agrees}
use psycho.Cpu.Alike.Step.{step-Agrees}
use psycho.Cpu.Total.{StepInBounds}
use psycho.Cpu.Total
use psycho.Context.{step}
use psycho.Context.Stepping.{Emulator, step-Emulator, traced-Observes}

-- A newline is printed through the TTY trace, and the array has no NUL.
abbrev pub Unterminated : Ctx → Type 0
Unterminated c =
    (calls_putchar c ≡ true)
    × (c.bios_trace.enable_tty_output ≡ true)
    × (argument c ≡ b'\n')
    × (c_string tty_output_size_max (closed c) ≡ none)

Unterminated-Observes : (c d : Ctx) → Observes c d → Unterminated d → Unterminated c
Unterminated-Observes c d o u =
    let at =
      λ (p : Cpu) (b : BiosTraceState). Unterminated (record c { cpu = p; bios_trace = b }) in
    subst (λ p. at p c.bios_trace) o.same_cpu (subst (λ b. at d.cpu b) o.same_bios_trace u)

-- If the instruction trace is on, the word at the program counter can be disassembled.
abbrev pub Traceable : Ctx → Type 0
Traceable c = c.disasm.trace_instruction ≡ true → Readable c

if-Returns :
    (b : Bool) (o : Option Ctx) (c : Ctx)
    → (b ≡ true → Returns o)
    → Returns (if b then o else some c)
if-Returns true o c h = h refl
if-Returns false o c h = (c, refl)

agreed-Returns : (c e : Ctx) (o : Option Ctx) → Agrees c (some e) o → Returns o
agreed-Returns c e none a = absurd a
agreed-Returns c e (some d) a = (d, refl)

chain :
    {A B : Type 0} (o : Option A) (a : A) (f : A → Option B)
    → o ≡ some a
    → Returns (f a)
    → Returns (o >>= f)
chain o a f e r = subst (λ p. Returns (p >>= f)) (sym e) r

-- Where the processor's step has a result, so has the whole.
pub step_around :
    (c e : Ctx)
    → Emulator c
    → Step.step c ≡ some e
    → Traceable c
    → ¬ Unterminated c
    → (d : Ctx) × (step c ≡ some d) × Emulator d
step_around c e m q t u =
    let (c1, e1) =
      if-Returns c.disasm.trace_instruction (Disasm.trace_begin c) c
        (λ on. trace_begin-Returns c m.machine.sized (t on)) in
    let o = traced-Observes c c1 e1 in
    let tty1 : TtyInBounds c1 =
      subst (λ (b : BiosTraceState). b.tty_stdout.len < tty_output_size_max) (sym o.same_bios_trace)
        m.tty in
    let (c2, e2) =
      returns_of_ne (BiosTrace.trace_begin c1)
        (λ h. u (Unterminated-Observes c c1 o ((trace_begin-eq-none_iff c1 tty1).0 h))) in
    let w = trace_begin-Watches c1 c2 e2 in
    let a : Alike c c2 = record {
      same_cpu = w.same_cpu ∙ o.same_cpu;
      same_bus = w.same_bus ∙ o.same_bus;
    } in
    let (c3, e3) =
      agreed-Returns c e (Step.step c2)
        (subst (λ p. Agrees c p (Step.step c2)) q (step-Agrees c c2 a)) in
    let done : Returns (step c) =
      unfold step in chain _ _ _ e1 (chain _ _ _ e2 (chain _ _ _ e3 (_, refl))) in
    (done.0, done.1, step-Emulator c done.0 m done.1)

-- A `psycho_step` of a valid context has a result, which is valid, under three conditions: the
-- processor's accesses lie in the arrays; the instruction trace is off, or the word at the program
-- counter is aligned, in the arrays, and no `mfc0` or `mtc0` of a register without a name; and no
-- line is printed from a TTY buffer that lacks a NUL.
pub emulator_step-Returns :
    (c : Ctx)
    → Emulator c
    → StepInBounds c
    → Traceable c
    → ¬ Unterminated c
    → (d : Ctx) × (step c ≡ some d) × Emulator d
emulator_step-Returns c m s t u =
    let (e, q, n) = Total.step-Returns c m.machine s in step_around c e m q t u
