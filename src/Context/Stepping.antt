-- ===== src/Context/Stepping.antt =====
-- `psycho_step` of core/ctx.c, with its traces, against the processor's step alone.
use mathlib.Core.Path.{subst}
use psycho.Prelude.{
  ◌<◌, ◌≡◌, arith, refl, sym, ◌∙◌, Option, none, some, of_some, if◌then◌else◌, if_cases,
}
use psycho.State.{Ctx, BiosTrace as BiosTraceState}
use psycho.Bus.View.{IsSized}
use psycho.Bus.Bytes.{HoldsBytes}
use psycho.Disasm
use psycho.Disasm.Trace.{Observes, trace_begin-Observes}
use psycho.BiosTrace
use psycho.BiosTrace.{tty_output_size_max}
use psycho.BiosTrace.Safe.{TtyInBounds, Watches}
use psycho.BiosTrace.Safe
use psycho.Cpu.Step
use psycho.Cpu.Alike.{Alike, Keeps}
use psycho.Cpu.Alike.Access.{Agrees}
use psycho.Cpu.Alike.Step.{step-Agrees}
use psycho.Cpu.Valid.{IsValid}
use psycho.Cpu.Valid.Access.{bind-some}
use psycho.Cpu.Valid.Step.{Machine}
use psycho.Cpu.Valid.Run.{step-Machine}
use psycho.Context.{step}

-- The trace before a step: the same registers, memory and TTY buffer.
pub traced-Observes :
    (c d : Ctx)
    → (if c.disasm.trace_instruction then Disasm.trace_begin c else some c) ≡ some d
    → Observes c d
traced-Observes c d h = if_cases c.disasm.trace_instruction h (trace_begin-Observes c d) (λ e.
    subst (Observes c) (of_some e)
      (record { same_cpu = refl; same_bus = refl; same_bios_trace = refl }))

-- The traces after a step.
ended : Ctx → Ctx
ended c = BiosTrace.trace_end (if c.disasm.trace_instruction then Disasm.trace_end c else c)

ended-Alike : (c : Ctx) → Alike c (ended c)
unfolding ended BiosTrace.trace_end Disasm.trace_end
ended-Alike c = ground arith

ended-TtyInBounds : (c : Ctx) → TtyInBounds c → TtyInBounds (ended c)
unfolding ended BiosTrace.trace_end Disasm.trace_end
ended-TtyInBounds c h = ground arith

-- The parts of a step that has a result.
record Parts (c d : Ctx) : Type 0 where
  before : Ctx
  after : Ctx
  before_alike : Alike c before
  before_tty : TtyInBounds c → TtyInBounds before
  stepped : Step.step before ≡ some after
  finished : d ≡ ended after

step-Parts : (c d : Ctx) → step c ≡ some d → Parts c d
unfolding step ended
step-Parts c d h =
    let (c1, e1, h1) = bind-some _ _ h in
    let (c2, e2, h2) = bind-some _ _ h1 in
    let (c3, e3, h3) = bind-some _ _ h2 in
    let o = traced-Observes c c1 e1 in
    let w = Safe.trace_begin-Watches c1 c2 e2 in
    record {
      before = c2;
      after = c3;
      before_alike = record {
        same_cpu = w.same_cpu ∙ o.same_cpu;
        same_bus = w.same_bus ∙ o.same_bus;
      };
      before_tty = λ t.
          let t1 : TtyInBounds c1 =
            subst (λ (b : BiosTraceState). b.tty_stdout.len < tty_output_size_max)
              (sym o.same_bios_trace) t in
          Safe.trace_begin-TtyInBounds c1 c2 t1 e2;
      stepped = e3;
      finished = sym (of_some h3);
    }

agreed :
    (c : Ctx) (o : Option Ctx) (d' : Ctx)
    → Agrees c o (some d')
    → (d : Ctx) × (o ≡ some d) × Alike d d' × Keeps c d
agreed c none d' a = absurd a
agreed c (some d) d' (a, k) = (d, refl, a, k)

stepped_like :
    (c b a : Ctx)
    → Alike c b
    → Step.step b ≡ some a
    → (e : Ctx) × (Step.step c ≡ some e) × Alike e a × Keeps c e
stepped_like c b a h k = agreed c _ a (subst (λ o. Agrees c (Step.step c) o) k (step-Agrees c b h))

Alike-trans : {a b c : Ctx} → Alike a b → Alike b c → Alike a c
Alike-trans h k = record { same_cpu = k.same_cpu ∙ h.same_cpu; same_bus = k.same_bus ∙ h.same_bus }

-- A `psycho_step` that has a result does to the registers and the memory what `psycho_cpu_step`
-- alone does, whichever traces are on.
pub step-Alike : (c d : Ctx) → step c ≡ some d → (e : Ctx) × (Step.step c ≡ some e) × Alike e d
step-Alike c d h =
    let p = step-Parts c d h in
    let (e, q, a, k) = stepped_like c p.before p.after p.before_alike p.stepped in
    (e, q, subst (Alike e) (sym p.finished) (Alike-trans a (ended-Alike p.after)))

Machine-Alike : {c d : Ctx} → Machine c → Alike c d → Machine d
Machine-Alike m a = record {
  valid = subst IsValid (sym a.same_cpu) m.valid;
  bytes = subst HoldsBytes (sym a.same_bus) m.bytes;
  sized = subst IsSized (sym a.same_bus) m.sized;
}

-- The invariant of the whole context.
pub record Emulator (c : Ctx) : Type 0 where
  pub machine : Machine c
  pub tty : TtyInBounds c

step-TtyInBounds : (c d : Ctx) → TtyInBounds c → step c ≡ some d → TtyInBounds d
step-TtyInBounds c d t h =
    let p = step-Parts c d h in
    let (e, q, a, k) =
      stepped_like p.before p.before p.after (record { same_cpu = refl; same_bus = refl })
        p.stepped in
    let same : e ≡ p.after = of_some (sym q ∙ p.stepped) in
    let k' : Keeps p.before p.after = subst (Keeps p.before) same k in
    let t' : TtyInBounds p.after =
      subst (λ (b : BiosTraceState). b.tty_stdout.len < tty_output_size_max)
        (sym k'.kept_bios_trace) (p.before_tty t) in
    subst TtyInBounds (sym p.finished) (ended-TtyInBounds p.after t')

-- A `psycho_step` that has a result keeps the invariant of processor and memory, and the index into
-- the TTY buffer stays within the array.
pub step-Emulator : (c d : Ctx) → Emulator c → step c ≡ some d → Emulator d
step-Emulator c d m h =
    let (e, q, a) = step-Alike c d h in
    record {
      machine = Machine-Alike (step-Machine c e m.machine q) a;
      tty = step-TtyInBounds c d m.tty h;
    }
