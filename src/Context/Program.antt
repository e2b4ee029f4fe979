-- ===== src/Context/Program.antt =====
-- `psycho_step` of core/ctx.c against the abstract machine of Cpu/Arch.antt.
use psycho.Prelude.{◌≡◌, sym, ap, ◌∙◌, some, of_some}
use psycho.State.{Ctx, Bus as BusState, Cpu as CpuState}
use psycho.Cpu.Alike.{Alike}
use psycho.Cpu.Arch.{Arch, view}
use psycho.Cpu.Arch.Step.{arch_step, step-arch_step}
use psycho.Context.{step}
use psycho.Context.Stepping.{Emulator, step-Alike}
use psycho.Context.Total.{Traceable, Unterminated, step_around}

-- A program sees no difference between contexts with the same processor and memory.
view-Alike : {c d : Ctx} → Alike c d → view d ≡ view c
view-Alike {c} {d} a =
    ap (λ (k : CpuState). view (record d { cpu = k })) a.same_cpu
    ∙ ap (λ (b : BusState). view (record d { cpu = c.cpu; bus = b })) a.same_bus

-- Where the abstract machine has a step from what a program sees of a valid context, `psycho_step` has
-- a result, whichever traces are on, if the instruction trace can print the word at the program counter
-- and no line is printed from a TTY buffer that lacks a NUL. The result is valid, and a program sees in
-- it what the abstract machine's step leaves.
pub emulator_step-arch_step :
    (c : Ctx) (a : Arch)
    → Emulator c
    → Traceable c
    → ¬ Unterminated c
    → arch_step (view c) ≡ some a
    → (d : Ctx) × (step c ≡ some d) × (view d ≡ a) × Emulator d
emulator_step-arch_step c a m t u h =
    let (e, q, seen, valid) = step-arch_step c a m.machine h in
    let (d, done, emulator) = step_around c e m q t u in
    let (e', q', alike) = step-Alike c d done in
    let same : e' ≡ e = of_some (sym q' ∙ q) in
    (d, done, view-Alike alike ∙ ap (λ (x : Ctx). view x) same ∙ seen, emulator)
