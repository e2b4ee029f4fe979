-- ===== src/Tests/Stepping.antt =====
-- One `psycho_step` of the small machine, with the traces off.
use psycho.Prelude.{◌≡◌, some, arith}
use psycho.State.{Ctx}
use psycho.Context.Stepping.{Emulator, step-Alike}
use psycho.Context.Total.{Traceable, Unterminated, emulator_step-Returns}
use psycho.Tests.Processor.{step_InBounds}
use psycho.Cpu.Alike.{Alike}
use psycho.Context
use psycho.Cpu.Step
use psycho.Tests.{machine, machine-Machine}

machine-Emulator : Emulator machine
machine-Emulator = record { machine = machine-Machine; tty = omega arith }

untraced : Traceable machine
untraced e = cc

terminated : ¬ Unterminated machine
terminated u = cc

emulator_step-Returns_example : (d : Ctx) × (Context.step machine ≡ some d) × Emulator d
emulator_step-Returns_example =
    emulator_step-Returns machine machine-Emulator step_InBounds untraced terminated

-- The step, by `emulator_step-Returns`.
abbrev done : (d : Ctx) × (Context.step machine ≡ some d) × Emulator d
done = emulator_step-Returns machine machine-Emulator step_InBounds untraced terminated

step-Alike_example : (e : Ctx) × (Step.step machine ≡ some e) × Alike e done.0
step-Alike_example = step-Alike machine done.0 done.1
