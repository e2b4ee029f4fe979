-- ===== src/App/Bios.antt =====
-- The BIOS in the loop of `main` in app/main.c.
use psycho.Prelude.{ℕ, Bool, ◌≡◌, ◌==◌, arith, refl, ap, ◌∙◌, if_cases, if_both, some, of_some}
use mathlib.Core.Path.{subst}
use psycho.Text.{Text}
use psycho.State.{Ctx, Buffer, ReturnCode}
use psycho.Log.{log_level_set_global}
use psycho.Cpu
use psycho.Cpu.Bios.{SameBios, step-SameBios}
use psycho.Cpu.Valid.Access.{bind-some}
use psycho.Disasm
use psycho.Context
use psycho.Context.{exe_load, exe_load_image, enter_image}
use psycho.Context.Stepping.{step-Alike}
use psycho.App.{
  Round, trapped, next, set_traces, load_at_entry, then_step, round, exe_entry, is_zero, answer,
  code_value,
}
use psycho.App.Loop.{Rounds, start, more}
use psycho.App.Progress.{Progress}

psycho_step-SameBios : (c d : Ctx) → Context.step c ≡ some d → SameBios c d
psycho_step-SameBios c d h =
    let (e, q, a) = step-Alike c d h in ap (λ b. b.bios) a.same_bus ∙ step-SameBios c e q

exe_load-SameBios :
    (exe : Buffer) (c d : Ctx) (code : ReturnCode) → exe_load exe c ≡ some (code, d) → SameBios c d
unfolding exe_load exe_load_image enter_image
exe_load-SameBios exe c d code h = ground arith

set_traces-SameBios : (c : Ctx) → SameBios c (set_traces c)
unfolding set_traces Disasm.trace_instruction_enable log_level_set_global
set_traces-SameBios c = refl

-- A round that goes on does so with the BIOS that it had.
abbrev WithBios : Buffer → Round → Type 0
WithBios b trapped = Unit {0}
WithBios b (next d) = d.bus.bios ≡ b

load_at_entry-WithBios :
    (exe b : Buffer) (c : Ctx) (r : Round)
    → c.bus.bios ≡ b
    → load_at_entry exe c ≡ some r
    → WithBios b r
unfolding load_at_entry
load_at_entry-WithBios exe b c r h e =
    if_cases (c.cpu.pc == exe_entry) e
      (λ entry.
        let ((code, d), q, k) = bind-some (exe_load exe c) _ entry in
        subst (WithBios b) (of_some k) (
          if_both (WithBios b) (is_zero (code_value code)) tt
            (set_traces-SameBios d ∙ exe_load-SameBios exe c d code q ∙ h)))
      (λ other. subst (WithBios b) (of_some other) h)

then_step-WithBios :
    (o : Bool) (b : Buffer) (r s : Round) → WithBios b r → then_step o r ≡ some s → WithBios b s
unfolding then_step
then_step-WithBios o b trapped s h e = subst (WithBios b) (of_some e) tt
then_step-WithBios o b (next c) s h e =
    let (d, q, k) = bind-some (Context.step c) _ e in
    let (t, p, l) = bind-some (answer o d.events) _ k in
    subst (WithBios b) (of_some l) (if_both (WithBios b) t tt (psycho_step-SameBios c d q ∙ h))

-- After any number of rounds with a defined result, the BIOS is the one the loop began with.
pub Rounds-SameBios :
    {o : Bool} {exe : Buffer} {c d : Ctx} (n : ℕ) → Rounds o exe c n d → SameBios c d
unfolding round
Rounds-SameBios n start = refl
Rounds-SameBios {o} {exe} {c} n (more {d = x} {e} r q) =
    let (s, p, k) = bind-some (load_at_entry exe x) _ q in
    then_step-WithBios o c.bus.bios s (next e)
      (load_at_entry-WithBios exe c.bus.bios x s (Rounds-SameBios _ r) p) k
