-- ===== src/App/Trap.antt =====
-- When the loop of `main` in app/main.c ends: by the callback's trap, at an illegal instruction.
use mathlib.Core.Path.{subst}
use psycho.Prelude.{
  ℕ, ◌≡◌, ◌==◌, ◌↔◌, arith, refl, sym, ap, ◌∙◌, of_some, if_cases, ltb, if◌then◌else◌, Bool, true,
  false, Option, some, List, [],
}
use psycho.State.{Ctx, Event, Buffer, ReturnCode}
use psycho.Log.{handled, log_level_set_global}
use psycho.Cpu.Valid.Access.{bind-some}
use psycho.Disasm
use psycho.Context
use psycho.Context.{exe_load, exe_load_image, enter_image}
use psycho.App.{
  is_illegal, Round, trapped, next, set_traces, load_at_entry, then_step, answer, round, exe_entry,
  is_zero, code_value,
}
use psycho.Cpu.Legal.{is_instruction}
use psycho.App.Telling.{word_at, from_heard, psycho_step-Calls}
use psycho.App.Answer.{heard, answer-is_illegal}
use psycho.App.Loop.{Rounds, start, more}

image-Quiet :
    (exe : Buffer) (c d : Ctx) → exe_load_image exe c ≡ some d → heard d.events ≡ heard c.events
unfolding exe_load_image enter_image handled
image-Quiet exe c d h = ground arith

exe_load-Quiet :
    (exe : Buffer) (c d : Ctx) (code : ReturnCode)
    → exe_load exe c ≡ some (code, d)
    → heard d.events ≡ heard c.events
unfolding exe_load
exe_load-Quiet exe c d code h =
    if_cases (ltb exe.size Context.exe_min_size) h (same c d code _) (λ k.
      if_cases (Context.starts_with Context.exe_id exe.byte 0) k
        (λ l.
          let (x, e, q) = bind-some (exe_load_image exe c) _ l in
          same x d code _ q ∙ image-Quiet exe c x e)
        (same c d code _))
  where
    same :
        (x y : Ctx) (u v : ReturnCode)
        → ◌≡◌ {A = Option (ReturnCode × Ctx)} (some (v, x)) (some (u, y))
        → heard y.events ≡ heard x.events
    same x y u v e = ap (λ (r : ReturnCode × Ctx). heard r.1.events) (sym (of_some e))

-- Whatever is loaded, the host is told of nothing but messages before the step.
pub before_step :
    (exe : Buffer) (c d : Ctx)
    → load_at_entry exe c ≡ some (next d)
    → heard d.events ≡ heard c.events
unfolding load_at_entry set_traces Disasm.trace_instruction_enable log_level_set_global
before_step exe c d h =
    if_cases (c.cpu.pc == exe_entry) h
      (λ k. let ((code, x), e, q) = bind-some (exe_load exe c) _ k in go code x e q)
      (λ k. ap told (sym (of_some k)))
  where
    told : Round → List Event
    told trapped = []
    told (next x) = heard x.events

    go :
        (code : ReturnCode) (x : Ctx)
        → exe_load exe c ≡ some (code, x)
        → some (if is_zero (code_value code) then trapped else next (set_traces x)) ≡ some (next d)
        → heard d.events ≡ heard c.events
    go ReturnCode.ok x e q = ap told (sym (of_some q)) ∙ exe_load-Quiet exe c x ReturnCode.ok e
    go ReturnCode.exe_size_bad x e q =
        ap told (sym (of_some q)) ∙ exe_load-Quiet exe c x ReturnCode.exe_size_bad e
    go ReturnCode.exe_id_bad x e q =
        ap told (sym (of_some q)) ∙ exe_load-Quiet exe c x ReturnCode.exe_id_bad e

-- What a step tells by its word decides on the trap.
decides :
    (r : Round) (d : Ctx) (legal told : Bool)
    → told ≡ (if legal then false else true)
    → (if told then trapped else next d) ≡ r
    → (r ≡ trapped) ↔ (legal ≡ false)
decides r d true told t h = let e : next d ≡ r = rw t at h in ((λ p. cc), (λ q. cc))
decides r d false told t h = let e : trapped ≡ r = rw t at h in ((λ p. refl), (λ q. sym e))

stepped :
    (o : Bool) (c : Ctx) (r : Round)
    → is_illegal c.events ≡ false
    → then_step o (next c) ≡ some r
    → (word : ℕ) × (word_at c ≡ some word) × ((r ≡ trapped) ↔ (is_instruction word ≡ false))
unfolding then_step
stepped o c r z h =
    let (d, e, k) = bind-some (Context.step c) _ h in
    let (has_trapped, a, l) = bind-some (answer o d.events) _ k in
    let (word, f, t, lines) = psycho_step-Calls c d e in
    (
      word,
      f,
      decides r d (is_instruction word) has_trapped
          (answer-is_illegal o d.events has_trapped a
            ∙ t
            ∙ ap (λ x. if is_instruction word then x else true) z)
          (of_some l),
    )

-- In a state that a round leads to, the callback has not trapped.
untrapped :
    (o : Bool) (d e : Ctx) (t : Bool)
    → answer o d.events ≡ some t
    → (if t then trapped else next d) ≡ next e
    → answer o e.events ≡ some false
untrapped o d e true a h = cc
untrapped o d e false a h = subst (λ (x : Ctx). answer o x.events ≡ some false) (ap went h) a
  where
    went : Round → Ctx
    went trapped = d
    went (next x) = x

answered :
    (o : Bool) (r : Round) (e : Ctx)
    → then_step o r ≡ some (next e)
    → answer o e.events ≡ some false
unfolding then_step
answered o trapped e h = cc
answered o (next c) e h =
    let (d, q, k) = bind-some (Context.step c) _ h in
    let (t, a, l) = bind-some (answer o d.events) _ k in untrapped o d e t a (of_some l)

pub Rounds-answered :
    {o : Bool} {exe : Buffer} {c d : Ctx} (n : ℕ)
    → answer o c.events ≡ some false
    → Rounds o exe c n d
    → answer o d.events ≡ some false
unfolding round
Rounds-answered n z start = z
Rounds-answered {o} {exe} n z (more {d = x} {e} r q) =
    let (s, p, k) = bind-some (load_at_entry exe x) _ q in answered o s e k

Rounds-silent :
    {o : Bool} {exe : Buffer} {c d : Ctx} (n : ℕ)
    → is_illegal c.events ≡ false
    → Rounds o exe c n d
    → is_illegal d.events ≡ false
unfolding round
Rounds-silent n z start = z
Rounds-silent {o} {exe} n z (more {d = x} {e} r q) =
    let (s, p, k) = bind-some (load_at_entry exe x) _ q in
    sym (answer-is_illegal o e.events false (answered o s e k))

-- The loop, entered when nothing illegal was told, and with the TTY's file open or not, ends after a
-- number of rounds exactly at a word that is no instruction of the processor: a round that has a result
-- traps if the word that its step fetches is none, and goes on if it is one. The word is the one behind
-- the load of an executable, if the round makes one.
pub round-trapped_iff :
    (o : Bool) (exe : Buffer) (c d e : Ctx) (n : ℕ) (r : Round)
    → is_illegal c.events ≡ false
    → Rounds o exe c n d
    → load_at_entry exe d ≡ some (next e)
    → round o exe d ≡ some r
    → (word : ℕ) × (word_at e ≡ some word) × ((r ≡ trapped) ↔ (is_instruction word ≡ false))
unfolding round
round-trapped_iff o exe c d e n r z rounds loaded h =
    let (s, p, k) = bind-some (load_at_entry exe d) _ h in
    let same : s ≡ next e = of_some (sym p ∙ loaded) in
    stepped o e r
      ((from_heard e.events d.events (before_step exe d e loaded)).0 ∙ Rounds-silent n z rounds)
      (subst (λ x. then_step o x ≡ some r) same k)
