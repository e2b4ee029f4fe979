-- ===== src/App/Telling.antt =====
-- Whether a `psycho_step` of core/ctx.c tells the host of an illegal instruction.
use mathlib.Core.Path.{subst}
use psycho.Prelude.{
  ℕ, ◌≡◌, ◌∷◌, arith, sym, ap, ◌∙◌, of_some, if_cases, if◌then◌else◌, true, false, Bool, List,
  Option, some, ◌>>=◌,
}
use psycho.State.{Ctx, Event, cpu_illegal}
use psycho.Memory.{read}
use psycho.Log.{handled}
use psycho.Bus
use psycho.CpuDefs.{vaddr_to_paddr}
use psycho.Cpu.{load_delay_process, raise_exception}
use psycho.Cpu.Step
use psycho.Cpu.Step.{begin, enter_slot, check_pc, set_curr_pc, advance, dispatch}
use psycho.Cpu.Alike.{Alike, dress, dress-Alike}
use psycho.Cpu.Valid.Access.{bind-some}
use psycho.Disasm
use psycho.Disasm.Fits.{instr-Fits}
use psycho.Disasm.{clear_result, set_pc}
use psycho.BiosTrace
use psycho.BiosTrace.Safe
use psycho.Context.Stepping.{traced-Observes}
use psycho.Context
use psycho.Context.{exe_load, exe_load_image, enter_image}
use psycho.App.{is_illegal}
use psycho.App.Answer.{heard, is_illegal-heard, writable, writable-heard}
use psycho.App.Illegal.{Tells, dispatch-Tells, begin-Quiet}
use psycho.Cpu.Legal.{is_instruction}

-- The word that the next step fetches.
unfoldable pub word_at : Ctx → Option ℕ
word_at c = Bus.load_word (vaddr_to_paddr (begin c).cpu.curr_pc) (begin c) >>= λ r. some r.0

word_at-dress : (x c : Ctx) → word_at (dress x c) ≡ word_at c
unfolding word_at Bus.load_word read begin enter_slot check_pc set_curr_pc load_delay_process
    raise_exception
word_at-dress x c = ground arith

word_at-Alike : (c c' : Ctx) → Alike c c' → word_at c' ≡ word_at c
word_at-Alike c c' a = ap word_at (dress-Alike c c' a) ∙ word_at-dress c' c

load_word-Quiet :
    (p : ℕ) (c b : Ctx) (word : ℕ)
    → Bus.load_word p c ≡ some (word, b)
    → heard b.events ≡ heard c.events
unfolding Bus.load_word read handled
load_word-Quiet p c b word h = ground arith

continued :
    (c d b : Ctx) (word : ℕ)
    → heard b.events ≡ heard c.events
    → dispatch (advance word b) ≡ some d
    → heard d.events
      ≡ (if is_instruction word then heard c.events else cpu_illegal ∷ heard c.events)
unfolding advance
continued c d b word q k =
    subst (Tells (is_instruction word) (advance word b)) k (dispatch-Tells (advance word b))
    ∙ ap (λ x. if is_instruction word then x else cpu_illegal ∷ x) q

fetched_as :
    (c : Ctx) (r : ℕ × Ctx)
    → Bus.load_word (vaddr_to_paddr (begin c).cpu.curr_pc) (begin c) ≡ some r
    → word_at c ≡ some r.0
unfolding word_at
fetched_as c r e = rw e

-- A step of the processor fetches a word, and tells of it exactly if it is no instruction.
abbrev pub StepTells : Ctx → Ctx → Type 0
StepTells c d =
    (word : ℕ) × (word_at c ≡ some word)
    × (heard d.events
        ≡ (if is_instruction word then heard c.events else cpu_illegal ∷ heard c.events))

step-Tells : (c d : Ctx) → Step.step c ≡ some d → StepTells c d
unfolding Step.step
step-Tells c d h =
    let (r, e, k) = bind-some _ _ h in
    (r.0, fetched_as c r e, continued c d r.1 r.0 (load_word-Quiet _ _ _ _ e ∙ begin-Quiet c) k)

told_as : {A : Type 0} (f : List Event → A) (c d : Ctx) → some c ≡ some d → f d.events ≡ f c.events
told_as f c d h = ap (λ (x : Ctx). f x.events) (sym (of_some h))

-- The two traces tell nothing of the kind.
peek_word-Quiet :
    (p : ℕ) (c b : Ctx) (word : ℕ)
    → Bus.peek_word p c ≡ some (word, b)
    → heard b.events ≡ heard c.events
unfolding Bus.peek_word
peek_word-Quiet p c b word h = load_word-Quiet p c b word h

disasm_begin-Quiet : (c d : Ctx) → Disasm.trace_begin c ≡ some d → heard d.events ≡ heard c.events
unfolding Disasm.trace_begin clear_result set_pc
disasm_begin-Quiet c d h =
    let (r, e, k) = bind-some _ _ h in
    ap (λ (x : Ctx). heard x.events) (instr-Fits r.0 _ r.1 d k).rest_eq
    ∙ peek_word-Quiet _ _ r.1 r.0 e

tty-Silent :
    (c d : Ctx) → BiosTrace.handle_tty_output c ≡ some d → is_illegal d.events ≡ is_illegal c.events
unfolding BiosTrace.handle_tty_output BiosTrace.flush handled
tty-Silent c d h = ground arith

-- The line that is told was read up to its NUL before.
tty-writable :
    (c d : Ctx) → BiosTrace.handle_tty_output c ≡ some d → writable d.events ≡ writable c.events
unfolding BiosTrace.handle_tty_output BiosTrace.flush handled
tty-writable c d h = ground arith

-- What printing a character keeps of the events, the BIOS trace keeps.
bios_begin-keeps :
    (f : List Event → Bool)
    → ((c d : Ctx) → BiosTrace.handle_tty_output c ≡ some d → f d.events ≡ f c.events)
    → (c d : Ctx) → BiosTrace.trace_begin c ≡ some d
    → f d.events ≡ f c.events
unfolding BiosTrace.trace_begin BiosTrace.process_prototype
bios_begin-keeps f tty_keeps c d h =
    let called = BiosTrace.set_curr_func (some BiosTrace.putchar_func) c in
    if_cases (BiosTrace.calls_putchar c) h
      (λ k.
        let (x, e, q) = bind-some _ _ k in
        told_as f _ d q
        ∙ if_cases c.bios_trace.enable_tty_output e (tty_keeps called x) (told_as f called x))
      (told_as f c d)

ended-Quiet :
    (c : Ctx)
    → heard
        (BiosTrace.trace_end (if c.disasm.trace_instruction then Disasm.trace_end c else c)).events
      ≡ heard c.events
unfolding BiosTrace.trace_end Disasm.trace_end handled
ended-Quiet c = ground arith

-- The instruction trace, if it is on.
traced-Quiet :
    (c d : Ctx)
    → (if c.disasm.trace_instruction then Disasm.trace_begin c else some c) ≡ some d
    → heard d.events ≡ heard c.events
traced-Quiet c d h =
    if_cases c.disasm.trace_instruction h (disasm_begin-Quiet c d) (told_as heard c d)

module _ (es fs : List Event) where
  told_illegal :
      (legal : Bool)
      → heard es ≡ (if legal then heard fs else cpu_illegal ∷ heard fs)
      → is_illegal es ≡ (if legal then is_illegal fs else true)
  told_illegal true h = sym (is_illegal-heard es) ∙ ap is_illegal h ∙ is_illegal-heard fs
  told_illegal false h = sym (is_illegal-heard es) ∙ ap is_illegal h

  told_writable :
      (legal : Bool)
      → heard es ≡ (if legal then heard fs else cpu_illegal ∷ heard fs)
      → writable es ≡ writable fs
  told_writable true h = sym (writable-heard es) ∙ ap writable h ∙ writable-heard fs
  told_writable false h = sym (writable-heard es) ∙ ap writable h ∙ writable-heard fs

  pub from_heard :
      heard es ≡ heard fs → (is_illegal es ≡ is_illegal fs) × (writable es ≡ writable fs)
  from_heard h = (told_illegal true h, told_writable true h)

-- A `psycho_step` fetches a word, and tells of it exactly if it is no instruction; the lines that it
-- prints end within their array.
abbrev pub StepCalls : Ctx → Ctx → Type 0
StepCalls c d =
    (word : ℕ) × (word_at c ≡ some word)
    × (is_illegal d.events ≡ (if is_instruction word then is_illegal c.events else true))
    × (writable d.events ≡ writable c.events)

-- `psycho_step` tells of the word that its processor's step fetches.
pub psycho_step-Calls : (c d : Ctx) → Context.step c ≡ some d → StepCalls c d
unfolding Context.step
psycho_step-Calls c d h =
    let (c1, e1, h1) = bind-some _ _ h in
    let (c2, e2, h2) = bind-some _ _ h1 in
    let (c3, e3, h3) = bind-some _ _ h2 in
    let o = traced-Observes c c1 e1 in
    let w = Safe.trace_begin-Watches c1 c2 e2 in
    let a : Alike c c2 = record {
      same_cpu = w.same_cpu ∙ o.same_cpu;
      same_bus = w.same_bus ∙ o.same_bus;
    } in
    let (silent, lines) = from_heard c1.events c.events (traced-Quiet c c1 e1) in
    let (word, f, t) = step-Tells c2 c3 e3 in
    let t' = told_as heard _ d h3 ∙ ended-Quiet c3 ∙ t in
    let quiet = bios_begin-keeps is_illegal tty-Silent c1 c2 e2 ∙ silent in
    (
      word,
      sym (word_at-Alike c c2 a) ∙ f,
      told_illegal d.events c2.events (is_instruction word) t'
          ∙ ap (λ x. if is_instruction word then x else true) quiet,
      told_writable d.events c2.events (is_instruction word) t'
          ∙ bios_begin-keeps writable tty-writable c1 c2 e2
          ∙ lines,
    )
