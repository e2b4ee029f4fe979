-- ===== src/App/Program.antt =====
-- The loop of `main` in app/main.c against the abstract machine of Cpu/Arch.antt.
use psycho.Prelude.{
  ℕ, zero, suc, ◌<◌, ◌≡◌, ◌≢◌, ◌==◌, arith, refl, sym, ap, ◌∙◌, false, true, some, of_some, ◌>>=◌,
}
use psycho.State.{Ctx, Buffer}
use psycho.CpuDefs.{vaddr_to_paddr}
use psycho.Bus.{load_word}
use psycho.Cpu.Valid.Access.{bind-some}
use psycho.Cpu.Valid.Step.{Machine}
use psycho.Cpu.Arch.{Arch, view}
use psycho.Cpu.Arch.Effects.{begin-begun}
use psycho.Cpu.Arch.Step.{fetch, word_effect, arch_step, arch_run, aligned_pc, fetched}
use psycho.Cpu.Arch.Legality.{effect-legal}
use psycho.Context
use psycho.Context.Stepping.{Emulator}
use psycho.Context.Total.{Unterminated}
use psycho.Context.Program.{emulator_step-arch_step}
use psycho.CpuDefs.{instr_op}
use psycho.Context.Tracing.{fetch-Readable}
use psycho.Disasm.Trace.{NullName}
use psycho.App.{answer, next, load_at_entry, then_step, round, exe_entry}
use psycho.App.Loop.{Rounds, start, more}
use psycho.App.Telling.{word_at, psycho_step-Calls}
use psycho.App.Answer.{answer-is_illegal, answer-writable, writable-answer}
use psycho.App.Trap.{Rounds-answered}

-- The word that the step fetches is the abstract machine's.
word_at-fetch :
    (c : Ctx) (word : ℕ) → Machine c → fetch (view c) ≡ some word → word_at c ≡ some word
unfolding word_at
word_at-fetch c word m f =
    ap (λ (b : Ctx). load_word (vaddr_to_paddr b.cpu.curr_pc) b >>= λ r. some r.0)
      (begin-begun c (aligned_pc c m word f))
    ∙ (rw (fetched c m word f) refl)

-- The callback does not trap at a step with an effect, and has a result for it.
step-answer :
    (c d : Ctx) (a : Arch)
    → Machine c
    → answer true c.events ≡ some false
    → Context.step c ≡ some d
    → arch_step (view c) ≡ some a
    → answer true d.events ≡ some false
unfolding arch_step
step-answer c d a m z h s =
    let (word, f, k) = bind-some (fetch (view c)) _ s in
    let (e, w, q) = bind-some (word_effect word (view c)) _ k in
    let (word', at, told, lines) = psycho_step-Calls c d h in
    let same : word' ≡ word = of_some (sym at ∙ word_at-fetch c word m f) in
    let silent = answer-is_illegal true c.events false z in
    writable-answer d.events (lines ∙ answer-writable c.events z)
    ∙ ap some (told ∙ (rw (same, effect-legal word (view c) e w) (sym silent)))

-- A context in which the loop only steps: the executable is not put in, the word that is fetched is
-- no `mfc0` or `mtc0` of a register without a name, and no line is printed from a TTY buffer that
-- lacks a NUL.
pub record OnlySteps (c : Ctx) : Type 0 where
  pub not_entry : c.cpu.pc ≢ exe_entry
  pub named : (word : ℕ) → fetch (view c) ≡ some word → ¬ ((instr_op word ≡ 0x10) × NullName word)
  pub terminated : ¬ Unterminated c

round-arch_step :
    (exe : Buffer) (c : Ctx) (a : Arch)
    → Emulator c
    → OnlySteps c
    → answer true c.events ≡ some false
    → arch_step (view c) ≡ some a
    → (d : Ctx) × (round true exe c ≡ some (next d)) × (view d ≡ a) × Emulator d
unfolding round load_at_entry then_step arch_step
round-arch_step exe c a m o z s =
    let (instr, f, k) = bind-some (fetch (view c)) _ s in
    let readable = fetch-Readable c instr m.machine.sized f (o.named instr f) in
    let (d, h, seen, m') = emulator_step-arch_step c a m (λ e. readable) o.terminated s in
    let told = step-answer c d a m.machine z h s in
    let elsewhere : (c.cpu.pc == exe_entry) ≡ false = ground (arith, o.not_entry) in
    (d, rw (elsewhere, h, told) refl, seen, m')

-- Where the abstract machine runs for `n` steps from what a program sees of a valid context, the loop
-- makes `n` rounds, without a trap, to a valid context of which a program sees what the abstract machine
-- has come to. This holds if `tty_file` is open, if the callback has had a result for the events of the
-- context and has not trapped, and if, in every context that fewer rounds lead to, the program counter
-- is not the one at which the executable is put in, the next word is no `mfc0` or `mtc0` of a register
-- without a name, and no line is printed from a TTY buffer that lacks a NUL.
pub Rounds-arch_run :
    (exe : Buffer) (c : Ctx) (n : ℕ) (a : Arch)
    → Emulator c
    → answer true c.events ≡ some false
    → ((k : ℕ) (x : Ctx) → k < n → Rounds true exe c k x → OnlySteps x)
    → arch_run n (view c) ≡ some a
    → (d : Ctx) × Rounds true exe c n d × (view d ≡ a) × Emulator d
unfolding arch_run
Rounds-arch_run exe c zero a m z o h = (c, start, of_some h, m)
Rounds-arch_run exe c (suc n) a m z o h =
    let (b, r, k) = bind-some (arch_run n (view c)) _ h in
    let (x, rounds, seen, m') = Rounds-arch_run exe c n b m z (λ i y l. o i y (omega arith)) r in
    let (d, once, seen', m'') =
      round-arch_step exe x a m' (o n x (omega arith) rounds) (Rounds-answered n z rounds)
        (ap arch_step seen ∙ k) in
    (d, more rounds once, seen', m'')
