-- ===== src/App/Progress.antt =====
-- The loop of `main` in app/main.c goes on while its accesses stay in their arrays.
use psycho.Prelude.{
  ℕ, zero, suc, ◌<◌, ◌⊎◌, inl, inr, Bool, Bool-cases, true, false, if◌then◌else◌, ◌≡◌, ◌==◌, arith,
  refl, ◌∙◌, some,
}
use mathlib.Core.Path.{subst}
use psycho.State.{Ctx, Buffer}
use psycho.App.{
  Round, trapped, next, set_traces, load_at_entry, then_step, round, exe_entry, answer, is_illegal,
}
use psycho.App.Loop.{Rounds, start, more, Rounds-Emulator, load_at_entry-Keeping}
use psycho.App.Answer.{answer-writable, writable-answer}
use psycho.App.Telling.{psycho_step-Calls, from_heard}
use psycho.App.Trap.{before_step, Rounds-answered}
use psycho.Memory.Laws.{IsBytes}
use psycho.Cpu.Total.{StepInBounds}
use psycho.Context.Stepping.{Emulator}
use psycho.Context.Total.{Traceable, Unterminated, emulator_step-Returns}
use psycho.Context.Loader.{Fits, exe_load-Loaded}

-- The accesses of a round stay in the arrays, and what it prints has an end: an executable that it
-- loads fits into RAM, and what the step then fetches, loads, stores, disassembles and prints lies
-- in its array.
pub record Ready (exe : Buffer) (c : Ctx) : Type 0 where
  pub fits : c.cpu.pc ≡ exe_entry → Fits exe c.bus.ram
  pub in_bounds : (d : Ctx) → load_at_entry exe c ≡ some (next d) → StepInBounds d
  pub traceable : (d : Ctx) → load_at_entry exe c ≡ some (next d) → Traceable d
  pub terminated : (d : Ctx) → load_at_entry exe c ≡ some (next d) → ¬ Unterminated d

load_at_entry-next :
    (exe : Buffer) (c : Ctx)
    → (c.cpu.pc ≡ exe_entry → Fits exe c.bus.ram)
    → (d : Ctx) × (load_at_entry exe c ≡ some (next d))
unfolding load_at_entry
load_at_entry-next exe c f = elim (Bool-cases (c.cpu.pc == exe_entry)) [
  | inl e ↦
      let (d, h, l) = exe_load-Loaded exe c (f (ground (arith, e))) in
      (set_traces d, rw (e, h) refl)
  | inr e ↦ (c, rw e refl)
]

-- A round whose accesses stay in the arrays has a result, with `tty_file` open.
round-Returns :
    (exe : Buffer) (c : Ctx)
    → IsBytes exe.byte
    → Emulator c
    → answer true c.events ≡ some false
    → Ready exe c
    → (r : Round) × (round true exe c ≡ some r)
unfolding round then_step
round-Returns exe c h m z ready =
    let (x, p) = load_at_entry-next exe c ready.fits in
    let m' = load_at_entry-Keeping exe c (next x) h m p in
    let (d, q, m'') =
      emulator_step-Returns x m' (ready.in_bounds x p) (ready.traceable x p)
        (ready.terminated x p) in
    let (word, at, told, lines) = psycho_step-Calls x d q in
    let before = (from_heard x.events c.events (before_step exe c x p)).1 in
    let answered = writable-answer d.events (lines ∙ before ∙ answer-writable c.events z) in
    (if is_illegal d.events then trapped else next d, rw (p, q, answered) refl)

-- The loop has made `n` rounds, or fewer with a trap in the next one.
abbrev pub Progress : Bool → Buffer → Ctx → ℕ → Type 0
Progress o exe c n =
    (k : ℕ) × (d : Ctx) × Rounds o exe c k d
    × ((k ≡ n) ⊎ ((k < n) × (round o exe d ≡ some trapped)))

one_more :
    (exe : Buffer) (c d : Ctx) (n : ℕ) (r : Round)
    → Rounds true exe c n d
    → round true exe d ≡ some r
    → Progress true exe c (suc n)
one_more exe c d n trapped rounds q = (n, d, rounds, inr (omega arith, q))
one_more exe c d n (next e) rounds q = (suc n, e, more rounds q, inl refl)

loop-Progress :
    (exe : Buffer) (c : Ctx) (n : ℕ)
    → IsBytes exe.byte
    → Emulator c
    → answer true c.events ≡ some false
    → ((k : ℕ) (x : Ctx) → k < n → Rounds true exe c k x → Ready exe x)
    → Progress true exe c n
loop-Progress exe c zero h m z ready = (zero, c, start, inl refl)
loop-Progress exe c (suc n) h m z ready =
    let (k, d, rounds, ends) = loop-Progress exe c n h m z (λ i y l. ready i y (omega arith)) in
    elim ends [
      | inr e ↦ (k, d, rounds, inr (omega (arith, e.0), e.1))
      | inl e ↦
          let (r, q) =
            round-Returns exe d h (Rounds-Emulator k h m rounds) (Rounds-answered k z rounds)
              (ready k d (omega (arith, e)) rounds) in
          subst (λ i. Progress true exe c (suc i)) e (one_more exe c d k r rounds q)
    ]

pub open-Progress :
    (o : Bool) (exe : Buffer) (c : Ctx) (n : ℕ)
    → o ≡ true
    → IsBytes exe.byte
    → Emulator c
    → answer o c.events ≡ some false
    → ((k : ℕ) (x : Ctx) → k < n → Rounds o exe c k x → Ready exe x)
    → Progress o exe c n
open-Progress true exe c n e h m z ready = loop-Progress exe c n h m z ready
open-Progress false exe c n e h m z ready = cc
