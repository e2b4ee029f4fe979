-- ===== src/Cpu/Arch/Step.antt =====
-- `psycho_cpu_step`, once and any number of times, against the abstract machine.
use mathlib.Core.Path.{subst}
use psycho.Prelude.{
  ℕ, zero, suc, ◌%◌, ◌^◌, ◌≡◌, ◌==◌, arith, refl, ap, ◌∙◌, if◌then◌else◌, bit_and, Bool-cases, inl,
  inr, Option, none, some, of_some, ◌>>=◌,
}
use psycho.Bits.{bit_and_mask}
use psycho.State.{Ctx}
use psycho.CpuDefs.{instr_op, vaddr_to_paddr}
use psycho.CpuDefs.Address.{vaddr_to_paddr_lem}
use psycho.Bus.{load_word}
use psycho.Bus.Bytes.{load_word-Loads}
use psycho.Bus.View.{value_at}
use psycho.Bus.Widths.{Width}
use psycho.Cpu.Decode.{GroupOp, decode_op}
use psycho.Cpu.Step.{exec, advance, dispatch, step}
use psycho.Cpu.{illegal}
use psycho.Cpu.Valid.{IsWide}
use psycho.Cpu.Valid.Access.{bind-some}
use psycho.Cpu.Valid.Step.{Machine}
use psycho.Cpu.Valid.Run.{begin-Machine, advance-Machine, step-Machine, Runs, start, next}
use psycho.Cpu.Arch.{Arch, view, Effect, apply}
use psycho.Cpu.Arch.Data.{group_effect}
use psycho.Cpu.Arch.Effects.{Effects, begun, ready, begin-begun, advance-begun}
use psycho.Cpu.Arch.Access.{load-some}
use psycho.Cpu.Arch.Groups.{group-Effects}

-- The instruction word, of which there is none at an address that is misaligned or not in memory.
abbrev pub fetch : Arch → Option ℕ
fetch a =
    if a.pc == 0xFFFE_0130
    then none
    else if a.pc % 4 == 0
    then value_at 4 a.mem (a.pc % 2 ^ 29)
    else none

abbrev pub word_effect : ℕ → Arch → Option Effect
word_effect instr a = elim (decode_op (instr_op instr)) [
  | some i ↦ group_effect i instr a
  | none ↦ none
]

-- One instruction of the abstract machine.
unfoldable pub arch_step : Arch → Option Arch
unfolding apply
arch_step a = do instr ← fetch a; e ← word_effect instr a; some (apply e a)

unfoldable pub arch_run : ℕ → Arch → Option Arch
arch_run zero a = some a
arch_run (suc n) a = do b ← arch_run n a; arch_step b

-- Inversion of a fetch.
pub fetch-some :
    (a : Arch) (instr : ℕ)
    → fetch a ≡ some instr
    → (bit_and a.pc 3 ≡ 0)
      × (vaddr_to_paddr a.pc ≡ a.pc % 2 ^ 29)
      × (value_at 4 a.mem (a.pc % 2 ^ 29) ≡ some instr)
fetch-some a instr h = elim (Bool-cases (a.pc == 0xFFFE_0130)) [
  | inl e ↦ absurd (let n : none ≡ some instr = rw e at h in cc)
  | inr e ↦ elim (Bool-cases (a.pc % 4 == 0)) [
    | inl m ↦ (
      ground (arith, bit_and_mask 2 a.pc),
      vaddr_to_paddr_lem a.pc (ground arith),
      rw (e, m) at h,
    )
    | inr m ↦ absurd (let n : none ≡ some instr = rw (e, m) at h in cc)
  ]
]

-- A step behind `begin`.
abbrev fetch_and_dispatch : Ctx → Option Ctx
fetch_and_dispatch b = do
  (instr, d) ← load_word (vaddr_to_paddr b.cpu.curr_pc) b
  dispatch (advance instr d)

module _ (c : Ctx) (m : Machine c) (instr : ℕ) (f : fetch (view c) ≡ some instr) where
  pub aligned_pc : bit_and c.cpu.pc 3 ≡ 0
  aligned_pc = (fetch-some (view c) instr f).0

  before : Machine (begun c)
  before = subst Machine (begin-begun c aligned_pc) (begin-Machine c m)

  -- Register 0 is 0 for the next instruction.
  zero_reg : (view c).reg 0 ≡ 0
  zero_reg = before.valid.zero_zero

  pub fetched : load_word (vaddr_to_paddr c.cpu.pc) (begun c) ≡ some (instr, begun c)
  fetched =
      let (a, p, v) = fetch-some (view c) instr f in
      ap (λ x. load_word x (begun c)) p
      ∙ load-some (begun c) Width.word (c.cpu.pc % 2 ^ 29) instr before.sized refl v

  ready-IsWide : IsWide (ready instr c).cpu
  ready-IsWide =
      let l = load_word-Loads (begun c) before.bytes _ instr (begun c) fetched in
      subst (λ (x : Ctx). IsWide x.cpu) (advance-begun c instr)
        (advance-Machine (begun c) (begun c) instr before l).valid.wide

  step-dispatch : step c ≡ dispatch (ready instr c)
  unfolding step
  step-dispatch =
      ap fetch_and_dispatch (begin-begun c aligned_pc)
      ∙ (rw fetched (ap dispatch (advance-begun c instr)))

  dispatch-Effects :
      (e : Effect) → word_effect instr (view c) ≡ some e → Effects c e (dispatch (ready instr c))
  unfolding dispatch
  dispatch-Effects e h = go (decode_op (instr_op instr)) h
    where
      go :
          (o : Option GroupOp)
          → (elim o as (λ x. Option Effect) [
            | some i ↦ group_effect i instr (view c)
            | none ↦ none
          ])
            ≡ some e
          → Effects c e (elim o as (λ x. Option Ctx) [
            | some i ↦ exec i (ready instr c)
            | none ↦ some (illegal (ready instr c))
          ])
      go none k = cc
      go (some i) k = group-Effects c instr ready-IsWide zero_reg i e m.sized m.bytes k

-- Where the abstract machine has a step, so has the code, from a valid machine into a valid one, and
-- what a program sees of it is the abstract machine's step.
pub step-arch_step :
    (c : Ctx) (a : Arch)
    → Machine c
    → arch_step (view c) ≡ some a
    → (d : Ctx) × (step c ≡ some d) × (view d ≡ a) × Machine d
unfolding arch_step
step-arch_step c a m h =
    let (instr, f, k) = bind-some (fetch (view c)) _ h in
    let (e, w, q) = bind-some (word_effect instr (view c)) _ k in
    let (d, done, seen) = dispatch-Effects c m instr f e w in
    let stepped : step c ≡ some d = step-dispatch c m instr f ∙ done in
    (d, stepped, seen ∙ of_some q, step-Machine c d m stepped)

-- Where the abstract machine runs for `n` steps from what a program sees of a valid machine, the code
-- runs for `n` steps too, into a valid machine of which a program sees what the abstract one is in.
pub Runs-arch_run :
    (n : ℕ) (c : Ctx) (a : Arch)
    → Machine c
    → arch_run n (view c) ≡ some a
    → (d : Ctx) × Runs c n d × (view d ≡ a) × Machine d
unfolding arch_run
Runs-arch_run zero c a m h = (c, start, of_some h, m)
Runs-arch_run (suc n) c a m h =
    let (b, r, k) = bind-some (arch_run n (view c)) _ h in
    let (d, runs, seen, valid) = Runs-arch_run n c b m r in
    let (d', stepped, seen', valid') = step-arch_step d a valid (ap arch_step seen ∙ k) in
    (d', next runs stepped, seen', valid')
