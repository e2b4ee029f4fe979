-- ===== src/Cpu/Branches.antt =====
-- The conditional branches of core/cpu.c, and the instruction in the delay slot behind them.
use mathlib.Core.Path.{subst}
use psycho.Prelude.{
  le-or_lt, ℕ, ◌+◌, ◌-◌, ◌*◌, ◌%◌, ◌^◌, ◌<◌, ◌≡◌, ◌==◌, bit_and, bit_xor, if◌then◌else◌, not, arith,
  refl, ap, ◌∙◌,
}
use psycho.Prelude.{Bool, true, false, Option, none, some, of_some, Bool-cases, inl, inr}
use psycho.Bits.{bit_xor_top, bit_xor-zero}
use psycho.Word.{add32, shl, slt, s32, is_neg}
use psycho.State.{Ctx}
use psycho.CpuDefs.{instr_rs, calc_branch_addr}
use psycho.Cpu.{branch_if, gpr_set, load_delay_process}
use psycho.Cpu.Decode.{GroupOp}
use psycho.Cpu.Special.{gpr_rs, gpr_rt, rt, clear_zero}
use psycho.Cpu.Step.{bcond, exec, link_ra, begin, enter_slot, check_pc, set_curr_pc, advance}
use psycho.Cpu.Valid.{IsWide}

-- Whether an instruction branches, by the signed values of its operands; none if it is no
-- conditional branch. The lowest bit of `rt` tells `bgez` and `bgezal` from `bltz` and `bltzal`.
abbrev pub taken : GroupOp → Ctx → Option Bool
taken GroupOp.group_bcond c =
    some (if rt c % 2 == 0 then is_neg (gpr_rs c) else not (is_neg (gpr_rs c)))
taken GroupOp.beq c = some (gpr_rs c == gpr_rt c)
taken GroupOp.bne c = some (not (gpr_rs c == gpr_rt c))
taken GroupOp.blez c = some (if gpr_rs c == 0 then true else is_neg (gpr_rs c))
taken GroupOp.bgtz c = some (if gpr_rs c == 0 then false else not (is_neg (gpr_rs c)))
taken _ c = none

pub slt-zero : (x : ℕ) → x < 2 ^ 32 → slt x 0 ≡ is_neg x
unfolding slt s32
slt-zero x h = ground arith

pub zero-slt : (x : ℕ) → x < 2 ^ 32 → slt 0 x ≡ (if x == 0 then false else not (is_neg x))
unfolding slt s32
zero-slt x h = ground arith

flipped_from :
    (x q r : ℕ) → x ≡ q * 2 ^ 31 + r → r < 2 ^ 31 → bit_xor x 0x8000_0000 ≡ bit_xor q 1 * 2 ^ 31 + r
flipped_from x q r e h = ap (λ y. bit_xor y 0x8000_0000) e ∙ bit_xor_top 31 q r h

flipped : (x : ℕ) → x < 2 ^ 32 → bit_xor x 0x8000_0000 ≡ (x + 0x8000_0000) % 2 ^ 32
flipped x h = elim (le-or_lt 0x8000_0000 x) [
  | inl l ↦ flipped_from x 1 (x - 0x8000_0000) (omega arith) (omega arith) ∙ omega arith
  | inr l ↦ flipped_from x 0 x (omega arith) l ∙ omega arith
]

shl-odd : (r : ℕ) → shl r 31 ≡ r % 2 * 0x8000_0000
shl-odd r = omega arith

pub conditions :
    (x r : ℕ)
    → x < 2 ^ 32
    → slt (bit_xor x (shl r 31)) 0 ≡ (if r % 2 == 0 then is_neg x else not (is_neg x))
conditions x r h = elim (Bool-cases (r % 2 == 0)) [
  | inl e ↦ let z : shl r 31 ≡ 0 = ground (arith, e) in rw (e, z, bit_xor-zero x) (slt-zero x h)
  | inr e ↦
      let z : shl r 31 ≡ 0x8000_0000 = ground (arith, e) in
      rw (e, z, flipped x h) (slt-zero _ (omega arith) ∙ ground arith)
]

module _ (c : Ctx) (w : IsWide c.cpu) (h : c.cpu.in_branch_delay_slot ≡ false) where
  -- What a conditional branch leaves: `pc` as it was, and the target behind it if it is taken.
  abbrev Branched : Bool → Ctx → Type 0
  Branched t d =
      (d.cpu.pc ≡ c.cpu.pc)
      × (d.cpu.next_pc ≡ (if t then calc_branch_addr c.cpu.instr c.cpu.curr_pc else c.cpu.next_pc))
      × (d.cpu.next_in_branch_delay_slot ≡ true)

  base : add32 c.cpu.curr_pc 0 ≡ c.cpu.curr_pc
  base = omega (arith, w.curr_pc_word)

  branched : (link t : Bool) → Branched t (clear_zero (branch_if t (if link then link_ra c else c)))
  unfolding clear_zero branch_if gpr_set
  branched true t = rw h (refl, rw base refl, refl)
  branched false t = rw h (refl, rw base refl, refl)

  -- What the instruction leaves, if its condition in the code is the one of `taken`.
  by_condition :
      (link t t' : Bool)
      → t' ≡ t
      → (d : Ctx) × (some (clear_zero (branch_if t' (if link then link_ra c else c))) ≡ some d)
        × Branched t d
  by_condition link t t' e =
      let d = clear_zero (branch_if t' (if link then link_ra c else c)) in
      (d, refl, subst (λ b. Branched b d) e (branched link t'))

  rs_word : gpr_rs c < 2 ^ 32
  rs_word = w.gpr_word (instr_rs c.cpu.instr)

  branches :
      (i : GroupOp) (t : Bool) → taken i c ≡ some t → (d : Ctx) × (exec i c ≡ some d) × Branched t d
  unfolding exec bcond
  branches GroupOp.group_bcond t e =
      by_condition (bit_and (rt c) 0x1E == 0x10) t _
        (conditions (gpr_rs c) (rt c) rs_word ∙ of_some e)
  branches GroupOp.beq t e = by_condition false t _ (of_some e)
  branches GroupOp.bne t e = by_condition false t _ (of_some e)
  branches GroupOp.blez t e =
      by_condition false t _ (ap not (zero-slt (gpr_rs c) rs_word) ∙ ground arith ∙ of_some e)
  branches GroupOp.bgtz t e = by_condition false t _ (zero-slt (gpr_rs c) rs_word ∙ of_some e)
  branches _ t e = cc

-- The step behind a branch: it fetches at the branch's `pc`, and goes on at its `next_pc`.
abbrev pub InSlot : Ctx → Ctx → Type 0
InSlot d e =
    (e.cpu.curr_pc ≡ d.cpu.pc)
    × (e.cpu.in_branch_delay_slot ≡ d.cpu.next_in_branch_delay_slot)
    × (e.cpu.pc ≡ d.cpu.next_pc)
    × (e.cpu.next_pc ≡ add32 d.cpu.next_pc 4)

in_slot : (d : Ctx) (word : ℕ) → bit_and d.cpu.pc 3 ≡ 0 → InSlot d (advance word (begin d))
unfolding advance begin enter_slot check_pc set_curr_pc load_delay_process
in_slot d word h = rw h (refl, refl, refl, refl)

-- In a well-formed CPU, outside a delay slot and with an aligned program counter, a conditional
-- branch has a result whatever its condition. The next step is at the instruction behind it, marked as
-- one in a delay slot, and with the program counter behind that at `calc_branch_addr` if the signed
-- values of the operands satisfy the condition of the architecture, and at the next in order if not.
pub exec_branch_lem :
    (c : Ctx) (i : GroupOp) (t : Bool) (word : ℕ)
    → IsWide c.cpu
    → c.cpu.in_branch_delay_slot ≡ false
    → bit_and c.cpu.pc 3 ≡ 0
    → taken i c ≡ some t
    → (d : Ctx) × (exec i c ≡ some d)
      × (let slot = advance word (begin d) in
          (slot.cpu.curr_pc ≡ c.cpu.pc)
          × (slot.cpu.in_branch_delay_slot ≡ true)
          × (slot.cpu.pc
              ≡ (if t then calc_branch_addr c.cpu.instr c.cpu.curr_pc else c.cpu.next_pc)))
exec_branch_lem c i t word w h a e =
    let (d, q, (p, n, b)) = branches c w h i t e in
    let (curr, slot, pc, next) = in_slot d word (ap (λ x. bit_and x 3) p ∙ a) in
    (d, q, (curr ∙ p, slot ∙ b, pc ∙ n))
