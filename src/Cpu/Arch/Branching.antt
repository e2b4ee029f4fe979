-- ===== src/Cpu/Arch/Branching.antt =====
-- The jumps and the conditional branches of core/cpu.c, outside a delay slot, against their effects.
use psycho.Prelude.{
  ℕ, ◌/◌, ◌^◌, ◌<◌, ◌≤◌, ◌≡◌, ◌⊎◌, ◌==◌, arith, refl, ap, ◌∙◌, if◌then◌else◌, bit_and, Bool, true,
  false, not, Bool-cases, inl, inr, none, some,
}
use psycho.Bits.{bit_and_field}
use psycho.Word.{add32, is_neg, slt}
use psycho.State.{Ctx, gpr_ra}
use psycho.CpuDefs.{instr_rs, instr_rt, instr_imm, calc_branch_addr}
use psycho.CpuDefs.Fields.{instr_rt_lem}
use psycho.CpuDefs.Address.{branch_target, calc_branch_addr_iff, calc_jmp_addr_lem}
use psycho.Cpu.{branch_if, jmp, gpr_set}
use psycho.Cpu.Decode.{GroupOp}
use psycho.Cpu.Special.{clear_zero}
use psycho.Cpu.Step.{exec, bcond, jal, link_ra}
use psycho.Cpu.Valid.{IsWide}
use psycho.Cpu.Branches.{conditions, zero-slt}
use psycho.Cpu.Arch.{Arch, view, Effect, jumps, jumps_and_links}
use psycho.Cpu.Arch.Instr.{
  is_near, outside_slot, branch_npc, branch_effect, bcond_effect, plain_effect, jump_target,
}
use psycho.Cpu.Arch.Effects.{Effects, ready, jumps-Effects, jumps_and_links-Effects}
use psycho.Cpu.Arch.Plain.{follow, outside}

near : (word : ℕ) → is_near word ≡ true → (instr_imm word < 0x2000) ⊎ (0xE000 ≤ instr_imm word)
near word h = ground arith

near_target :
    (word pc : ℕ)
    → pc < 2 ^ 32
    → is_near word ≡ true
    → calc_branch_addr word (add32 pc 0) ≡ branch_target word pc
near_target word pc h n =
    let e : add32 pc 0 ≡ pc = omega arith in
    ap (calc_branch_addr word) e ∙ (calc_branch_addr_iff word pc h).1 (near word n)

-- Outside a delay slot a branch is a jump, to its target or to the next in order.
branch_if-jmp :
    (d : Ctx) (t : Bool) (target : ℕ)
    → d.cpu.in_branch_delay_slot ≡ false
    → calc_branch_addr d.cpu.instr (add32 d.cpu.curr_pc 0) ≡ target
    → branch_if t d ≡ jmp (if t then target else d.cpu.next_pc) d
unfolding branch_if jmp
branch_if-jmp d t target s e = rw (s, e) refl

links : (r : ℕ) → r < 32 → (bit_and r 0x1E == 0x10) ≡ (r / 2 == 8)
links r h = ground (arith, bit_and_field 1 4 r)

pub not_positive : (x : ℕ) → x < 2 ^ 32 → not (slt 0 x) ≡ (if x == 0 then true else is_neg x)
not_positive x h = ap not (zero-slt x h) ∙ ground arith

near_and_outside :
    (word : ℕ) (a : Arch) {e e' : Effect}
    → (if is_near word then outside_slot a e else none) ≡ some e'
    → (is_near word ≡ true) × (a.slot ≡ false) × (e ≡ e')
near_and_outside word a {e} {e'} h = elim (Bool-cases (is_near word)) [
  | inl n ↦ let (s, q) = outside a (rw n at h) in (n, s, q)
  | inr n ↦ absurd cc
]

module _ (c : Ctx) (word : ℕ) (w : IsWide (ready word c).cpu) (z : (view c).reg 0 ≡ 0) where
  -- The link register is written before the branch, which reads its operands before that.
  links_and_branches :
      (link t t' : Bool) (e : Effect)
      → t' ≡ t
      → is_near word ≡ true
      → (view c).slot ≡ false
      → (if link
          then jumps_and_links gpr_ra (branch_npc t word (view c))
          else jumps (branch_npc t word (view c)))
        ≡ e
      → Effects c e
          (some (clear_zero (branch_if t' (if link then link_ra (ready word c) else ready word c))))
  unfolding gpr_set
  links_and_branches false t t' e p n s h =
      follow c h
        (ap (λ d. some (clear_zero d))
          (branch_if-jmp (ready word c) t' _ s (near_target word c.cpu.pc w.curr_pc_word n)
            ∙ ap (λ (k : Bool). jmp (branch_npc k word (view c)) (ready word c)) p))
        (jumps-Effects c word w.next_load z (branch_npc t word (view c)))
  links_and_branches true t t' e p n s h =
      follow c h
        (ap (λ d. some (clear_zero d))
          (branch_if-jmp (link_ra (ready word c)) t' (branch_target word c.cpu.pc) s
              (near_target word c.cpu.pc w.curr_pc_word n)
            ∙ ap (λ (k : Bool). jmp (branch_npc k word (view c)) (link_ra (ready word c))) p))
        (jumps_and_links-Effects c word w.next_load z gpr_ra (branch_npc t word (view c)))

  pub branch-Effects :
      (t t' : Bool) (e : Effect)
      → t' ≡ t
      → branch_effect t word (view c) ≡ some e
      → Effects c e (some (clear_zero (branch_if t' (ready word c))))
  branch-Effects t t' e p h =
      let (n, s, q) = near_and_outside word (view c) h in links_and_branches false t t' e p n s q

  pub bcond-Effects :
      (e : Effect)
      → bcond_effect word (view c) ≡ some e
      → Effects c e (some (clear_zero (bcond (ready word c))))
  unfolding bcond
  bcond-Effects e h =
      let (n, s, q) = near_and_outside word (view c) h in
      let link = links (instr_rt word) (omega (arith, instr_rt_lem word)) in
      rw link (
        links_and_branches (instr_rt word / 2 == 8) _ _ e
          (conditions _ (instr_rt word) (w.gpr_word (instr_rs word))) n s q)

  pub j-Effects :
      (e : Effect)
      → plain_effect GroupOp.j word (view c) ≡ some e
      → Effects c e (exec GroupOp.j (ready word c))
  unfolding exec
  j-Effects e h =
      follow c (outside (view c) h).1
        (ap (λ t. some (clear_zero (jmp t (ready word c))))
          (calc_jmp_addr_lem word c.cpu.pc w.curr_pc_word))
        (jumps-Effects c word w.next_load z (jump_target word c.cpu.pc))

  pub jal-Effects :
      (e : Effect)
      → plain_effect GroupOp.jal word (view c) ≡ some e
      → Effects c e (exec GroupOp.jal (ready word c))
  unfolding exec jal
  jal-Effects e h =
      follow c (outside (view c) h).1
        (ap (λ t. some (clear_zero (jmp t (link_ra (ready word c)))))
          (calc_jmp_addr_lem word c.cpu.pc w.curr_pc_word))
        (jumps_and_links-Effects c word w.next_load z gpr_ra (jump_target word c.cpu.pc))
