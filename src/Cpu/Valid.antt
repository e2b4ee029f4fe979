-- ===== src/Cpu/Valid.antt =====
-- The invariant of `struct psycho_cpu`: every register is a 32-bit word, a load that is on its
-- way names one of the 32 registers, and `gpr[0]` is 0. The helpers of core/cpu.c keep it.
pub mod Special
pub mod Access
pub mod Step
pub mod Run
use psycho.Prelude.{ℕ, ◌+◌, ◌*◌, ◌%◌, ◌^◌, ◌<◌, ◌≡◌, arith, bit_and, bit_or, bit_xor, Bool, refl}
use psycho.Bits.{bit_and-le_left, bit_and-le_right, bit_or-lt}
use psycho.Word.{u32, not32}
use psycho.State.{Ctx, Cpu, LoadDelay}
use psycho.Memory.{update}
use psycho.Cpu.{illegal, branch_if, jmp, gpr_set_delayed, load_delay_process, raise_exception}
use psycho.Cpu.{
  dbg_data_bp_chk, get_phys_addr, gpr_set, reset, no_load, ExcCode, exc_code, sr_push, cause_of,
}
use psycho.CpuDefs.{calc_branch_addr}

abbrev pub IsWord : ℕ → Type 0
IsWord x = x < 2 ^ 32

pub record IsLoad (l : LoadDelay) : Type 0 where
  pub dst_lt : l.dst < 32
  pub val_word : IsWord l.val
  pub none_zero : l.dst ≡ 0 → l.val ≡ 0

-- All but `gpr[0]`, which an instruction may write until the step ends.
pub record IsWide (u : Cpu) : Type 0 where
  pub gpr_word : (r : ℕ) → IsWord (u.gpr r)
  pub cop0_word : (r : ℕ) → IsWord (u.cop0 r)
  pub hi_word : IsWord u.hi
  pub lo_word : IsWord u.lo
  pub curr_pc_word : IsWord u.curr_pc
  pub pc_word : IsWord u.pc
  pub next_pc_word : IsWord u.next_pc
  pub instr_word : IsWord u.instr
  pub next_load : IsLoad u.ld_next
  pub pend_load : IsLoad u.ld_pend

pub record IsValid (u : Cpu) : Type 0 where
  pub wide : IsWide u
  pub zero_zero : u.gpr 0 ≡ 0

-- One register of a file is given a word.
pub update-IsWord :
    (f : ℕ → ℕ) (i v : ℕ) → ((r : ℕ) → IsWord (f r)) → IsWord v → (r : ℕ) → IsWord (update f i v r)
update-IsWord f i v h k r = ground (arith, h r)

sr_push-IsWord : (sr : ℕ) → IsWord (sr_push sr)
sr_push-IsWord sr = bit_or-lt 32 _ _ (omega (arith, bit_and-le_right sr 0xFFFF_FFC0)) (omega arith)

cause_of-IsWord : (exc : ExcCode) (cause : ℕ) → IsWord (cause_of exc cause)
cause_of-IsWord exc cause =
    bit_or-lt 32 _ _ (omega (arith, bit_and-le_right cause (not32 0xFFFF_00FF))) (omega arith)

calc_branch_addr-IsWord : (instr pc : ℕ) → IsWord (calc_branch_addr instr pc)
unfolding calc_branch_addr
calc_branch_addr-IsWord instr pc = omega arith

module _ (c : Ctx) (w : IsWide c.cpu) where
  pub gpr_set-IsWide : (reg val : ℕ) → IsWord val → IsWide (gpr_set reg val c).cpu
  unfolding gpr_set
  gpr_set-IsWide reg val h = grind (arith, update-IsWord)

  pub gpr_set_delayed-IsWide :
      (dst val : ℕ) → dst < 32 → IsWord val → IsWide (gpr_set_delayed dst val c).cpu
  unfolding gpr_set_delayed
  gpr_set_delayed-IsWide dst val k h = grind arith

  pub jmp-IsWide : (val : ℕ) → IsWord val → IsWide (jmp val c).cpu
  unfolding jmp
  jmp-IsWide val h = grind arith

  pub branch_if-IsWide : (b : Bool) → IsWide (branch_if b c).cpu
  unfolding branch_if
  branch_if-IsWide b = grind (arith, calc_branch_addr-IsWord)

  pub load_delay_process-IsWide : IsWide (load_delay_process c).cpu
  unfolding load_delay_process
  load_delay_process-IsWide = grind (arith, update-IsWord)

  pub raise_exception-IsWide : (exc : ExcCode) → IsWide (raise_exception exc c).cpu
  unfolding raise_exception
  raise_exception-IsWide exc = record {
    gpr_word = w.gpr_word;
    cop0_word =
        update-IsWord _ _ _
          (update-IsWord _ _ _ (update-IsWord _ _ _ w.cop0_word w.curr_pc_word) (sr_push-IsWord _))
          (cause_of-IsWord exc _);
    hi_word = w.hi_word;
    lo_word = w.lo_word;
    curr_pc_word = w.curr_pc_word;
    pc_word = omega arith;
    next_pc_word = omega arith;
    instr_word = w.instr_word;
    next_load = w.next_load;
    pend_load = w.pend_load;
  }
