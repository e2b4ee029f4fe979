-- ===== src/Cpu/Arch.antt =====
-- The instruction set that core/cpu.c implements, as an abstract machine: what a program sees of
-- `struct psycho_cpu` and of the memory, and what each instruction does to it. Illegal
-- instructions have no effect here, and neither has what the architecture forbids in a delay slot.
pub mod System
pub mod Data
pub mod Instr
pub mod Effects
pub mod Plain
pub mod Branching
pub mod Access
pub mod Memory
pub mod Unaligned
pub mod Groups
pub mod Step
pub mod Legality
use psycho.Prelude.{
  ℕ, ◌+◌, ◌-◌, ◌*◌, ◌/◌, ◌%◌, ◌^◌, ltb, leb, ◌==◌, if◌then◌else◌, Bool, true, false,
}
use psycho.Prelude.{Option, some}
use psycho.Word.{u32}
use psycho.Memory.{update}
use psycho.State.{Ctx, LoadDelay, cop0_sr, cop0_cause, cop0_epc}
use psycho.Bus.View.{byte_at}
use psycho.Cpu.{no_load, ExcCode, exc_code}

-- `reg` is what the next instruction reads, `flight` a load that it does not see yet, `slot` whether
-- it stands in a delay slot, and `pc` and `npc` the addresses of it and of the one behind it.
pub record Arch : Type 0 where
  pub reg : ℕ → ℕ
  pub flight : LoadDelay
  pub pc : ℕ
  pub npc : ℕ
  pub slot : Bool
  pub hi : ℕ
  pub lo : ℕ
  pub cop0 : ℕ → ℕ
  pub mem : ℕ → Option ℕ

-- What a program sees of the context between two steps.
abbrev pub view : Ctx → Arch
view c = record {
  reg = update c.cpu.gpr c.cpu.ld_next.dst c.cpu.ld_next.val;
  flight = c.cpu.ld_pend;
  pc = c.cpu.pc;
  npc = c.cpu.next_pc;
  slot = c.cpu.next_in_branch_delay_slot;
  hi = c.cpu.hi;
  lo = c.cpu.lo;
  cop0 = c.cpu.cop0;
  mem = byte_at c.bus;
}

pub data Effect : Type 0 where
  writes loads jumps_and_links sets_hi_lo sets_cop0 : ℕ → ℕ → Effect
  idles : Effect
  jumps : ℕ → Effect
  traps : ExcCode → Effect
  stores : ℕ → ℕ → ℕ → Effect

-- The load that was on its way arrives, and the next instruction is up.
abbrev pub proceed : Arch → Arch
proceed a = record a {
  reg = update a.reg a.flight.dst a.flight.val;
  flight = no_load;
  pc = a.npc;
  npc = u32 (a.npc + 4);
  slot = false;
}

-- Register 0 stays 0.
abbrev pub put : ℕ → ℕ → Arch → Arch
put r v a = record a { reg = λ (x : ℕ). if x == 0 then 0 else update a.reg r v x }

-- The `n` low bytes of `v`, the lowest first, over the memory from `p` on.
abbrev pub put_bytes : ℕ → ℕ → ℕ → (ℕ → Option ℕ) → ℕ → Option ℕ
put_bytes n p v mem q =
    if leb p q then (if ltb q (p + n) then some (v / 256 ^ (q - p) % 256) else mem q) else mem q

-- SR with its three pairs of flags pushed and popped, and Cause with the code of an exception.
abbrev pub pushed : ℕ → ℕ
pushed sr = sr / 64 * 64 + sr % 16 * 4

abbrev pub popped : ℕ → ℕ
popped sr = sr / 16 * 16 + sr / 4 % 16

abbrev pub with_code : ExcCode → ℕ → ℕ
with_code exc cause = cause / 256 % 256 * 256 + exc_code exc * 4

-- The exception registers once the instruction at `pc` has raised an exception.
abbrev pub trapped : ExcCode → ℕ → (ℕ → ℕ) → ℕ → ℕ
trapped exc pc cop0 =
    update (update (update cop0 cop0_epc pc) cop0_sr (pushed (cop0 cop0_sr))) cop0_cause
      (with_code exc (cop0 cop0_cause))

-- The register that a load names keeps its value for the next instruction, and an older load to it
-- is lost.
abbrev pub put_off : ℕ → ℕ → Arch → Arch
put_off r v a = record (proceed a) {
  reg = update (proceed a).reg r (a.reg r);
  flight = record { dst = r; val = v };
}

unfoldable pub apply : Effect → Arch → Arch
apply idles a = proceed a
apply (writes r v) a = put r v (proceed a)
apply (loads r v) a = if r == 0 then proceed a else put_off r v a
apply (jumps target) a = record (proceed a) { npc = target; slot = true }
apply (jumps_and_links r target) a = record (put r (u32 (a.pc + 8)) (proceed a)) {
  npc = target;
  slot = true;
}
apply (sets_hi_lo hi lo) a = record (proceed a) { hi = hi; lo = lo }
apply (sets_cop0 r v) a = record (proceed a) { cop0 = update a.cop0 r v }
apply (traps exc) a = record (proceed a) { cop0 = trapped exc a.pc a.cop0; pc = 0x80; npc = 0x84 }
apply (stores n p v) a = record (proceed a) { mem = put_bytes n p v a.mem }
