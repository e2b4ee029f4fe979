-- ===== src/Cpu.antt =====
-- The helpers of core/cpu.c, from `illegal` to `psycho_cpu_reset`.
pub mod Decode
pub mod Special
pub mod Access
pub mod Step
pub mod Valid
pub mod Total
pub mod Muldiv
pub mod Division
pub mod Alike
pub mod Signed
pub mod Overflow
pub mod Exceptions
pub mod Delay
pub mod Branches
pub mod Unaligned
pub mod Alu
pub mod Legal
pub mod Arch
pub mod Bios
use psycho.Prelude.{
  ℕ, ◌+◌, ◌*◌, bit_and, bit_or, bit_xor, leb, ◌==◌, if◌then◌else◌, Bool, true, false,
}
use psycho.Prelude.{[], ◌∷◌}
use psycho.Text.{Text, text, num, str}
use psycho.Word.{u32, add32, shl, shr, not32}
use psycho.State.{Ctx, Cpu, LoadDelay, Event, cpu_illegal, Severity, ModuleId}
use psycho.State.{cop0_bda, cop0_dcic, cop0_bdam, cop0_sr, cop0_cause, cop0_epc, reset_pc}
use psycho.Log.{log_handle, event_cb}
use psycho.Memory.{update}
use psycho.CpuDefs.{cpu_dcic_de, cpu_dcic_dae}
use psycho.CpuDefs.{instr_off, instr_rs, get_vaddr, calc_branch_addr, vaddr_to_paddr}

abbrev pub no_load : LoadDelay
no_load = record { dst = 0; val = 0 }

unfoldable pub illegal : Ctx → Ctx
illegal c = event_cb cpu_illegal (
    log_handle ModuleId.cpu Severity.error (text "Illegal instruction trapped: 0x%08X")
      (num c.cpu.instr ∷ []) c)

-- The warning, if the instruction stands in a delay slot.
abbrev warn_delay_slot : Text → Ctx → Ctx
warn_delay_slot message c =
    let warned = log_handle ModuleId.cpu Severity.warn message [] c in
    record c { events = if c.cpu.in_branch_delay_slot then warned.events else c.events }

unfoldable pub branch_if : Bool → Ctx → Ctx
branch_if cond_met c0 =
    let c = warn_delay_slot (text "Conditional branch in a branch delay slot detected") c0 in
    let adjust : ℕ = if c.cpu.in_branch_delay_slot then 4 * 3 else 0 in
    let target = calc_branch_addr c.cpu.instr (add32 c.cpu.curr_pc adjust) in
    record c {
      cpu = record (c.cpu) {
        next_in_branch_delay_slot = true;
        next_pc = if cond_met then target else c.cpu.next_pc;
      };
    }

unfoldable pub jmp : ℕ → Ctx → Ctx
jmp val c0 =
    let c = warn_delay_slot (text "Unconditional branch in a branch delay slot detected") c0 in
    record c { cpu = record (c.cpu) { next_in_branch_delay_slot = true; next_pc = val } }

unfoldable pub gpr_set_delayed : ℕ → ℕ → Ctx → Ctx
gpr_set_delayed dst val c =
    if dst == 0
    then log_handle ModuleId.cpu Severity.warn (text "Load delay rejected - destination was $zero")
        [] c
    else record c {
      cpu = record (c.cpu) {
        ld_pend = record { dst = dst; val = val };
        ld_next = if c.cpu.ld_next.dst == dst then no_load else c.cpu.ld_next;
      };
    }

-- `ld_next` takes effect, and is cleared and then swapped with `ld_pend`.
unfoldable pub load_delay_process : Ctx → Ctx
load_delay_process c = record c {
  cpu = record (c.cpu) {
    gpr = update c.cpu.gpr c.cpu.ld_next.dst c.cpu.ld_next.val;
    ld_next = c.cpu.ld_pend;
    ld_pend = no_load;
  };
}

-- `enum cpu_exc_code`.
pub data ExcCode : Type 0 where
  adel ades sys bp ov : ExcCode

abbrev pub exc_code : ExcCode → ℕ
exc_code ExcCode.adel = 4
exc_code ExcCode.ades = 5
exc_code ExcCode.sys = 8
exc_code ExcCode.bp = 9
exc_code ExcCode.ov = 12

unfoldable pub exc_name : ExcCode → Text
unfolding text
exc_name ExcCode.adel = text "Address error on load"
exc_name ExcCode.ades = text "Address error on store"
exc_name ExcCode.sys = text "System call"
exc_name ExcCode.bp = text "Breakpoint"
exc_name ExcCode.ov = text "Arithmetic overflow"

-- SR and Cause as an exception leaves them.
abbrev pub sr_push : ℕ → ℕ
sr_push sr = bit_or (bit_and sr 0xFFFF_FFC0) (shl (bit_and sr 0xF) 2)

abbrev pub cause_of : ExcCode → ℕ → ℕ
cause_of exc cause = bit_or (bit_and cause (not32 0xFFFF_00FF)) (shl (exc_code exc) 2)

unfoldable pub raise_exception : ExcCode → Ctx → Ctx
raise_exception exc c0 =
    let c =
      log_handle ModuleId.cpu Severity.warn (text "%s exception raised") (str (exc_name exc) ∷ [])
        c0 in
    let with_epc = update c.cpu.cop0 cop0_epc c.cpu.curr_pc in
    let with_sr = update with_epc cop0_sr (sr_push (with_epc cop0_sr)) in
    let with_cause = update with_sr cop0_cause (cause_of exc (with_sr cop0_cause)) in
    record c { cpu = record (c.cpu) { cop0 = with_cause; pc = 0x80; next_pc = 0x84 } }

unfoldable pub dbg_data_bp_chk : ℕ → Ctx → Ctx
unfolding raise_exception
dbg_data_bp_chk vaddr c =
    let hit = raise_exception ExcCode.bp c in
    let bda = c.cpu.cop0 cop0_bda in
    let bdam = c.cpu.cop0 cop0_bdam in
    if bit_and (c.cpu.cop0 cop0_dcic) (bit_or cpu_dcic_de cpu_dcic_dae) == 0
    then c
    else if bit_and (bit_xor vaddr bda) bdam == 0
    then record hit { cpu = record (hit.cpu) { pc = 0x8000_0040; next_pc = 0x8000_0044 } }
    else c

-- The virtual address of a load or store, and what the bus is given for it.
unfoldable pub access_vaddr : Ctx → ℕ
access_vaddr c = get_vaddr (instr_off c.cpu.instr) (c.cpu.gpr (instr_rs c.cpu.instr))

unfoldable pub access_paddr : ℕ → ℕ
access_paddr vaddr =
    vaddr_to_paddr (if leb vaddr 0x00FF_FFFF then bit_and vaddr 0x000F_FFFF else vaddr)

unfoldable pub get_phys_addr : Ctx → ℕ × Ctx
unfolding access_vaddr access_paddr dbg_data_bp_chk
get_phys_addr c = (access_paddr (access_vaddr c), dbg_data_bp_chk (access_vaddr c) c)

unfoldable pub gpr_set : ℕ → ℕ → Ctx → Ctx
gpr_set reg val c = record c {
  cpu = record (c.cpu) {
    ld_next = if c.cpu.ld_next.dst == reg then no_load else c.cpu.ld_next;
    gpr = update c.cpu.gpr reg val;
  };
}

unfoldable pub reset : Ctx → Ctx
reset c = record c {
  cpu = record (c.cpu) {
    pc = reset_pc;
    next_pc = add32 reset_pc 4;
    curr_pc = reset_pc;
    in_branch_delay_slot = false;
    next_in_branch_delay_slot = false;
    ld_next = no_load;
    ld_pend = no_load;
  };
}
