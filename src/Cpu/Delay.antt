-- ===== src/Cpu/Delay.antt =====
-- The load delay of core/cpu.c: a loaded value reaches its register at the end of the
-- instruction after the load.
use psycho.Prelude.{ℕ, ◌≡◌, ◌≢◌, arith}
use psycho.State.{Ctx}
use psycho.Cpu.{gpr_set, gpr_set_delayed, load_delay_process}

-- A register other than 0 that a load targets keeps its value through the end of the load's own
-- step, also when an earlier load to it was on its way, which is dropped; it has the loaded value
-- after the end of the next step.
pub load_delay_process-gpr_set_delayed :
    (c : Ctx) (dst val : ℕ)
    → dst ≢ 0
    → let loaded = load_delay_process (gpr_set_delayed dst val c) in
      (loaded.cpu.gpr dst ≡ c.cpu.gpr dst) × ((load_delay_process loaded).cpu.gpr dst ≡ val)
unfolding gpr_set_delayed load_delay_process
load_delay_process-gpr_set_delayed c dst val h = ground arith

-- An instruction in the delay slot of a load that writes the register itself wins: after the
-- end of its step, and of the next, the register has what the instruction wrote.
pub gpr_set-gpr_set_delayed :
    (c : Ctx) (dst val own : ℕ)
    → dst ≢ 0
    → let after =
        load_delay_process (gpr_set dst own (load_delay_process (gpr_set_delayed dst val c))) in
      (after.cpu.gpr dst ≡ own) × ((load_delay_process after).cpu.gpr dst ≡ own)
unfolding gpr_set gpr_set_delayed load_delay_process
gpr_set-gpr_set_delayed c dst val own h = ground arith
