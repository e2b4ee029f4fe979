-- ===== src/Cpu/Arch/Data.antt =====
-- What the loads and stores of core/cpu.c do, over the memory map of Bus/View.antt.
use psycho.Prelude.{
  ℕ, ◌+◌, ◌-◌, ◌*◌, ◌/◌, ◌%◌, ◌^◌, ◌==◌, bit_and, in_range, if◌then◌else◌, Option, none, some,
  ◌>>=◌,
}
use psycho.Word.{add32, sign_ext_8_32, sign_ext_16_32}
use psycho.State.{cop0_dcic, cop0_sr}
use psycho.CpuDefs.{instr_rs, instr_rt, instr_imm}
use psycho.Bus.View.{value_at}
use psycho.Bus.Stores.{is_writable}
use psycho.Bus.Widths.{Width, bytes, low, unmapped}
use psycho.Cpu.Decode.{GroupOp}
use psycho.Cpu.Arch.{Arch, Effect, idles, loads, stores, traps, proceed}
use psycho.Cpu.Arch.Instr.{outside_slot, plain_effect}
use psycho.Cpu.{ExcCode}

-- The addresses that the code treats apart have no effect here: the cache control register, and the
-- 15 megabytes that it takes for mirrors of the first.
abbrev pub physical : ℕ → Option ℕ
physical v =
    if v == 0xFFFE_0130
    then none
    else if in_range 0x0010_0000 0x00FF_FFFF v
    then none
    else some (v % 2 ^ 29)

-- Where an access is, with the breakpoint on data addresses disabled.
abbrev pub data_address : ℕ → Arch → Option ℕ
data_address instr a =
    if bit_and (a.cop0 cop0_dcic) 0x0280_0000 == 0
    then physical (add32 (sign_ext_16_32 (instr_imm instr)) (a.reg (instr_rs instr)))
    else none

-- What an access does at its address, if that is a multiple of its width.
abbrev pub at_multiple : Width → ExcCode → ℕ → Arch → Option Effect → Option Effect
at_multiple w exc p a effect = if p % bytes w == 0 then effect else outside_slot a (traps exc)

abbrev pub value_loaded : Width → ℕ → Arch → Option ℕ
value_loaded w p a = if unmapped w p then none else value_at (bytes w) a.mem p

abbrev pub load_effect : Width → (ℕ → ℕ) → ℕ → ℕ → Arch → Option Effect
load_effect w extend instr p a = do v ← value_loaded w p a; some (loads (instr_rt instr) (extend v))

abbrev pub when_writable : ℕ → Effect → Option Effect
when_writable p e = if is_writable p then some e else none

-- A store changes memory that is there and writable.
abbrev pub store_effect : Width → ℕ → ℕ → Arch → Option Effect
store_effect w instr p a = do
  old ← value_at (bytes w) a.mem p
  when_writable p (stores (bytes w) p (low w (a.reg (instr_rt instr))))

abbrev pub data_load : Width → (ℕ → ℕ) → ℕ → Arch → Option Effect
data_load w extend instr a = do
  p ← data_address instr a
  at_multiple w ExcCode.adel p a (load_effect w extend instr p a)

abbrev pub data_store : Width → ℕ → Arch → Option Effect
data_store w instr a = do
  p ← data_address instr a
  at_multiple w ExcCode.ades p a (store_effect w instr p a)

-- What the unaligned instructions make of a register `r` and the aligned word `w` that the address
-- lies in, `s` bytes behind its start.
abbrev pub left_loaded : ℕ → ℕ → ℕ → ℕ
left_loaded s r w = w % 2 ^ (s * 8 + 8) * 2 ^ (24 - s * 8) + r % 2 ^ (24 - s * 8)

abbrev pub right_loaded : ℕ → ℕ → ℕ → ℕ
right_loaded s r w = r / 2 ^ (32 - s * 8) * 2 ^ (32 - s * 8) + w / 2 ^ (s * 8)

abbrev pub left_stored : ℕ → ℕ → ℕ → ℕ
left_stored s r w = w / 2 ^ (s * 8 + 8) * 2 ^ (s * 8 + 8) + r / 2 ^ (24 - s * 8)

abbrev pub right_stored : ℕ → ℕ → ℕ → ℕ
right_stored s r w = r % 2 ^ (32 - s * 8) * 2 ^ (s * 8) + w % 2 ^ (s * 8)

-- An unaligned load merges with the value of a load that is on its way.
abbrev pub unaligned_load : (ℕ → ℕ → ℕ → ℕ) → ℕ → Arch → Option Effect
unaligned_load merge instr a = do
  p ← data_address instr a
  w ← value_at 4 a.mem (p - p % 4)
  some (loads (instr_rt instr) (merge (p % 4) ((proceed a).reg (instr_rt instr)) w))

abbrev pub unaligned_store : (ℕ → ℕ → ℕ → ℕ) → ℕ → Arch → Option Effect
unaligned_store merge instr a = do
  p ← data_address instr a
  w ← value_at 4 a.mem (p - p % 4)
  when_writable (p - p % 4) (stores 4 (p - p % 4) (merge (p % 4) (a.reg (instr_rt instr)) w))

-- `sw` does nothing while the cache is isolated.
abbrev pub group_effect : GroupOp → ℕ → Arch → Option Effect
group_effect GroupOp.lb instr a = data_load Width.byte sign_ext_8_32 instr a
group_effect GroupOp.lh instr a = data_load Width.halfword sign_ext_16_32 instr a
group_effect GroupOp.lw instr a = data_load Width.word (λ v. v) instr a
group_effect GroupOp.lbu instr a = data_load Width.byte (λ v. v) instr a
group_effect GroupOp.lhu instr a = data_load Width.halfword (λ v. v) instr a
group_effect GroupOp.sb instr a = data_store Width.byte instr a
group_effect GroupOp.sh instr a = data_store Width.halfword instr a
group_effect GroupOp.sw instr a =
    if bit_and (a.cop0 cop0_sr) 0x1_0000 == 0 then data_store Width.word instr a else some idles
group_effect GroupOp.lwl instr a = unaligned_load left_loaded instr a
group_effect GroupOp.lwr instr a = unaligned_load right_loaded instr a
group_effect GroupOp.swl instr a = unaligned_store left_stored instr a
group_effect GroupOp.swr instr a = unaligned_store right_stored instr a
group_effect i instr a = plain_effect i instr a
