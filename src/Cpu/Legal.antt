-- ===== src/Cpu/Legal.antt =====
-- Which words core/cpu.c executes: the others come to one of its calls of `illegal`.
use psycho.Prelude.{ℕ, ◌==◌, if◌then◌else◌, Bool, true, false, none, some}
use psycho.CpuDefs.{instr_op, instr_rs, instr_funct}
use psycho.Cpu.Decode.{GroupOp, decode_op, decode_special}

-- Whether a word is an instruction of the processor.
abbrev pub is_group : GroupOp → ℕ → Bool
is_group GroupOp.group_special word = elim (decode_special (instr_funct word)) [
  | some i ↦ true
  | none ↦ false
]
is_group GroupOp.group_cop0 word =
    if instr_rs word == 0x00
    then true
    else if instr_rs word == 0x04
    then true
    else instr_funct word == 0x10
is_group _ word = true

unfoldable pub is_instruction : ℕ → Bool
is_instruction word = elim (decode_op (instr_op word)) [ some i ↦ is_group i word | none ↦ false ]
