-- ===== src/Tests/Printer.antt =====
-- Instructions printed by the disassembler.
use psycho.Prelude.{ℕ, ◌≡◌, ◌↔◌, if◌then◌else◌, true, none, some, arith, refl}
use psycho.Text.{text}
use psycho.State.{Ctx}
use psycho.CpuDefs.{instr_op, instr_funct}
use psycho.Cpu.Decode.{GroupOp, GroupSpecial, decode_op, decode_special}
use psycho.Disasm.{instr, disasm_group, disasm_special, set_illegal}
use psycho.Disasm.Illegal.{begins, unlisted, instr-begins}
use psycho.Cpu.Legal.{is_instruction}
use psycho.Disasm.Shapes.{line, special_mnemonic, special_operands}
use psycho.Disasm.Lines.{group_mnemonic, group_operands, instr-line, instr-special_line}
use psycho.Disasm.Fits.{Fits, instr-Fits}
use psycho.Disasm.Trace.{NullName, instr-eq-none_iff}
use psycho.Tests.{machine}

-- `lw $1, 0($0)` and `add $2, $1, $2`.
abbrev lw_word : ℕ
lw_word = 0x8C01_0000

abbrev add_word : ℕ
add_word = 0x0022_1020

lw_op : instr_op lw_word ≡ 0x23
unfolding instr_op
lw_op = refl

add_op : instr_op add_word ≡ 0x00
unfolding instr_op
add_op = refl

add_funct : instr_funct add_word ≡ 0x20
unfolding instr_funct
add_funct = refl

instr-line_example :
    (d : Ctx) × (instr lw_word 0 machine ≡ some d)
    × (d.disasm.str ≡ line (group_mnemonic GroupOp.lw) (group_operands GroupOp.lw) lw_word 0)
instr-line_example = instr-line GroupOp.lw lw_word 0 machine refl lw_op

instr-special_line_example :
    (d : Ctx) × (instr add_word 0 machine ≡ some d)
    × (d.disasm.str
        ≡ line (special_mnemonic GroupSpecial.add) (special_operands GroupSpecial.add) add_word 0)
instr-special_line_example =
    instr-special_line GroupSpecial.add add_word 0 machine refl (λ e. omega arith) add_op add_funct

-- The printed instruction, by `instr-line`.
abbrev printed :
    (d : Ctx) × (instr lw_word 0 machine ≡ some d)
    × (d.disasm.str ≡ line (group_mnemonic GroupOp.lw) (group_operands GroupOp.lw) lw_word 0)
printed = instr-line GroupOp.lw lw_word 0 machine refl lw_op

instr-Fits_example : Fits machine printed.0
instr-Fits_example = instr-Fits lw_word 0 machine printed.0 printed.1

-- `mfc0 $1, $0`: register 0 has no name.
instr-eq-none_iff_example :
    let word : ℕ = 0x4001_0000 in
    (instr word 0 machine ≡ none) ↔ (instr_op word ≡ 0x10) × NullName word
instr-eq-none_iff_example = instr-eq-none_iff 0x4001_0000 0 machine

-- `syscall`
syscall_shown : instr 0x0C 0 machine ≡ some (set_illegal 0x0C machine)
unfolding instr disasm_group disasm_special instr_op instr_funct decode_op decode_special
syscall_shown = refl

instr-begins_example :
    begins (text "illegal") (set_illegal 0x0C machine).disasm.str
    ≡ (if is_instruction 0x0C then unlisted 0x0C else true)
instr-begins_example = instr-begins 0x0C 0 machine (set_illegal 0x0C machine) syscall_shown
