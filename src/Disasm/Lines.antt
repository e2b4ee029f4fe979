-- ===== src/Disasm/Lines.antt =====
-- The lines that `psycho_disasm_instr` of core/disasm.c prints, by the instruction word.
use mathlib.Core.List.{append-nil}
use psycho.Prelude.{ℕ, ◌≡◌, ◌≢◌, arith, refl, Bool, true, false, some, sym, ◌∙◌, List, [], ◌∷◌}
use psycho.Text.{Text, text, format}
use psycho.State.{Ctx}
use psycho.CpuDefs.{instr_op, instr_funct}
use psycho.Cpu.Decode.{GroupOp, GroupSpecial, op_code, special_code, decode_op, decode_special}
use psycho.Cpu.Decode.{decode_op-eq-some_iff, decode_special-eq-some_iff}
use psycho.Disasm.{set_result, disasm_special, disasm_group, instr}
use psycho.Disasm.Shapes.{
  Operand, line, special_mnemonic, special_operands, special_printed, disasm_special-line,
}

abbrev pub group_mnemonic : GroupOp → Text
group_mnemonic GroupOp.j = text "j"
group_mnemonic GroupOp.jal = text "jal"
group_mnemonic GroupOp.beq = text "beq"
group_mnemonic GroupOp.bne = text "bne"
group_mnemonic GroupOp.blez = text "blez"
group_mnemonic GroupOp.bgtz = text "bgtz"
group_mnemonic GroupOp.addi = text "addi"
group_mnemonic GroupOp.addiu = text "addiu"
group_mnemonic GroupOp.slti = text "slti"
group_mnemonic GroupOp.sltiu = text "sltiu"
group_mnemonic GroupOp.andi = text "andi"
group_mnemonic GroupOp.ori = text "ori"
group_mnemonic GroupOp.xori = text "xori"
group_mnemonic GroupOp.lui = text "lui"
group_mnemonic GroupOp.lb = text "lb"
group_mnemonic GroupOp.lh = text "lh"
group_mnemonic GroupOp.lwl = text "lwl"
group_mnemonic GroupOp.lw = text "lw"
group_mnemonic GroupOp.lbu = text "lbu"
group_mnemonic GroupOp.lhu = text "lhu"
group_mnemonic GroupOp.lwr = text "lwr"
group_mnemonic GroupOp.sb = text "sb"
group_mnemonic GroupOp.sh = text "sh"
group_mnemonic GroupOp.swl = text "swl"
group_mnemonic GroupOp.sw = text "sw"
group_mnemonic GroupOp.swr = text "swr"
group_mnemonic _ = []

abbrev pub group_operands : GroupOp → List Operand
group_operands GroupOp.j = Operand.jump_target ∷ []
group_operands GroupOp.jal = Operand.jump_target ∷ []
group_operands GroupOp.beq = Operand.rs ∷ Operand.rt ∷ Operand.branch_target ∷ []
group_operands GroupOp.bne = Operand.rs ∷ Operand.rt ∷ Operand.branch_target ∷ []
group_operands GroupOp.blez = Operand.rs ∷ Operand.branch_target ∷ []
group_operands GroupOp.bgtz = Operand.rs ∷ Operand.branch_target ∷ []
group_operands GroupOp.addi = Operand.rt ∷ Operand.rs ∷ Operand.immediate ∷ []
group_operands GroupOp.addiu = Operand.rt ∷ Operand.rs ∷ Operand.immediate ∷ []
group_operands GroupOp.slti = Operand.rt ∷ Operand.rs ∷ Operand.immediate ∷ []
group_operands GroupOp.sltiu = Operand.rt ∷ Operand.rs ∷ Operand.immediate ∷ []
group_operands GroupOp.andi = Operand.rt ∷ Operand.rs ∷ Operand.immediate ∷ []
group_operands GroupOp.ori = Operand.rt ∷ Operand.rs ∷ Operand.immediate ∷ []
group_operands GroupOp.xori = Operand.rt ∷ Operand.rs ∷ Operand.immediate ∷ []
group_operands GroupOp.lui = Operand.rt ∷ Operand.immediate ∷ []
group_operands GroupOp.lb = Operand.rt ∷ Operand.memory ∷ []
group_operands GroupOp.lh = Operand.rt ∷ Operand.memory ∷ []
group_operands GroupOp.lwl = Operand.rt ∷ Operand.memory ∷ []
group_operands GroupOp.lw = Operand.rt ∷ Operand.memory ∷ []
group_operands GroupOp.lbu = Operand.rt ∷ Operand.memory ∷ []
group_operands GroupOp.lhu = Operand.rt ∷ Operand.memory ∷ []
group_operands GroupOp.lwr = Operand.rt ∷ Operand.memory ∷ []
group_operands GroupOp.sb = Operand.rt ∷ Operand.memory ∷ []
group_operands GroupOp.sh = Operand.rt ∷ Operand.memory ∷ []
group_operands GroupOp.swl = Operand.rt ∷ Operand.memory ∷ []
group_operands GroupOp.sw = Operand.rt ∷ Operand.memory ∷ []
group_operands GroupOp.swr = Operand.rt ∷ Operand.memory ∷ []
group_operands _ = []

-- The opcodes of one instruction each that are printed as the architecture does; `blez` and `bgtz`
-- are printed with their register field `rt` too.
abbrev pub group_printed : GroupOp → Bool
group_printed GroupOp.group_special = false
group_printed GroupOp.group_bcond = false
group_printed GroupOp.group_cop0 = false
group_printed GroupOp.blez = false
group_printed GroupOp.bgtz = false
group_printed _ = true

disasm_group-line :
    (i : GroupOp) (word pc : ℕ) (c : Ctx)
    → group_printed i ≡ true
    → (d : Ctx) × (disasm_group i word pc c ≡ some d)
      × (d.disasm.str ≡ line (group_mnemonic i) (group_operands i) word pc)
unfolding disasm_group set_result line format
disasm_group-line GroupOp.group_special word pc c h = cc
disasm_group-line GroupOp.group_bcond word pc c h = cc
disasm_group-line GroupOp.group_cop0 word pc c h = cc
disasm_group-line GroupOp.j word pc c h = (_, refl, simp append-nil)
disasm_group-line GroupOp.jal word pc c h = (_, refl, simp append-nil)
disasm_group-line GroupOp.beq word pc c h = (_, refl, simp append-nil)
disasm_group-line GroupOp.bne word pc c h = (_, refl, simp append-nil)
disasm_group-line GroupOp.blez word pc c h = cc
disasm_group-line GroupOp.bgtz word pc c h = cc
disasm_group-line GroupOp.addi word pc c h = (_, refl, simp append-nil)
disasm_group-line GroupOp.addiu word pc c h = (_, refl, simp append-nil)
disasm_group-line GroupOp.slti word pc c h = (_, refl, simp append-nil)
disasm_group-line GroupOp.sltiu word pc c h = (_, refl, simp append-nil)
disasm_group-line GroupOp.andi word pc c h = (_, refl, simp append-nil)
disasm_group-line GroupOp.ori word pc c h = (_, refl, simp append-nil)
disasm_group-line GroupOp.xori word pc c h = (_, refl, simp append-nil)
disasm_group-line GroupOp.lui word pc c h = (_, refl, simp append-nil)
disasm_group-line GroupOp.lb word pc c h = (_, refl, refl)
disasm_group-line GroupOp.lh word pc c h = (_, refl, refl)
disasm_group-line GroupOp.lwl word pc c h = (_, refl, refl)
disasm_group-line GroupOp.lw word pc c h = (_, refl, refl)
disasm_group-line GroupOp.lbu word pc c h = (_, refl, refl)
disasm_group-line GroupOp.lhu word pc c h = (_, refl, refl)
disasm_group-line GroupOp.lwr word pc c h = (_, refl, refl)
disasm_group-line GroupOp.sb word pc c h = (_, refl, refl)
disasm_group-line GroupOp.sh word pc c h = (_, refl, refl)
disasm_group-line GroupOp.swl word pc c h = (_, refl, refl)
disasm_group-line GroupOp.sw word pc c h = (_, refl, refl)
disasm_group-line GroupOp.swr word pc c h = (_, refl, refl)

instr-group :
    (i : GroupOp) (word pc : ℕ) (c : Ctx)
    → instr_op word ≡ op_code i
    → instr word pc c ≡ disasm_group i word pc c
unfolding instr
instr-group i word pc c h =
    let k : decode_op (instr_op word) ≡ some i = (decode_op-eq-some_iff _ i).1 (sym h) in
    ground (arith, k)

-- A word with the opcode of one instruction, `blez` and `bgtz` left out, is disassembled to that
-- instruction's mnemonic with its operands in the order of the assembly syntax.
pub instr-line :
    (i : GroupOp) (word pc : ℕ) (c : Ctx)
    → group_printed i ≡ true
    → instr_op word ≡ op_code i
    → (d : Ctx) × (instr word pc c ≡ some d)
      × (d.disasm.str ≡ line (group_mnemonic i) (group_operands i) word pc)
instr-line i word pc c h e =
    let (d, q, t) = disasm_group-line i word pc c h in (d, instr-group i word pc c e ∙ q, t)

instr-special :
    (i : GroupSpecial) (word pc : ℕ) (c : Ctx)
    → instr_op word ≡ op_code GroupOp.group_special
    → instr_funct word ≡ special_code i
    → instr word pc c ≡ some (disasm_special i word c)
unfolding disasm_group
instr-special i word pc c e f =
    let k : decode_special (instr_funct word) ≡ some i =
      (decode_special-eq-some_iff _ i).1 (sym f) in
    instr-group GroupOp.group_special word pc c e ∙ ground (arith, k)

-- A word other than 0 with opcode 0 and the function code of an instruction, `srlv`, `srav`,
-- `divu`, `syscall` and `break` left out, is disassembled to that instruction's mnemonic with its
-- operands in the order of the assembly syntax.
pub instr-special_line :
    (i : GroupSpecial) (word pc : ℕ) (c : Ctx)
    → special_printed i ≡ true
    → word ≢ 0
    → instr_op word ≡ op_code GroupOp.group_special
    → instr_funct word ≡ special_code i
    → (d : Ctx) × (instr word pc c ≡ some d)
      × (d.disasm.str ≡ line (special_mnemonic i) (special_operands i) word pc)
instr-special_line i word pc c h n e f =
    (disasm_special i word c, instr-special i word pc c e f, disasm_special-line i word pc c h n)
