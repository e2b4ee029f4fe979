-- ===== src/Disasm/Shapes.antt =====
-- The assembly syntax of MIPS, as mnemonics and lists of operands, and the lines that
-- `psycho_disasm_instr` of core/disasm.c prints.
use mathlib.Core.List.{append-nil}
use psycho.Prelude.{ℕ, ◌≡◌, ◌≢◌, Bool, true, false}
use psycho.Prelude.{List, [], ◌∷◌, ◌++◌, ==-of_ne}
use psycho.Text.{Text, text, hex, decimal, format}
use psycho.State.{Ctx}
use psycho.CpuDefs.{instr_rs, instr_rt, instr_rd, instr_shamt, instr_imm}
use psycho.CpuDefs.{calc_jmp_addr, calc_branch_addr}
use psycho.Cpu.Decode.{GroupSpecial}
use psycho.Disasm.Names.{gpr_name}
use psycho.Disasm.{set_result, disasm_special}

-- An operand: a register field, the shift amount, the immediate, an address in memory, or the
-- target of a branch or jump.
pub data Operand : Type 0 where
  rd rs rt sa immediate memory branch_target jump_target : Operand

abbrev pub render : ℕ → ℕ → Operand → Text
render word pc Operand.rd = gpr_name (instr_rd word)
render word pc Operand.rs = gpr_name (instr_rs word)
render word pc Operand.rt = gpr_name (instr_rt word)
render word pc Operand.sa = decimal (instr_shamt word)
render word pc Operand.immediate = text "0x" ++ hex 4 (instr_imm word)
render word pc Operand.memory =
    text "0x" ++ (hex 4 (instr_imm word) ++ (text "(" ++ (gpr_name (instr_rs word) ++ text ")")))
render word pc Operand.branch_target = text "0x" ++ hex 8 (calc_branch_addr word pc)
render word pc Operand.jump_target = text "0x" ++ hex 8 (calc_jmp_addr word pc)

abbrev pub separated : ℕ → ℕ → List Operand → Text
separated word pc [] = []
separated word pc (o ∷ []) = render word pc o
separated word pc (o ∷ o' ∷ os) = render word pc o ++ (text ", " ++ separated word pc (o' ∷ os))

-- The mnemonic, a space, and the operands with commas between them.
unfoldable pub line : Text → List Operand → ℕ → ℕ → Text
unfolding text
line mnemonic operands word pc = mnemonic ++ (text " " ++ separated word pc operands)

-- The mnemonics and operands of the architecture.
abbrev pub special_mnemonic : GroupSpecial → Text
special_mnemonic GroupSpecial.sll = text "sll"
special_mnemonic GroupSpecial.srl = text "srl"
special_mnemonic GroupSpecial.sra = text "sra"
special_mnemonic GroupSpecial.sllv = text "sllv"
special_mnemonic GroupSpecial.srlv = text "srlv"
special_mnemonic GroupSpecial.srav = text "srav"
special_mnemonic GroupSpecial.jr = text "jr"
special_mnemonic GroupSpecial.jalr = text "jalr"
special_mnemonic GroupSpecial.syscall = text "syscall"
special_mnemonic GroupSpecial.break = text "break"
special_mnemonic GroupSpecial.mfhi = text "mfhi"
special_mnemonic GroupSpecial.mthi = text "mthi"
special_mnemonic GroupSpecial.mflo = text "mflo"
special_mnemonic GroupSpecial.mtlo = text "mtlo"
special_mnemonic GroupSpecial.mult = text "mult"
special_mnemonic GroupSpecial.multu = text "multu"
special_mnemonic GroupSpecial.div = text "div"
special_mnemonic GroupSpecial.divu = text "divu"
special_mnemonic GroupSpecial.add = text "add"
special_mnemonic GroupSpecial.addu = text "addu"
special_mnemonic GroupSpecial.sub = text "sub"
special_mnemonic GroupSpecial.subu = text "subu"
special_mnemonic GroupSpecial.and = text "and"
special_mnemonic GroupSpecial.or = text "or"
special_mnemonic GroupSpecial.xor = text "xor"
special_mnemonic GroupSpecial.nor = text "nor"
special_mnemonic GroupSpecial.slt = text "slt"
special_mnemonic GroupSpecial.sltu = text "sltu"

abbrev pub special_operands : GroupSpecial → List Operand
special_operands GroupSpecial.sll = Operand.rd ∷ Operand.rt ∷ Operand.sa ∷ []
special_operands GroupSpecial.srl = Operand.rd ∷ Operand.rt ∷ Operand.sa ∷ []
special_operands GroupSpecial.sra = Operand.rd ∷ Operand.rt ∷ Operand.sa ∷ []
special_operands GroupSpecial.sllv = Operand.rd ∷ Operand.rt ∷ Operand.rs ∷ []
special_operands GroupSpecial.srlv = Operand.rd ∷ Operand.rt ∷ Operand.rs ∷ []
special_operands GroupSpecial.srav = Operand.rd ∷ Operand.rt ∷ Operand.rs ∷ []
special_operands GroupSpecial.jr = Operand.rs ∷ []
special_operands GroupSpecial.jalr = Operand.rd ∷ Operand.rs ∷ []
special_operands GroupSpecial.syscall = []
special_operands GroupSpecial.break = []
special_operands GroupSpecial.mfhi = Operand.rd ∷ []
special_operands GroupSpecial.mthi = Operand.rs ∷ []
special_operands GroupSpecial.mflo = Operand.rd ∷ []
special_operands GroupSpecial.mtlo = Operand.rs ∷ []
special_operands GroupSpecial.mult = Operand.rs ∷ Operand.rt ∷ []
special_operands GroupSpecial.multu = Operand.rs ∷ Operand.rt ∷ []
special_operands GroupSpecial.div = Operand.rs ∷ Operand.rt ∷ []
special_operands GroupSpecial.divu = Operand.rs ∷ Operand.rt ∷ []
special_operands GroupSpecial.add = Operand.rd ∷ Operand.rs ∷ Operand.rt ∷ []
special_operands GroupSpecial.addu = Operand.rd ∷ Operand.rs ∷ Operand.rt ∷ []
special_operands GroupSpecial.sub = Operand.rd ∷ Operand.rs ∷ Operand.rt ∷ []
special_operands GroupSpecial.subu = Operand.rd ∷ Operand.rs ∷ Operand.rt ∷ []
special_operands GroupSpecial.and = Operand.rd ∷ Operand.rs ∷ Operand.rt ∷ []
special_operands GroupSpecial.or = Operand.rd ∷ Operand.rs ∷ Operand.rt ∷ []
special_operands GroupSpecial.xor = Operand.rd ∷ Operand.rs ∷ Operand.rt ∷ []
special_operands GroupSpecial.nor = Operand.rd ∷ Operand.rs ∷ Operand.rt ∷ []
special_operands GroupSpecial.slt = Operand.rd ∷ Operand.rs ∷ Operand.rt ∷ []
special_operands GroupSpecial.sltu = Operand.rd ∷ Operand.rs ∷ Operand.rt ∷ []

-- The instructions that `psycho_disasm_instr` prints as the architecture does.
abbrev pub special_printed : GroupSpecial → Bool
special_printed GroupSpecial.srlv = false
special_printed GroupSpecial.srav = false
special_printed GroupSpecial.divu = false
special_printed GroupSpecial.syscall = false
special_printed GroupSpecial.break = false
special_printed _ = true

pub disasm_special-line :
    (i : GroupSpecial) (word pc : ℕ) (c : Ctx)
    → special_printed i ≡ true
    → word ≢ 0
    → (disasm_special i word c).disasm.str ≡ line (special_mnemonic i) (special_operands i) word pc
unfolding disasm_special set_result line format
disasm_special-line GroupSpecial.sll word pc c h n = rw (==-of_ne n) (simp append-nil)
disasm_special-line GroupSpecial.srl word pc c h n = simp append-nil
disasm_special-line GroupSpecial.sra word pc c h n = simp append-nil
disasm_special-line GroupSpecial.sllv word pc c h n = simp append-nil
disasm_special-line GroupSpecial.srlv word pc c h n = cc
disasm_special-line GroupSpecial.srav word pc c h n = cc
disasm_special-line GroupSpecial.jr word pc c h n = simp append-nil
disasm_special-line GroupSpecial.jalr word pc c h n = simp append-nil
disasm_special-line GroupSpecial.syscall word pc c h n = cc
disasm_special-line GroupSpecial.break word pc c h n = cc
disasm_special-line GroupSpecial.mfhi word pc c h n = simp append-nil
disasm_special-line GroupSpecial.mthi word pc c h n = simp append-nil
disasm_special-line GroupSpecial.mflo word pc c h n = simp append-nil
disasm_special-line GroupSpecial.mtlo word pc c h n = simp append-nil
disasm_special-line GroupSpecial.mult word pc c h n = simp append-nil
disasm_special-line GroupSpecial.multu word pc c h n = simp append-nil
disasm_special-line GroupSpecial.div word pc c h n = simp append-nil
disasm_special-line GroupSpecial.divu word pc c h n = cc
disasm_special-line GroupSpecial.add word pc c h n = simp append-nil
disasm_special-line GroupSpecial.addu word pc c h n = simp append-nil
disasm_special-line GroupSpecial.sub word pc c h n = simp append-nil
disasm_special-line GroupSpecial.subu word pc c h n = simp append-nil
disasm_special-line GroupSpecial.and word pc c h n = simp append-nil
disasm_special-line GroupSpecial.or word pc c h n = simp append-nil
disasm_special-line GroupSpecial.xor word pc c h n = simp append-nil
disasm_special-line GroupSpecial.nor word pc c h n = simp append-nil
disasm_special-line GroupSpecial.slt word pc c h n = simp append-nil
disasm_special-line GroupSpecial.sltu word pc c h n = simp append-nil
