-- ===== src/Disasm.antt =====
-- core/disasm.c: an instruction as text, and its trace around a step. `none` is a null pointer
-- that is printed by `%s`, which C leaves undefined.
pub mod Names
pub mod Shapes
pub mod Lines
pub mod Fits
pub mod Trace
pub mod Illegal
pub mod Total
use psycho.Prelude.{ℕ, ◌==◌, if◌then◌else◌, Bool, Option, none, some, List, [], ◌∷◌, ◌>>=◌}
use psycho.Text.{Text, Arg, num, str, text, format, length}
use psycho.State.{Ctx, Cpu, Disasm, Severity, ModuleId}
use psycho.Log.{log_handle}
use psycho.Bus
use psycho.CpuDefs.{instr_op, instr_rs, instr_rt, instr_rd, instr_shamt, instr_funct, instr_imm}
use psycho.CpuDefs.{calc_jmp_addr, calc_branch_addr, vaddr_to_paddr}
use psycho.CpuDefs.{instr_bltz, instr_bgez, instr_bltzal, instr_cop_mf, instr_cop_mt}
use psycho.Cpu.Decode.{GroupOp, GroupSpecial, decode_op, decode_special}
use psycho.Disasm.Names.{gpr_name, cop0_cpr}

unfoldable pub trace_instruction_enable : Bool → Ctx → Ctx
trace_instruction_enable enable c = record c {
  disasm = record (c.disasm) { trace_instruction = enable };
}

unfoldable pub set_result : Text → List Arg → Ctx → Ctx
set_result n args c = record c {
  disasm = record (c.disasm) { str = format n args; len = length (format n args) };
}

-- The macros at the head of `psycho_disasm_instr`, as arguments of the formats.
abbrev pub rt : ℕ → Arg
rt instr = str (gpr_name (instr_rt instr))

abbrev pub rd : ℕ → Arg
rd instr = str (gpr_name (instr_rd instr))

abbrev pub rs : ℕ → Arg
rs instr = str (gpr_name (instr_rs instr))

abbrev pub shamt : ℕ → Arg
shamt instr = num (instr_shamt instr)

abbrev pub imm : ℕ → Arg
imm instr = num (instr_imm instr)

-- What follows a `break` out of the outer `switch`.
unfoldable pub set_illegal : ℕ → Ctx → Ctx
unfolding text
set_illegal instr c = set_result (text "illegal 0x%08X") (num instr ∷ []) c

-- The inner `switch` of `INSTR_GROUP_SPECIAL`. The cases of `srlv` and `srav` end in `break`, so the
-- text that follows the `switch` takes the place of theirs.
unfoldable pub disasm_special : GroupSpecial → ℕ → Ctx → Ctx
unfolding set_illegal text
disasm_special GroupSpecial.sll instr c =
    if instr == 0
    then set_result (text "nop") [] c
    else set_result (text "sll %s, %s, %u") (rd instr ∷ rt instr ∷ shamt instr ∷ []) c
disasm_special GroupSpecial.srl instr c =
    set_result (text "srl %s, %s, %u") (rd instr ∷ rt instr ∷ shamt instr ∷ []) c
disasm_special GroupSpecial.sra instr c =
    set_result (text "sra %s, %s, %u") (rd instr ∷ rt instr ∷ shamt instr ∷ []) c
disasm_special GroupSpecial.sllv instr c =
    set_result (text "sllv %s, %s, %s") (rd instr ∷ rt instr ∷ rs instr ∷ []) c
disasm_special GroupSpecial.srlv instr c =
    set_illegal instr (set_result (text "srlv %s, %s, %s") (rd instr ∷ rt instr ∷ rs instr ∷ []) c)
disasm_special GroupSpecial.srav instr c =
    set_illegal instr (set_result (text "srav %s, %s, %s") (rd instr ∷ rt instr ∷ rs instr ∷ []) c)
disasm_special GroupSpecial.jr instr c = set_result (text "jr %s") (rs instr ∷ []) c
disasm_special GroupSpecial.jalr instr c =
    set_result (text "jalr %s, %s") (rd instr ∷ rs instr ∷ []) c
disasm_special GroupSpecial.mfhi instr c = set_result (text "mfhi %s") (rd instr ∷ []) c
disasm_special GroupSpecial.mthi instr c = set_result (text "mthi %s") (rs instr ∷ []) c
disasm_special GroupSpecial.mflo instr c = set_result (text "mflo %s") (rd instr ∷ []) c
disasm_special GroupSpecial.mtlo instr c = set_result (text "mtlo %s") (rs instr ∷ []) c
disasm_special GroupSpecial.mult instr c =
    set_result (text "mult %s, %s") (rs instr ∷ rt instr ∷ []) c
disasm_special GroupSpecial.multu instr c =
    set_result (text "multu %s, %s") (rs instr ∷ rt instr ∷ []) c
disasm_special GroupSpecial.div instr c =
    set_result (text "div %s, %s") (rs instr ∷ rt instr ∷ []) c
disasm_special GroupSpecial.divu instr c =
    set_result (text "div %s, %s") (rs instr ∷ rt instr ∷ []) c
disasm_special GroupSpecial.add instr c =
    set_result (text "add %s, %s, %s") (rd instr ∷ rs instr ∷ rt instr ∷ []) c
disasm_special GroupSpecial.addu instr c =
    set_result (text "addu %s, %s, %s") (rd instr ∷ rs instr ∷ rt instr ∷ []) c
disasm_special GroupSpecial.sub instr c =
    set_result (text "sub %s, %s, %s") (rd instr ∷ rs instr ∷ rt instr ∷ []) c
disasm_special GroupSpecial.subu instr c =
    set_result (text "subu %s, %s, %s") (rd instr ∷ rs instr ∷ rt instr ∷ []) c
disasm_special GroupSpecial.and instr c =
    set_result (text "and %s, %s, %s") (rd instr ∷ rs instr ∷ rt instr ∷ []) c
disasm_special GroupSpecial.or instr c =
    set_result (text "or %s, %s, %s") (rd instr ∷ rs instr ∷ rt instr ∷ []) c
disasm_special GroupSpecial.xor instr c =
    set_result (text "xor %s, %s, %s") (rd instr ∷ rs instr ∷ rt instr ∷ []) c
disasm_special GroupSpecial.nor instr c =
    set_result (text "nor %s, %s, %s") (rd instr ∷ rs instr ∷ rt instr ∷ []) c
disasm_special GroupSpecial.slt instr c =
    set_result (text "slt %s, %s, %s") (rd instr ∷ rs instr ∷ rt instr ∷ []) c
disasm_special GroupSpecial.sltu instr c =
    set_result (text "sltu %s, %s, %s") (rd instr ∷ rs instr ∷ rt instr ∷ []) c
disasm_special GroupSpecial.syscall instr c = set_illegal instr c
disasm_special GroupSpecial.break instr c = set_illegal instr c

unfoldable pub disasm_bcond : ℕ → ℕ → Ctx → Ctx
unfolding set_illegal text
disasm_bcond instr pc c =
    let target = num (calc_branch_addr instr pc) in
    if instr_rt instr == instr_bltz
    then set_result (text "bltz %s, 0x%08X") (rs instr ∷ target ∷ []) c
    else if instr_rt instr == instr_bgez
    then set_result (text "bgez %s, 0x%08X") (rs instr ∷ target ∷ []) c
    else if instr_rt instr == instr_bltzal
    then set_result (text "bltzal %s, 0x%08X") (rs instr ∷ target ∷ []) c
    else set_illegal instr c

-- `mfc0` of a register without a name logs, and then prints a null pointer; so does `mtc0`.
unfoldable pub disasm_cop0 : ℕ → Ctx → Option Ctx
unfolding set_illegal text
disasm_cop0 instr c =
    let mfc0 : Option Ctx = cop0_cpr (instr_rd instr) >>= λ name.
    some (set_result (text "mfc0 %s, %s") (rt instr ∷ str name ∷ []) c) in
    let mtc0 : Option Ctx = cop0_cpr (instr_rd instr) >>= λ name.
    some (set_result (text "mtc0 %s, %s") (str name ∷ rt instr ∷ []) c) in
    if instr_rs instr == instr_cop_mf
    then mfc0
    else if instr_rs instr == instr_cop_mt
    then mtc0
    else some (set_illegal instr c)

unfoldable pub disasm_group : GroupOp → ℕ → ℕ → Ctx → Option Ctx
unfolding disasm_bcond disasm_cop0 disasm_special set_illegal text
disasm_group GroupOp.group_special instr pc c = elim (decode_special (instr_funct instr)) [
  | some i ↦ some (disasm_special i instr c)
  | none ↦ some (set_illegal instr c)
]
disasm_group GroupOp.group_bcond instr pc c = some (disasm_bcond instr pc c)
disasm_group GroupOp.group_cop0 instr pc c = disasm_cop0 instr c
disasm_group GroupOp.j instr pc c =
    some (set_result (text "j 0x%08X") (num (calc_jmp_addr instr pc) ∷ []) c)
disasm_group GroupOp.jal instr pc c =
    some (set_result (text "jal 0x%08X") (num (calc_jmp_addr instr pc) ∷ []) c)
disasm_group GroupOp.beq instr pc c = some (
    set_result (text "beq %s, %s, 0x%08X")
      (rs instr ∷ rt instr ∷ num (calc_branch_addr instr pc) ∷ []) c)
disasm_group GroupOp.bne instr pc c = some (
    set_result (text "bne %s, %s, 0x%08X")
      (rs instr ∷ rt instr ∷ num (calc_branch_addr instr pc) ∷ []) c)
disasm_group GroupOp.blez instr pc c = some (
    set_result (text "blez %s, %s, 0x%08X")
      (rs instr ∷ rt instr ∷ num (calc_branch_addr instr pc) ∷ []) c)
disasm_group GroupOp.bgtz instr pc c = some (
    set_result (text "bgtz %s, %s, 0x%08X")
      (rs instr ∷ rt instr ∷ num (calc_branch_addr instr pc) ∷ []) c)
disasm_group GroupOp.addi instr pc c =
    some (set_result (text "addi %s, %s, 0x%04X") (rt instr ∷ rs instr ∷ imm instr ∷ []) c)
disasm_group GroupOp.addiu instr pc c =
    some (set_result (text "addiu %s, %s, 0x%04X") (rt instr ∷ rs instr ∷ imm instr ∷ []) c)
disasm_group GroupOp.slti instr pc c =
    some (set_result (text "slti %s, %s, 0x%04X") (rt instr ∷ rs instr ∷ imm instr ∷ []) c)
disasm_group GroupOp.sltiu instr pc c =
    some (set_result (text "sltiu %s, %s, 0x%04X") (rt instr ∷ rs instr ∷ imm instr ∷ []) c)
disasm_group GroupOp.andi instr pc c =
    some (set_result (text "andi %s, %s, 0x%04X") (rt instr ∷ rs instr ∷ imm instr ∷ []) c)
disasm_group GroupOp.ori instr pc c =
    some (set_result (text "ori %s, %s, 0x%04X") (rt instr ∷ rs instr ∷ imm instr ∷ []) c)
disasm_group GroupOp.xori instr pc c =
    some (set_result (text "xori %s, %s, 0x%04X") (rt instr ∷ rs instr ∷ imm instr ∷ []) c)
disasm_group GroupOp.lui instr pc c =
    some (set_result (text "lui %s, 0x%04X") (rt instr ∷ imm instr ∷ []) c)
disasm_group GroupOp.lb instr pc c =
    some (set_result (text "lb %s, 0x%04X(%s)") (rt instr ∷ imm instr ∷ rs instr ∷ []) c)
disasm_group GroupOp.lh instr pc c =
    some (set_result (text "lh %s, 0x%04X(%s)") (rt instr ∷ imm instr ∷ rs instr ∷ []) c)
disasm_group GroupOp.lwl instr pc c =
    some (set_result (text "lwl %s, 0x%04X(%s)") (rt instr ∷ imm instr ∷ rs instr ∷ []) c)
disasm_group GroupOp.lw instr pc c =
    some (set_result (text "lw %s, 0x%04X(%s)") (rt instr ∷ imm instr ∷ rs instr ∷ []) c)
disasm_group GroupOp.lbu instr pc c =
    some (set_result (text "lbu %s, 0x%04X(%s)") (rt instr ∷ imm instr ∷ rs instr ∷ []) c)
disasm_group GroupOp.lhu instr pc c =
    some (set_result (text "lhu %s, 0x%04X(%s)") (rt instr ∷ imm instr ∷ rs instr ∷ []) c)
disasm_group GroupOp.lwr instr pc c =
    some (set_result (text "lwr %s, 0x%04X(%s)") (rt instr ∷ imm instr ∷ rs instr ∷ []) c)
disasm_group GroupOp.sb instr pc c =
    some (set_result (text "sb %s, 0x%04X(%s)") (rt instr ∷ imm instr ∷ rs instr ∷ []) c)
disasm_group GroupOp.sh instr pc c =
    some (set_result (text "sh %s, 0x%04X(%s)") (rt instr ∷ imm instr ∷ rs instr ∷ []) c)
disasm_group GroupOp.swl instr pc c =
    some (set_result (text "swl %s, 0x%04X(%s)") (rt instr ∷ imm instr ∷ rs instr ∷ []) c)
disasm_group GroupOp.sw instr pc c =
    some (set_result (text "sw %s, 0x%04X(%s)") (rt instr ∷ imm instr ∷ rs instr ∷ []) c)
disasm_group GroupOp.swr instr pc c =
    some (set_result (text "swr %s, 0x%04X(%s)") (rt instr ∷ imm instr ∷ rs instr ∷ []) c)

-- `psycho_disasm_instr`.
unfoldable pub instr : ℕ → ℕ → Ctx → Option Ctx
unfolding disasm_group set_illegal
instr word pc c = elim (decode_op (instr_op word)) [
  | some i ↦ disasm_group i word pc c
  | none ↦ some (set_illegal word c)
]

-- The `memset` of the result.
unfoldable pub clear_result : Ctx → Ctx
clear_result c = record c { disasm = record (c.disasm) { str = []; pc = 0; len = 0 } }

unfoldable pub set_pc : Ctx → Ctx
set_pc c = record c { disasm = record (c.disasm) { pc = c.cpu.pc } }

unfoldable pub trace_begin : Ctx → Option Ctx
unfolding clear_result set_pc instr
trace_begin c0 = do
  let c1 = set_pc (clear_result c0)
  (word, c) ← Bus.peek_word (vaddr_to_paddr c1.cpu.pc) c1
  instr word c.cpu.pc c

unfoldable pub trace_end : Ctx → Ctx
trace_end c =
    log_handle ModuleId.disasm Severity.info (text "0x%08X: %s")
      (num c.disasm.pc ∷ str c.disasm.str ∷ []) c
