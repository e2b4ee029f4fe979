-- ===== src/Tests/Words.antt =====
-- Instruction words, addresses and 32-bit arithmetic at concrete values.
use psycho.Prelude.{ℕ, ◌+◌, ◌*◌, ◌^◌, ◌<◌, ◌≤◌, ◌≡◌, ◌⊎◌, ◌↔◌, arith}
use psycho.CpuDefs.{
  instr_op, instr_rs, instr_rt, instr_rd, instr_shamt, instr_funct, instr_imm, instr_target,
}
use psycho.CpuDefs.{calc_branch_addr}
use psycho.CpuDefs.Fields.{encode, encode-fields}
use psycho.CpuDefs.Address.{branch_target, calc_branch_addr_iff}

-- `bne $1, $2, -1`
calc_branch_addr_iff_example :
    (calc_branch_addr 0x1422_FFFF 0x8000_1000 ≡ branch_target 0x1422_FFFF 0x8000_1000)
    ↔ ((instr_imm 0x1422_FFFF < 0x2000) ⊎ (0xE000 ≤ instr_imm 0x1422_FFFF))
calc_branch_addr_iff_example = calc_branch_addr_iff 0x1422_FFFF 0x8000_1000 (omega arith)

-- `lw $1, 0($0)`
encode-fields_example :
    let i : ℕ = 0x8C01_0000 in
    (encode (instr_op i) (instr_rs i) (instr_rt i) (instr_rd i) (instr_shamt i) (instr_funct i) ≡ i)
    × (instr_op i < 64)
    × (instr_rs i < 32)
    × (instr_rt i < 32)
    × (instr_rd i < 32)
    × (instr_shamt i < 32)
    × (instr_funct i < 64)
    × (instr_imm i ≡ instr_rd i * 2 ^ 11 + instr_shamt i * 2 ^ 6 + instr_funct i)
    × (instr_target i ≡ instr_rs i * 2 ^ 21 + instr_rt i * 2 ^ 16 + instr_imm i)
encode-fields_example = encode-fields 0x8C01_0000 (omega arith)
