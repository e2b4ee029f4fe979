-- ===== src/CpuDefs.antt =====
-- core/cpu-defs.h: the fields of an instruction word, and the addresses made from them.
pub mod Fields
pub mod Address
use psycho.Prelude.{ℕ, ◌+◌, ◌*◌, ◌/◌, ◌%◌, ◌^◌, bit_and, bit_or, ◌==◌, if◌then◌else◌}
use psycho.Word.{u16, u32, shl, shr, add32, sign_ext_16_32}

-- The named values that the core compares fields and registers with.
abbrev pub cpu_dcic_de : ℕ
cpu_dcic_de = 2 ^ 23

abbrev pub cpu_dcic_dae : ℕ
cpu_dcic_dae = 2 ^ 25

abbrev pub instr_bltz : ℕ
instr_bltz = 0x00

abbrev pub instr_bgez : ℕ
instr_bgez = 0x01

abbrev pub instr_bltzal : ℕ
instr_bltzal = 0x10

abbrev pub instr_cop_mf : ℕ
instr_cop_mf = 0x00

abbrev pub instr_cop_mt : ℕ
instr_cop_mt = 0x04

abbrev pub instr_rfe : ℕ
instr_rfe = 0x10

abbrev pub cpu_sr_isc : ℕ
cpu_sr_isc = 2 ^ 16

unfoldable pub instr_op : ℕ → ℕ
instr_op instr = shr instr 26

unfoldable pub instr_rs : ℕ → ℕ
instr_rs instr = bit_and (shr instr 21) 0x1F

unfoldable pub instr_rt : ℕ → ℕ
instr_rt instr = bit_and (shr instr 16) 0x1F

unfoldable pub instr_rd : ℕ → ℕ
instr_rd instr = bit_and (shr instr 11) 0x1F

unfoldable pub instr_shamt : ℕ → ℕ
instr_shamt instr = bit_and (shr instr 6) 0x1F

unfoldable pub instr_funct : ℕ → ℕ
instr_funct instr = bit_and instr 0x3F

unfoldable pub instr_imm : ℕ → ℕ
instr_imm instr = bit_and instr 0xFFFF

unfoldable pub instr_off : ℕ → ℕ
unfolding instr_imm
instr_off instr = instr_imm instr

unfoldable pub instr_target : ℕ → ℕ
instr_target instr = bit_and instr 0x03FF_FFFF

unfoldable pub get_vaddr : ℕ → ℕ → ℕ
unfolding sign_ext_16_32
get_vaddr off val = add32 (sign_ext_16_32 off) val

unfoldable pub calc_jmp_addr : ℕ → ℕ → ℕ
unfolding instr_target
calc_jmp_addr instr pc = bit_or (shl (instr_target instr) 2) (bit_and pc 0xF000_0000)

-- `imm << 2` is an `int`, and is cut to the `u16` that `sign_ext_16_32` takes.
unfoldable pub calc_branch_addr : ℕ → ℕ → ℕ
unfolding instr_imm sign_ext_16_32
calc_branch_addr instr pc = let imm = instr_imm instr in u32 (sign_ext_16_32 (imm * 2 ^ 2) + pc + 4)

unfoldable pub vaddr_to_paddr : ℕ → ℕ
vaddr_to_paddr vaddr = if vaddr == 0xFFFE_0130 then vaddr else bit_and vaddr 0x1FFF_FFFF
