-- ===== src/CpuDefs/Fields.antt =====
-- The fields of an instruction word as digits of the word.
use psycho.Prelude.{ℕ, ◌+◌, ◌*◌, ◌/◌, ◌%◌, ◌^◌, ◌<◌, ◌≡◌, arith}
use psycho.Bits.{bit_and_mask}
use psycho.CpuDefs.{instr_op, instr_rs, instr_rt, instr_rd, instr_shamt, instr_funct}
use psycho.CpuDefs.{instr_imm, instr_target}

pub instr_rs_lem : (i : ℕ) → instr_rs i ≡ i / 2 ^ 21 % 32
unfolding instr_rs
instr_rs_lem i = bit_and_mask 5 (i / 2 ^ 21)

pub instr_rt_lem : (i : ℕ) → instr_rt i ≡ i / 2 ^ 16 % 32
unfolding instr_rt
instr_rt_lem i = bit_and_mask 5 (i / 2 ^ 16)

pub instr_rd_lem : (i : ℕ) → instr_rd i ≡ i / 2 ^ 11 % 32
unfolding instr_rd
instr_rd_lem i = bit_and_mask 5 (i / 2 ^ 11)

pub instr_shamt_lem : (i : ℕ) → instr_shamt i ≡ i / 2 ^ 6 % 32
unfolding instr_shamt
instr_shamt_lem i = bit_and_mask 5 (i / 2 ^ 6)

pub instr_funct_lem : (i : ℕ) → instr_funct i ≡ i % 64
unfolding instr_funct
instr_funct_lem i = bit_and_mask 6 i

pub instr_imm_lem : (i : ℕ) → instr_imm i ≡ i % 2 ^ 16
unfolding instr_imm
instr_imm_lem i = bit_and_mask 16 i

pub instr_target_lem : (i : ℕ) → instr_target i ≡ i % 2 ^ 26
unfolding instr_target
instr_target_lem i = bit_and_mask 26 i

-- The word of an instruction in the register format.
abbrev pub encode : ℕ → ℕ → ℕ → ℕ → ℕ → ℕ → ℕ
encode op rs rt rd shamt funct =
    op * 2 ^ 26 + rs * 2 ^ 21 + rt * 2 ^ 16 + rd * 2 ^ 11 + shamt * 2 ^ 6 + funct

pub record Decodes (i op rs rt rd shamt funct : ℕ) : Type 0 where
  pub op_eq : instr_op i ≡ op
  pub rs_eq : instr_rs i ≡ rs
  pub rt_eq : instr_rt i ≡ rt
  pub rd_eq : instr_rd i ≡ rd
  pub shamt_eq : instr_shamt i ≡ shamt
  pub funct_eq : instr_funct i ≡ funct

ruleset fields = (
  arith, instr_rs_lem, instr_rt_lem, instr_rd_lem, instr_shamt_lem, instr_funct_lem, instr_imm_lem,
  instr_target_lem,
)

-- The six fields of a 32-bit word fit their widths and make up the word again; the immediate
-- and the jump target are the words of the fields that they overlap.
pub encode-fields :
    (i : ℕ)
    → i < 2 ^ 32
    → (encode (instr_op i) (instr_rs i) (instr_rt i) (instr_rd i) (instr_shamt i) (instr_funct i)
        ≡ i)
      × (instr_op i < 64)
      × (instr_rs i < 32)
      × (instr_rt i < 32)
      × (instr_rd i < 32)
      × (instr_shamt i < 32)
      × (instr_funct i < 64)
      × (instr_imm i ≡ instr_rd i * 2 ^ 11 + instr_shamt i * 2 ^ 6 + instr_funct i)
      × (instr_target i ≡ instr_rs i * 2 ^ 21 + instr_rt i * 2 ^ 16 + instr_imm i)
unfolding instr_op
encode-fields i h = omega fields

-- Decoding an encoded instruction gives back each of its fields.
pub encode-Decodes :
    (op rs rt rd shamt funct : ℕ)
    → op < 64
    → rs < 32
    → rt < 32
    → rd < 32
    → shamt < 32
    → funct < 64
    → Decodes (encode op rs rt rd shamt funct) op rs rt rd shamt funct
unfolding instr_op
encode-Decodes op rs rt rd shamt funct p q r s t u = omega fields
