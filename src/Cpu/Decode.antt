-- ===== src/Cpu/Decode.antt =====
-- The enumerations of core/cpu-defs.h that the `switch` statements of `psycho_cpu_step` go by.
use psycho.Prelude.{
  ℕ, ◌==◌, if◌then◌else◌, Option, none, some, List, [], ◌∷◌, ◌≡◌, refl, arith, Bool-cases, inl, inr,
  of_some, ◌↔◌,
}
use mathlib.Core.Path.{subst}

-- The enumerator with a given value, as a `switch` over an enumeration finds its `case`.
pub case_of {ℓ} : {A : Type ℓ} → (A → ℕ) → List A → ℕ → Option A
case_of code [] n = none
case_of code (x ∷ xs) n = if code x == n then some x else case_of code xs n

-- A case that is found has the value that is sought.
pub case_of-code {ℓ} :
    {A : Type ℓ} (code : A → ℕ) (xs : List A) (n : ℕ) {x : A}
    → case_of code xs n ≡ some x
    → code x ≡ n
unfolding case_of
case_of-code code [] n h = cc
case_of-code code (y ∷ xs) n h = elim (Bool-cases (code y == n)) [
  | inl e ↦ subst (λ z. code z ≡ n) (of_some (rw e at h)) (ground arith)
  | inr e ↦ case_of-code code xs n (rw e at h)
]

-- `enum instr_group_op`.
pub data GroupOp : Type 0 where
  group_special group_bcond group_cop0 : GroupOp
  j jal beq bne blez bgtz : GroupOp
  addi addiu slti sltiu andi ori xori lui : GroupOp
  lb lh lwl lw lbu lhu lwr : GroupOp
  sb sh swl sw swr : GroupOp

abbrev pub op_code : GroupOp → ℕ
op_code GroupOp.group_special = 0x00
op_code GroupOp.group_bcond = 0x01
op_code GroupOp.group_cop0 = 0x10
op_code GroupOp.j = 0x02
op_code GroupOp.jal = 0x03
op_code GroupOp.beq = 0x04
op_code GroupOp.bne = 0x05
op_code GroupOp.blez = 0x06
op_code GroupOp.bgtz = 0x07
op_code GroupOp.addi = 0x08
op_code GroupOp.addiu = 0x09
op_code GroupOp.slti = 0x0A
op_code GroupOp.sltiu = 0x0B
op_code GroupOp.andi = 0x0C
op_code GroupOp.ori = 0x0D
op_code GroupOp.xori = 0x0E
op_code GroupOp.lui = 0x0F
op_code GroupOp.lb = 0x20
op_code GroupOp.lh = 0x21
op_code GroupOp.lwl = 0x22
op_code GroupOp.lw = 0x23
op_code GroupOp.lbu = 0x24
op_code GroupOp.lhu = 0x25
op_code GroupOp.lwr = 0x26
op_code GroupOp.sb = 0x28
op_code GroupOp.sh = 0x29
op_code GroupOp.swl = 0x2A
op_code GroupOp.sw = 0x2B
op_code GroupOp.swr = 0x2E

-- `enum instr_group_special`.
pub data GroupSpecial : Type 0 where
  sll srl sra sllv srlv srav jr jalr syscall break : GroupSpecial
  mfhi mthi mflo mtlo mult multu div divu : GroupSpecial
  add addu sub subu and or xor nor slt sltu : GroupSpecial

abbrev pub special_code : GroupSpecial → ℕ
special_code GroupSpecial.sll = 0x00
special_code GroupSpecial.srl = 0x02
special_code GroupSpecial.sra = 0x03
special_code GroupSpecial.sllv = 0x04
special_code GroupSpecial.srlv = 0x06
special_code GroupSpecial.srav = 0x07
special_code GroupSpecial.jr = 0x08
special_code GroupSpecial.jalr = 0x09
special_code GroupSpecial.syscall = 0x0C
special_code GroupSpecial.break = 0x0D
special_code GroupSpecial.mfhi = 0x10
special_code GroupSpecial.mthi = 0x11
special_code GroupSpecial.mflo = 0x12
special_code GroupSpecial.mtlo = 0x13
special_code GroupSpecial.mult = 0x18
special_code GroupSpecial.multu = 0x19
special_code GroupSpecial.div = 0x1A
special_code GroupSpecial.divu = 0x1B
special_code GroupSpecial.add = 0x20
special_code GroupSpecial.addu = 0x21
special_code GroupSpecial.sub = 0x22
special_code GroupSpecial.subu = 0x23
special_code GroupSpecial.and = 0x24
special_code GroupSpecial.or = 0x25
special_code GroupSpecial.xor = 0x26
special_code GroupSpecial.nor = 0x27
special_code GroupSpecial.slt = 0x2A
special_code GroupSpecial.sltu = 0x2B

abbrev pub group_ops : List GroupOp
group_ops =
    GroupOp.group_special ∷ GroupOp.group_bcond ∷ GroupOp.group_cop0 ∷ GroupOp.j ∷ GroupOp.jal
    ∷ GroupOp.beq ∷ GroupOp.bne ∷ GroupOp.blez ∷ GroupOp.bgtz ∷ GroupOp.addi ∷ GroupOp.addiu
    ∷ GroupOp.slti ∷ GroupOp.sltiu ∷ GroupOp.andi ∷ GroupOp.ori ∷ GroupOp.xori ∷ GroupOp.lui
    ∷ GroupOp.lb ∷ GroupOp.lh ∷ GroupOp.lwl ∷ GroupOp.lw ∷ GroupOp.lbu ∷ GroupOp.lhu ∷ GroupOp.lwr
    ∷ GroupOp.sb ∷ GroupOp.sh ∷ GroupOp.swl ∷ GroupOp.sw ∷ GroupOp.swr ∷ []

abbrev pub group_specials : List GroupSpecial
group_specials =
    GroupSpecial.sll ∷ GroupSpecial.srl ∷ GroupSpecial.sra ∷ GroupSpecial.sllv ∷ GroupSpecial.srlv
    ∷ GroupSpecial.srav ∷ GroupSpecial.jr ∷ GroupSpecial.jalr ∷ GroupSpecial.syscall
    ∷ GroupSpecial.break ∷ GroupSpecial.mfhi ∷ GroupSpecial.mthi ∷ GroupSpecial.mflo
    ∷ GroupSpecial.mtlo ∷ GroupSpecial.mult ∷ GroupSpecial.multu ∷ GroupSpecial.div
    ∷ GroupSpecial.divu ∷ GroupSpecial.add ∷ GroupSpecial.addu ∷ GroupSpecial.sub
    ∷ GroupSpecial.subu ∷ GroupSpecial.and ∷ GroupSpecial.or ∷ GroupSpecial.xor ∷ GroupSpecial.nor
    ∷ GroupSpecial.slt ∷ GroupSpecial.sltu ∷ []

unfoldable pub decode_op : ℕ → Option GroupOp
unfolding case_of
decode_op = case_of op_code group_ops

unfoldable pub decode_special : ℕ → Option GroupSpecial
unfolding case_of
decode_special = case_of special_code group_specials

decode_op-op_code : (i : GroupOp) → decode_op (op_code i) ≡ some i
unfolding decode_op
decode_op-op_code GroupOp.group_special = refl
decode_op-op_code _ = refl

decode_special-special_code : (i : GroupSpecial) → decode_special (special_code i) ≡ some i
unfolding decode_special
decode_special-special_code GroupSpecial.sll = refl
decode_special-special_code _ = refl

-- The `switch` on the primary opcode reaches the `case` of an enumerator exactly at its value.
pub decode_op-eq-some_iff : (n : ℕ) (i : GroupOp) → (decode_op n ≡ some i) ↔ (op_code i ≡ n)
decode_op-eq-some_iff n i = (
  unfold decode_op in case_of-code op_code group_ops n,
  λ e. subst (λ m. decode_op m ≡ some i) e (decode_op-op_code i),
)

-- The `switch` on `funct` reaches the `case` of an enumerator exactly at its value.
pub decode_special-eq-some_iff :
    (n : ℕ) (i : GroupSpecial) → (decode_special n ≡ some i) ↔ (special_code i ≡ n)
decode_special-eq-some_iff n i = (
  unfold decode_special in case_of-code special_code group_specials n,
  λ e. subst (λ m. decode_special m ≡ some i) e (decode_special-special_code i),
)
