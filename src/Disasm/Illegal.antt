-- ===== src/Disasm/Illegal.antt =====
-- Which words core/disasm.c prints as illegal, against the ones that core/cpu.c traps.
use mathlib.Core.Path.{subst}
use psycho.Prelude.{
  ℕ, ◌≡◌, ◌==◌, if◌then◌else◌, Bool, true, false, not, Bool-cases, inl, inr, Option, none, some, [],
  ◌∷◌, refl, ◌>>=◌,
}
use psycho.Text.{Text, text, format}
use psycho.State.{Ctx}
use psycho.CpuDefs.{instr_op, instr_rs, instr_rt, instr_rd, instr_funct}
use psycho.Cpu.Decode.{GroupOp, GroupSpecial, decode_op, decode_special}
use psycho.Disasm.{
  instr, disasm_group, disasm_special, disasm_bcond, disasm_cop0, set_illegal, set_result,
}
use psycho.Disasm.Names.{cop0_cpr}
use psycho.Cpu.Legal.{is_instruction, is_group}

-- Whether a text begins with another.
abbrev pub begins : Text → Text → Bool
begins [] t = true
begins (x ∷ p) [] = false
begins (x ∷ p) (y ∷ t) = if x == y then begins p t else false

-- The instructions of the processor without a mnemonic of their own: `srlv`, `srav`, `syscall`,
-- `break` and `rfe`, and the branches on a sign but `bltz`, `bgez` and `bltzal`.
abbrev pub unlisted_special : GroupSpecial → Bool
unlisted_special GroupSpecial.srlv = true
unlisted_special GroupSpecial.srav = true
unlisted_special GroupSpecial.syscall = true
unlisted_special GroupSpecial.break = true
unlisted_special _ = false

abbrev pub unlisted_group : GroupOp → ℕ → Bool
unlisted_group GroupOp.group_special word = elim (decode_special (instr_funct word)) [
  | some i ↦ unlisted_special i
  | none ↦ false
]
unlisted_group GroupOp.group_bcond word =
    if instr_rt word == 0x00
    then false
    else if instr_rt word == 0x01
    then false
    else not (instr_rt word == 0x10)
unlisted_group GroupOp.group_cop0 word =
    if instr_rs word == 0x00 then false else not (instr_rs word == 0x04)
unlisted_group _ word = false

unfoldable pub unlisted : ℕ → Bool
unlisted word = elim (decode_op (instr_op word)) [ some i ↦ unlisted_group i word | none ↦ false ]

-- A disassembly says that the word is illegal exactly if `b` holds.
abbrev Says : Bool → Option Ctx → Type 0
Says b none = Unit {0}
Says b (some d) = begins (text "illegal") d.disasm.str ≡ b

abbrev expected : Bool → Bool → Bool
expected legal odd = if legal then odd else true

special-Says :
    (i : GroupSpecial) (word : ℕ) (c : Ctx)
    → Says (unlisted_special i) (some (disasm_special i word c))
unfolding disasm_special set_illegal set_result text format
special-Says GroupSpecial.sll word c = elim (Bool-cases (word == 0)) [
  | inl e ↦ rw e refl
  | inr e ↦ rw e refl
]
special-Says _ word c = refl

bcond-Says :
    (word pc : ℕ) (c : Ctx)
    → Says (unlisted_group GroupOp.group_bcond word) (some (disasm_bcond word pc c))
unfolding disasm_bcond set_illegal set_result text format
bcond-Says word pc c = elim (Bool-cases (instr_rt word == 0x00)) [
  | inl e ↦ rw e refl
  | inr e ↦ elim (Bool-cases (instr_rt word == 0x01)) [
    | inl f ↦ rw (e, f) refl
    | inr f ↦ elim (Bool-cases (instr_rt word == 0x10)) [
      | inl g ↦ rw (e, f, g) refl
      | inr g ↦ rw (e, f, g) refl
    ]
  ]
]

named-Says :
    (o : Option Text) (f : Text → Ctx)
    → ((name : Text) → Says false (some (f name)))
    → Says false (o >>= λ name. some (f name))
named-Says none f h = tt
named-Says (some name) f h = h name

cop0-Says :
    (word : ℕ) (c : Ctx)
    → Says
        (expected (is_group GroupOp.group_cop0 word) (unlisted_group GroupOp.group_cop0 word))
        (disasm_cop0 word c)
unfolding disasm_cop0 set_illegal set_result text format
cop0-Says word c = elim (Bool-cases (instr_rs word == 0x00)) [
  | inl e ↦ rw e (named-Says (cop0_cpr (instr_rd word)) _ (λ name. refl))
  | inr e ↦ elim (Bool-cases (instr_rs word == 0x04)) [
    | inl f ↦ rw (e, f) (named-Says (cop0_cpr (instr_rd word)) _ (λ name. refl))
    | inr f ↦ rw (e, f) (either (instr_funct word == 0x10))
  ]
]
  where
    either : (b : Bool) → true ≡ expected b true
    either true = refl
    either false = refl

group-Says :
    (i : GroupOp) (word pc : ℕ) (c : Ctx)
    → Says (expected (is_group i word) (unlisted_group i word)) (disasm_group i word pc c)
unfolding disasm_group set_illegal set_result text format
group-Says GroupOp.group_special word pc c =
    elim (decode_special (instr_funct word))
      as (λ o.
        Says
          (expected (elim o as (λ y. Bool) [ some i ↦ true | none ↦ false ])
            (elim o as (λ y. Bool) [ some i ↦ unlisted_special i | none ↦ false ]))
          (elim o as (λ y. Option Ctx) [
            | some i ↦ some (disasm_special i word c)
            | none ↦ some (set_illegal word c)
          ])) [ some i ↦ special-Says i word c | none ↦ refl ]
group-Says GroupOp.group_bcond word pc c = bcond-Says word pc c
group-Says GroupOp.group_cop0 word pc c = cop0-Says word c
group-Says _ word pc c = refl

instr-Says :
    (word pc : ℕ) (c : Ctx)
    → Says (expected (is_instruction word) (unlisted word)) (instr word pc c)
unfolding instr is_instruction unlisted set_illegal set_result text format
instr-Says word pc c =
    elim (decode_op (instr_op word))
      as (λ o.
        Says
          (expected (elim o as (λ y. Bool) [ some i ↦ is_group i word | none ↦ false ])
            (elim o as (λ y. Bool) [ some i ↦ unlisted_group i word | none ↦ false ]))
          (elim o as (λ y. Option Ctx) [
            | some i ↦ disasm_group i word pc c
            | none ↦ some (set_illegal word c)
          ])) [ some i ↦ group-Says i word pc c | none ↦ refl ]

-- A disassembly that has a result begins with `illegal` exactly for the words that the processor
-- traps, and for some that it executes: `srlv`, `srav`, `syscall`, `break` and `rfe`, and the branches
-- on a sign but `bltz`, `bgez` and `bltzal`.
pub instr-begins :
    (word pc : ℕ) (c d : Ctx)
    → instr word pc c ≡ some d
    → begins (text "illegal") d.disasm.str ≡ (if is_instruction word then unlisted word else true)
instr-begins word pc c d h =
    subst (Says (expected (is_instruction word) (unlisted word))) h (instr-Says word pc c)
