-- ===== src/Disasm/Fits.antt =====
-- The text of `psycho_disasm_instr` of core/disasm.c and the size of its array.
use psycho.Prelude.{
  ℕ, ◌≤◌, ◌<◌, ◌≡◌, ◌==◌, arith, refl, if_both, Option, some, none, List, [], ◌∷◌, of_some, ◌>>=◌,
}
use mathlib.Core.Path.{subst}
use psycho.Text.{Text, Arg, num, str, text, length}
use psycho.Text.Length.{weights, length-format}
use psycho.State.{Ctx}
use psycho.CpuDefs.{instr_op, instr_rs, instr_rt, instr_rd, instr_funct, calc_branch_addr}
use psycho.Cpu.Decode.{GroupOp, GroupSpecial, decode_op, decode_special}
use psycho.Disasm.Names.{gpr_name, length-gpr_name, cop0_cpr, length-cop0_cpr}
use psycho.Disasm.{
  set_result, set_illegal, rs, rt, disasm_special, disasm_bcond, disasm_cop0, disasm_group, instr,
}

abbrev pub disasm_len_max : ℕ
disasm_len_max = 256

-- From `c` to `d` a text was printed: `result.len` is the length of the text in `result.str`, which
-- has room for its NUL, and nothing else has changed.
pub record Fits (c d : Ctx) : Type 0 where
  pub len_eq : d.disasm.len ≡ length d.disasm.str
  pub len_lt : d.disasm.len < disasm_len_max
  pub rest_eq :
      d ≡ record c { disasm = record (c.disasm) { str = d.disasm.str; len = d.disasm.len } }

set_result-Fits :
    (n : Text) (args : List Arg) (c : Ctx)
    → length n ≤ 64
    → weights args ≤ 64
    → Fits c (set_result n args c)
unfolding set_result
set_result-Fits n args c h k = record {
  len_eq = refl;
  len_lt = omega (arith, length-format n args);
  rest_eq = refl;
}

-- A result that is replaced leaves no trace.
replaced-Fits :
    (n : Text) (args : List Arg) (word : ℕ) (c : Ctx)
    → Fits c (set_illegal word (set_result n args c))
unfolding set_illegal set_result
replaced-Fits n args word c = record {
  len_eq = refl;
  len_lt = omega (arith, length-format (text "illegal 0x%08X") (num word ∷ []));
  rest_eq = refl;
}

set_illegal-Fits : (word : ℕ) (c : Ctx) → Fits c (set_illegal word c)
unfolding set_illegal
set_illegal-Fits word c = set_result-Fits _ _ c (omega arith) (omega arith)

-- The three register fields have short names.
abbrev Named : ℕ → Type 0
Named word =
    (length (gpr_name (instr_rd word)) ≤ 5)
    × (length (gpr_name (instr_rs word)) ≤ 5)
    × (length (gpr_name (instr_rt word)) ≤ 5)

named : (word : ℕ) → Named word
named word = (length-gpr_name _, length-gpr_name _, length-gpr_name _)

disasm_special-Fits : (i : GroupSpecial) (word : ℕ) (c : Ctx) → Fits c (disasm_special i word c)
unfolding disasm_special
disasm_special-Fits GroupSpecial.sll word c =
    if_both (Fits c) (word == 0) (set_result-Fits _ _ c (omega arith) (omega arith))
      (set_result-Fits _ _ c (omega arith) (omega (arith, named word)))
disasm_special-Fits GroupSpecial.srlv word c = replaced-Fits _ _ word c
disasm_special-Fits GroupSpecial.srav word c = replaced-Fits _ _ word c
disasm_special-Fits GroupSpecial.syscall word c = set_illegal-Fits word c
disasm_special-Fits GroupSpecial.break word c = set_illegal-Fits word c
disasm_special-Fits _ word c = set_result-Fits _ _ c (omega arith) (omega (arith, named word))

disasm_bcond-Fits : (word pc : ℕ) (c : Ctx) → Fits c (disasm_bcond word pc c)
unfolding disasm_bcond
disasm_bcond-Fits word pc c =
    let with_target : (n : Text)
        → length n ≤ 64
        → Fits c (set_result n (rs word ∷ num (calc_branch_addr word pc) ∷ []) c) =
      λ n h. set_result-Fits n _ c h (omega (arith, named word)) in
    if_both (Fits c) (instr_rt word == 0x00) (with_target _ (omega arith)) (
      if_both (Fits c) (instr_rt word == 0x01) (with_target _ (omega arith)) (
        if_both (Fits c) (instr_rt word == 0x10) (with_target _ (omega arith))
          (set_illegal-Fits word c)))

-- If there is a result, it fits.
data Fit (c : Ctx) : Option Ctx → Type 0 where
  undefined : Fit c none
  fits : {d : Ctx} → Fits c d → Fit c (some d)

Fit-bind :
    {A : Type 0} (c : Ctx) (o : Option A) (f : A → Option Ctx)
    → ((a : A) → o ≡ some a → Fit c (f a))
    → Fit c (o >>= f)
Fit-bind c none f h = undefined
Fit-bind c (some a) f h = h a refl

disasm_cop0-Fit : (word : ℕ) (c : Ctx) → Fit c (disasm_cop0 word c)
unfolding disasm_cop0
disasm_cop0-Fit word c =
    if_both (Fit c) (instr_rs word == 0x00)
      (Fit-bind c (cop0_cpr (instr_rd word)) _ (λ name e. fits (
        set_result-Fits _ (rt word ∷ str name ∷ []) c (omega arith)
          (omega (arith, named word, length-cop0_cpr (instr_rd word) name e)))))
      (if_both (Fit c) (instr_rs word == 0x04)
        (Fit-bind c (cop0_cpr (instr_rd word)) _ (λ name e. fits (
          set_result-Fits _ (str name ∷ rt word ∷ []) c (omega arith)
            (omega (arith, named word, length-cop0_cpr (instr_rd word) name e)))))
        (fits (set_illegal-Fits word c)))

disasm_group-Fit : (i : GroupOp) (word pc : ℕ) (c : Ctx) → Fit c (disasm_group i word pc c)
unfolding disasm_group
disasm_group-Fit GroupOp.group_special word pc c =
    elim (decode_special (instr_funct word))
      as (λ o. Fit c (elim o as (λ x. Option Ctx) [
        | some i ↦ some (disasm_special i word c)
        | none ↦ some (set_illegal word c)
      ])) [ some i ↦ fits (disasm_special-Fits i word c) | none ↦ fits (set_illegal-Fits word c) ]
disasm_group-Fit GroupOp.group_bcond word pc c = fits (disasm_bcond-Fits word pc c)
disasm_group-Fit GroupOp.group_cop0 word pc c = disasm_cop0-Fit word c
disasm_group-Fit _ word pc c =
    fits (set_result-Fits _ _ c (omega arith) (omega (arith, named word)))

instr-Fit : (word pc : ℕ) (c : Ctx) → Fit c (instr word pc c)
unfolding instr
instr-Fit word pc c =
    elim (decode_op (instr_op word))
      as (λ o. Fit c (elim o as (λ x. Option Ctx) [
        | some i ↦ disasm_group i word pc c
        | none ↦ some (set_illegal word c)
      ])) [ some i ↦ disasm_group-Fit i word pc c | none ↦ fits (set_illegal-Fits word c) ]

Fit-some : {c d : Ctx} {o : Option Ctx} → Fit c o → o ≡ some d → Fits c d
Fit-some undefined e = cc
Fit-some {c} (fits f) e = subst (Fits c) (of_some e) f

-- Whatever the instruction word, a disassembly that has a result leaves the length of its text in
-- `len`, the text and its NUL fit into the array of 256 characters, and nothing else changes.
pub instr-Fits : (word pc : ℕ) (c d : Ctx) → instr word pc c ≡ some d → Fits c d
instr-Fits word pc c d = Fit-some (instr-Fit word pc c)
