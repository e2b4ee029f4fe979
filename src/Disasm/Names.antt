-- ===== src/Disasm/Names.antt =====
-- The register names of core/disasm.c.
use psycho.Prelude.{
  ℕ, zero, suc, ◌≤◌, ◌≡◌, ◌==◌, arith, if◌then◌else◌, Option, none, some, List, [], ◌∷◌,
}
use psycho.Text.{Text, text, length}

entry : List Text → ℕ → Text
entry [] i = []
entry (x ∷ xs) zero = x
entry (x ∷ xs) (suc i) = entry xs i

-- The table `gpr`.
gpr_names : List Text
unfolding text
gpr_names =
    text "$zero"
    ∷ text "$at"
    ∷ text "$v0"
    ∷ text "$v1"
    ∷ text "$a0"
    ∷ text "$a1"
    ∷ text "$a2"
    ∷ text "$a3"
    ∷ text "$t0"
    ∷ text "$t1"
    ∷ text "$t2"
    ∷ text "$t3"
    ∷ text "$t4"
    ∷ text "$t5"
    ∷ text "$t6"
    ∷ text "$t7"
    ∷ text "$s0"
    ∷ text "$s1"
    ∷ text "$s2"
    ∷ text "$s3"
    ∷ text "$s4"
    ∷ text "$s5"
    ∷ text "$s6"
    ∷ text "$s7"
    ∷ text "$t8"
    ∷ text "$t9"
    ∷ text "$k0"
    ∷ text "$k1"
    ∷ text "$gp"
    ∷ text "$sp"
    ∷ text "$fp"
    ∷ text "$ra"
    ∷ []

unfoldable pub gpr_name : ℕ → Text
unfolding entry gpr_names
gpr_name r = entry gpr_names r

name_of : List (ℕ × Text) → ℕ → Option Text
name_of [] r = none
name_of ((k, name) ∷ rest) r = if k == r then some name else name_of rest r

-- The table `cop0_cpr`, where a register without an entry is a null pointer.
cop0_names : List (ℕ × Text)
unfolding text
cop0_names =
    (3, text "BPC")
    ∷ (5, text "BDA")
    ∷ (6, text "TAR")
    ∷ (7, text "DCIC")
    ∷ (8, text "BadA")
    ∷ (9, text "BDAM")
    ∷ (11, text "BPCM")
    ∷ (12, text "SR")
    ∷ (13, text "CAUSE")
    ∷ (14, text "EPC")
    ∷ (15, text "PRID")
    ∷ []

unfoldable pub cop0_cpr : ℕ → Option Text
unfolding name_of cop0_names
cop0_cpr r = name_of cop0_names r

-- Every entry of a table of short names is short.
abbrev Short : ℕ → List Text → Type 0
Short n [] = Unit
Short n (x ∷ xs) = (length x ≤ n) × Short n xs

entry-le : (n : ℕ) (xs : List Text) (i : ℕ) → Short n xs → length (entry xs i) ≤ n
unfolding entry
entry-le n [] i h = omega arith
entry-le n (x ∷ xs) zero h = h.0
entry-le n (x ∷ xs) (suc i) h = entry-le n xs i h.1

gpr_names-Short : Short 5 gpr_names
unfolding gpr_names text
gpr_names-Short = omega arith

-- The name of a register has at most five characters.
pub length-gpr_name : (r : ℕ) → length (gpr_name r) ≤ 5
unfolding gpr_name
length-gpr_name r = entry-le 5 gpr_names r gpr_names-Short

abbrev ShortNames : ℕ → List (ℕ × Text) → Type 0
ShortNames n [] = Unit
ShortNames n ((k, x) ∷ xs) = (length x ≤ n) × ShortNames n xs

name_of-le :
    (n : ℕ) (xs : List (ℕ × Text)) (r : ℕ) (x : Text)
    → ShortNames n xs
    → name_of xs r ≡ some x
    → length x ≤ n
unfolding name_of
name_of-le n [] r x h e = cc
name_of-le n ((k, y) ∷ xs) r x h e = ground (arith, name_of-le n xs r x h.1)

cop0_names-ShortNames : ShortNames 5 cop0_names
unfolding cop0_names text
cop0_names-ShortNames = omega arith

pub length-cop0_cpr : (r : ℕ) (x : Text) → cop0_cpr r ≡ some x → length x ≤ 5
unfolding cop0_cpr
length-cop0_cpr r x e = name_of-le 5 cop0_names r x cop0_names-ShortNames e
