-- ===== src/Text/Length.antt =====
-- How many characters a format prints.
use psycho.Prelude.{ℕ, zero, suc, ◌+◌, ◌-◌, ◌/◌, ◌%◌, ◌≤◌, ◌≡◌, arith}
use psycho.Prelude.{List, [], ◌∷◌, ◌++◌}
use psycho.Text.{
  Text, Arg, num, str, length, hex, decimal, digit, digits_in, pad, convert, scan, Mode, plain,
  directive, is_digit, format,
}

pub length-append {ℓ} : {A : Type ℓ} (xs ys : List A) → length (xs ++ ys) ≡ length xs + length ys
length-append [] ys = omega arith
length-append (x ∷ xs) ys = omega (arith, length-append xs ys)

digits_in-le :
    (base fuel n : ℕ) (acc : Text) → length (digits_in base fuel n acc) ≤ fuel + length acc
unfolding digits_in
digits_in-le base zero n acc = omega arith
digits_in-le base (suc fuel) n acc =
    ground (arith, digits_in-le base fuel (n / base) (digit (n % base) ∷ acc))

pad-le : (width k : ℕ) (s : Text) → width ≤ k → length s ≤ k → length (pad width s) ≤ k
unfolding pad
pad-le zero k s h l = l
pad-le (suc width) k s h l = ground (arith, pad-le width width s)

-- A number takes ten characters at most, and a string as many as it has.
abbrev pub weight : Arg → ℕ
weight (num n) = 10
weight (str s) = length s

abbrev pub weights : List Arg → ℕ
weights [] = 0
weights (a ∷ args) = weight a + weights args

pub length-hex : (width n : ℕ) → width ≤ 10 → length (hex width n) ≤ 10
unfolding hex
length-hex width n h = pad-le width 10 _ h (omega (arith, digits_in-le 16 8 n []))

pub length-decimal : (n : ℕ) → length (decimal n) ≤ 10
unfolding decimal
length-decimal n = omega (arith, digits_in-le 10 10 n [])

convert-le : (width c : ℕ) (a : Arg) → width ≤ 10 → length (convert width c a) ≤ weight a
unfolding convert
convert-le width c (str s) h = omega arith
convert-le width c (num n) h = ground (arith, length-hex width n h, length-decimal n)

-- The width of a directive has one digit.
abbrev Narrow : Mode → Type 0
Narrow plain = Unit {0}
Narrow (directive w) = w ≤ 10

scan-le :
    (m : Mode) (f : Text) (args : List Arg)
    → Narrow m
    → length (scan m f args) ≤ length f + weights args
unfolding scan is_digit
scan-le plain [] args h = omega arith
scan-le (directive w) [] args h = omega arith
scan-le plain (c ∷ cs) args h =
    ground (arith, scan-le (directive 0) cs args, scan-le plain cs args tt)
scan-le (directive w) (c ∷ cs) [] h = omega (arith, scan-le plain cs [] tt)
scan-le (directive w) (c ∷ cs) (a ∷ args) h = ground (
  arith,
  scan-le (directive (c - b'0')) cs (a ∷ args),
  scan-le plain cs args tt,
  convert-le w c a h,
  length-append (convert w c a) (scan plain cs args),
)

-- A format prints no more than itself and its arguments.
pub length-format : (f : Text) (args : List Arg) → length (format f args) ≤ length f + weights args
unfolding format
length-format f args = scan-le plain f args tt
