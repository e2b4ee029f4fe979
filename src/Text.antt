-- ===== src/Text.antt =====
-- C strings as lists of byte values, and the part of `printf` that the emulator's format strings
-- use: `%s`, `%c`, `%u`, `%d` and `%0<width>X`.
pub mod Length
use Prim.Native.Char.{code}
use Prim.Native.String.{String}
use psycho.Prelude.{ℕ, zero, suc, ◌+◌, ◌-◌, ◌/◌, ◌%◌, ◌==◌, ltb, if◌then◌else◌}
use psycho.Prelude.{List, [], ◌∷◌, ◌++◌, Bool, false, ◌≡◌, refl}

abbrev pub Text : Type 0
Text = List ℕ

unfoldable pub text : String → Text
text String.[] = []
text (String.◌∷◌ c s) = code c ∷ text s

abbrev pub length {ℓ} : {A : Type ℓ} → List A → ℕ
length [] = 0
length (x ∷ xs) = suc (length xs)

-- An argument after the format: a number, or a pointer to a string.
pub data Arg : Type 0 where
  num : ℕ → Arg
  str : Text → Arg

digit : ℕ → ℕ
digit d = if ltb d 10 then b'0' + d else b'A' + (d - 10)

-- The digits of `n` in a base, in front of `acc`; the fuel is the most digits that 32 bits need.
digits_in : ℕ → ℕ → ℕ → Text → Text
unfolding digit
digits_in base zero n acc = acc
digits_in base (suc fuel) n acc =
    let acc' = digit (n % base) ∷ acc in
    let rest = digits_in base fuel (n / base) acc' in if ltb n base then acc' else rest

pad : ℕ → Text → Text
pad zero s = s
pad (suc width) s = if ltb (length s) (suc width) then b'0' ∷ pad width s else s

-- `%0<width>X` and `%u` of an `unsigned int`.
unfoldable pub hex : ℕ → ℕ → Text
unfolding digits_in pad
hex width n = pad width (digits_in 16 8 n [])

unfoldable pub decimal : ℕ → Text
unfolding digits_in
decimal n = digits_in 10 10 n []

-- Where the scan of the format stands: outside a directive, or behind `%` with the width so far.
pub data Mode : Type 0 where
  plain : Mode
  directive : ℕ → Mode

-- What one conversion character prints of its argument.
convert : ℕ → ℕ → Arg → Text
unfolding hex decimal
convert width c (str s) = s
convert width c (num n) =
    if c == b'X' then hex width n else if c == b'c' then n % 256 ∷ [] else decimal n

is_digit : ℕ → Bool
is_digit c = if ltb c b'0' then false else ltb c (b'9' + 1)

scan : Mode → Text → List Arg → Text
unfolding convert is_digit
scan m [] args = []
scan plain (c ∷ cs) args = if c == b'%' then scan (directive 0) cs args else c ∷ scan plain cs args
scan (directive w) (c ∷ cs) [] = scan plain cs []
scan (directive w) (c ∷ cs) (a ∷ args) =
    let more = scan (directive (c - b'0')) cs (a ∷ args) in
    let done = convert w c a ++ scan plain cs args in if is_digit c then more else done

-- What `sprintf` writes before the terminating NUL.
unfoldable pub format : Text → List Arg → Text
unfolding scan
format f args = scan plain f args

format_example :
    format (text "0x%08X: %s %u") (num 0xBFC0 ∷ str (text "nop") ∷ num 31 ∷ [])
    ≡ text "0x0000BFC0: nop 31"
unfolding format text
format_example = refl
