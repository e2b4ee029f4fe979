-- ===== src/BiosTrace/Array.antt =====
-- Arrays of characters that hold a text at their head and zeros behind it.
use mathlib.Core.Path.{fun_ext}
use psycho.Prelude.{ℕ, zero, suc, ◌<◌, ◌≡◌, ◌≢◌, arith, refl, none, some}
use psycho.Prelude.{[], ◌∷◌, ◌++◌, ==-of_ne}
use psycho.Text.{Text, length}
use psycho.Memory.{update}
use psycho.BiosTrace.{c_string}

abbrev pub array_of : Text → ℕ → ℕ
array_of [] i = 0
array_of (x ∷ xs) zero = x
array_of (x ∷ xs) (suc i) = array_of xs i

-- Characters that can stand in a line: no NUL and no newline.
abbrev pub Plain : Text → Type 0
Plain [] = Unit {0}
Plain (x ∷ xs) = (x < 256) × (x ≢ 0) × (x ≢ b'\n') × Plain xs

abbrev pub NoNul : Text → Type 0
NoNul [] = Unit {0}
NoNul (x ∷ xs) = (x ≢ 0) × NoNul xs

update-array_of_at :
    (s : Text) (x i : ℕ) → update (array_of s) (length s) x i ≡ array_of (s ++ x ∷ []) i
update-array_of_at [] x zero = ground arith
update-array_of_at [] x (suc i) = ground arith
update-array_of_at (y ∷ s) x zero = ground arith
update-array_of_at (y ∷ s) x (suc i) = ground (arith, update-array_of_at s x i)

-- A character written behind the text is appended to it.
pub update-array_of : (s : Text) (x : ℕ) → update (array_of s) (length s) x ≡ array_of (s ++ x ∷ [])
update-array_of s x = fun_ext (update-array_of_at s x)

-- A text without NUL in an array with room for its NUL is read back.
pub c_string-array_of :
    (n : ℕ) (s : Text) → length s < n → NoNul s → c_string n (array_of s) ≡ some s
unfolding c_string
c_string-array_of zero s h k = absurd (omega arith)
c_string-array_of (suc n) [] h k = refl
c_string-array_of (suc n) (x ∷ s) h (k, ks) =
    rw (==-of_ne k, c_string-array_of n s (omega arith) ks)

-- An array without NUL has no text.
pub c_string-eq-none : (n : ℕ) (f : ℕ → ℕ) → ((i : ℕ) → i < n → f i ≢ 0) → c_string n f ≡ none
unfolding c_string
c_string-eq-none zero f h = refl
c_string-eq-none (suc n) f h = rw (
  ==-of_ne (h 0 (omega arith)),
  c_string-eq-none n (λ i. f (suc i)) (λ i k. h (suc i) (omega arith)),
)
