-- ===== src/Memory/Laws.antt =====
-- What was written is read back, elsewhere nothing changes, and bytes stay bytes.
use native.Mathlib.Nat.{pow-succ', mod-eq-sub-mul-div, mul-div-le, div-div-eq-div-mul}
use native.Mathlib.Decide.{dec_lt}
use psycho.Prelude.{ℕ, zero, suc, ◌+◌, ◌*◌, ◌/◌, ◌%◌, ◌^◌, ◌≤◌, ◌<◌, ◌-◌, leb, ltb, if◌then◌else◌}
use psycho.Prelude.{◌≡◌, ◌⊎◌, refl, ap, arith}
use psycho.Memory.{le_value, le_update, update}

abbrev pub IsBytes : (ℕ → ℕ) → Type 0
IsBytes f = (i : ℕ) → f i < 256

pub le_value-lt : (n : ℕ) (f : ℕ → ℕ) (i : ℕ) → IsBytes f → le_value n f i < 256 ^ n
le_value-lt zero f i h = omega arith
le_value-lt (suc n) f i h = omega (arith, h i, le_value-lt n f (i + 1) h, pow-succ' 256 n)

pub le_update-IsBytes : (n : ℕ) (f : ℕ → ℕ) (i v : ℕ) → IsBytes f → IsBytes (le_update n f i v)
le_update-IsBytes zero f i v h j = h j
le_update-IsBytes (suc n) f i v h j = ground (arith, le_update-IsBytes n f (i + 1) (v / 256) h j)

-- A byte outside the `n` bytes at `i` is left alone.
pub le_update_outside :
    (n : ℕ) (f : ℕ → ℕ) (i v j : ℕ) → (j < i) ⊎ (i + n ≤ j) → le_update n f i v j ≡ f j
le_update_outside zero f i v j h = refl
le_update_outside (suc n) f i v j h = ground (arith, le_update_outside n f (i + 1) (v / 256) j)

pub le_value_ext :
    (n : ℕ) (f g : ℕ → ℕ) (i : ℕ)
    → ((j : ℕ) → i ≤ j → j < i + n → f j ≡ g j)
    → le_value n f i ≡ le_value n g i
le_value_ext zero f g i h = refl
le_value_ext (suc n) f g i h = omega (
  arith,
  h i (omega arith) (omega arith),
  le_value_ext n f g (i + 1) (λ j p q. h j (omega arith) (omega arith)),
)

mod_byte : (a p : ℕ) → a % (256 * p) ≡ a / 256 % p * 256 + a % 256
mod_byte a p = omega (
  arith,
  mod-eq-sub-mul-div a (256 * p),
  mod-eq-sub-mul-div (a / 256) p,
  mul-div-le (a / 256) p,
  div-div-eq-div-mul a 256 p,
  ap (λ (t : ℕ). p * t) (div-div-eq-div-mul a 256 p),
)

mod_bytes : (a n : ℕ) → a % 256 ^ suc n ≡ a / 256 % 256 ^ n * 256 + a % 256
mod_bytes a n = rw (pow-succ' 256 n) (mod_byte a (256 ^ n))

update_other : (f : ℕ → ℕ) (i v j : ℕ) → i < j → update f i v j ≡ f j
update_other f i v j h = ground arith

-- The low `n` bytes of a written value are read back.
pub le_value-le_update :
    (n : ℕ) (f : ℕ → ℕ) (i v : ℕ) → le_value n (le_update n f i v) i ≡ v % 256 ^ n
le_value-le_update zero f i v = omega arith
le_value-le_update (suc n) f i v =
    let g : ℕ → ℕ = le_update n f (i + 1) (v / 256) in
    ground (
      arith,
      le_value_ext n (update g i (v % 256)) g (i + 1)
          (λ j p q. update_other g i (v % 256) j (omega arith)),
      le_value-le_update n f (i + 1) (v / 256),
      mod_bytes v n,
    )

next_digit : (i v j : ℕ) → i < j → v / 256 / 256 ^ (j - (i + 1)) ≡ v / 256 ^ (j - i)
next_digit i v j h =
    let e : j - i ≡ suc (j - (i + 1)) = omega arith in
    rw e (rw (pow-succ' 256 (j - (i + 1))) (div-div-eq-div-mul v 256 (256 ^ (j - (i + 1)))))

first_digit : (i v j : ℕ) → i ≡ j → v / 256 ^ (j - i) ≡ v
first_digit i v j h = let e : j - i ≡ 0 = omega arith in rw e (omega arith)

-- The byte at any index after a write: a digit of the value inside, the old byte outside.
pub le_update_lem :
    (n : ℕ) (f : ℕ → ℕ) (i v j : ℕ)
    → le_update n f i v j
      ≡ (if leb i j then (if ltb j (i + n) then v / 256 ^ (j - i) % 256 else f j) else f j)
le_update_lem zero f i v j = ground arith
le_update_lem (suc n) f i v j = elim (dec_lt i j) [
  | yes p ↦ ground (arith, le_update_lem n f (i + 1) (v / 256) j, next_digit i v j p)
  | no q ↦ elim (dec_lt j i) [
    | yes r ↦ ground (arith, le_update_lem n f (i + 1) (v / 256) j)
    | no r ↦ ground (arith, first_digit i v j (omega arith))
  ]
]
