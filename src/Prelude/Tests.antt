-- ===== src/Prelude/Tests.antt =====
-- Boolean tests on the native numbers, the conditional, and casts of C's truth values.
use Prim.Native.Nat.{ℕ, ◌≤◌, ◌<◌, compare, Ordering}
use mathlib.Core.Path.{◌≡◌, refl}
use mathlib.Core.Logic.{◌≢◌, ◌⊎◌, inl, inr}
use mathlib.Core.Bool.{Bool, true, false}
use mathlib.Core.Option.{Option, none, some, some-injective}
use native.Mathlib.Omega.{arith}

abbrev pub ltb : ℕ → ℕ → Bool
ltb a b = elim (compare a b) [ Ordering.lt ↦ true | _ ↦ false ]

abbrev pub leb : ℕ → ℕ → Bool
leb a b = elim (compare a b) [ Ordering.gt ↦ false | _ ↦ true ]

infix 50 ◌==◌
abbrev pub ◌==◌ : ℕ → ℕ → Bool
a == b = elim (compare a b) [ Ordering.eq ↦ true | _ ↦ false ]

infix 1 if◌then◌else◌
abbrev pub if◌then◌else◌ {ℓ} : {A : Type ℓ} → Bool → A → A → A
if true then x else y = x
if false then x else y = y

-- A comparison of C as the number that it yields.
abbrev pub truth : Bool → ℕ
truth true = 1
truth false = 0

infixl 5 ◌>>=◌
abbrev pub ◌>>=◌ : {A B : Type 0} → Option A → (A → Option B) → Option B
none >>= f = none
some a >>= f = f a

-- `case lo ... hi`, both ends included.
abbrev pub in_range : ℕ → ℕ → ℕ → Bool
in_range lo hi x = if leb lo x then leb x hi else false

pub Bool-cases : (b : Bool) → (b ≡ true) ⊎ (b ≡ false)
Bool-cases true = inl refl
Bool-cases false = inr refl

pub ==-of_eq : {a b : ℕ} → a ≡ b → (a == b) ≡ true
==-of_eq h = ground arith

pub ==-of_ne : {a b : ℕ} → a ≢ b → (a == b) ≡ false
==-of_ne h = ground arith

pub ltb-of_lt : {a b : ℕ} → a < b → ltb a b ≡ true
ltb-of_lt h = ground arith

pub ltb-of_le : {a b : ℕ} → b ≤ a → ltb a b ≡ false
ltb-of_le h = ground arith

pub of_some {ℓ} : {A : Type ℓ} {x y : A} → some x ≡ some y → x ≡ y
of_some {x} {y} h = some-injective x y h

-- What both branches have, the conditional has.
pub if_both {ℓ κ} :
    {A : Type ℓ} (Q : A → Type κ) (test : Bool) {a a' : A} → Q a → Q a' → Q (if test then a else a')
if_both Q true u v = u
if_both Q false u v = v

-- A conditional that has a value had it from one of its branches.
pub if_cases {ℓ κ} :
    {A : Type ℓ} {P : Type κ} (b : Bool) {x y a : A}
    → (if b then x else y) ≡ a
    → (x ≡ a → P)
    → (y ≡ a → P)
    → P
if_cases true h f g = f h
if_cases false h f g = g h

pub le-or_lt : (a b : ℕ) → (a ≤ b) ⊎ (b < a)
le-or_lt a b = omega arith
