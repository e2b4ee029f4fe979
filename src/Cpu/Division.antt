-- ===== src/Cpu/Division.antt =====
-- `div` of core/cpu.c: the quotient and remainder of signed operands, cut towards zero.
use native.Mathlib.Nat.{mul-le-mul}
use psycho.Prelude.{
  le-or_lt, ℕ, ◌+◌, ◌*◌, ◌/◌, ◌%◌, ◌^◌, ◌≤◌, ◌<◌, ◌≡◌, ◌≢◌, ◌==◌, ◌∙◌, if◌then◌else◌, arith, refl,
  Bool, true, false, Bool-cases, inl, inr,
}
use psycho.Prelude.Int.{ℤ, pos, negsuc, ◌*ℤ◌, ◌+ℤ◌, pos_part, neg_part, sub_ℕ}
use psycho.CpuDefs.{instr_rs, instr_rt}
use psycho.Word.{s32, neg32, abs32, is_neg, sdiv, srem, slt}
use psycho.State.{Ctx}
use psycho.Cpu.Special.{gpr_rs, gpr_rt, div}
use psycho.Cpu.Valid.{IsWide}

-- A pattern that stands for a number with these two parts.
abbrev Parts : ℕ → ℕ → ℕ → Type 0
Parts x p n = (pos_part (s32 x) ≡ p) × (neg_part (s32 x) ≡ n)

at_least_zero : (x : ℕ) → x < 0x8000_0000 → Parts x x 0
unfolding s32
at_least_zero x h = ground arith

at_most_zero : (x : ℕ) → x ≤ 0x8000_0000 → Parts (neg32 x) 0 x
unfolding s32
at_most_zero x h = ground arith

sub_ℕ-eq : (a b c d : ℕ) → a + d ≡ c + b → sub_ℕ a b ≡ sub_ℕ c d
sub_ℕ-eq a b c d h = ground arith

of_parts : (z : ℤ) → sub_ℕ (pos_part z) (neg_part z) ≡ z
of_parts (pos n) = ground arith
of_parts (negsuc n) = ground arith

sub_ℕ-sum :
    (m n p k : ℕ)
    → sub_ℕ (pos_part (sub_ℕ m n) + p) (neg_part (sub_ℕ m n) + k) ≡ sub_ℕ (m + p) (n + k)
sub_ℕ-sum m n p k = ground arith

-- A division is exact by the parts of its four numbers.
exact :
    (q b r a : ℤ)
    → pos_part q * pos_part b + neg_part q * neg_part b + pos_part r + neg_part a
      ≡ pos_part a + (pos_part q * neg_part b + neg_part q * pos_part b + neg_part r)
    → q *ℤ b +ℤ r ≡ a
unfolding ◌*ℤ◌ ◌+ℤ◌
exact q b r a h =
    sub_ℕ-sum (pos_part q * pos_part b + neg_part q * neg_part b)
      (pos_part q * neg_part b + neg_part q * pos_part b) (pos_part r) (neg_part r)
    ∙ sub_ℕ-eq _ _ _ _ h
    ∙ of_parts a

-- Euclid's division of the magnitudes.
abbrev Divides : ℕ → ℕ → Type 0
Divides m n = (m / n * n + m % n ≡ m) × (m % n < n) × (m / n ≤ m)

divides : (m n : ℕ) → n ≢ 0 → Divides m n
divides m n h = ground arith

-- What the quotient and the remainder of `a` by `b` stand for.
abbrev pub Cuts : ℕ → ℕ → ℕ → ℕ → Type 0
Cuts a b q r =
    (s32 q *ℤ s32 b +ℤ s32 r ≡ s32 a)
    × (abs32 r < abs32 b)
    × (if is_neg a then pos_part (s32 r) ≡ 0 else neg_part (s32 r) ≡ 0)

pos_pos : (a b : ℕ) → a < 0x8000_0000 → b < 0x8000_0000 → b ≢ 0 → Cuts a b (a / b) (a % b)
pos_pos a b h k n =
    let (e, l, q) = divides a b n in
    let (qp, qn) = at_least_zero (a / b) (omega arith) in
    let (rp, rn) = at_least_zero (a % b) (omega arith) in
    let (ap, an) = at_least_zero a h in
    let (bp, bn) = at_least_zero b k in
    (
      exact _ _ _ _ (rw (qp, qn, rp, rn, ap, an, bp, bn) (omega (arith, e))),
      ground (arith, l),
      ground (arith, rn),
    )

-- A negative word and its magnitude.
below_zero : (x : ℕ) → 0x8000_0000 ≤ x → x < 2 ^ 32 → Parts x 0 (neg32 x)
unfolding s32
below_zero x h k = ground arith

abs_neg : (x : ℕ) → x ≤ 0x8000_0000 → abs32 (neg32 x) ≡ x
abs_neg x h = ground arith

pos_neg :
    (a b : ℕ)
    → a < 0x8000_0000
    → 0x8000_0000 ≤ b
    → b < 2 ^ 32
    → Cuts a b (neg32 (a / neg32 b)) (a % neg32 b)
pos_neg a b h k j =
    let (e, l, q) = divides a (neg32 b) (λ z. omega arith) in
    let (qp, qn) = at_most_zero (a / neg32 b) (omega arith) in
    let (rp, rn) = at_least_zero (a % neg32 b) (omega arith) in
    let (ap, an) = at_least_zero a h in
    let (bp, bn) = below_zero b k j in
    (
      exact _ _ _ _ (rw (qp, qn, rp, rn, ap, an, bp, bn) (omega (arith, e))),
      ground (arith, l),
      ground (arith, rn),
    )

neg_pos :
    (a b : ℕ)
    → 0x8000_0000 ≤ a
    → a < 2 ^ 32
    → b < 0x8000_0000
    → b ≢ 0
    → Cuts a b (neg32 (neg32 a / b)) (neg32 (neg32 a % b))
neg_pos a b h i k n =
    let (e, l, q) = divides (neg32 a) b n in
    let (qp, qn) = at_most_zero (neg32 a / b) (omega arith) in
    let (rp, rn) = at_most_zero (neg32 a % b) (omega arith) in
    let (ap, an) = below_zero a h i in
    let (bp, bn) = at_least_zero b k in
    (
      exact _ _ _ _ (rw (qp, qn, rp, rn, ap, an, bp, bn) (omega (arith, e))),
      ground (arith, l, abs_neg (neg32 a % b) (omega arith)),
      ground (arith, rp),
    )

twice_le : (q n m : ℕ) → q * n ≤ m → 2 ≤ n → q * 2 ≤ m
twice_le q n m h k = let p : q * 2 ≤ q * n = mul-le-mul (omega arith) k in omega arith

quotient_lt : (m n : ℕ) → n ≢ 0 → m ≤ 0x8000_0000 → (m ≡ 0x8000_0000 → n ≢ 1) → m / n < 0x8000_0000
quotient_lt m n z k o =
    let (e, l, q) = divides m n z in
    elim (le-or_lt n 1) [
      | inl one ↦ let t : m ≢ 0x8000_0000 = λ e. o e (omega arith) in omega arith
      | inr more ↦ omega (arith, twice_le (m / n) n m (omega (arith, e)) more)
    ]

neg_neg :
    (a b : ℕ)
    → 0x8000_0000 ≤ a
    → a < 2 ^ 32
    → 0x8000_0000 ≤ b
    → b < 2 ^ 32
    → neg32 a / neg32 b < 0x8000_0000
    → Cuts a b (neg32 a / neg32 b) (neg32 (neg32 a % neg32 b))
neg_neg a b h i k j s =
    let (e, l, q) = divides (neg32 a) (neg32 b) (λ z. omega arith) in
    let (qp, qn) = at_least_zero (neg32 a / neg32 b) s in
    let (rp, rn) = at_most_zero (neg32 a % neg32 b) (omega arith) in
    let (ap, an) = below_zero a h i in
    let (bp, bn) = below_zero b k j in
    (
      exact _ _ _ _ (rw (qp, qn, rp, rn, ap, an, bp, bn) (omega (arith, e))),
      ground (arith, l, abs_neg (neg32 a % neg32 b) (omega arith)),
      ground (arith, rp),
    )

-- The case that the code takes apart: its quotient is not an `s32`.
abbrev pub is_exceptional : ℕ → ℕ → Bool
is_exceptional a b = if a == 0x8000_0000 then b == 0xFFFF_FFFF else false

-- The result by the signs of its operands.
by_signs :
    (a b : ℕ) (s t : Bool)
    → a < 2 ^ 32
    → b < 2 ^ 32
    → b ≢ 0
    → is_exceptional a b ≡ false
    → is_neg a ≡ s
    → is_neg b ≡ t
    → let m = if s then neg32 a else a in
      let n = if t then neg32 b else b in
      let q = m / n in
      Cuts a b
        (if s then (if t then q else neg32 q) else (if t then neg32 q else q))
        (if s then neg32 (m % n) else m % n)
by_signs a b true true h k n x s t =
    let large_a : 0x8000_0000 ≤ a = ground (arith, s) in
    let large_b : 0x8000_0000 ≤ b = ground (arith, t) in
    neg_neg a b large_a h large_b k
      (quotient_lt (neg32 a) (neg32 b) (λ e. omega arith) (omega arith) (λ e o. ground (arith, x)))
by_signs a b true false h k n x s t = neg_pos a b (ground (arith, s)) h (ground (arith, t)) n
by_signs a b false true h k n x s t = pos_neg a b (ground (arith, s)) (ground (arith, t)) k
by_signs a b false false h k n x s t = pos_pos a b (ground (arith, s)) (ground (arith, t)) n

divided :
    (a b : ℕ)
    → a < 2 ^ 32
    → b < 2 ^ 32
    → b ≢ 0
    → is_exceptional a b ≡ false
    → Cuts a b (sdiv a b) (srem a b)
unfolding sdiv srem
divided a b h k n x = by_signs a b (is_neg a) (is_neg b) h k n x refl refl

by_zero :
    (a : ℕ)
    → a < 2 ^ 32
    → s32 (if slt a 0 then 1 else 0xFFFF_FFFF) ≡ (if is_neg a then pos 1 else negsuc 0)
unfolding s32 slt
by_zero a h = ground arith

-- In a well-formed CPU, `div` leaves in LO the quotient and in HI the remainder of its operands as
-- signed numbers: exact, the remainder smaller than the divisor and with the dividend's sign. By zero
-- it leaves the dividend in HI, and 1 or -1 in LO as the dividend is negative or not; and the least
-- number divided by -1 is itself, without a remainder.
pub div_lem :
    (c : Ctx)
    → IsWide c.cpu
    → let a = gpr_rs c in
      let b = gpr_rt c in
      let d = div c in
      if b == 0
      then (d.cpu.hi ≡ a) × (s32 d.cpu.lo ≡ (if is_neg a then pos 1 else negsuc 0))
      else if is_exceptional a b
      then (d.cpu.lo ≡ a) × (d.cpu.hi ≡ 0)
      else Cuts a b d.cpu.lo d.cpu.hi
unfolding div
div_lem c w =
    let a = gpr_rs c in
    let b = gpr_rt c in
    let h : a < 2 ^ 32 = w.gpr_word (instr_rs c.cpu.instr) in
    let k : b < 2 ^ 32 = w.gpr_word (instr_rt c.cpu.instr) in
    elim (Bool-cases (b == 0)) [
      | inl z ↦ rw z (refl, by_zero a h)
      | inr z ↦ elim (Bool-cases (is_exceptional a b)) [
        | inl x ↦ rw (z, x) (refl, refl)
        | inr x ↦ rw (z, x) (divided a b h k (ground (arith, z)) x)
      ]
    ]
