-- ===== src/Word/Arith.antt =====
-- The signed operators against the integers that the bit patterns stand for.
use psycho.Prelude.{ℕ, ◌^◌, ◌<◌, ◌≡◌, ◌↔◌, some, none, arith, if◌then◌else◌}
use psycho.Prelude.{true}
use psycho.Prelude.Int.{◌≤ℤ◌}
use psycho.Word.{add32, sub32, s32, slt, wrap, sadd_overflow, ssub_overflow, is_neg}

-- The sum of two words as `int`s overflows exactly if both have one sign and the wrapped sum has the other;
-- where it does not, it is the wrapped sum.
pub sadd_overflow_lem :
    (a b : ℕ)
    → a < 2 ^ 32
    → b < 2 ^ 32
    → sadd_overflow a b ≡ (
        if is_neg a
        then (if is_neg b
            then (if is_neg (add32 a b) then some (add32 a b) else none)
            else some (add32 a b))
        else if is_neg b
        then some (add32 a b)
        else if is_neg (add32 a b)
        then none
        else some (add32 a b))
unfolding sadd_overflow wrap
sadd_overflow_lem a b h k = ground arith

-- A difference of two words as `int`s overflows exactly if the signs of the operands differ and the wrapped difference has
-- the sign of the second.
pub ssub_overflow_lem :
    (a b : ℕ)
    → a < 2 ^ 32
    → b < 2 ^ 32
    → ssub_overflow a b ≡ (
        if is_neg a
        then (if is_neg b
            then some (sub32 a b)
            else (if is_neg (sub32 a b) then some (sub32 a b) else none))
        else if is_neg b
        then (if is_neg (sub32 a b) then none else some (sub32 a b))
        else some (sub32 a b))
unfolding ssub_overflow wrap
ssub_overflow_lem a b h k = ground arith

-- For two words, `(s32)a < (s32)b` holds exactly if the integers are in that order.
pub slt_iff : (a b : ℕ) → a < 2 ^ 32 → b < 2 ^ 32 → (slt a b ≡ true) ↔ ¬ (s32 b ≤ℤ s32 a)
unfolding slt
slt_iff a b h k = ground arith
