-- ===== src/Word.antt =====
-- Fixed-width integers: the conversions of core/util.h, and C's operators on `u32` and `s32`
-- values that are kept as bit patterns below 2 ^ 32.
pub mod Bounds
pub mod Arith
use psycho.Prelude.{ℕ, ◌+◌, ◌-◌, ◌*◌, ◌/◌, ◌%◌, ◌^◌, ltb, if◌then◌else◌}
use psycho.Prelude.{Bool, Option, none, some}
use psycho.Prelude.Int.{ℤ, pos, negsuc, ◌+ℤ◌, ◌-ℤ◌, leb_ℤ, ltb_ℤ}

abbrev pub u8 : ℕ → ℕ
u8 x = x % 2 ^ 8

abbrev pub u16 : ℕ → ℕ
u16 x = x % 2 ^ 16

abbrev pub u32 : ℕ → ℕ
u32 x = x % 2 ^ 32

abbrev pub u64 : ℕ → ℕ
u64 x = x % 2 ^ 64

-- The parameter's type `u16` cuts the argument first.
unfoldable pub sign_ext_16_32 : ℕ → ℕ
sign_ext_16_32 val = if ltb (u16 val) 0x8000 then u16 val else u16 val + 0xFFFF_0000

unfoldable pub sign_ext_8_32 : ℕ → ℕ
sign_ext_8_32 val = if ltb (u8 val) 0x80 then u8 val else u8 val + 0xFFFF_FF00

unfoldable pub sign_ext_32_64 : ℕ → ℕ
sign_ext_32_64 val = if ltb (u32 val) 0x8000_0000 then u32 val else u32 val + 0xFFFF_FFFF_0000_0000

unfoldable pub zero_ext_32_64 : ℕ → ℕ
zero_ext_32_64 val = u32 val

-- `~x`, `x << k` and `x >> k` on `u32`, and `(s32)x >> k`, which gcc and clang do with copies of
-- the sign.
abbrev pub not32 : ℕ → ℕ
not32 x = 0xFFFF_FFFF - x

abbrev pub shl : ℕ → ℕ → ℕ
shl x k = u32 (x * 2 ^ k)

abbrev pub shr : ℕ → ℕ → ℕ
shr x k = x / 2 ^ k

unfoldable pub sar : ℕ → ℕ → ℕ
sar x k = if ltb x 0x8000_0000 then shr x k else not32 (shr (not32 x) k)

abbrev pub add32 : ℕ → ℕ → ℕ
add32 a b = u32 (a + b)

abbrev pub sub32 : ℕ → ℕ → ℕ
sub32 a b = u32 (a + 0x1_0000_0000 - b)

-- The number that a bit pattern stands for as an `s32`.
unfoldable pub s32 : ℕ → ℤ
s32 x = if ltb x 0x8000_0000 then pos x else negsuc (0xFFFF_FFFF - x)

-- `(s32)a < (s32)b`.
unfoldable pub slt : ℕ → ℕ → Bool
unfolding s32
slt a b = ltb_ℤ (s32 a) (s32 b)

-- The `u32` of an integer.
unfoldable pub wrap : ℤ → ℕ
wrap (pos n) = u32 n
wrap (negsuc n) = not32 (u32 n)

-- An integer that an `int` can hold, as its bit pattern.
unfoldable pub to_int : ℤ → Option ℕ
unfolding wrap
to_int n =
    if leb_ℤ (negsuc 0x7FFF_FFFF) n
    then (if leb_ℤ n (pos 0x7FFF_FFFF) then some (wrap n) else none)
    else none

-- `__builtin_sadd_overflow` and `__builtin_ssub_overflow`: the exact result, if it fits.
unfoldable pub sadd_overflow : ℕ → ℕ → Option ℕ
unfolding to_int s32 ◌+ℤ◌
sadd_overflow a b = to_int (s32 a +ℤ s32 b)

unfoldable pub ssub_overflow : ℕ → ℕ → Option ℕ
unfolding to_int s32 ◌-ℤ◌
ssub_overflow a b = to_int (s32 a -ℤ s32 b)

-- `|x|` and `-x` of the `s32` that a pattern stands for, as patterns.
abbrev pub is_neg : ℕ → Bool
is_neg x = if ltb x 0x8000_0000 then Bool.false else Bool.true

abbrev pub neg32 : ℕ → ℕ
neg32 x = u32 (0x1_0000_0000 - x)

abbrev pub abs32 : ℕ → ℕ
abs32 x = if is_neg x then neg32 x else x

-- `(s32)a / (s32)b` and `(s32)a % (s32)b`, which cut towards zero.
unfoldable pub sdiv : ℕ → ℕ → ℕ
sdiv a b =
    let q = abs32 a / abs32 b in
    if is_neg a then (if is_neg b then q else neg32 q) else (if is_neg b then neg32 q else q)

unfoldable pub srem : ℕ → ℕ → ℕ
srem a b = let r = abs32 a % abs32 b in if is_neg a then neg32 r else r
