-- ===== src/Word/Bounds.antt =====
-- The results of the word operators fit their width.
use psycho.Prelude.{ℕ, ◌^◌, ◌≤◌, ◌<◌, ◌≡◌, some, arith, Bool, truth, true, false}
use psycho.Prelude.Int.{ℤ, pos, negsuc, ◌+ℤ◌, ◌-ℤ◌}
use psycho.Word.{shr, sar, sdiv, srem, abs32, wrap, to_int, sadd_overflow, ssub_overflow}
use psycho.Word.{sign_ext_16_32, sign_ext_8_32, s32}

pub shr-le : (x k : ℕ) → shr x k ≤ x
shr-le x k = omega arith

pub sar-word : (x k : ℕ) → x < 2 ^ 32 → sar x k < 2 ^ 32
unfolding sar
sar-word x k h = ground arith

pub truth-word : (b : Bool) → truth b < 2 ^ 32
truth-word true = omega arith
truth-word false = omega arith

pub sign_ext_16_32-IsWord : (x : ℕ) → sign_ext_16_32 x < 2 ^ 32
unfolding sign_ext_16_32
sign_ext_16_32-IsWord x = ground arith

pub sign_ext_8_32-IsWord : (x : ℕ) → sign_ext_8_32 x < 2 ^ 32
unfolding sign_ext_8_32
sign_ext_8_32-IsWord x = ground arith

abs32-word : (x : ℕ) → x < 2 ^ 32 → abs32 x < 2 ^ 32
abs32-word x h = ground arith

pub sdiv-word : (a b : ℕ) → a < 2 ^ 32 → sdiv a b < 2 ^ 32
unfolding sdiv
sdiv-word a b h = ground (arith, abs32-word a h)

pub srem-word : (a b : ℕ) → a < 2 ^ 32 → srem a b < 2 ^ 32
unfolding srem
srem-word a b h = ground (arith, abs32-word a h)

wrap-word : (n : ℤ) → wrap n < 2 ^ 32
unfolding wrap
wrap-word (pos n) = omega arith
wrap-word (negsuc n) = omega arith

pub to_int-word : (n : ℤ) {s : ℕ} → to_int n ≡ some s → s < 2 ^ 32
unfolding to_int
to_int-word n h = ground (arith, wrap-word n)

pub sadd_overflow-word : (a b : ℕ) {s : ℕ} → sadd_overflow a b ≡ some s → s < 2 ^ 32
unfolding sadd_overflow
sadd_overflow-word a b = to_int-word (s32 a +ℤ s32 b)

pub ssub_overflow-word : (a b : ℕ) {s : ℕ} → ssub_overflow a b ≡ some s → s < 2 ^ 32
unfolding ssub_overflow
ssub_overflow-word a b = to_int-word (s32 a -ℤ s32 b)
