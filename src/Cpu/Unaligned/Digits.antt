-- ===== src/Cpu/Unaligned/Digits.antt =====
-- The bytes of the words that `swr` and `swl` store.
use psycho.Prelude.{ℕ, zero, suc, ◌+◌, ◌-◌, ◌*◌, ◌/◌, ◌%◌, ◌^◌, ◌<◌, ◌≡◌, arith, ltb, if◌then◌else◌}
use psycho.Memory.{le_value}
use psycho.Memory.Laws.{IsBytes}
use psycho.Cpu.Access.{swl_merge, swr_merge}
use psycho.Cpu.Unaligned.{swr_merge_lem, swl_merge_lem}

-- Cases below 4.
below_four : (P : ℕ → Type 0) → P 0 → P 1 → P 2 → P 3 → (j : ℕ) → j < 4 → P j
below_four P a b c d zero h = a
below_four P a b c d (suc zero) h = b
below_four P a b c d (suc (suc zero)) h = c
below_four P a b c d (suc (suc (suc zero))) h = d
below_four P a b c d (suc (suc (suc (suc j)))) h = absurd (omega arith)

four_bytes :
    (b : ℕ → ℕ) (i : ℕ)
    → IsBytes b
    → (b i < 256) × (b (i + 1) < 256) × (b (i + 2) < 256) × (b (i + 3) < 256)
four_bytes b i h = (h i, h (i + 1), h (i + 2), h (i + 3))

word_lt : (b : ℕ → ℕ) (i : ℕ) → IsBytes b → le_value 4 b i < 2 ^ 32
word_lt b i h = omega (arith, h i, h (i + 1), h (i + 1 + 1), h (i + 1 + 1 + 1))

module _ (r : ℕ) (b : ℕ → ℕ) (h : IsBytes b) (k : r < 2 ^ 32) where
  -- The bytes of the lower word: those below the offset are kept.
  abbrev LowDigit : ℕ → ℕ → Type 0
  LowDigit s j =
      swr_merge (s * 8) r (le_value 4 b 0) / 256 ^ j % 256
      ≡ (if ltb j s then b j else r / 256 ^ (j - s) % 256)

  -- The bytes of the upper word: those from the offset on are kept.
  abbrev HighDigit : ℕ → ℕ → Type 0
  HighDigit s j =
      swl_merge ((s - 1) * 8) r (le_value 4 b 4) / 256 ^ j % 256
      ≡ (if ltb j s then r / 256 ^ (j + 4 - s) % 256 else b (4 + j))

  pub low_digit : (s j : ℕ) → 0 < s → s < 4 → j < 4 → LowDigit s j
  low_digit zero j p l m = absurd (omega arith)
  low_digit (suc zero) j p l m =
      let bytes = four_bytes b 0 h in
      let word = swr_merge_lem 1 r (le_value 4 b 0) l in
      below_four (LowDigit 1) (omega arith) (omega arith) (omega arith) (omega arith) j m
  low_digit (suc (suc zero)) j p l m =
      let bytes = four_bytes b 0 h in
      let word = swr_merge_lem 2 r (le_value 4 b 0) l in
      below_four (LowDigit 2) (omega arith) (omega arith) (omega arith) (omega arith) j m
  low_digit (suc (suc (suc zero))) j p l m =
      let bytes = four_bytes b 0 h in
      let word = swr_merge_lem 3 r (le_value 4 b 0) l in
      below_four (LowDigit 3) (omega arith) (omega arith) (omega arith) (omega arith) j m
  low_digit (suc (suc (suc (suc s)))) j p l m = absurd (omega arith)

  pub high_digit : (s j : ℕ) → 0 < s → s < 4 → j < 4 → HighDigit s j
  high_digit zero j p l m = absurd (omega arith)
  high_digit (suc zero) j p l m =
      let bytes = four_bytes b 4 h in
      let word = swl_merge_lem 0 r (le_value 4 b 4) (omega arith) k (word_lt b 4 h) in
      below_four (HighDigit 1) (omega arith) (omega arith) (omega arith) (omega arith) j m
  high_digit (suc (suc zero)) j p l m =
      let bytes = four_bytes b 4 h in
      let word = swl_merge_lem 1 r (le_value 4 b 4) (omega arith) k (word_lt b 4 h) in
      below_four (HighDigit 2) (omega arith) (omega arith) (omega arith) (omega arith) j m
  high_digit (suc (suc (suc zero))) j p l m =
      let bytes = four_bytes b 4 h in
      let word = swl_merge_lem 2 r (le_value 4 b 4) (omega arith) k (word_lt b 4 h) in
      below_four (HighDigit 3) (omega arith) (omega arith) (omega arith) (omega arith) j m
  high_digit (suc (suc (suc (suc s)))) j p l m = absurd (omega arith)
