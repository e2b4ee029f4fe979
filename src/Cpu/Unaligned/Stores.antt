-- ===== src/Cpu/Unaligned/Stores.antt =====
-- The words that `swr` and `swl` store, and the two of them as one word in the memory map.
use mathlib.Core.Path.{subst}
use native.Mathlib.Nat.{add-zero}
use psycho.Prelude.{
  sym, ◌⊎◌, refl, ℕ, Bool-cases, inl, inr, ◌+◌, ◌-◌, ◌*◌, ◌/◌, ◌%◌, ◌^◌, ◌<◌, ◌≤◌, ◌≡◌, ltb, arith,
  ap, ◌∙◌, if◌then◌else◌, true, some,
}
use psycho.State.{Ctx, Bus as BusState}
use psycho.Memory.{le_value, write}
use psycho.Memory.Laws.{IsBytes}
use psycho.Bus.{store_word}
use psycho.Bus.View.{IsSized, byte_at}
use psycho.Bus.Stores.{stored, is_writable, byte_at-store_word}
use psycho.Bus.Faults.{store_word-eq-none_iff}
use psycho.Bus.Total.{Returns, returns_of_ne}
use psycho.Cpu.Access.{swl_merge, swr_merge}
use psycho.Cpu.Unaligned.Digits.{low_digit, high_digit}
use psycho.Cpu.Unaligned.Memory.{Holds, Kept}

-- Both words stored, as one word in the map.
module _ (b0 b1 b2 : BusState) (q s r : ℕ) (b : ℕ → ℕ) (h : Holds b0 q b) (hb : IsBytes b)
    (p : 0 < s) (l : s < 4) (k : r < 2 ^ 32)
    (low : (x : ℕ) → byte_at b1 x ≡ stored 4 q (swr_merge (s * 8) r (le_value 4 b 0)) b0 x)
    (high : (x : ℕ)
      → byte_at b2 x ≡ stored 4 (q + 4) (swl_merge ((s - 1) * 8) r (le_value 4 b 4)) b1 x)
    (w0 : is_writable q ≡ true) (w4 : is_writable (q + 4) ≡ true)
    (w : is_writable (q + s) ≡ true) where
  -- A byte of the eight.
  held : (x : ℕ) → q ≤ x → x < q + 8 → byte_at b0 x ≡ some (b (x - q))
  held x e f =
      let at : q + (x - q) ≡ x = omega arith in
      subst (λ (y : ℕ). byte_at b0 y ≡ some (b (x - q))) at (h (x - q) (omega arith))

  in_low :
      (x : ℕ)
      → q ≤ x
      → x < q + 4
      → swr_merge (s * 8) r (le_value 4 b 0) / 256 ^ (x - q) % 256
        ≡ (if ltb x (q + s) then b (x - q) else r / 256 ^ (x - (q + s)) % 256)
  in_low x e f =
      let at : x - q - s ≡ x - (q + s) = omega arith in
      let digit =
        subst
          (λ (y : ℕ).
            swr_merge (s * 8) r (le_value 4 b 0) / 256 ^ (x - q) % 256
            ≡ (if ltb (x - q) s then b (x - q) else r / 256 ^ y % 256))
          at (low_digit r b hb k s (x - q) p l (omega arith)) in
      ground (arith, digit)

  in_high :
      (x : ℕ)
      → q + 4 ≤ x
      → x < q + 8
      → swl_merge ((s - 1) * 8) r (le_value 4 b 4) / 256 ^ (x - (q + 4)) % 256
        ≡ (if ltb x (q + s + 4) then r / 256 ^ (x - (q + s)) % 256 else b (x - q))
  in_high x e f =
      let at : x - (q + 4) + 4 - s ≡ x - (q + s) = omega arith in
      let index : 4 + (x - (q + 4)) ≡ x - q = omega arith in
      let digit =
        subst
          (λ (y : ℕ).
            swl_merge ((s - 1) * 8) r (le_value 4 b 4) / 256 ^ (x - (q + 4)) % 256
            ≡ (if ltb (x - (q + 4)) s then r / 256 ^ y % 256 else b (4 + (x - (q + 4)))))
          at (high_digit r b hb k s (x - (q + 4)) p l (omega arith)) in
      ground (arith, digit, ap b index)

  pub both_stored : (x : ℕ) → byte_at b2 x ≡ stored 4 (q + s) r b0 x
  both_stored x = elim (Bool-cases (ltb x q)) as (λ y. byte_at b2 x ≡ stored 4 (q + s) r b0 x) [
    | inl e ↦ rw (high x, low x, w0, w4, w) (ground arith)
    | inr e ↦ elim (Bool-cases (ltb x (q + 4))) as (λ y. byte_at b2 x ≡ stored 4 (q + s) r b0 x) [
      | inl f ↦
          rw (high x, low x, w0, w4, w)
            (ground
              (arith, held x (ground arith) (ground arith), in_low x (ground arith) (ground arith)))
      | inr f ↦ elim (Bool-cases (ltb x (q + 8))) as (λ y. byte_at b2 x ≡ stored 4 (q + s) r b0 x) [
        | inl g ↦
            rw (high x, low x, w0, w4, w)
              (ground (
                arith,
                held x (ground arith) (ground arith),
                in_high x (ground arith) (ground arith),
              ))
        | inr g ↦ rw (high x, low x, w0, w4, w) (ground arith)
      ]
    ]
  ]

-- What a word store leaves alone.
pub record Stored (c d : Ctx) : Type 0 where
  pub cpu_eq : d.cpu ≡ c.cpu
  pub ram_eq : d.bus.ram.size ≡ c.bus.ram.size
  pub bios_eq : d.bus.bios.size ≡ c.bus.bios.size
  pub scratchpad_eq : d.bus.scratchpad.size ≡ c.bus.scratchpad.size

pub store_word-Stored : (p v : ℕ) (c d : Ctx) → store_word p v c ≡ some d → Stored c d
unfolding store_word write
store_word-Stored p v c d e = grind arith

pub Stored-IsSized : (c d : Ctx) → Stored c d → IsSized c.bus → IsSized d.bus
Stored-IsSized c d h z = record {
  ram_sized = h.ram_eq ∙ z.ram_sized;
  bios_sized = h.bios_eq ∙ z.bios_sized;
  scratchpad_sized = h.scratchpad_eq ∙ z.scratchpad_sized;
}

pub store_held :
    (c : Ctx) (q v x y : ℕ)
    → IsSized c.bus
    → q % 4 ≡ 0
    → byte_at c.bus q ≡ some x
    → byte_at c.bus (q + 3) ≡ some y
    → Returns (store_word q v c)
unfolding byte_at
store_held c q v x y z m h0 h3 =
    returns_of_ne _
      (λ e. ground (arith, z.ram_sized, z.scratchpad_sized, h0, h3, store_word-eq-none_iff c z q v))

assoc : (q i : ℕ) → q + (i + 3) ≡ q + i + 3
assoc q i = omega arith

-- A store of one of the words, behind the check of the breakpoint.
pub record Store (q v : ℕ) (c x d : Ctx) : Type 0 where
  pub done : store_word q v x ≡ some d
  pub kept : Stored x d
  pub sized : IsSized d.bus
  pub bytes : (p : ℕ) → byte_at d.bus p ≡ stored 4 q v c.bus p

pub store_one :
    (c x : Ctx) (q v : ℕ) (b : ℕ → ℕ) (i : ℕ)
    → Kept c x
    → IsSized c.bus
    → Holds c.bus q b
    → q % 4 ≡ 0
    → (i ≡ 0) ⊎ (i ≡ 4)
    → (d : Ctx) × Store (q + i) v c x d
store_one c x q v b i k z h m o =
    let zx : IsSized x.bus = subst IsSized (sym k.bus_eq) z in
    let at : Holds x.bus q b = subst (λ (y : BusState). Holds y q b) (sym k.bus_eq) h in
    let last : byte_at x.bus (q + i + 3) ≡ some (b (i + 3)) =
      subst (λ (y : ℕ). byte_at x.bus y ≡ some (b (i + 3))) (assoc q i)
        (at (i + 3) (omega arith)) in
    let (d, first) =
      store_held x (q + i) v (b i) (b (i + 3)) zx (omega arith) (at i (omega arith)) last in
    let st = store_word-Stored (q + i) v x d first in
    (
      d,
      record {
        done = first;
        kept = st;
        sized = Stored-IsSized x d st zx;
        bytes = λ p.
            subst (λ (y : BusState). byte_at d.bus p ≡ stored 4 (q + i) v y p) k.bus_eq
              (byte_at-store_word x d zx (q + i) v p first);
      },
    )

pub at_zero :
    (c x : Ctx) (q v : ℕ) (b : ℕ → ℕ)
    → Kept c x
    → IsSized c.bus
    → Holds c.bus q b
    → q % 4 ≡ 0
    → (d : Ctx) × Store q v c x d
at_zero c x q v b k z h m =
    subst (λ (y : ℕ). (d : Ctx) × Store y v c x d) (add-zero q)
      (store_one c x q v b 0 k z h m (inl refl))
