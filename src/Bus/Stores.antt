-- ===== src/Bus/Stores.antt =====
-- Stores against the memory map of `Bus.View`.
use psycho.Prelude.{ℕ, ◌+◌, ◌-◌, ◌/◌, ◌%◌, ◌^◌, ◌≤◌, ltb, leb, if◌then◌else◌, Bool-cases, inl, inr}
use psycho.Prelude.{Bool, true, Option, none, some, ◌≡◌, arith, bit_and}
use mathlib.Core.Option
use mathlib.Core.Path.{subst}
use psycho.Prelude.{List, refl, of_some}
use psycho.Word.{u8, u16}
use psycho.State.{Event}
use psycho.Bus.{write_ram, write_scratchpad}
use psycho.State.{Ctx, Bus, Buffer, scratchpad_addr_start}
use psycho.Memory.{le_update, write}
use psycho.Memory.Laws.{le_update_lem}
use psycho.Bus.{is_ram, is_scratchpad}
use psycho.Bus.{store_word, store_halfword, store_byte}
use psycho.Bus.View.{byte_in, byte_at, IsSized}
use psycho.Bus.Laws.{scratchpad_offset}

abbrev pub is_writable : ℕ → Bool
is_writable p = if is_ram p then true else is_scratchpad p

-- The byte that the map holds at `q` once the `n` low bytes of `v` are stored at `p`.
abbrev pub stored : ℕ → ℕ → ℕ → Bus → ℕ → Option ℕ
stored n p v b q =
    if is_writable p
    then (if leb p q
        then (if ltb q (p + n) then some (v / 256 ^ (q - p) % 256) else byte_at b q)
        else byte_at b q)
    else byte_at b q

-- Inversion of a write: it fits, and every byte of the array is known.
write-some :
    (n : ℕ) (b b' : Buffer) (i v : ℕ)
    → write n b i v ≡ some b'
    → (i + n ≤ b.size) × (b' ≡ record b { byte = le_update n b.byte i v })
unfolding write
write-some n b b' i v h = ground arith

byte_in-write :
    (n : ℕ) (b b' : Buffer) (i v j : ℕ)
    → write n b i v ≡ some b'
    → byte_in b' j ≡ (
        if leb i j
        then (if ltb j (i + n) then some (v / 256 ^ (j - i) % 256) else byte_in b j)
        else byte_in b j)
byte_in-write n b b' i v j h =
    let (fits, e) = write-some n b b' i v h in
    rw e (ground (arith, fits, le_update_lem n b.byte i v j))

module _ (b : Bus) (z : IsSized b) (n p v q : ℕ) where
  byte_at-write_ram :
      (r : Buffer)
      → is_ram p ≡ true
      → write n b.ram p v ≡ some r
      → byte_at (record b { ram = r }) q ≡ stored n p v b q
  unfolding byte_at
  byte_at-write_ram r h e =
      let (fits, same) = write-some n b.ram r p v e in
      ground (arith, fits, z.ram_sized, byte_in-write n b.ram r p v q e)

  byte_at-write_scratchpad :
      (r : Buffer)
      → is_scratchpad p ≡ true
      → write n b.scratchpad (p - scratchpad_addr_start) v ≡ some r
      → byte_at (record b { scratchpad = r }) q ≡ stored n p v b q
  unfolding byte_at
  byte_at-write_scratchpad r h e =
      let (fits, same) = write-some n b.scratchpad r (p - scratchpad_addr_start) v e in
      ground (
        arith,
        fits,
        z.scratchpad_sized,
        byte_in-write n b.scratchpad r (p - scratchpad_addr_start) v (q - scratchpad_addr_start) e,
      )

-- The shape of the three stores: a write into the array that the address selects, or a warning.
abbrev storing : ℕ → ℕ → ℕ → Ctx → List Event → Option Ctx
storing n p v c es =
    if is_ram p
    then write_ram n p v c
    else if is_scratchpad p
    then write_scratchpad n (p - scratchpad_addr_start) v c
    else some (record c { events = es })

module _ (c c' : Ctx) (z : IsSized c.bus) (n p v q : ℕ) (es : List Event) where
  abbrev Goal : Ctx → Type 0
  Goal d = byte_at d.bus q ≡ stored n p v c.bus q

  after_ram :
      (o : Option Buffer)
      → write n c.bus.ram p v ≡ o
      → is_ram p ≡ true
      → Option.map (λ b. record c { bus = record (c.bus) { ram = b } }) o ≡ some c'
      → byte_at c'.bus q ≡ stored n p v c.bus q
  after_ram none e h k = cc
  after_ram (some r) e h k = subst Goal (of_some k) (byte_at-write_ram c.bus z n p v q r h e)

  after_scratchpad :
      (o : Option Buffer)
      → write n c.bus.scratchpad (p - scratchpad_addr_start) v ≡ o
      → is_scratchpad p ≡ true
      → Option.map (λ b. record c { bus = record (c.bus) { scratchpad = b } }) o ≡ some c'
      → byte_at c'.bus q ≡ stored n p v c.bus q
  after_scratchpad none e h k = cc
  after_scratchpad (some r) e h k =
      subst Goal (of_some k) (byte_at-write_scratchpad c.bus z n p v q r h e)

  byte_at-storing : storing n p v c es ≡ some c' → byte_at c'.bus q ≡ stored n p v c.bus q
  byte_at-storing k = elim (Bool-cases (is_ram p)) [
    | inl h ↦ after_ram _ refl h (rw h at k)
    | inr h ↦ elim (Bool-cases (is_scratchpad p)) [
      | inl h' ↦ after_scratchpad _ refl h' (rw (h, h') at k)
      | inr h' ↦
          let k' : some (record c { events = es }) ≡ some c' = rw (h, h') at k in
          subst Goal (of_some k') (rw (h, h'))
    ]
  ]

-- A store writes to the offset of the address in its region.
at_offset :
    (p : ℕ) {A : Type 0} (f : ℕ → A) (x y : A)
    → (if is_ram p then x else if is_scratchpad p then f (bit_and p 0xFFF) else y)
      ≡ (if is_ram p then x else if is_scratchpad p then f (p - scratchpad_addr_start) else y)
at_offset p f x y = elim (Bool-cases (is_scratchpad p)) [
  | inl h ↦ rw (scratchpad_offset p h)
  | inr h ↦ rw h
]

module _ (c c' : Ctx) (z : IsSized c.bus) (p w q : ℕ) where
  -- With arrays of the declared sizes, a word store that has a result puts the four bytes of the word at its address, where that is
  -- writable, and changes no other byte of the map.
  pub byte_at-store_word : store_word p w c ≡ some c' → byte_at c'.bus q ≡ stored 4 p w c.bus q
  unfolding store_word
  byte_at-store_word h =
      byte_at-storing c c' z 4 p w q _
        (rw (at_offset p (λ i. write_scratchpad 4 i w c) (write_ram 4 p w c)) at h)

  -- With arrays of the declared sizes, a halfword store that has a result puts the two low bytes of
  -- the register at its address, where that is writable, and changes no other byte of the map.
  pub byte_at-store_halfword :
      store_halfword p w c ≡ some c' → byte_at c'.bus q ≡ stored 2 p (u16 w) c.bus q
  unfolding store_halfword
  byte_at-store_halfword h =
      byte_at-storing c c' z 2 p (u16 w) q _
        (rw (at_offset p (λ i. write_scratchpad 2 i (u16 w) c) (write_ram 2 p (u16 w) c)) at h)

  -- With arrays of the declared sizes, a byte store that has a result puts the low byte of the
  -- register at its address, where that is writable, and changes no other byte of the map.
  pub byte_at-store_byte : store_byte p w c ≡ some c' → byte_at c'.bus q ≡ stored 1 p (u8 w) c.bus q
  unfolding store_byte
  byte_at-store_byte h =
      byte_at-storing c c' z 1 p (u8 w) q _
        (rw (at_offset p (λ i. write_scratchpad 1 i (u8 w) c) (write_ram 1 p (u8 w) c)) at h)
