-- ===== src/Bus/Total.antt =====
-- Accesses inside an aligned word that the arrays hold have a result.
use psycho.Prelude.{ℕ, ◌*◌, ◌/◌, ◌%◌, ◌≡◌, ◌≢◌, arith, refl, Option, none, some}
use psycho.State.{Ctx}
use psycho.Memory.{read, write}
use psycho.Bus.{load_word, load_halfword, load_byte, store_word, store_halfword, store_byte}
use psycho.Bus.View.{IsSized}
use psycho.Bus.Laws.{scratchpad_offset, bios_offset}
use psycho.Bus.Faults.{load_word-eq-none_iff, store_word-eq-none_iff}

-- A physical address outside the three words that the memory map claims and the arrays lack.
pub record InBounds (p : ℕ) : Type 0 where
  pub not_behind_ram : p / 4 * 4 ≢ 0x0020_0000
  pub not_last_scratchpad : p / 4 * 4 ≢ 0x1F80_03FC
  pub not_last_bios : p / 4 * 4 ≢ 0x1FC7_FFFC

abbrev pub Returns : {A : Type 0} → Option A → Type 0
Returns {A} o = (a : A) × (o ≡ some a)

pub returns_of_ne : {A : Type 0} (o : Option A) → o ≢ none → Returns o
returns_of_ne none h = absurd (h refl)
returns_of_ne (some a) h = (a, refl)

module _ (c : Ctx) (z : IsSized c.bus) (p : ℕ) (b : InBounds p) where
  pub load_word-Returns : p % 4 ≡ 0 → Returns (load_word p c)
  load_word-Returns h = returns_of_ne _ (λ e. ground (arith, b, load_word-eq-none_iff c z p))

  pub store_word-Returns : (w : ℕ) → p % 4 ≡ 0 → Returns (store_word p w c)
  store_word-Returns w h = returns_of_ne _ (λ e. ground (arith, b, store_word-eq-none_iff c z p w))

  pub load_byte-Returns : Returns (load_byte p c)
  unfolding load_byte read
  load_byte-Returns =
      returns_of_ne _ (λ e. ground (arith, b, z, scratchpad_offset p, bios_offset p))

  pub load_halfword-Returns : p % 2 ≡ 0 → Returns (load_halfword p c)
  unfolding load_halfword read
  load_halfword-Returns h =
      returns_of_ne _ (λ e. ground (arith, b, z, scratchpad_offset p, bios_offset p))

  pub store_byte-Returns : (v : ℕ) → Returns (store_byte p v c)
  unfolding store_byte write
  store_byte-Returns v = returns_of_ne _ (λ e. ground (arith, b, z, scratchpad_offset p))

  pub store_halfword-Returns : (v : ℕ) → p % 2 ≡ 0 → Returns (store_halfword p v c)
  unfolding store_halfword write
  store_halfword-Returns v h = returns_of_ne _ (λ e. ground (arith, b, z, scratchpad_offset p))
