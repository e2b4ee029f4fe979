-- ===== src/Cpu/Arch/Access.antt =====
-- The aligned loads and stores of core/cpu.c at an address that has memory.
use psycho.Prelude.{
  ℕ, ◌-◌, ◌*◌, ◌%◌, ◌^◌, ◌<◌, ◌≡◌, ◌≢◌, ◌==◌, arith, refl, ◌∙◌, bit_and, true, false, Bool-cases,
  inl, inr, none, some,
}
use psycho.Bits.{bit_and_field, bit_and_mask}
use psycho.Word.{add32, sign_ext_8_32, sign_ext_16_32}
use psycho.Memory.{write}
use psycho.State.{Ctx, Bus as BusState, cop0_dcic, cop0_sr}
use psycho.CpuDefs.{instr_rs, instr_imm}
use psycho.CpuDefs.Address.{vaddr_to_paddr_lem}
use psycho.Bus.{load_word, load_halfword, load_byte, store_word, store_halfword, store_byte}
use psycho.Bus.View.{byte_at, value_at, IsSized}
use psycho.Bus.Laws.{is_mapped, scratchpad_offset}
use psycho.Bus.Stores.{is_writable}
use psycho.Bus.Total.{Returns, returns_of_ne}
use psycho.Bus.Widths.{Width, load, store, bytes, unmapped, load-value_at}
use psycho.Cpu.{
  access_vaddr, access_paddr, dbg_data_bp_chk, get_phys_addr, raise_exception, ExcCode,
}
use psycho.Cpu.Arch.{Arch}
use psycho.Cpu.Arch.Data.{physical, data_address}
use psycho.Cpu.Access.{
  lb, lh, lwl, lw, lbu, lhu, lwr, sb, sh, swl, sw, swr, aligned, lane_shift, forwarded, lwl_merge,
  lwr_merge, swl_merge, swr_merge,
}
use psycho.Cpu.Special.{rt, gpr_rt}
use psycho.Cpu.{gpr_set_delayed}

-- A value in the memory has a first and a last byte.
value_at-mapped :
    (w : Width) (b : BusState) (p v : ℕ)
    → value_at (bytes w) (byte_at b) p ≡ some v
    → is_mapped p ≡ true
unfolding byte_at
value_at-mapped Width.word b p v h = ground arith
value_at-mapped Width.halfword b p v h = ground arith
value_at-mapped Width.byte b p v h = ground arith

-- A load of a value that is there returns it, and changes nothing.
pub load-some :
    (c : Ctx) (w : Width) (p v : ℕ)
    → IsSized c.bus
    → unmapped w p ≡ false
    → value_at (bytes w) (byte_at c.bus) p ≡ some v
    → load w p c ≡ some (v, c)
load-some c w p v z u h = load-value_at c w p z ∙ (rw (u, value_at-mapped w c.bus p v h, h) refl)

pub store-Returns :
    (c : Ctx) (w : Width) (p v old : ℕ)
    → IsSized c.bus
    → is_writable p ≡ true
    → value_at (bytes w) (byte_at c.bus) p ≡ some old
    → Returns (store w p v c)
unfolding store_word store_halfword store_byte write byte_at
store-Returns c Width.word p v old z m h =
    returns_of_ne _ (λ e. ground (arith, z, scratchpad_offset p))
store-Returns c Width.halfword p v old z m h =
    returns_of_ne _ (λ e. ground (arith, z, scratchpad_offset p))
store-Returns c Width.byte p v old z m h =
    returns_of_ne _ (λ e. ground (arith, z, scratchpad_offset p))

pub physical-access_paddr : (v p : ℕ) → physical v ≡ some p → access_paddr v ≡ p
unfolding access_paddr
physical-access_paddr v p h =
    ground
      (arith, vaddr_to_paddr_lem v, vaddr_to_paddr_lem (bit_and v 0x000F_FFFF), bit_and_mask 20 v)

-- Inversion of `data_address`.
pub record Addressed (instr p : ℕ) (a : Arch) : Type 0 where
  pub quiet : bit_and (a.cop0 cop0_dcic) 0x0280_0000 ≡ 0
  pub at : physical (add32 (sign_ext_16_32 (instr_imm instr)) (a.reg (instr_rs instr))) ≡ some p

pub data_address-Addressed :
    (instr p : ℕ) (a : Arch) → data_address instr a ≡ some p → Addressed instr p a
data_address-Addressed instr p a h =
    elim (Bool-cases (bit_and (a.cop0 cop0_dcic) 0x0280_0000 == 0)) [
      | inl q ↦ record { quiet = ground arith; at = rw q at h }
      | inr q ↦ absurd (let n : none ≡ some p = rw q at h in cc)
    ]

aligned_down : (p : ℕ) → p < 2 ^ 29 → aligned p ≡ p - p % 4
aligned_down p h = omega (arith, bit_and_field 2 30 p)

lane : (p : ℕ) → lane_shift p ≡ p % 4 * 8
lane p = omega (arith, bit_and_mask 2 p)

physical-lt : (v p : ℕ) → physical v ≡ some p → p < 2 ^ 29
physical-lt v p h = ground arith

ne_false : (x : ℕ) → x ≢ 0 → (x == 0) ≡ false
ne_false x h = ground arith

pub Addressed-lt : (instr p : ℕ) (a : Arch) → Addressed instr p a → p < 2 ^ 29
Addressed-lt instr p a d =
    physical-lt (add32 (sign_ext_16_32 (instr_imm instr)) (a.reg (instr_rs instr))) p d.at

-- The instructions with their address, and the value that the bus has there.
module _ (d : Ctx) (p : ℕ) (a : access_paddr (access_vaddr d) ≡ p)
    (k : dbg_data_bp_chk (access_vaddr d) d ≡ d) where
  pub lb-loads :
      (v : ℕ)
      → load_byte p d ≡ some (v, d)
      → lb d ≡ some (gpr_set_delayed (rt d) (sign_ext_8_32 v) d)
  unfolding lb get_phys_addr
  lb-loads v h = rw (k, a, h) refl

  pub lbu-loads : (v : ℕ) → load_byte p d ≡ some (v, d) → lbu d ≡ some (gpr_set_delayed (rt d) v d)
  unfolding lbu get_phys_addr
  lbu-loads v h = rw (k, a, h) refl

  pub lh-loads :
      (v : ℕ)
      → p % 2 ≡ 0
      → load_halfword p d ≡ some (v, d)
      → lh d ≡ some (gpr_set_delayed (rt d) (sign_ext_16_32 v) d)
  unfolding lh get_phys_addr
  lh-loads v m h = rw (k, a, bit_and_mask 1 p, m, h) refl

  pub lhu-loads :
      (v : ℕ)
      → p % 2 ≡ 0
      → load_halfword p d ≡ some (v, d)
      → lhu d ≡ some (gpr_set_delayed (rt d) v d)
  unfolding lhu get_phys_addr
  lhu-loads v m h = rw (k, a, bit_and_mask 1 p, m, h) refl

  pub lw-loads :
      (v : ℕ) → p % 4 ≡ 0 → load_word p d ≡ some (v, d) → lw d ≡ some (gpr_set_delayed (rt d) v d)
  unfolding lw get_phys_addr
  lw-loads v m h = rw (k, a, bit_and_mask 2 p, m, h) refl

  pub sb-stores : sb d ≡ store_byte p (bit_and (gpr_rt d) 0xFF) d
  unfolding sb get_phys_addr
  sb-stores = rw (k, a) refl

  pub sh-stores : p % 2 ≡ 0 → sh d ≡ store_halfword p (bit_and (gpr_rt d) 0xFFFF) d
  unfolding sh get_phys_addr
  sh-stores m = rw (k, a, bit_and_mask 1 p, m) refl

  pub sw-stores :
      p % 4 ≡ 0 → bit_and (d.cpu.cop0 cop0_sr) 0x1_0000 ≡ 0 → sw d ≡ store_word p (gpr_rt d) d
  unfolding sw get_phys_addr
  sw-stores m i = rw (k, a, bit_and_mask 2 p, m, i) refl

  -- The exceptions at addresses that are not multiples.
  pub lh-traps : p % 2 ≢ 0 → lh d ≡ some (raise_exception ExcCode.adel d)
  unfolding lh get_phys_addr
  lh-traps m = rw (k, a, bit_and_mask 1 p, ne_false (p % 2) m) refl

  pub lhu-traps : p % 2 ≢ 0 → lhu d ≡ some (raise_exception ExcCode.adel d)
  unfolding lhu get_phys_addr
  lhu-traps m = rw (k, a, bit_and_mask 1 p, ne_false (p % 2) m) refl

  pub lw-traps : p % 4 ≢ 0 → lw d ≡ some (raise_exception ExcCode.adel d)
  unfolding lw get_phys_addr
  lw-traps m = rw (k, a, bit_and_mask 2 p, ne_false (p % 4) m) refl

  pub sh-traps : p % 2 ≢ 0 → sh d ≡ some (raise_exception ExcCode.ades d)
  unfolding sh get_phys_addr
  sh-traps m = rw (k, a, bit_and_mask 1 p, ne_false (p % 2) m) refl

  pub sw-traps :
      p % 4 ≢ 0
      → bit_and (d.cpu.cop0 cop0_sr) 0x1_0000 ≡ 0
      → sw d ≡ some (raise_exception ExcCode.ades d)
  unfolding sw get_phys_addr
  sw-traps m i = rw (k, a, bit_and_mask 2 p, i, ne_false (p % 4) m) refl

  pub lwl-loads :
      (x : ℕ)
      → p < 2 ^ 29
      → load_word (p - p % 4) d ≡ some (x, d)
      → lwl d ≡ some (gpr_set_delayed (rt d) (lwl_merge (p % 4 * 8) (forwarded d) x) d)
  unfolding lwl get_phys_addr
  lwl-loads x l h = rw (k, a, aligned_down p l, lane p, h) refl

  pub lwr-loads :
      (x : ℕ)
      → p < 2 ^ 29
      → load_word (p - p % 4) d ≡ some (x, d)
      → lwr d ≡ some (gpr_set_delayed (rt d) (lwr_merge (p % 4 * 8) (forwarded d) x) d)
  unfolding lwr get_phys_addr
  lwr-loads x l h = rw (k, a, aligned_down p l, lane p, h) refl

  pub swl-stores :
      (x : ℕ)
      → p < 2 ^ 29
      → load_word (p - p % 4) d ≡ some (x, d)
      → swl d ≡ store_word (p - p % 4) (swl_merge (p % 4 * 8) (gpr_rt d) x) d
  unfolding swl get_phys_addr
  swl-stores x l h = rw (k, a, aligned_down p l, lane p, h) refl

  pub swr-stores :
      (x : ℕ)
      → p < 2 ^ 29
      → load_word (p - p % 4) d ≡ some (x, d)
      → swr d ≡ store_word (p - p % 4) (swr_merge (p % 4 * 8) (gpr_rt d) x) d
  unfolding swr get_phys_addr
  swr-stores x l h = rw (k, a, aligned_down p l, lane p, h) refl

pub sw-isolated : (d : Ctx) → bit_and (d.cpu.cop0 cop0_sr) 0x1_0000 ≢ 0 → sw d ≡ some d
unfolding sw
sw-isolated d i = rw (ne_false (bit_and (d.cpu.cop0 cop0_sr) 0x1_0000) i) refl
