-- ===== src/Cpu/Valid/Access.antt =====
-- The invariant through the loads and stores.
use mathlib.Core.Path.{subst}
use psycho.Prelude.{◌>>=◌}
use psycho.Prelude.{ℕ, ◌-◌, ◌^◌, ◌<◌, ◌≡◌, arith, bit_and, refl, ◌==◌}
use psycho.Prelude.{Option, none, some, if◌then◌else◌, of_some, sym, if_both, if_cases}
use psycho.Bits.{bit_and-le_left, bit_or-lt}
use psycho.Word.{shl, shr, sign_ext_8_32, sign_ext_16_32}
use psycho.Word.Bounds.{shr-le, sign_ext_8_32-IsWord, sign_ext_16_32-IsWord}
use psycho.State.{Ctx, cop0_sr}
use psycho.CpuDefs.{instr_rt}
use psycho.CpuDefs.Fields.{instr_rt_lem}
use psycho.Bus
use psycho.Bus.View.{IsSized}
use psycho.Bus.Bytes.{
  HoldsBytes, Loads, Stores, load_word-Loads, load_halfword-Loads, load_byte-Loads,
}
use psycho.Bus.Bytes.{store_word-Stores, store_halfword-Stores, store_byte-Stores}
use psycho.Cpu.{gpr_set_delayed, raise_exception, get_phys_addr, dbg_data_bp_chk, ExcCode}
use psycho.Cpu.Special.{rt, gpr_rt}
use psycho.Cpu.Access.{forwarded, lwl_merge, lwr_merge, swl_merge, swr_merge}
use psycho.Cpu.Access.{lb, lh, lwl, lw, lbu, lhu, lwr, sb, sh, swl, sw, swr}
use psycho.Cpu.Valid.{IsWord, IsWide, gpr_set_delayed-IsWide, raise_exception-IsWide}

-- The machine inside a step: a wide processor, and arrays of bytes with their sizes.
pub record Good (c : Ctx) : Type 0 where
  pub wide : IsWide c.cpu
  pub bytes : HoldsBytes c.bus
  pub sized : IsSized c.bus

pub bind-some :
    {A B : Type 0} (m : Option A) (f : A → Option B) {b : B}
    → (m >>= f) ≡ some b
    → (a : A) × (m ≡ some a) × (f a ≡ some b)
bind-some none f h = cc
bind-some (some a) f h = (a, refl, h)

pub raise_exception-Good : (c : Ctx) (e : ExcCode) → Good c → Good (raise_exception e c)
raise_exception-Good c e g = record {
  wide = raise_exception-IsWide c g.wide e;
  bytes = unfold raise_exception in g.bytes;
  sized = unfold raise_exception in g.sized;
}

bp-Good :
    (c : Ctx) (pc next_pc : ℕ)
    → IsWord pc
    → IsWord next_pc
    → Good c
    → Good (record c { cpu = record (c.cpu) { pc = pc; next_pc = next_pc } })
bp-Good c pc next_pc p q g = record {
  wide = let w = g.wide in grind arith;
  bytes = g.bytes;
  sized = g.sized;
}

pub dbg_data_bp_chk-Good : (vaddr : ℕ) (c : Ctx) → Good c → Good (dbg_data_bp_chk vaddr c)
unfolding dbg_data_bp_chk
dbg_data_bp_chk-Good vaddr c g = if_both Good _ g (
    if_both Good _
      (bp-Good _ 0x8000_0040 0x8000_0044 (omega arith) (omega arith)
        (raise_exception-Good c ExcCode.bp g))
      g)

pub Loads-Good : (n : ℕ) (c : Ctx) (v : ℕ) (c' : Ctx) → Good c → Loads n c v c' → Good c'
Loads-Good n c v c' g l = record {
  wide = subst IsWide (sym l.same_cpu) g.wide;
  bytes = subst HoldsBytes (sym l.same_bus) g.bytes;
  sized = subst IsSized (sym l.same_bus) g.sized;
}

pub Stores-Good : (c c' : Ctx) → Good c → Stores c c' → Good c'
Stores-Good c c' g s = record {
  wide = subst IsWide (sym s.cpu_kept) g.wide;
  bytes = s.bytes_kept;
  sized = let z = g.sized in grind arith;
}

rt-lt : (i : ℕ) → instr_rt i < 32
rt-lt i = omega (arith, instr_rt_lem i)

-- A value that was made from a load, on its way to the register that the instruction names.
delayed-Good : (c : Ctx) (v : ℕ) → IsWord v → Good c → Good (gpr_set_delayed (rt c) v c)
delayed-Good c v h g = record {
  wide = gpr_set_delayed-IsWide c g.wide (rt c) v (rt-lt c.cpu.instr) h;
  bytes = let b = g.bytes in unfold gpr_set_delayed in grind arith;
  sized = let z = g.sized in unfold gpr_set_delayed in grind arith;
}

abbrev loading : (Ctx → Option (ℕ × Ctx)) → (ℕ → Ctx → ℕ) → Ctx → Option Ctx
loading load f c = load c >>= λ (v, d). some (gpr_set_delayed (rt d) (f v d) d)

-- The common shape of the loads, with `g` what the instruction makes of the bus's value.
module _ (n : ℕ) (load : Ctx → Option (ℕ × Ctx)) (f : ℕ → Ctx → ℕ)
    (loads : (c : Ctx)
      → HoldsBytes c.bus
      → (v : ℕ) (c' : Ctx) → load c ≡ some (v, c')
      → Loads n c v c')
    (words : (v : ℕ) (c : Ctx) → v < 256 ^ n → Good c → IsWord (f v c)) where
  load-Good : (c c' : Ctx) → loading load f c ≡ some c' → Good c → Good c'
  load-Good c c' h g =
      let (r, e, k) = bind-some (load c) _ h in
      let l = loads c g.bytes r.0 r.1 e in
      let g' = Loads-Good n c r.0 r.1 g l in
      subst Good (of_some k) (delayed-Good r.1 (f r.0 r.1) (words r.0 r.1 l.value_lt g') g')

forwarded-IsWord : (c : Ctx) → Good c → IsWord (forwarded c)
forwarded-IsWord c g =
    if_both IsWord (c.cpu.ld_next.dst == rt c) g.wide.next_load.val_word (g.wide.gpr_word (rt c))

module _ (shift x y : ℕ) where
  lwl_merge-IsWord : IsWord x → IsWord (lwl_merge shift x y)
  unfolding lwl_merge
  lwl_merge-IsWord h =
      bit_or-lt 32 _ _ (omega (arith, h, bit_and-le_left x (shr 0x00FF_FFFF shift))) (omega arith)

  lwr_merge-IsWord : IsWord x → IsWord y → IsWord (lwr_merge shift x y)
  unfolding lwr_merge
  lwr_merge-IsWord h k =
      bit_or-lt 32 _ _ (omega (arith, h, bit_and-le_left x (shl 0xFFFF_FF00 (24 - shift))))
        (omega (arith, k, shr-le y shift))

module _ (c c' : Ctx) (g : Good c) where
  pub phys-Good : Good (get_phys_addr c).1
  unfolding get_phys_addr
  phys-Good = dbg_data_bp_chk-Good _ c g

  -- A misaligned address raises an exception in place of the access.
  guarded :
      (mask : ℕ) (x : Option Ctx) (e : ExcCode)
      → (if bit_and (get_phys_addr c).0 mask == 0
          then x
          else some (raise_exception e (get_phys_addr c).1))
        ≡ some c'
      → (x ≡ some c' → Good c')
      → Good c'
  guarded mask x e h f =
      if_cases (bit_and (get_phys_addr c).0 mask == 0) h f
        (λ k. subst Good (of_some k) (raise_exception-Good _ e phys-Good))

  pub lb-Good : lb c ≡ some c' → Good c'
  unfolding lb
  lb-Good h =
      load-Good 1 (Bus.load_byte _) (λ v d. sign_ext_8_32 v) (λ d b. load_byte-Loads d b _)
        (λ v d p q. sign_ext_8_32-IsWord v) _ c' h phys-Good

  pub lbu-Good : lbu c ≡ some c' → Good c'
  unfolding lbu
  lbu-Good h =
      load-Good 1 (Bus.load_byte _) (λ v d. v) (λ d b. load_byte-Loads d b _)
        (λ v d p q. omega arith) _ c' h phys-Good

  pub lh-Good : lh c ≡ some c' → Good c'
  unfolding lh
  lh-Good h =
      guarded 1
        (loading (Bus.load_halfword (get_phys_addr c).0) (λ v d. sign_ext_16_32 v)
          (get_phys_addr c).1)
        ExcCode.adel h
        (λ k.
          load-Good 2 (Bus.load_halfword (get_phys_addr c).0) (λ v d. sign_ext_16_32 v)
            (λ d b. load_halfword-Loads d b _) (λ v d p q. sign_ext_16_32-IsWord v) _ c' k
            phys-Good)

  pub lhu-Good : lhu c ≡ some c' → Good c'
  unfolding lhu
  lhu-Good h =
      guarded 1 (loading (Bus.load_halfword (get_phys_addr c).0) (λ v d. v) (get_phys_addr c).1)
        ExcCode.adel h
        (λ k.
          load-Good 2 (Bus.load_halfword (get_phys_addr c).0) (λ v d. v)
            (λ d b. load_halfword-Loads d b _) (λ v d p q. omega arith) _ c' k phys-Good)

  pub lw-Good : lw c ≡ some c' → Good c'
  unfolding lw
  lw-Good h =
      guarded 3 (loading (Bus.load_word (get_phys_addr c).0) (λ v d. v) (get_phys_addr c).1)
        ExcCode.adel h
        (λ k.
          load-Good 4 (Bus.load_word (get_phys_addr c).0) (λ v d. v) (λ d b. load_word-Loads d b _)
            (λ v d p q. omega arith) _ c' k phys-Good)

  pub lwl-Good : lwl c ≡ some c' → Good c'
  unfolding lwl
  lwl-Good h =
      load-Good 4 (Bus.load_word _) (λ v d. lwl_merge _ (forwarded d) v)
        (λ d b. load_word-Loads d b _) (λ v d p q. lwl_merge-IsWord _ _ _ (forwarded-IsWord d q)) _
        c' h phys-Good

  pub lwr-Good : lwr c ≡ some c' → Good c'
  unfolding lwr
  lwr-Good h =
      load-Good 4 (Bus.load_word _) (λ v d. lwr_merge _ (forwarded d) v)
        (λ d b. load_word-Loads d b _)
        (λ v d p q. lwr_merge-IsWord _ _ _ (forwarded-IsWord d q) (omega arith)) _ c' h phys-Good

  pub sb-Good : sb c ≡ some c' → Good c'
  unfolding sb
  sb-Good h = Stores-Good _ c' phys-Good (store_byte-Stores _ phys-Good.bytes _ _ c' h)

  pub sh-Good : sh c ≡ some c' → Good c'
  unfolding sh
  sh-Good h =
      guarded 1
        (Bus.store_halfword (get_phys_addr c).0 (bit_and (gpr_rt (get_phys_addr c).1) 0xFFFF)
          (get_phys_addr c).1)
        ExcCode.ades h
        (λ k. Stores-Good _ c' phys-Good (store_halfword-Stores _ phys-Good.bytes _ _ c' k))

  pub sw-Good : sw c ≡ some c' → Good c'
  unfolding sw
  sw-Good h =
      if_cases (bit_and (c.cpu.cop0 cop0_sr) 0x1_0000 == 0) h
        (λ i.
          guarded 3
            (Bus.store_word (get_phys_addr c).0 (gpr_rt (get_phys_addr c).1) (get_phys_addr c).1)
            ExcCode.ades i
            (λ k. Stores-Good _ c' phys-Good (store_word-Stores _ phys-Good.bytes _ _ c' k)))
        (λ k. subst Good (of_some k) g)

  -- The unaligned stores read the aligned word first.
  merged-Good :
      (p : ℕ) (f : ℕ → Ctx → ℕ)
      → (Bus.load_word p (get_phys_addr c).1 >>= λ (v, d). Bus.store_word p (f v d) d) ≡ some c'
      → Good c'
  merged-Good p f h =
      let (r, e, k) = bind-some (Bus.load_word p (get_phys_addr c).1) _ h in
      let g' = Loads-Good 4 _ r.0 r.1 phys-Good (load_word-Loads _ phys-Good.bytes p r.0 r.1 e) in
      Stores-Good r.1 c' g' (store_word-Stores r.1 g'.bytes p (f r.0 r.1) c' k)

  pub swl-Good : swl c ≡ some c' → Good c'
  unfolding swl
  swl-Good h = merged-Good _ (λ v d. swl_merge _ (gpr_rt d) v) h

  pub swr-Good : swr c ≡ some c' → Good c'
  unfolding swr
  swr-Good h = merged-Good _ (λ v d. swr_merge _ (gpr_rt d) v) h
