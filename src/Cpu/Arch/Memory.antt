-- ===== src/Cpu/Arch/Memory.antt =====
-- The aligned loads and stores of core/cpu.c against their effects.
use psycho.Prelude.{
  ℕ, ◌%◌, ◌≡◌, ◌≢◌, ◌==◌, arith, refl, ap, ◌∙◌, bit_and, true, false, Bool-cases, inl, inr, Option,
  none, some, of_some,
}
use psycho.State.{Ctx, cop0_sr}
use psycho.CpuDefs.{instr_rt, instr_off, get_vaddr}
use psycho.Bus.Bytes.{HoldsBytes, store_word-Stores, store_halfword-Stores, store_byte-Stores}
use psycho.Bus.View.{byte_at, value_at, IsSized}
use psycho.Bus.Stores.{is_writable}
use psycho.Bus.Widths.{Width, load, store, bytes, low, unmapped, byte_at-store}
use psycho.Cpu.{access_vaddr, access_paddr, dbg_data_bp_chk}
use psycho.Cpu.Arch.{Arch, view, Effect, stores, put_bytes}
use psycho.Cpu.Arch.Effects.{
  Effects, ready, loads-Effects, stores-Effects, traps-Effects, idles-Effects,
}
use psycho.Cpu.Arch.Plain.{follow}
use psycho.Cpu.Arch.Data.{
  data_address, data_load, data_store, value_loaded, at_multiple, when_writable, group_effect,
}
use psycho.Cpu.Access.{sw}
use psycho.Cpu.{gpr_set_delayed, raise_exception, ExcCode}
use psycho.Cpu.Decode.{GroupOp}
use psycho.Cpu.Step.{finish}
use psycho.Cpu.Valid.{IsWide}
use psycho.Cpu.Arch.Plain.{outside}
use psycho.Cpu.Valid.Access.{bind-some}
use psycho.Cpu.Arch.Access.{
  Addressed, load-some, store-Returns, physical-access_paddr, data_address-Addressed, sw-stores,
  sw-traps, sw-isolated,
}

value_loaded-some :
    (w : Width) (p v : ℕ) (a : Arch)
    → value_loaded w p a ≡ some v
    → (unmapped w p ≡ false) × (value_at (bytes w) a.mem p ≡ some v)
value_loaded-some w p v a h = elim (Bool-cases (unmapped w p)) [
  | inl u ↦ absurd (let n : none ≡ some v = rw u at h in cc)
  | inr u ↦ (u, rw u at h)
]

pub store-cpu :
    (c d : Ctx) (w : Width) (p v : ℕ) → HoldsBytes c.bus → store w p v c ≡ some d → d.cpu ≡ c.cpu
store-cpu c d Width.word p v b h = (store_word-Stores c b p v d h).cpu_kept
store-cpu c d Width.halfword p v b h = (store_halfword-Stores c b p v d h).cpu_kept
store-cpu c d Width.byte p v b h = (store_byte-Stores c b p v d h).cpu_kept

pub written_bytes :
    (c d : Ctx) (w : Width) (p v q : ℕ)
    → IsSized c.bus
    → is_writable p ≡ true
    → store w p v c ≡ some d
    → byte_at d.bus q ≡ put_bytes (bytes w) p (low w v) (byte_at c.bus) q
written_bytes c d w p v q z m h = byte_at-store c d w p v q z h ∙ (rw m refl)

pub writable_effect :
    (p : ℕ) (x e : Effect) → when_writable p x ≡ some e → (is_writable p ≡ true) × (x ≡ e)
writable_effect p x e h = elim (Bool-cases (is_writable p)) [
  | inl m ↦ (m, of_some (rw m at h))
  | inr m ↦ absurd (let n : none ≡ some e = rw m at h in cc)
]

module _ (c : Ctx) (instr : ℕ) (w : IsWide (ready instr c).cpu) (z : (view c).reg 0 ≡ 0) where
  pub paddr : (p : ℕ) → Addressed instr p (view c) → access_paddr (access_vaddr (ready instr c)) ≡ p
  unfolding access_vaddr get_vaddr instr_off
  paddr p d = physical-access_paddr _ p d.at

  pub checked :
      (p : ℕ)
      → Addressed instr p (view c)
      → dbg_data_bp_chk (access_vaddr (ready instr c)) (ready instr c) ≡ ready instr c
  unfolding dbg_data_bp_chk
  checked p d = rw d.quiet refl

  -- An access whose address is a multiple of its width, or else raises an exception.
  at_multiple-Effects :
      (v : Width) (exc : ExcCode) (p : ℕ) (x : Option Effect) (e : Effect) (o : Option Ctx)
      → at_multiple v exc p (view c) x ≡ some e
      → (p % bytes v ≡ 0 → x ≡ some e → Effects c e (finish o))
      → (p % bytes v ≢ 0 → o ≡ some (raise_exception exc (ready instr c)))
      → Effects c e (finish o)
  at_multiple-Effects v exc p x e o h f t = elim (Bool-cases (p % bytes v == 0)) [
    | inl m ↦ f (ground arith) (rw m at h)
    | inr m ↦
        follow c (outside (view c) (rw m at h)).1 (ap finish (t (λ q. ground arith)))
          (traps-Effects c instr w.next_load z exc w)
  ]

  pub load-Effects :
      (v : Width) (extend : ℕ → ℕ) (e : Effect) (o : Option Ctx)
      → IsSized c.bus
      → data_load v extend instr (view c) ≡ some e
      → ((p x : ℕ)
          → Addressed instr p (view c)
          → p % bytes v ≡ 0
          → load v p (ready instr c) ≡ some (x, ready instr c)
          → o ≡ some (gpr_set_delayed (instr_rt instr) (extend x) (ready instr c)))
      → ((p : ℕ)
          → Addressed instr p (view c)
          → p % bytes v ≢ 0
          → o ≡ some (raise_exception ExcCode.adel (ready instr c)))
      → Effects c e (finish o)
  load-Effects v extend e o s h g t =
      let (p, at, k) = bind-some (data_address instr (view c)) _ h in
      let d = data_address-Addressed instr p (view c) at in
      at_multiple-Effects v ExcCode.adel p _ e o k
        (λ m q.
          let (x, found, q') = bind-some (value_loaded v p (view c)) _ q in
          let (u, value) = value_loaded-some v p x (view c) found in
          follow c (of_some q') (ap finish (g p x d m (load-some (ready instr c) v p x s u value)))
            (loads-Effects c instr w.next_load z (instr_rt instr) (extend x)))
        (t p d)

  pub store-Effects :
      (v : Width) (x : ℕ) (e : Effect) (o : Option Ctx)
      → IsSized c.bus
      → HoldsBytes c.bus
      → data_store v instr (view c) ≡ some e
      → low v x ≡ low v ((view c).reg (instr_rt instr))
      → ((p : ℕ) → Addressed instr p (view c) → p % bytes v ≡ 0 → o ≡ store v p x (ready instr c))
      → ((p : ℕ)
          → Addressed instr p (view c)
          → p % bytes v ≢ 0
          → o ≡ some (raise_exception ExcCode.ades (ready instr c)))
      → Effects c e (finish o)
  store-Effects v x e o s b h same_low g t =
      let (p, at, k) = bind-some (data_address instr (view c)) _ h in
      let a = data_address-Addressed instr p (view c) at in
      at_multiple-Effects v ExcCode.ades p _ e o k
        (λ m q.
          let (old, value, q') = bind-some (value_at (bytes v) (byte_at c.bus) p) _ q in
          let (can, same) = writable_effect p _ e q' in
          let (d, done) = store-Returns (ready instr c) v p x old s can value in
          follow c (ap (stores (bytes v) p) same_low ∙ same) (ap finish (g p a m ∙ done)) (
            stores-Effects c instr w.next_load z (bytes v) p (low v x) d
              (store-cpu _ d v p x b done)
              (λ y. written_bytes (ready instr c) d v p x y s can done)))
        (t p a)

  pub sw-Effects :
      (e : Effect)
      → IsSized c.bus
      → HoldsBytes c.bus
      → group_effect GroupOp.sw instr (view c) ≡ some e
      → Effects c e (finish (sw (ready instr c)))
  sw-Effects e s b h = elim (Bool-cases (bit_and (c.cpu.cop0 cop0_sr) 0x1_0000 == 0)) [
    | inl i ↦
        store-Effects Width.word _ e _ s b (rw i at h) refl
          (λ p d m. sw-stores (ready instr c) p (paddr p d) (checked p d) m (ground arith))
          (λ p d m. sw-traps (ready instr c) p (paddr p d) (checked p d) m (ground arith))
    | inr i ↦
        follow c (of_some (rw i at h)) (ap finish (sw-isolated (ready instr c) (λ q. ground arith)))
          (idles-Effects c instr w.next_load z)
  ]
