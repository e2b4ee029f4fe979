-- ===== src/Cpu/Arch/Unaligned.antt =====
-- The unaligned loads and stores of core/cpu.c against their effects.
use psycho.Prelude.{ℕ, ◌-◌, ◌*◌, ◌%◌, ◌^◌, ◌<◌, ◌≡◌, arith, refl, ap, ◌∙◌, Option, some, of_some}
use psycho.State.{Ctx}
use psycho.CpuDefs.{instr_rt}
use psycho.Bus.{load_word, store_word}
use psycho.Bus.Bytes.{HoldsBytes}
use psycho.Bus.View.{byte_at, value_at, IsSized}
use psycho.Bus.Widths.{Width}
use psycho.Cpu.Arch.{view, Effect, loads, stores}
use psycho.Cpu.Arch.Effects.{Effects, ready, loads-Effects, stores-Effects}
use psycho.Cpu.Arch.Plain.{follow}
use psycho.Cpu.Arch.Data.{data_address}
use psycho.Cpu.{gpr_set_delayed}
use psycho.Cpu.Step.{finish}
use psycho.Cpu.Valid.{IsLoad, IsWide}
use psycho.Cpu.Valid.Access.{bind-some}
use psycho.Cpu.Arch.Access.{Addressed, load-some, store-Returns, data_address-Addressed}
use psycho.Bus.Bytes.{load_word-Loads}
use psycho.Cpu.Unaligned.{lwl_merge_lem, lwr_merge_lem, swl_merge_lem, swr_merge_lem}
use psycho.Cpu.Arch.Access.{Addressed-lt, lwl-loads, lwr-loads, swl-stores, swr-stores}
use psycho.Cpu.Access.{lwl, lwr, swl, swr, lwl_merge, lwr_merge, swl_merge, swr_merge}
use psycho.Cpu.Arch.{proceed}
use psycho.Cpu.Arch.Data.{
  left_loaded, right_loaded, left_stored, right_stored, unaligned_load, unaligned_store,
}
use psycho.Cpu.Arch.Memory.{paddr, checked, store-cpu, written_bytes, writable_effect}

module _ (c : Ctx) (instr : ℕ) (w : IsWide (ready instr c).cpu) (z : (view c).reg 0 ≡ 0) where
  -- The register with the value of a load that is on its way is a word.
  forwarded-lt : (proceed (view c)).reg (instr_rt instr) < 2 ^ 32
  forwarded-lt =
      let r : (view c).reg (instr_rt instr) < 2 ^ 32 = w.gpr_word (instr_rt instr) in
      let l : IsLoad c.cpu.ld_pend = w.next_load in ground (arith, l.val_word)

  unaligned_load-Effects :
      (merge code_merge : ℕ → ℕ → ℕ → ℕ) (e : Effect) (o : Option Ctx)
      → IsSized c.bus
      → HoldsBytes c.bus
      → unaligned_load merge instr (view c) ≡ some e
      → ((s r x : ℕ) → s < 4 → r < 2 ^ 32 → x < 2 ^ 32 → code_merge (s * 8) r x ≡ merge s r x)
      → ((p x : ℕ)
          → Addressed instr p (view c)
          → p < 2 ^ 29
          → load_word (p - p % 4) (ready instr c) ≡ some (x, ready instr c)
          → o
            ≡ some (
                gpr_set_delayed
                  (instr_rt instr)
                  (code_merge (p % 4 * 8) ((proceed (view c)).reg (instr_rt instr)) x)
                  (ready instr c)))
      → Effects c e (finish o)
  unaligned_load-Effects merge code_merge e o s b h m g =
      let (p, at, k) = bind-some (data_address instr (view c)) _ h in
      let (x, found, q) = bind-some (value_at 4 (byte_at c.bus) (p - p % 4)) _ k in
      let d = data_address-Addressed instr p (view c) at in
      let loaded = load-some (ready instr c) Width.word (p - p % 4) x s refl found in
      let l = load_word-Loads (ready instr c) b (p - p % 4) x (ready instr c) loaded in
      let same = m (p % 4) _ x (omega arith) forwarded-lt l.value_lt in
      follow c (ap (loads (instr_rt instr)) same ∙ of_some q)
        (ap finish (g p x d (Addressed-lt instr p (view c) d) loaded))
        (loads-Effects c instr w.next_load z (instr_rt instr) _)

  pub lwl-Effects :
      (e : Effect)
      → IsSized c.bus
      → HoldsBytes c.bus
      → unaligned_load left_loaded instr (view c) ≡ some e
      → Effects c e (finish (lwl (ready instr c)))
  lwl-Effects e s b h =
      unaligned_load-Effects left_loaded lwl_merge e _ s b h (λ s r x l k q. lwl_merge_lem s r x l)
        (λ p x d. lwl-loads (ready instr c) p (paddr c instr w z p d) (checked c instr w z p d) x)

  pub lwr-Effects :
      (e : Effect)
      → IsSized c.bus
      → HoldsBytes c.bus
      → unaligned_load right_loaded instr (view c) ≡ some e
      → Effects c e (finish (lwr (ready instr c)))
  lwr-Effects e s b h =
      unaligned_load-Effects right_loaded lwr_merge e _ s b h lwr_merge_lem
        (λ p x d. lwr-loads (ready instr c) p (paddr c instr w z p d) (checked c instr w z p d) x)

  unaligned_store-Effects :
      (merge code_merge : ℕ → ℕ → ℕ → ℕ) (e : Effect) (o : Option Ctx)
      → IsSized c.bus
      → HoldsBytes c.bus
      → unaligned_store merge instr (view c) ≡ some e
      → ((s r x : ℕ) → s < 4 → r < 2 ^ 32 → x < 2 ^ 32 → code_merge (s * 8) r x ≡ merge s r x)
      → ((p x : ℕ)
          → Addressed instr p (view c)
          → p < 2 ^ 29
          → load_word (p - p % 4) (ready instr c) ≡ some (x, ready instr c)
          → o
            ≡ store_word
                (p - p % 4)
                (code_merge (p % 4 * 8) ((view c).reg (instr_rt instr)) x)
                (ready instr c))
      → Effects c e (finish o)
  unaligned_store-Effects merge code_merge e o s b h m g =
      let (p, at, k) = bind-some (data_address instr (view c)) _ h in
      let (x, found, q) = bind-some (value_at 4 (byte_at c.bus) (p - p % 4)) _ k in
      let (can, same) = writable_effect (p - p % 4) _ e q in
      let d = data_address-Addressed instr p (view c) at in
      let loaded = load-some (ready instr c) Width.word (p - p % 4) x s refl found in
      let l = load_word-Loads (ready instr c) b (p - p % 4) x (ready instr c) loaded in
      let v = code_merge (p % 4 * 8) ((view c).reg (instr_rt instr)) x in
      let merged = m (p % 4) _ x (omega arith) (w.gpr_word (instr_rt instr)) l.value_lt in
      let (f, done) = store-Returns (ready instr c) Width.word (p - p % 4) v x s can found in
      follow c (ap (stores 4 (p - p % 4)) merged ∙ same)
        (ap finish (g p x d (Addressed-lt instr p (view c) d) loaded ∙ done))
        (stores-Effects c instr w.next_load z 4 (p - p % 4) v f
          (store-cpu _ f Width.word (p - p % 4) v b done)
          (λ y. written_bytes (ready instr c) f Width.word (p - p % 4) v y s can done))

  pub swl-Effects :
      (e : Effect)
      → IsSized c.bus
      → HoldsBytes c.bus
      → unaligned_store left_stored instr (view c) ≡ some e
      → Effects c e (finish (swl (ready instr c)))
  swl-Effects e s b h =
      unaligned_store-Effects left_stored swl_merge e _ s b h swl_merge_lem
        (λ p x d. swl-stores (ready instr c) p (paddr c instr w z p d) (checked c instr w z p d) x)

  pub swr-Effects :
      (e : Effect)
      → IsSized c.bus
      → HoldsBytes c.bus
      → unaligned_store right_stored instr (view c) ≡ some e
      → Effects c e (finish (swr (ready instr c)))
  swr-Effects e s b h =
      unaligned_store-Effects right_stored swr_merge e _ s b h
        (λ s r x l k q. swr_merge_lem s r x l)
        (λ p x d. swr-stores (ready instr c) p (paddr c instr w z p d) (checked c instr w z p d) x)
