-- ===== src/Cpu/Unaligned/Storing.antt =====
-- `swr` and then `swl` store a word that no boundary holds.
use mathlib.Core.Path.{subst}
use native.Mathlib.Nat.{add-zero}
use psycho.Prelude.{
  inr, ℕ, ◌+◌, ◌-◌, ◌*◌, ◌/◌, ◌%◌, ◌^◌, ◌<◌, ◌≡◌, ◌≢◌, ltb, arith, refl, ap, sym, ◌∙◌,
  if◌then◌else◌, true, Option, some, ◌>>=◌,
}
use psycho.State.{Ctx, Bus as BusState}
use psycho.Memory.{le_value}
use psycho.Memory.Laws.{IsBytes}
use psycho.CpuDefs.{instr_rs, instr_rt, instr_off, get_vaddr}
use psycho.Bus.{load_word, store_word}
use psycho.Bus.View.{IsSized, byte_at}
use psycho.Bus.Stores.{stored, is_writable}
use psycho.Cpu.{get_phys_addr, access_vaddr, access_paddr}
use psycho.Cpu.Special.{rt, gpr_rt}
use psycho.Cpu.Access.{aligned, lane_shift, swl, swr, swl_merge, swr_merge}
use psycho.Cpu.Valid.{IsValid}
use psycho.Cpu.Unaligned.Stores.{store_one, at_zero, Stored, both_stored}
use psycho.Cpu.Unaligned.Memory.{
  Holds, Kept, Next, next_instr, then_instr, next_instr-Next, get_phys_addr-Kept, load_Kept,
  aligned_lem, lane_shift_lem,
}

-- What both stores do behind the address.
abbrev merged_store : (ℕ → ℕ → ℕ → ℕ) → ℕ → Ctx → Option Ctx
merged_store merge p x = do
  (word, c) ← load_word (aligned p) x
  store_word (aligned p) (merge (lane_shift p) (gpr_rt c) word) c

merged_store_lem :
    (merge : ℕ → ℕ → ℕ → ℕ) (c x : Ctx) (p q s w : ℕ)
    → Kept c x
    → p ≡ q + s
    → q % 4 ≡ 0
    → s < 4
    → q < 2 ^ 32
    → load_word q x ≡ some (w, x)
    → merged_store merge p x ≡ store_word q (merge (s * 8) (gpr_rt c) w) x
merged_store_lem merge c x p q s w k a m l lt e =
    rw (a, aligned_lem q s m l lt, lane_shift_lem q s m l, e, k.instr_eq, k.gpr_eq) refl

-- Both stores in eight bytes, at their offset of one of the two aligned words.
module _ (c : Ctx) (q s : ℕ) (b : ℕ → ℕ) (z : IsSized c.bus) (h : Holds c.bus q b) (m : q % 4 ≡ 0)
    (k : q + 4 < 2 ^ 32) (l : s < 4) where
  swr_lem :
      (get_phys_addr c).0 ≡ q + s
      → swr c ≡ store_word q (swr_merge (s * 8) (gpr_rt c) (le_value 4 b 0)) (get_phys_addr c).1
  unfolding swr
  swr_lem a =
      merged_store_lem swr_merge c (get_phys_addr c).1 _ q s _ (get_phys_addr-Kept c) a m l
        (omega arith)
        (subst
          (λ (p : ℕ). load_word p (get_phys_addr c).1 ≡ some (le_value 4 b 0, (get_phys_addr c).1))
          (add-zero q)
          (load_Kept c (get_phys_addr c).1 q 0 b (get_phys_addr-Kept c) z h (omega arith)))

  swl_lem :
      (get_phys_addr c).0 ≡ q + 4 + s
      → swl c
        ≡ store_word (q + 4) (swl_merge (s * 8) (gpr_rt c) (le_value 4 b 4)) (get_phys_addr c).1
  unfolding swl
  swl_lem a =
      merged_store_lem swl_merge c (get_phys_addr c).1 _ (q + 4) s _ (get_phys_addr-Kept c) a
        (omega arith) l (omega arith)
        (load_Kept c (get_phys_addr c).1 q 4 b (get_phys_addr-Kept c) z h (omega arith))

-- The eight bytes after the first of the two stores.
abbrev once : ℕ → (ℕ → ℕ) → ℕ → ℕ
once v b j = if ltb j 4 then v / 256 ^ j % 256 else b j

Holds-once :
    (b0 b1 : BusState) (q v : ℕ) (b : ℕ → ℕ)
    → Holds b0 q b
    → is_writable q ≡ true
    → ((x : ℕ) → byte_at b1 x ≡ stored 4 q v b0 x)
    → Holds b1 q (once v b)
Holds-once b0 b1 q v b h w low j l =
    let at : q + j - q ≡ j = omega arith in
    let eq : byte_at b1 (q + j) ≡ stored 4 q v b0 (q + j) = low (q + j) in
    rw (eq, w, at, h j l) (ground arith)

-- A register that is not being loaded, in the instruction after a store.
settled :
    (c x d e : Ctx) (word r : ℕ)
    → Kept c x
    → Stored x d
    → Next word d e
    → c.cpu.ld_next.dst ≢ r
    → e.cpu.gpr r ≡ c.cpu.gpr r
settled c x d e word r k s n h = rw (n.gpr_eq, s.cpu_eq, k.gpr_eq, k.next_eq) (ground arith)

module _ (c x d e : Ctx) (word : ℕ) (k : Kept c x) (s : Stored x d) (n : Next word d e) where
  settled_vaddr :
      c.cpu.ld_next.dst ≢ instr_rs word
      → access_vaddr e ≡ get_vaddr (instr_off word) (c.cpu.gpr (instr_rs word))
  unfolding access_vaddr
  settled_vaddr h =
      rw (n.instr_eq)
        (ap (get_vaddr (instr_off word)) (settled c x d e word (instr_rs word) k s n h))

  settled_rt : instr_rt word ≡ rt c → c.cpu.ld_next.dst ≢ rt c → gpr_rt e ≡ gpr_rt c
  settled_rt same h = rw (n.instr_eq, same) (settled c x d e word (rt c) k s n h)

-- The low addresses of the two words are in one region.
together :
    (bus : BusState) (q s x : ℕ)
    → q % 4 ≡ 0
    → s < 4
    → is_writable q ≡ true
    → byte_at bus (q + 4) ≡ some x
    → (is_writable (q + 4) ≡ true) × (is_writable (q + s) ≡ true)
unfolding byte_at
together bus q s x m l w h = (ground arith, ground arith)

-- A word across two aligned words of writable memory is stored in whole by `swr` at its address and
-- then `swl` at its last byte, from the same register: in a valid processor, with arrays of the
-- declared sizes, both return, and the memory map has the four bytes of the register there and every
-- other byte as before. No load to the register or to the second instruction's base is on its way.
pub swl-swr :
    (c : Ctx) (word q s : ℕ) (b : ℕ → ℕ)
    → IsValid c.cpu
    → IsSized c.bus
    → Holds c.bus q b
    → IsBytes b
    → is_writable q ≡ true
    → q % 4 ≡ 0
    → q + 4 < 2 ^ 32
    → 0 < s
    → s < 4
    → instr_rt word ≡ rt c
    → c.cpu.ld_next.dst ≢ rt c
    → c.cpu.ld_next.dst ≢ instr_rs word
    → access_paddr (access_vaddr c) ≡ q + s
    → access_paddr (get_vaddr (instr_off word) (c.cpu.gpr (instr_rs word))) ≡ q + s + 3
    → (d : Ctx) × (then_instr swr word swl c ≡ some d)
      × ((p : ℕ) → byte_at d.bus p ≡ stored 4 (q + s) (gpr_rt c) c.bus p)
unfolding get_phys_addr access_vaddr
swl-swr c word q s b g z h hb wr m k p l same free_rt free_rs a1 a2 =
    let r = gpr_rt c in
    let x = (get_phys_addr c).1 in
    let kept = get_phys_addr-Kept c in
    let v0 = swr_merge (s * 8) r (le_value 4 b 0) in
    let (d, first) = at_zero c x q v0 b kept z h m in
    let e = next_instr word d in
    let next : Next word d e = next_instr-Next word d in
    let b' = once v0 b in
    let he : Holds e.bus q b' =
      subst (λ (y : BusState). Holds y q b') (sym next.bus_eq)
        (Holds-once c.bus d.bus q v0 b h wr first.bytes) in
    let ze : IsSized e.bus = subst IsSized (sym next.bus_eq) first.sized in
    let a : (get_phys_addr e).0 ≡ q + 4 + (s - 1) =
      ap access_paddr (settled_vaddr c x d e word kept first.kept next free_rs)
      ∙ a2
      ∙ omega arith in
    let (f, second) =
      store_one e (get_phys_addr e).1 q (swl_merge ((s - 1) * 8) (gpr_rt e) (le_value 4 b 4)) b' 4
        (get_phys_addr-Kept e) ze he m (inr refl) in
    let (w4, ws) = together c.bus q s (b 4) m l wr (h 4 (omega arith)) in
    let high : (p : ℕ)
        → byte_at f.bus p ≡ stored 4 (q + 4) (swl_merge ((s - 1) * 8) r (le_value 4 b 4)) d.bus p =
      λ p.
        subst
          (λ (y : ℕ).
            byte_at f.bus p ≡ stored 4 (q + 4) (swl_merge ((s - 1) * 8) y (le_value 4 b 4)) d.bus p)
          (settled_rt c x d e word kept first.kept next same free_rt)
          (subst
            (λ (y : BusState).
              byte_at f.bus p
              ≡ stored 4 (q + 4) (swl_merge ((s - 1) * 8) (gpr_rt e) (le_value 4 b 4)) y p)
            next.bus_eq (second.bytes p)) in
    (
      f,
      ap (λ (o : Option Ctx). o >>= λ (y : Ctx). swl (next_instr word y))
            (swr_lem c q s b z h m k l a1 ∙ first.done)
          ∙ swl_lem e q (s - 1) b' ze he m k (omega arith) a
          ∙ second.done,
      both_stored c.bus d.bus f.bus q s r b h hb p l (g.wide.gpr_word (rt c)) first.bytes high wr w4
          ws,
    )
