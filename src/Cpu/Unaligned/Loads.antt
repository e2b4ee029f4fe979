-- ===== src/Cpu/Unaligned/Loads.antt =====
-- `lwr` and then `lwl` load a word that no boundary holds.
use mathlib.Core.Path.{subst}
use native.Mathlib.Nat.{add-zero}
use psycho.Prelude.{
  ℕ, Bool-cases, inl, inr, ◌+◌, ◌-◌, ◌*◌, ◌%◌, ◌^◌, ◌<◌, ◌≡◌, ◌≢◌, ◌==◌, arith, refl, ap, sym, ◌∙◌,
  if◌then◌else◌, Option, some, ◌>>=◌,
}
use psycho.State.{Ctx, Bus as BusState, LoadDelay}
use psycho.Memory.{le_value, update}
use psycho.Memory.Laws.{IsBytes}
use psycho.CpuDefs.{instr_rs, instr_rt, instr_off, get_vaddr}
use psycho.Bus.{load_word}
use psycho.Bus.View.{IsSized}
use psycho.Cpu.{get_phys_addr, gpr_set_delayed, access_vaddr, access_paddr, no_load}
use psycho.Cpu.Special.{rt}
use psycho.Cpu.Access.{forwarded, lwl, lwr, lwl_merge, lwr_merge}
use psycho.Cpu.Valid.{IsValid}
use psycho.Cpu.Unaligned.{lwl_merge-lwr_merge}
use psycho.Cpu.Unaligned.Memory.{
  then_instr, Holds, Next, Delayed, next_instr, next_instr-Next, gpr_set_delayed-Delayed,
  get_phys_addr-Kept, merged_load_lem, load_Kept, across,
}

-- Both loads in eight bytes, at their offset of one of the two aligned words.
module _ (c : Ctx) (q s : ℕ) (b : ℕ → ℕ) (z : IsSized c.bus) (h : Holds c.bus q b) (m : q % 4 ≡ 0)
    (k : q + 4 < 2 ^ 32) where
  lwr_lem :
      (get_phys_addr c).0 ≡ q + s
      → s < 4
      → lwr c
        ≡ some (
            gpr_set_delayed
              (rt c)
              (lwr_merge (s * 8) (forwarded c) (le_value 4 b 0))
              (get_phys_addr c).1)
  unfolding lwr
  lwr_lem a l =
      merged_load_lem lwr_merge c (get_phys_addr c).1 _ q s _ (get_phys_addr-Kept c) a m l
        (omega arith)
        (subst
          (λ (p : ℕ). load_word p (get_phys_addr c).1 ≡ some (le_value 4 b 0, (get_phys_addr c).1))
          (add-zero q)
          (load_Kept c (get_phys_addr c).1 q 0 b (get_phys_addr-Kept c) z h (omega arith)))

  lwl_lem :
      (get_phys_addr c).0 ≡ q + 4 + s
      → s < 4
      → lwl c
        ≡ some (
            gpr_set_delayed
              (rt c)
              (lwl_merge (s * 8) (forwarded c) (le_value 4 b 4))
              (get_phys_addr c).1)
  unfolding lwl
  lwl_lem a l =
      merged_load_lem lwl_merge c (get_phys_addr c).1 _ (q + 4) s _ (get_phys_addr-Kept c) a
        (omega arith) l (omega arith)
        (load_Kept c (get_phys_addr c).1 q 4 b (get_phys_addr-Kept c) z h (omega arith))

-- A base register that is not being loaded, after the load delay of the next step.
base_kept :
    (ld : LoadDelay) (gpr : ℕ → ℕ) (r x : ℕ)
    → ld.dst ≢ x
    → gpr 0 ≡ 0
    → let now = if ld.dst == r then no_load else ld in update gpr now.dst now.val x ≡ gpr x
base_kept ld gpr r x h z = elim (Bool-cases (x == 0)) [
  | inl p ↦
      let e : x ≡ 0 = ground arith in
      let n : ld.dst ≢ 0 = λ q. h (q ∙ sym e) in rw e (ground (arith, z))
  | inr n ↦ ground arith
]

-- The instruction at the next step, after a load to `r` that is delayed.
module _ (c d e : Ctx) (r v : ℕ) (word : ℕ) (l : Delayed r v c d) (n : Next word d e) where
  next_forwarded : instr_rt word ≡ r → forwarded e ≡ v
  next_forwarded h = rw (n.next_eq, n.instr_eq, l.pend_eq, h) (ground arith)

  next_vaddr :
      IsValid c.cpu
      → c.cpu.ld_next.dst ≢ instr_rs word
      → access_vaddr e ≡ get_vaddr (instr_off word) (c.cpu.gpr (instr_rs word))
  unfolding access_vaddr
  next_vaddr g h =
      rw (n.gpr_eq, n.instr_eq, l.next_eq, l.gpr_eq)
        (ap (get_vaddr (instr_off word))
          (base_kept c.cpu.ld_next c.cpu.gpr r (instr_rs word) h g.zero_zero))

-- What the second load sees.
second :
    (c d e : Ctx) (r v word q s : ℕ) (b : ℕ → ℕ)
    → Delayed r v c d
    → Next word d e
    → IsSized c.bus
    → Holds c.bus q b
    → q % 4 ≡ 0
    → q + 4 < 2 ^ 32
    → s < 4
    → r ≢ 0
    → instr_rt word ≡ r
    → (get_phys_addr e).0 ≡ q + 4 + s
    → (f : Ctx) × (lwl e ≡ some f) × Delayed r (lwl_merge (s * 8) v (le_value 4 b 4)) e f
second c d e r v word q s b l n z h m k ls nz same a =
    let bus : e.bus ≡ c.bus = n.bus_eq ∙ l.bus_eq in
    let to : rt e ≡ r = ap instr_rt n.instr_eq ∙ same in
    let done =
      lwl_lem e q s b (subst IsSized (sym bus) z)
        (subst (λ (y : BusState). Holds y q b) (sym bus) h) m k a ls in
    let x = (get_phys_addr e).1 in
    let found : forwarded e ≡ v = next_forwarded c d e r v word l n same in
    let eq : some (gpr_set_delayed (rt e) (lwl_merge (s * 8) (forwarded e) (le_value 4 b 4)) x)
        ≡ some (gpr_set_delayed r (lwl_merge (s * 8) v (le_value 4 b 4)) x) =
      rw (found, to) refl in
    (
      gpr_set_delayed r (lwl_merge (s * 8) v (le_value 4 b 4)) x,
      done ∙ eq,
      gpr_set_delayed-Delayed r _ e x nz (get_phys_addr-Kept e),
    )

forwarded-lt : (c : Ctx) → IsValid c.cpu → forwarded c < 2 ^ 32
forwarded-lt c g = ground (arith, g.wide.next_load.val_word, g.wide.gpr_word (rt c))

-- What the two merges make of the bytes.
value :
    (s : ℕ) (b : ℕ → ℕ)
    → IsBytes b
    → 0 < s
    → s < 4
    → (r : ℕ) → r < 2 ^ 32
    → lwl_merge ((s - 1) * 8) (lwr_merge (s * 8) r (le_value 4 b 0)) (le_value 4 b 4)
      ≡ le_value 4 b s
value s b h p l r k =
    let shift : (s - 1) * 8 ≡ s * 8 - 8 = omega arith in
    let w0 : le_value 4 b 0 < 2 ^ 32 = omega (arith, h 0, h 1, h 2, h 3) in
    let w1 : le_value 4 b 4 < 2 ^ 32 = omega (arith, h 4, h 5, h 6, h 7) in
    ap (λ (y : ℕ). lwl_merge y (lwr_merge (s * 8) r (le_value 4 b 0)) (le_value 4 b 4)) shift
    ∙ lwl_merge-lwr_merge s r (le_value 4 b 0) (le_value 4 b 4) p l k w0 w1
    ∙ across b s h p l

-- A word that lies across two aligned words of the memory map is loaded in whole by `lwr` at its
-- address and then `lwl` at its last byte, to the same register: in a valid processor, with arrays
-- of the declared sizes, both return, the memory is the same, and the word is the load that is
-- delayed. The register is not $zero, and no load to the second instruction's base is on its way.
pub lwl-lwr :
    (c : Ctx) (word q s : ℕ) (b : ℕ → ℕ)
    → IsValid c.cpu
    → IsSized c.bus
    → Holds c.bus q b
    → IsBytes b
    → q % 4 ≡ 0
    → q + 4 < 2 ^ 32
    → 0 < s
    → s < 4
    → rt c ≢ 0
    → instr_rt word ≡ rt c
    → c.cpu.ld_next.dst ≢ instr_rs word
    → access_paddr (access_vaddr c) ≡ q + s
    → access_paddr (get_vaddr (instr_off word) (c.cpu.gpr (instr_rs word))) ≡ q + s + 3
    → (d : Ctx) × (then_instr lwr word lwl c ≡ some d)
      × (d.bus ≡ c.bus)
      × (d.cpu.ld_pend ≡ record { dst = rt c; val = le_value 4 b s })
unfolding get_phys_addr
lwl-lwr c word q s b g z h hb m k p l nz same free a1 a2 =
    let v = lwr_merge (s * 8) (forwarded c) (le_value 4 b 0) in
    let x = (get_phys_addr c).1 in
    let d = gpr_set_delayed (rt c) v x in
    let e = next_instr word d in
    let delayed : Delayed (rt c) v c d =
      gpr_set_delayed-Delayed (rt c) v c x nz (get_phys_addr-Kept c) in
    let next : Next word d e = next_instr-Next word d in
    let a : (get_phys_addr e).0 ≡ q + 4 + (s - 1) =
      ap access_paddr (next_vaddr c d e (rt c) v word delayed next g free) ∙ a2 ∙ omega arith in
    let (f, loaded, last) =
      second c d e (rt c) v word q (s - 1) b delayed next z h m k (omega arith) nz same a in
    (
      f,
      ap (λ (o : Option Ctx). o >>= λ (y : Ctx). lwl (next_instr word y))
            (lwr_lem c q s b z h m k a1 l)
          ∙ loaded,
      last.bus_eq ∙ next.bus_eq ∙ delayed.bus_eq,
      last.pend_eq
          ∙ ap (λ (y : ℕ). record { dst = rt c; val = y })
              (value s b hb p l (forwarded c) (forwarded-lt c g)),
    )
