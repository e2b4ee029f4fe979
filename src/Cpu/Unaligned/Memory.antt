-- ===== src/Cpu/Unaligned/Memory.antt =====
-- Eight bytes of the memory map that hold two aligned words, and the words between them.
use mathlib.Core.Path.{subst}
use psycho.Prelude.{
  ◌>>=◌, ℕ, zero, suc, ◌+◌, ◌*◌, ◌/◌, ◌%◌, ◌^◌, ◌<◌, ◌≡◌, ◌≢◌, ◌==◌, arith, refl, sym, ◌∙◌,
  if◌then◌else◌, true, Option, some,
}
use psycho.Bits.{bit_and_field, bit_and_mask}
use psycho.State.{Ctx, Bus as BusState}
use psycho.Memory.{le_value, read, update}
use psycho.Memory.Laws.{IsBytes}
use psycho.Bus.{load_word}
use psycho.Bus.View.{byte_at, byte_in, IsSized, value_at, read-value_at}
use psycho.Bus.Laws.{is_mapped, load_word-value_at}
use psycho.Cpu.{
  get_phys_addr, dbg_data_bp_chk, raise_exception, gpr_set_delayed, load_delay_process, no_load,
}
use psycho.Cpu.Step.{advance, begin, enter_slot, check_pc, set_curr_pc}
use psycho.Cpu.Special.{rt}
use psycho.Cpu.Access.{aligned, lane_shift, forwarded}

-- The map has the bytes of `b` at `q` and behind it.
abbrev pub Holds : BusState → ℕ → (ℕ → ℕ) → Type 0
Holds bus q b = (j : ℕ) → j < 8 → byte_at bus (q + j) ≡ some (b j)

mapped : (bus : BusState) (p x : ℕ) → byte_at bus p ≡ some x → is_mapped p ≡ true
unfolding byte_at
mapped bus p x h = ground arith

-- Any four of the eight bytes are the value of the map there.
pub window :
    (bus : BusState) (q : ℕ) (b : ℕ → ℕ) (s : ℕ)
    → Holds bus q b
    → s < 5
    → value_at 4 (byte_at bus) (q + s) ≡ some (le_value 4 b s)
unfolding read
window bus q b s h l =
    let e : value_at 4 (byte_at bus) (q + s) ≡ read 4 (record { size = s + 4; byte = b }) s =
      read-value_at 3 (record { size = s + 4; byte = b }) (byte_at bus) (q + s) s (shift s l) in
    rw e (ground arith)
  where
    shift :
        (s : ℕ)
        → s < 5
        → (j : ℕ) → j < 4
        → byte_at bus (q + s + j) ≡ byte_in (record { size = s + 4; byte = b }) (s + j)
    shift s l j k =
        let e : q + s + j ≡ q + (s + j) = omega arith in
        rw e (ground (arith, h (s + j) (omega arith)))

-- A load in the eight bytes changes nothing.
load_window :
    (c : Ctx) (q : ℕ) (b : ℕ → ℕ) (s : ℕ)
    → IsSized c.bus
    → Holds c.bus q b
    → s < 5
    → load_word (q + s) c ≡ some (le_value 4 b s, c)
load_window c q b s z h l =
    load_word-value_at c z (q + s)
    ∙ (rw (window c.bus q b s h l, mapped c.bus (q + s) (b s) (h s (omega arith))) refl)

pub aligned_lem : (q s : ℕ) → q % 4 ≡ 0 → s < 4 → q < 2 ^ 32 → aligned (q + s) ≡ q
aligned_lem q s h l k = omega (arith, bit_and_field 2 30 (q + s))

pub lane_shift_lem : (q s : ℕ) → q % 4 ≡ 0 → s < 4 → lane_shift (q + s) ≡ s * 8
lane_shift_lem q s h l = omega (arith, bit_and_mask 2 (q + s))

-- The word at an offset of two words, by their integers.
pub across :
    (b : ℕ → ℕ) (s : ℕ)
    → IsBytes b
    → 0 < s
    → s < 4
    → (le_value 4 b 4 * 2 ^ 32 + le_value 4 b 0) / 2 ^ (s * 8) % 2 ^ 32 ≡ le_value 4 b s
across b zero h p l = absurd (omega arith)
across b (suc zero) h p l = omega (arith, h 0, h 1, h 2, h 3, h 4, h 5, h 6, h 7)
across b (suc (suc zero)) h p l = omega (arith, h 0, h 1, h 2, h 3, h 4, h 5, h 6, h 7)
across b (suc (suc (suc zero))) h p l = omega (arith, h 0, h 1, h 2, h 3, h 4, h 5, h 6, h 7)
across b (suc (suc (suc (suc s)))) h p l = absurd (omega arith)

-- What the check of the data breakpoint leaves alone.
pub record Kept (c d : Ctx) : Type 0 where
  pub bus_eq : d.bus ≡ c.bus
  pub gpr_eq : d.cpu.gpr ≡ c.cpu.gpr
  pub instr_eq : d.cpu.instr ≡ c.cpu.instr
  pub next_eq : d.cpu.ld_next ≡ c.cpu.ld_next

pub get_phys_addr-Kept : (c : Ctx) → Kept c (get_phys_addr c).1
unfolding get_phys_addr dbg_data_bp_chk raise_exception
get_phys_addr-Kept c = record {
  bus_eq = ground arith;
  gpr_eq = ground arith;
  instr_eq = ground arith;
  next_eq = ground arith;
}

pub forwarded-Kept : (c d : Ctx) → Kept c d → forwarded d ≡ forwarded c
forwarded-Kept c d k = rw (k.next_eq, k.gpr_eq, k.instr_eq) refl

-- What both loads do behind the address.
abbrev pub merged_load : (ℕ → ℕ → ℕ → ℕ) → ℕ → Ctx → Option Ctx
merged_load merge p x = do
  (word, c) ← load_word (aligned p) x
  some (gpr_set_delayed (rt c) (merge (lane_shift p) (forwarded c) word) c)

pub merged_load_lem :
    (merge : ℕ → ℕ → ℕ → ℕ) (c x : Ctx) (p q s w : ℕ)
    → Kept c x
    → p ≡ q + s
    → q % 4 ≡ 0
    → s < 4
    → q < 2 ^ 32
    → load_word q x ≡ some (w, x)
    → merged_load merge p x ≡ some (gpr_set_delayed (rt c) (merge (s * 8) (forwarded c) w) x)
merged_load_lem merge c x p q s w k a m l lt e =
    rw (a, aligned_lem q s m l lt, lane_shift_lem q s m l, e, forwarded-Kept c x k, k.instr_eq) refl

-- A word of the eight bytes, behind the check of the breakpoint.
pub load_Kept :
    (c x : Ctx) (q s : ℕ) (b : ℕ → ℕ)
    → Kept c x
    → IsSized c.bus
    → Holds c.bus q b
    → s < 5
    → load_word (q + s) x ≡ some (le_value 4 b s, x)
load_Kept c x q s b k z h l =
    load_window x q b s (subst IsSized (sym k.bus_eq) z)
      (subst (λ (y : BusState). Holds y q b) (sym k.bus_eq) h) l

-- The step from one instruction to the `switch` of the next, `word`, without the bus.
abbrev pub next_instr : ℕ → Ctx → Ctx
next_instr word d = advance word (begin d)

-- Two instructions, one after the other, without the fetch of the second.
abbrev pub then_instr : (Ctx → Option Ctx) → ℕ → (Ctx → Option Ctx) → Ctx → Option Ctx
then_instr f word g c = do d ← f c; g (next_instr word d)

pub record Next (word : ℕ) (d e : Ctx) : Type 0 where
  pub bus_eq : e.bus ≡ d.bus
  pub next_eq : e.cpu.ld_next ≡ d.cpu.ld_pend
  pub gpr_eq : e.cpu.gpr ≡ update d.cpu.gpr d.cpu.ld_next.dst d.cpu.ld_next.val
  pub instr_eq : e.cpu.instr ≡ word

pub next_instr-Next : (word : ℕ) (d : Ctx) → Next word d (next_instr word d)
unfolding advance begin enter_slot load_delay_process check_pc set_curr_pc raise_exception
next_instr-Next word d = record {
  bus_eq = ground arith;
  next_eq = ground arith;
  gpr_eq = ground arith;
  instr_eq = ground arith;
}

-- A load that is delayed.
pub record Delayed (r v : ℕ) (c d : Ctx) : Type 0 where
  pub bus_eq : d.bus ≡ c.bus
  pub gpr_eq : d.cpu.gpr ≡ c.cpu.gpr
  pub pend_eq : d.cpu.ld_pend ≡ record { dst = r; val = v }
  pub next_eq : d.cpu.ld_next ≡ (if c.cpu.ld_next.dst == r then no_load else c.cpu.ld_next)

pub gpr_set_delayed-Delayed :
    (r v : ℕ) (c x : Ctx) → r ≢ 0 → Kept c x → Delayed r v c (gpr_set_delayed r v x)
unfolding gpr_set_delayed
gpr_set_delayed-Delayed r v c x n k = record {
  bus_eq = grind (arith, k.bus_eq);
  gpr_eq = grind (arith, k.gpr_eq);
  pend_eq = grind arith;
  next_eq = grind (arith, k.next_eq);
}
