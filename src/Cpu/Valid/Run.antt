-- ===== src/Cpu/Valid/Run.antt =====
-- The invariant through whole steps, and through any number of them.
use mathlib.Core.Path.{subst}
use psycho.Prelude.{ℕ, zero, suc, ◌^◌, ◌<◌, ◌≡◌, arith, sym, if_both}
use psycho.Prelude.{Option, none, some, of_some}
use psycho.State.{Ctx}
use psycho.CpuDefs.{instr_op, vaddr_to_paddr}
use psycho.Bus
use psycho.Bus.Bytes.{HoldsBytes, Loads, load_word-Loads}
use psycho.Cpu.{illegal, raise_exception, load_delay_process, ExcCode}
use psycho.Cpu.Decode.{GroupOp, decode_op}
use psycho.Bus.View.{IsSized}
use psycho.Cpu.Step.{exec, begin, enter_slot, check_pc, set_curr_pc, advance, dispatch, step}
use psycho.Cpu.Valid.{IsValid, IsLoad, raise_exception-IsWide}
use psycho.Cpu.Valid.{load_delay_process-IsWide}
use psycho.Cpu.Valid.Special.{illegal-IsValid}
use psycho.Cpu.Valid.Access.{bind-some}
use psycho.Cpu.Valid.Step.{Machine, exec-Machine}

module _ (c : Ctx) (m : Machine c) where
  enter_slot-Machine : Machine (enter_slot c)
  unfolding enter_slot
  enter_slot-Machine =
      let v : IsValid c.cpu = m.valid in
      record { valid = grind arith; bytes = m.bytes; sized = m.sized }

  load_delay_process-Machine : Machine (load_delay_process c)
  load_delay_process-Machine = record {
    valid = record {
      wide = load_delay_process-IsWide c m.valid.wide;
      zero_zero =
          let z : c.cpu.gpr 0 ≡ 0 = m.valid.zero_zero in
          let l : IsLoad c.cpu.ld_next = m.valid.wide.next_load in
          unfold load_delay_process in ground (arith, l.none_zero);
    };
    bytes = unfold load_delay_process in m.bytes;
    sized = unfold load_delay_process in m.sized;
  }

  raise_exception-Machine : (e : ExcCode) → Machine (raise_exception e c)
  raise_exception-Machine e = record {
    valid = record {
      wide = raise_exception-IsWide c m.valid.wide e;
      zero_zero = unfold raise_exception in m.valid.zero_zero;
    };
    bytes = unfold raise_exception in m.bytes;
    sized = unfold raise_exception in m.sized;
  }

  check_pc-Machine : Machine (check_pc c)
  unfolding check_pc
  check_pc-Machine = if_both Machine _ m (raise_exception-Machine ExcCode.adel)

  set_curr_pc-Machine : Machine (set_curr_pc c)
  unfolding set_curr_pc
  set_curr_pc-Machine =
      let v : IsValid c.cpu = m.valid in
      record { valid = grind arith; bytes = m.bytes; sized = m.sized }

pub begin-Machine : (c : Ctx) → Machine c → Machine (begin c)
unfolding begin
begin-Machine c m =
    set_curr_pc-Machine _
      (check_pc-Machine _ (load_delay_process-Machine _ (enter_slot-Machine c m)))

dispatch-Machine : (c : Ctx) → Machine c → (c' : Ctx) → dispatch c ≡ some c' → Machine c'
unfolding dispatch
dispatch-Machine c m c' h = go (decode_op (instr_op c.cpu.instr)) h
  where
    go :
        (o : Option GroupOp)
        → (elim o as (λ x. Option Ctx) [ some i ↦ exec i c | none ↦ some (illegal c) ]) ≡ some c'
        → Machine c'
    go (some i) k = exec-Machine c m i c' k
    go none k = subst Machine (of_some k) (record {
      valid = illegal-IsValid c m.valid;
      bytes = unfold illegal in m.bytes;
      sized = unfold illegal in m.sized;
    })

pub advance-Machine :
    (c d : Ctx) (word : ℕ) → Machine c → Loads 4 c word d → Machine (advance word d)
advance-Machine c d word m l = record {
  valid =
      let v : IsValid d.cpu = subst IsValid (sym l.same_cpu) m.valid in
      let k : word < 2 ^ 32 = l.value_lt in unfold advance in grind arith;
  bytes = unfold advance in subst HoldsBytes (sym l.same_bus) m.bytes;
  sized = unfold advance in subst IsSized (sym l.same_bus) m.sized;
}

-- If a step returns, the invariant goes over from the state before it to the state after it.
pub step-Machine : (c c' : Ctx) → Machine c → step c ≡ some c' → Machine c'
unfolding step
step-Machine c c' m h =
    let b = begin-Machine c m in
    let (r, e, k) =
      bind-some (Bus.load_word (vaddr_to_paddr (begin c).cpu.curr_pc) (begin c)) _ h in
    let l = load_word-Loads (begin c) b.bytes _ r.0 r.1 e in
    dispatch-Machine _ (advance-Machine (begin c) r.1 r.0 b l) c' k

-- The state after `n` steps, if all of them return.
pub data Runs (c : Ctx) : ℕ → Ctx → Type 0 where
  start : Runs c zero c
  next : {n : ℕ} {d e : Ctx} → Runs c n d → step d ≡ some e → Runs c (suc n) e

-- In every state that steps reach from a valid machine, `gpr[0]` is 0, all registers are 32-bit
-- words, the pending loads name registers of the file, and memory holds bytes.
pub Runs-Machine : {c d : Ctx} (n : ℕ) → Machine c → Runs c n d → Machine d
Runs-Machine n m start = m
Runs-Machine n m (next r e) = step-Machine _ _ (Runs-Machine _ m r) e
