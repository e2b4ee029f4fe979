-- ===== src/Disasm/Total.antt =====
-- When the trace before a step, `psycho_disasm_trace_begin` of core/disasm.c, has a result.
use psycho.Prelude.{ℕ, ◌%◌, ◌≡◌, some}
use psycho.State.{Ctx}
use psycho.CpuDefs.{instr_op, vaddr_to_paddr}
use psycho.Bus
use psycho.Bus.View.{IsSized}
use psycho.Bus.Total.{InBounds, Returns, returns_of_ne, load_word-Returns}
use psycho.Disasm.{instr, clear_result, set_pc, trace_begin}
use psycho.Disasm.Trace.{NullName, instr-eq-none_iff}

-- The word at the program counter lies in the arrays, is aligned, and is no move to or from a register
-- of the system coprocessor that has no name.
pub record Readable (c : Ctx) : Type 0 where
  pub pc_aligned : vaddr_to_paddr c.cpu.pc % 4 ≡ 0
  pub pc_in_bounds : InBounds (vaddr_to_paddr c.cpu.pc)
  pub named :
      (word : ℕ) (d : Ctx)
      → Bus.peek_word (vaddr_to_paddr c.cpu.pc) (set_pc (clear_result c)) ≡ some (word, d)
      → ¬ ((instr_op word ≡ 0x10) × NullName word)

fetched :
    (c : Ctx)
    → IsSized c.bus
    → Readable c
    → Returns (Bus.peek_word (vaddr_to_paddr c.cpu.pc) (set_pc (clear_result c)))
unfolding Bus.peek_word set_pc clear_result
fetched c z r =
    load_word-Returns (set_pc (clear_result c)) z (vaddr_to_paddr c.cpu.pc) r.pc_in_bounds
      r.pc_aligned

-- With arrays of the declared sizes and a readable word, the trace has a result.
pub trace_begin-Returns : (c : Ctx) → IsSized c.bus → Readable c → Returns (trace_begin c)
unfolding trace_begin set_pc clear_result
trace_begin-Returns c z r =
    let ((word, b), q) = fetched c z r in
    let (d, e) =
      returns_of_ne (instr word b.cpu.pc b)
        (λ n. r.named word b q ((instr-eq-none_iff word b.cpu.pc b).0 n)) in
    (d, rw q e)
