-- ===== src/Context/Tracing.antt =====
-- The words that the abstract machine of Cpu/Arch.antt fetches, in the instruction trace.
use mathlib.Core.Path.{subst}
use psycho.Prelude.{ℕ, ◌%◌, ◌^◌, ◌≡◌, arith, refl, sym, ap, ◌∙◌, some, of_some}
use psycho.Bits.{bit_and_mask}
use psycho.State.{Ctx, Bus as BusState}
use psycho.CpuDefs.{instr_op, vaddr_to_paddr}
use psycho.Bus.{load_word, peek_word}
use psycho.Bus.Total.{InBounds}
use psycho.Bus.View.{byte_at, value_at, IsSized}
use psycho.Bus.Widths.{Width}
use psycho.Cpu.Arch.{view}
use psycho.Cpu.Arch.Access.{load-some}
use psycho.Cpu.Arch.Step.{fetch, fetch-some}
use psycho.Disasm.{set_pc, clear_result}
use psycho.Disasm.Total.{Readable}
use psycho.Disasm.Trace.{NullName}

-- A word of the memory map lies in the arrays.
value_at-InBounds :
    (b : BusState) (p instr : ℕ)
    → IsSized b
    → p % 4 ≡ 0
    → value_at 4 (byte_at b) p ≡ some instr
    → InBounds p
unfolding byte_at
value_at-InBounds b p instr z m h = record {
  not_behind_ram = λ e. ground (arith, z);
  not_last_scratchpad = λ e. ground (arith, z);
  not_last_bios = λ e. ground (arith, z);
}

abbrev shown : Ctx → Ctx
shown c = set_pc (clear_result c)

-- What the trace peeks at is the word that is fetched.
peeked :
    (c d : Ctx) (instr instr' : ℕ)
    → IsSized c.bus
    → fetch (view c) ≡ some instr
    → peek_word (vaddr_to_paddr c.cpu.pc) (shown c) ≡ some (instr', d)
    → instr ≡ instr'
unfolding peek_word set_pc clear_result
peeked c d instr instr' z f h =
    let (a, p, v) = fetch-some (view c) instr f in
    let loaded : load_word (vaddr_to_paddr c.cpu.pc) (shown c) ≡ some (instr, shown c) =
      ap (λ x. load_word x (shown c)) p ∙ load-some (shown c) Width.word _ instr z refl v in
    ap (λ (r : ℕ × Ctx). r.0) (of_some (sym loaded ∙ h))

-- The instruction trace can print a word that the abstract machine fetches, but for an `mfc0` or `mtc0`
-- of a register without a name.
pub fetch-Readable :
    (c : Ctx) (instr : ℕ)
    → IsSized c.bus
    → fetch (view c) ≡ some instr
    → ¬ ((instr_op instr ≡ 0x10) × NullName instr)
    → Readable c
fetch-Readable c instr z f n =
    let (a, p, v) = fetch-some (view c) instr f in
    let low : c.cpu.pc % 4 ≡ 0 = omega (arith, bit_and_mask 2 c.cpu.pc) in
    let multiple : c.cpu.pc % 2 ^ 29 % 4 ≡ 0 = omega arith in
    record {
      pc_aligned = rw p multiple;
      pc_in_bounds = rw p (value_at-InBounds c.bus _ instr z multiple v);
      named = λ instr' d e.
          subst (λ (x : ℕ). ¬ ((instr_op x ≡ 0x10) × NullName x)) (peeked c d instr instr' z f e) n;
    }
