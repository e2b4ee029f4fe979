-- ===== src/Disasm/Trace.antt =====
-- When `psycho_disasm_instr` of core/disasm.c has a result, and what the trace around a step leaves
-- alone.
use psycho.Prelude.{ℕ, ◌≡◌, ◌⊎◌, ◌↔◌, arith, refl, Option, some, none, sym, ◌∙◌, ap}
use psycho.Memory.{read}
use psycho.Bus
use psycho.Cpu.Valid.Access.{bind-some}
use psycho.Disasm.Fits.{instr-Fits}
use psycho.State.{Ctx}
use psycho.CpuDefs.{instr_op, instr_rs, instr_rd}
use psycho.Cpu.Decode.{GroupOp, op_code, decode_op, decode_op-eq-some_iff}
use psycho.Disasm.Names.{cop0_cpr}
use psycho.Disasm.{disasm_cop0, disasm_group, set_illegal, set_pc, clear_result, instr, trace_begin}

-- `mfc0` or `mtc0` of a register without an entry in `cop0_cpr`.
abbrev pub NullName : ℕ → Type 0
NullName word =
    ((instr_rs word ≡ 0x00) ⊎ (instr_rs word ≡ 0x04)) × (cop0_cpr (instr_rd word) ≡ none)

disasm_cop0-eq-none_iff : (word : ℕ) (c : Ctx) → (disasm_cop0 word c ≡ none) ↔ NullName word
unfolding disasm_cop0
disasm_cop0-eq-none_iff word c = ground arith

disasm_group-eq-none :
    (i : GroupOp) (word pc : ℕ) (c : Ctx)
    → disasm_group i word pc c ≡ none
    → (op_code i ≡ 0x10) × NullName word
unfolding disasm_group
disasm_group-eq-none GroupOp.group_special word pc c h = ground arith
disasm_group-eq-none GroupOp.group_cop0 word pc c h = (refl, (disasm_cop0-eq-none_iff word c).0 h)
disasm_group-eq-none _ word pc c h = cc

-- A disassembly has no defined result exactly for `mfc0` and `mtc0` of a register that the table of
-- names leaves out: its null pointer is printed.
pub instr-eq-none_iff :
    (word pc : ℕ) (c : Ctx) → (instr word pc c ≡ none) ↔ (instr_op word ≡ 0x10) × NullName word
unfolding instr disasm_group
instr-eq-none_iff word pc c = (
  λ h. go (decode_op (instr_op word)) (λ i e. (decode_op-eq-some_iff (instr_op word) i).0 e) h,
  λ (op, null).
      let e : decode_op (instr_op word) ≡ some GroupOp.group_cop0 =
        (decode_op-eq-some_iff (instr_op word) GroupOp.group_cop0).1 (sym op) in
      rw (e, instr) ((disasm_cop0-eq-none_iff word c).1 null),
)
  where
    go :
        (o : Option GroupOp)
        → ((i : GroupOp) → o ≡ some i → op_code i ≡ instr_op word)
        → (elim o as (λ x. Option Ctx) [
          | some i ↦ disasm_group i word pc c
          | none ↦ some (set_illegal word c)
        ])
          ≡ none
        → (instr_op word ≡ 0x10) × NullName word
    go none code h = cc
    go (some i) code h =
        let (op, null) = disasm_group-eq-none i word pc c h in (sym (code i refl) ∙ op, null)

-- From `c` to `d`, the processor, the memory and the trace of BIOS calls are as they were.
pub record Observes (c d : Ctx) : Type 0 where
  pub same_cpu : d.cpu ≡ c.cpu
  pub same_bus : d.bus ≡ c.bus
  pub same_bios_trace : d.bios_trace ≡ c.bios_trace

peek_word-Observes : (p v : ℕ) (c d : Ctx) → Bus.peek_word p c ≡ some (v, d) → Observes c d
unfolding Bus.peek_word read
peek_word-Observes p v c d h = ground arith

instr-Observes : (word pc : ℕ) (c d : Ctx) → instr word pc c ≡ some d → Observes c d
instr-Observes word pc c d h =
    let f = instr-Fits word pc c d h in
    record {
      same_cpu = ap (λ (x : Ctx). x.cpu) f.rest_eq;
      same_bus = ap (λ (x : Ctx). x.bus) f.rest_eq;
      same_bios_trace = ap (λ (x : Ctx). x.bios_trace) f.rest_eq;
    }

-- The trace before a step only observes.
pub trace_begin-Observes : (c d : Ctx) → trace_begin c ≡ some d → Observes c d
unfolding trace_begin clear_result set_pc
trace_begin-Observes c d h =
    let (r, e, k) = bind-some _ _ h in
    let o = peek_word-Observes _ r.0 _ r.1 e in
    let o' = instr-Observes r.0 _ r.1 d k in
    record {
      same_cpu = o'.same_cpu ∙ o.same_cpu;
      same_bus = o'.same_bus ∙ o.same_bus;
      same_bios_trace = o'.same_bios_trace ∙ o.same_bios_trace;
    }
