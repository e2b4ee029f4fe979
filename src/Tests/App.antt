-- ===== src/Tests/App.antt =====
-- The loop of the program from its start, with an executable of four bytes and a BIOS of one
-- instruction.
use psycho.Prelude.{ℕ, ◌↔◌, false, true, ◌≡◌, Option, some, arith, refl}
use psycho.State.{Ctx, Buffer, ReturnCode}
use psycho.App.{
  is_illegal, answer, call_back, ctx_event_handle, Round, next, trapped, setup, set_traces,
  load_at_entry, then_step, round, exe_entry,
}
use psycho.App.Loop.{Rounds, start, more}
use psycho.App.Started.{main-Rounds-Emulator}
use psycho.App.Trap.{round-trapped_iff}
use psycho.App.Telling.{word_at}
use psycho.Cpu.Legal.{is_instruction}
use psycho.App.Progress.{Progress}
use psycho.App.Files.{filled}
use psycho.Tests.Start.{os, os-IsLawful, emu, argv, entered, enters}
use psycho.App.Refusal.{load_at_entry-refused}
use psycho.Context.Stepping.{Emulator}
use psycho.BiosTrace.{calls_putchar}
use psycho.Context.{exe_load}
use psycho.Context
use psycho.Cpu.{
  load_delay_process, get_phys_addr, access_vaddr, access_paddr, dbg_data_bp_chk, gpr_set_delayed,
}
use psycho.Cpu.Step.{begin, enter_slot, check_pc, set_curr_pc, advance, dispatch, exec}
use psycho.Cpu.Step
use psycho.Cpu
use psycho.Cpu.Special.{clear_zero}
use psycho.Cpu.Access.{lw}
use psycho.Cpu.Decode.{decode_op}
use psycho.CpuDefs.{
  instr_op, instr_rs, instr_rt, instr_rd, instr_off, instr_imm, get_vaddr, vaddr_to_paddr,
}
use psycho.Word.{sign_ext_16_32}
use psycho.Bus.{load_word, peek_word}
use psycho.Memory.{read}
use psycho.Log.{handled, log_level_set_global}
use psycho.Disasm
use psycho.Disasm.{clear_result, set_pc, instr, disasm_group}
use psycho.BiosTrace
use psycho.Tests.{machine, machine-IsValid}

abbrev exe : Buffer
exe = entered.exe

abbrev first : Ctx
first = entered.ctx

abbrev context : Option Round → Ctx
context (some (next d)) = d
context _ = first

stepped : round true exe first ≡ some (next (context (round true exe first)))
unfolding setup set_traces round load_at_entry then_step answer call_back ctx_event_handle
    Context.init Context.reset Context.step Context.tty_stdout_enable load_delay_process
    get_phys_addr access_vaddr access_paddr dbg_data_bp_chk gpr_set_delayed begin enter_slot
    check_pc set_curr_pc advance dispatch exec Step.step Cpu.reset clear_zero lw decode_op instr_op
    instr_rs instr_rt instr_rd instr_off instr_imm get_vaddr vaddr_to_paddr sign_ext_16_32 load_word
    peek_word read handled log_level_set_global Disasm.trace_begin Disasm.trace_end
    Disasm.trace_instruction_enable clear_result set_pc instr disasm_group Disasm.set_result
    BiosTrace.trace_begin BiosTrace.trace_end filled
stepped = refl

untold : is_illegal first.events ≡ false
unfolding setup Context.init Context.reset Context.tty_stdout_enable Cpu.reset log_level_set_global
    Disasm.trace_instruction_enable set_traces handled
untold = refl

one_round : Rounds true exe first 1 (context (round true exe first))
one_round = more start stepped

main-Rounds-Emulator_example : Emulator (context (round true exe first))
main-Rounds-Emulator_example =
    main-Rounds-Emulator os os-IsLawful argv emu 0 2 entered 1 (context (round true exe first))
      machine-IsValid (omega arith) (λ i. omega arith) (λ i. omega arith) (λ i. omega arith) refl
      refl enters one_round

not_loaded : load_at_entry exe first ≡ some (next first)
unfolding load_at_entry setup Context.init Context.reset Context.tty_stdout_enable Cpu.reset
    log_level_set_global Disasm.trace_instruction_enable set_traces
not_loaded = refl

-- The first round, by the word at its program counter, which is `lw`.
round-trapped_iff_example :
    (word : ℕ) × (word_at first ≡ some word)
    × ((next (context (round true exe first)) ≡ trapped) ↔ (is_instruction word ≡ false))
round-trapped_iff_example =
    round-trapped_iff true exe first first first 0 (next (context (round true exe first))) untold
      start not_loaded stepped

-- The machine with the program counter where the executable is loaded; an empty one is refused.
abbrev at_entry : Ctx
at_entry = record machine { cpu = record (machine.cpu) { pc = exe_entry } }

exe_refused : exe_load exe at_entry ≡ some (ReturnCode.exe_size_bad, at_entry)
unfolding exe_load filled
exe_refused = refl

load_at_entry-refused_example : load_at_entry exe at_entry ≡ some (next (set_traces at_entry))
load_at_entry-refused_example =
    load_at_entry-refused exe at_entry at_entry ReturnCode.exe_size_bad refl exe_refused (λ e. cc)
