-- ===== src/Tests/Tty.antt =====
-- A program that prints `Hi` and a newline through the BIOS.
use psycho.Prelude.{ℕ, ◌≡◌, ◌↔◌, ◌==◌, ◌<◌, if◌then◌else◌, none, some, [], ◌∷◌, true, arith, refl}
use psycho.Text.{length}
use psycho.Memory.{update}
use psycho.State.{Ctx, TtyStdout}
use psycho.BiosTrace.{
  argument, calls_putchar, c_string, handle_tty_output, trace_begin, process_prototype,
  putchar_func, tty_output_size_max, trace_result_size, set_tty,
}
use psycho.BiosTrace.Array.{array_of}
use psycho.BiosTrace.Line.{holding, Printing, start, other, put}
use psycho.BiosTrace.Safe.{closed, shown, escaped, trace_begin-eq-none_iff, process_prototype-shown}
use psycho.App.Line.{Told, handle_tty_output-Told}
use psycho.Tests.{machine, cpu_at}

-- The machine about to call `std_out_putchar` with a character, and a buffer.
abbrev calling : ℕ → TtyStdout → Ctx
calling x tty = record machine {
  cpu = record (cpu_at 0xB0 0) { gpr = λ r. if r == 4 then x else if r == 9 then 0x3D else 0 };
  bios_trace = record (machine.bios_trace) { tty_stdout = tty; enable_tty_output = true };
}

abbrev with_h : Ctx
with_h = calling b'H' (holding [])

abbrev after_h : Ctx
after_h = set_tty (update (array_of []) 0 b'H') 1 with_h

put_h : handle_tty_output with_h ≡ some after_h
unfolding handle_tty_output
put_h = refl

abbrev with_i : Ctx
with_i = calling b'i' after_h.bios_trace.tty_stdout

abbrev after_i : Ctx
after_i = set_tty (update (update (array_of []) 0 b'H') 1 b'i') 2 with_i

put_i : handle_tty_output with_i ≡ some after_i
unfolding handle_tty_output
put_i = refl

abbrev with_newline : Ctx
with_newline = calling b'\n' after_i.bios_trace.tty_stdout

hi : Printing with_h (b'H' ∷ b'i' ∷ []) with_newline
hi = other (put (other (put start put_h refl) refl) put_i refl) refl

handle_tty_output-Told_example :
    (e : Ctx) × (handle_tty_output with_newline ≡ some e)
    × Told (b'H' ∷ b'i' ∷ b'\n' ∷ []) with_newline e
handle_tty_output-Told_example =
    handle_tty_output-Told (b'H' ∷ b'i' ∷ []) with_h with_newline refl
      (
        omega arith,
        (λ e. omega arith),
        (λ e. omega arith),
        (omega arith, (λ e. omega arith), (λ e. omega arith), tt),
      )
      (omega arith) hi refl

trace_begin-eq-none_iff_example :
    (trace_begin with_h ≡ none)
    ↔ (calls_putchar with_h ≡ true)
      × (with_h.bios_trace.enable_tty_output ≡ true)
      × (argument with_h ≡ b'\n')
      × (c_string tty_output_size_max (closed with_h) ≡ none)
trace_begin-eq-none_iff_example = trace_begin-eq-none_iff with_h (omega arith)

process_prototype-shown_example :
    let result = (process_prototype putchar_func with_h).bios_trace.result in
    (result ≡ shown (escaped (argument with_h))) × (length result < trace_result_size)
process_prototype-shown_example = process_prototype-shown with_h (λ e. omega arith)
