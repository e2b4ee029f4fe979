-- ===== src/BiosTrace.antt =====
-- core/bios-trace.c: the calls of BIOS functions that a program makes, and the lines that it prints
-- through `std_out_putchar`. `none` is an access outside an array, which C leaves undefined.
pub mod Array
pub mod Line
pub mod Safe
use mathlib.Core.Option
use psycho.Prelude.{
  ℕ, zero, suc, ◌+◌, ◌==◌, leb, ltb, if◌then◌else◌, Bool, true, false, Option, none, some,
}
use psycho.Prelude.{List, [], ◌∷◌, ◌++◌, ◌>>=◌}
use psycho.Text.{Text, Arg, num, str, text, format}
use psycho.Word.{u8}
use psycho.Memory.{update}
use psycho.State.{Ctx, Cpu, BiosTrace, BiosTraceFunc, FuncRet, TtyStdout, Event, Severity, ModuleId}
use psycho.State.{gpr_a0, gpr_t1}
use psycho.Log.{log_handle, event_cb, log_message_dispatch}

abbrev pub tty_output_size_max : ℕ
tty_output_size_max = 256

abbrev pub trace_result_size : ℕ
trace_result_size = 128

-- The only entry of `b0_funcs`.
abbrev pub putchar_index : ℕ
putchar_index = 0x3D

abbrev pub putchar_prototype : Text
putchar_prototype = text "void std_out_putchar(char c=%c)"

abbrev pub putchar_func : BiosTraceFunc
putchar_func = record { prototype = putchar_prototype; ret = FuncRet.returns_none }

-- The text at the head of an array of `n` characters, up to its NUL; `none` if it has no NUL.
unfoldable pub c_string : ℕ → (ℕ → ℕ) → Option Text
c_string zero f = none
c_string (suc n) f =
    let rest = Option.map (λ s. f 0 ∷ s) (c_string n (λ i. f (suc i))) in
    if f 0 == 0 then some [] else rest

-- `(char)ctx->cpu.gpr[CPU_GPR_A0]`.
abbrev pub argument : Ctx → ℕ
argument c = u8 (c.cpu.gpr gpr_a0)

unfoldable pub escape_seq : ℕ → Option Text
unfolding text
escape_seq c = if c == b'\n' then some (text "\\n") else none

abbrev pub set_tty : (ℕ → ℕ) → ℕ → Ctx → Ctx
set_tty chars len c = record c {
  bios_trace = record (c.bios_trace) { tty_stdout = record { chars = chars; len = len } };
}

-- The newline's branch: the event, the message, and the `memset`.
unfoldable pub flush : (ℕ → ℕ) → Ctx → Option Ctx
flush chars c = do
  line ← c_string tty_output_size_max chars
  some (
      set_tty (λ i. 0) 0
        (log_message_dispatch ModuleId.tty_stdout Severity.info (text "%s") (str line ∷ [])
          (event_cb (Event.tty_message chars) (set_tty chars 0 c))))

unfoldable pub handle_tty_output : Ctx → Option Ctx
unfolding flush
handle_tty_output c =
    let len = c.bios_trace.tty_stdout.len in
    let chars = update c.bios_trace.tty_stdout.chars len (argument c) in
    let stored = set_tty chars (len + 1) c in
    let wrapped = set_tty chars 0 (
      log_handle ModuleId.bios Severity.warn
        (text "TTY stdout buffer wrapping around, corruption is expected") [] stored) in
    if leb tty_output_size_max len
    then none
    else if argument c == b'\n'
    then flush chars stored
    else if leb tty_output_size_max (len + 1)
    then some wrapped
    else some stored

-- What is printed for the argument. A NUL is printed too, and ends the text.
unfoldable pub process_arg_char : ℕ → Text
unfolding escape_seq text
process_arg_char c = elim (escape_seq c) [
  | some escaped_char ↦ format (text "'%s'") (str escaped_char ∷ [])
  | none ↦ format (text "'%c'") (num c ∷ [])
]

-- The loop of `process_prototype`.
process : Text → ℕ → Text
unfolding process_arg_char
process [] c = []
process (x ∷ []) c = x ∷ []
process (x ∷ y ∷ src) c =
    let arg = process_arg_char c ++ process src c in
    let copied = x ∷ process (y ∷ src) c in
    if x == b'%' then (if y == b'c' then arg else copied) else copied

until_nul : Text → Text
until_nul [] = []
until_nul (x ∷ xs) = if x == 0 then [] else x ∷ until_nul xs

unfoldable pub process_prototype : BiosTraceFunc → Ctx → Ctx
unfolding process until_nul
process_prototype f c = record c {
  bios_trace = record (c.bios_trace) { result = until_nul (process f.prototype (argument c)) };
}

abbrev pub calls_putchar : Ctx → Bool
calls_putchar c = if c.cpu.pc == 0xB0 then c.cpu.gpr gpr_t1 == putchar_index else false

abbrev pub set_curr_func : Option BiosTraceFunc → Ctx → Ctx
set_curr_func f c = record c { bios_trace = record (c.bios_trace) { curr_func = f } }

unfoldable pub trace_begin : Ctx → Option Ctx
unfolding handle_tty_output process_prototype text
trace_begin c =
    let called = set_curr_func (some putchar_func) c in
    let traced : Option Ctx = (do
      d ← (if c.bios_trace.enable_tty_output then handle_tty_output called else some called)
      some (process_prototype putchar_func d)) in
    if calls_putchar c then traced else some c

unfoldable pub trace_end : Ctx → Ctx
trace_end c =
    let logged =
      set_curr_func none
        (log_handle ModuleId.bios Severity.info (text "%s") (str c.bios_trace.result ∷ []) c) in
    elim c.bios_trace.curr_func [
      | none ↦ c
      | some f ↦ if c.bios_trace.waiting_for_return then c else logged
    ]
