-- ===== src/BiosTrace/Safe.antt =====
-- The bounds of the arrays of core/bios-trace.c, and what its trace leaves alone.
use psycho.Prelude.{ℕ, ◌<◌, ◌≡◌, ◌≢◌, ◌↔◌, ◌==◌, arith, if◌then◌else◌}
use psycho.Prelude.{none, some, true, [], ◌∷◌, ◌++◌, Bool-cases, inl, inr, ==-of_ne}
use native.Mathlib.Nat.{mod-eq_of_lt, mod-lt}
use mathlib.Core.Path.{subst, sym}
use psycho.Text.{Text, text, format, length}
use psycho.Memory.{update}
use psycho.State.{Ctx}
use psycho.BiosTrace.{
  argument, calls_putchar, c_string, flush, handle_tty_output, trace_begin, trace_end,
}
use psycho.BiosTrace.{tty_output_size_max, trace_result_size, process, until_nul, process_prototype}
use psycho.BiosTrace.{set_curr_func, putchar_func, putchar_prototype}

-- The index at which the next character is written lies in the array.
abbrev pub TtyInBounds : Ctx → Type 0
TtyInBounds c = c.bios_trace.tty_stdout.len < tty_output_size_max

handle_tty_output-TtyInBounds :
    (c d : Ctx) → TtyInBounds c → handle_tty_output c ≡ some d → TtyInBounds d
unfolding handle_tty_output flush
handle_tty_output-TtyInBounds c d h e = ground arith

-- The array as it is when the newline's branch reads its text.
abbrev pub closed : Ctx → ℕ → ℕ
closed c = update c.bios_trace.tty_stdout.chars c.bios_trace.tty_stdout.len (argument c)

handle_tty_output-eq-none_iff :
    (c : Ctx)
    → TtyInBounds c
    → (handle_tty_output c ≡ none)
      ↔ (argument c ≡ b'\n') × (c_string tty_output_size_max (closed c) ≡ none)
unfolding handle_tty_output flush
handle_tty_output-eq-none_iff c h = ground arith

-- The trace before a step never leaves the buffer's index outside the array.
pub trace_begin-TtyInBounds : (c d : Ctx) → TtyInBounds c → trace_begin c ≡ some d → TtyInBounds d
unfolding trace_begin process_prototype
trace_begin-TtyInBounds c d h e =
    let called = set_curr_func (some putchar_func) c in
    grind (
      arith,
      λ (x : Ctx) (k : handle_tty_output called ≡ some x).
          handle_tty_output-TtyInBounds called x h k,
    )

-- With the buffer's index in the array, the trace before a step has no result exactly if a newline is
-- printed, the TTY output is on, and the array with the newline in it has no NUL.
pub trace_begin-eq-none_iff :
    (c : Ctx)
    → TtyInBounds c
    → (trace_begin c ≡ none)
      ↔ (calls_putchar c ≡ true)
        × (c.bios_trace.enable_tty_output ≡ true)
        × (argument c ≡ b'\n')
        × (c_string tty_output_size_max (closed c) ≡ none)
unfolding trace_begin
trace_begin-eq-none_iff c h =
    ground (arith, handle_tty_output-eq-none_iff (set_curr_func (some putchar_func) c) h)

-- From `c` to `d` nothing has changed but the trace's own state and the events.
pub record Watches (c d : Ctx) : Type 0 where
  pub same_cpu : d.cpu ≡ c.cpu
  pub same_bus : d.bus ≡ c.bus
  pub same_log : d.log ≡ c.log
  pub same_disasm : d.disasm ≡ c.disasm

handle_tty_output-Watches : (c d : Ctx) → handle_tty_output c ≡ some d → Watches c d
unfolding handle_tty_output flush
handle_tty_output-Watches c d e = ground arith

pub trace_begin-Watches : (c d : Ctx) → trace_begin c ≡ some d → Watches c d
unfolding trace_begin process_prototype
trace_begin-Watches c d e =
    let called = set_curr_func (some putchar_func) c in
    grind (
      arith,
      λ (x : Ctx) (k : handle_tty_output called ≡ some x). handle_tty_output-Watches called x k,
    )

pub trace_end-Watches : (c : Ctx) → Watches c (trace_end c)
unfolding trace_end
trace_end-Watches c = ground arith

-- The printed prototype.
abbrev pub shown : Text → Text
shown x = text "void std_out_putchar(char c='" ++ (x ++ text "')")

-- The character itself, but `\n` for a newline.
abbrev pub escaped : ℕ → Text
escaped x = if x == b'\n' then text "\\n" else x ∷ []

processed : (x : ℕ) → x < 256 → x ≢ 0 → until_nul (process putchar_prototype x) ≡ shown (escaped x)
unfolding until_nul process format text
processed x l z = elim (Bool-cases (x == b'\n')) [
  | inl e ↦ rw e (ground arith)
  | inr e ↦ rw (e, mod-eq_of_lt l) (rw (==-of_ne z))
]

shown-lt : (x : ℕ) → length (shown (escaped x)) < trace_result_size
unfolding text
shown-lt x = elim (Bool-cases (x == b'\n')) [
  | inl e ↦ rw e (omega arith)
  | inr e ↦ rw e (omega arith)
]

-- A traced call whose character is not NUL is shown with its argument, a newline escaped, in a text
-- that fits into the array with its NUL.
pub process_prototype-shown :
    (c : Ctx)
    → argument c ≢ 0
    → let result = (process_prototype putchar_func c).bios_trace.result in
      (result ≡ shown (escaped (argument c))) × (length result < trace_result_size)
unfolding process_prototype
process_prototype-shown c h =
    let e = processed (argument c) (mod-lt _ (omega arith)) h in
    (e, subst (λ (t : Text). length t < trace_result_size) (sym e) (shown-lt (argument c)))
