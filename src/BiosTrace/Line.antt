-- ===== src/BiosTrace/Line.antt =====
-- A line that a program prints through `std_out_putchar`, from its first character to its newline.
use mathlib.Core.Path.{subst}
use psycho.Prelude.{ℕ, ◌+◌, ◌≤◌, ◌<◌, ◌≡◌, ◌≢◌, arith, ap, sym, ◌∙◌, some}
use psycho.Prelude.{List, [], ◌∷◌, ◌++◌}
use psycho.Text.{Text, str, text, length}
use psycho.Text.Length.{length-append}
use psycho.Memory.{update}
use psycho.State.{Ctx, TtyStdout, Event, log_message, tty_message, Severity, ModuleId}
use psycho.Log.{message}
use psycho.BiosTrace.{argument, set_tty, flush, handle_tty_output}
use psycho.BiosTrace.Array.{array_of, Plain, NoNul, update-array_of, c_string-array_of}

-- The buffer with a text in it.
abbrev pub holding : Text → TtyStdout
holding s = record { chars = array_of s; len = length s }

-- From `c` to `d` the program prints `s`, one call at a time. Between two calls anything else
-- happens that leaves the buffer alone.
pub data Printing (c : Ctx) : Text → Ctx → Type 0 where
  start : Printing c [] c
  other :
      {s : Text} {d e : Ctx}
      → Printing c s d
      → e.bios_trace.tty_stdout ≡ d.bios_trace.tty_stdout
      → Printing c s e
  put :
      {s t : Text} {d e : Ctx}
      → Printing c s d
      → handle_tty_output d ≡ some e
      → t ≡ s ++ argument d ∷ []
      → Printing c t e

Plain-append : (s : Text) (x : ℕ) → Plain (s ++ x ∷ []) → Plain s × (x ≢ b'\n')
Plain-append [] x (lt, nz, nn, t) = (tt, nn)
Plain-append (y ∷ s) x (lt, nz, nn, t) = let (p, q) = Plain-append s x t in ((lt, nz, nn, p), q)

pub Plain-NoNul : (s : Text) → Plain s → NoNul (s ++ b'\n' ∷ [])
Plain-NoNul [] h = ((λ e. omega arith), tt)
Plain-NoNul (x ∷ s) (lt, nz, nn, t) = (nz, Plain-NoNul s t)

-- The state after the newline's branch: the two events, and an empty buffer.
abbrev pub line_events : Text → Ctx → List Event
line_events t c =
    log_message (message ModuleId.tty_stdout Severity.info (text "%s") (str t ∷ []))
    ∷ tty_message (array_of t)
    ∷ c.events

abbrev pub flushed : Text → Ctx → Ctx
flushed t c = record c {
  bios_trace = record (c.bios_trace) { tty_stdout = holding [] };
  events = line_events t c;
}

flush_lem :
    (t : Text) (c : Ctx) → length t < 256 → NoNul t → flush (array_of t) c ≡ some (flushed t c)
unfolding flush
flush_lem t c l k = rw (c_string-array_of 256 t l k)

module _ (s : Text) (d : Ctx) (h : d.bios_trace.tty_stdout ≡ holding s) (l : length s < 255) where
  stored :
      update d.bios_trace.tty_stdout.chars d.bios_trace.tty_stdout.len (argument d)
      ≡ array_of (s ++ argument d ∷ [])
  stored = rw h (update-array_of s (argument d))

  put_lem :
      (e : Ctx)
      → argument d ≢ b'\n'
      → handle_tty_output d ≡ some e
      → e.bios_trace.tty_stdout ≡ holding (s ++ argument d ∷ [])
  unfolding handle_tty_output
  put_lem e n k = ground (arith, stored, length-append {0} s (argument d ∷ []))

  newline_lem :
      argument d ≡ b'\n'
      → NoNul (s ++ argument d ∷ [])
      → handle_tty_output d ≡ some (flushed (s ++ argument d ∷ []) d)
  unfolding handle_tty_output
  newline_lem n k =
      let t : Text = s ++ argument d ∷ [] in
      let size : length t < 256 = omega (arith, length-append {0} s (argument d ∷ [])) in
      ground (
        arith,
        stored,
        flush_lem t (set_tty (array_of t) (d.bios_trace.tty_stdout.len + 1) d) size k,
      )

Printing-holding :
    {c d : Ctx} {s : Text}
    → c.bios_trace.tty_stdout ≡ holding []
    → Plain s
    → length s ≤ 255
    → Printing c s d
    → d.bios_trace.tty_stdout ≡ holding s
Printing-holding z p l start = z
Printing-holding z p l (other r e) = e ∙ Printing-holding z p l r
Printing-holding z p l (put {s} {t} {d} {e} r k q) =
    let (p', n) = Plain-append s (argument d) (subst Plain q p) in
    let size : length s + 1 ≤ 255 =
      omega (arith, ap (length {0}) q, length-append {0} s (argument d ∷ [])) in
    rw q (put_lem s d (Printing-holding z p' (omega arith) r) (omega arith) e n k)

-- A program that prints at most 254 characters other than NUL and newline, one call at a time, and
-- then a newline, into an empty buffer: the call with the newline has a result, the host gets
-- the characters and the newline as one message, and a log message with the same text, and the
-- buffer is empty again.
pub newline-Printing :
    (s : Text) (c d : Ctx)
    → c.bios_trace.tty_stdout ≡ holding []
    → Plain s
    → length s < 255
    → Printing c s d
    → argument d ≡ b'\n'
    → handle_tty_output d ≡ some (flushed (s ++ b'\n' ∷ []) d)
newline-Printing s c d z p l r n =
    let k : NoNul (s ++ argument d ∷ []) =
      subst (λ (x : ℕ). NoNul (s ++ x ∷ [])) (sym n) (Plain-NoNul s p) in
    subst (λ (x : ℕ). handle_tty_output d ≡ some (flushed (s ++ x ∷ []) d)) n
      (newline_lem s d (Printing-holding z p (omega arith) r) l n k)
