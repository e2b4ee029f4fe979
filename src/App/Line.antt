-- ===== src/App/Line.antt =====
-- A line that a program prints, as it reaches the console and the file of app/main.c.
use mathlib.Core.List.{append-nil}
use psycho.Prelude.{◌≡◌, ◌<◌, arith, refl, ap, some, [], ◌∷◌, ◌++◌, ltb, ltb-of_lt, true}
use psycho.Text.{Text, str, text, format, length}
use psycho.Text.Length.{length-append}
use psycho.State.{Ctx, Event, LogMsg, log_message, tty_message, LogLevel, Severity, ModuleId}
use psycho.Log.{message, log_msg_size_max, log_level_name, module_name}
use psycho.Log.Bounds.{prefix, message_lem}
use psycho.BiosTrace.{argument, handle_tty_output}
use psycho.BiosTrace.Array.{array_of, Plain, NoNul, c_string-array_of}
use psycho.BiosTrace.Line.{holding, Printing, flushed, newline-Printing, Plain-NoNul}
use psycho.App.{tty_file, console, ctx_event_handle, handle_log_message, escape}

-- The message of an information, on the console.
handled_info :
    (m : LogMsg) (s : Text)
    → m.level ≡ LogLevel.info
    → m.msg ≡ s
    → handle_log_message m ≡ escape (text "1;37") ++ (s ++ (b'\n' ∷ escape (text "0")))
unfolding handle_log_message format text
handled_info m s e h = rw (e, h) refl

abbrev line_message : Text → LogMsg
line_message t = message ModuleId.tty_stdout Severity.info (text "%s") (str t ∷ [])

level-line_message : (t : Text) → (line_message t).level ≡ LogLevel.info
unfolding message
level-line_message t = refl

format-str : (t : Text) → format (text "%s") (str t ∷ []) ≡ t
unfolding format text
format-str t = append-nil t

length-prefix : length (prefix ModuleId.tty_stdout Severity.info) ≡ 18
unfolding format text log_level_name module_name
length-prefix = refl

msg-line_message :
    (t : Text)
    → length t < 256
    → (line_message t).msg ≡ prefix ModuleId.tty_stdout Severity.info ++ t
msg-line_message t l =
    let p : Text = prefix ModuleId.tty_stdout Severity.info in
    let m = message_lem ModuleId.tty_stdout Severity.info (text "%s") (str t ∷ []) in
    let short : ltb (length (p ++ t)) log_msg_size_max ≡ true =
      ltb-of_lt (omega (arith, length-append p t, length-prefix)) in
    (rw (format-str t, short) at m).0

-- A line on the console: in white, behind the level and the module, and with the newline of the log
-- after its own.
abbrev pub shown_line : Text → Text
shown_line t =
    escape (text "1;37")
    ++ ((prefix ModuleId.tty_stdout Severity.info ++ t) ++ (b'\n' ∷ escape (text "0")))

handled_line :
    (t : Text)
    → length t < 256
    → ctx_event_handle true (log_message (line_message t)) ≡ some (console (shown_line t))
unfolding ctx_event_handle
handled_line t l =
    ap (λ (x : Text). some (console x))
      (handled_info (line_message t) _ (level-line_message t) (msg-line_message t l))

handled_chars :
    (t : Text)
    → length t < 256
    → NoNul t
    → ctx_event_handle true (tty_message (array_of t)) ≡ some (tty_file t)
unfolding ctx_event_handle
handled_chars t l n = rw (c_string-array_of 256 t l n) refl

-- The host's output, with its file open, when the newline of a line is printed: the newest event is the first.
pub record Told (t : Text) (d e : Ctx) : Type 0 where
  pub newest : Event
  pub before : Event
  pub told : e.events ≡ newest ∷ before ∷ d.events
  pub in_file : ctx_event_handle true before ≡ some (tty_file t)
  pub on_console : ctx_event_handle true newest ≡ some (console (shown_line t))
  pub emptied : e.bios_trace.tty_stdout ≡ holding []

-- A program that prints at most 254 characters other than NUL and newline into an empty buffer, one
-- call at a time, and then a newline: the call with the newline has a result, the characters and
-- the newline are written to the file, which is open, and then, as an information of the TTY's module, to the
-- console, and the buffer is empty again.
pub handle_tty_output-Told :
    (s : Text) (c d : Ctx)
    → c.bios_trace.tty_stdout ≡ holding []
    → Plain s
    → length s < 255
    → Printing c s d
    → argument d ≡ b'\n'
    → (e : Ctx) × (handle_tty_output d ≡ some e) × Told (s ++ b'\n' ∷ []) d e
handle_tty_output-Told s c d z p l r n =
    let t : Text = s ++ b'\n' ∷ [] in
    let k : length t < 256 = omega (arith, length-append {0} s (b'\n' ∷ [])) in
    (
      flushed t d,
      newline-Printing s c d z p l r n,
      record {
        newest = log_message (line_message t);
        before = tty_message (array_of t);
        told = refl;
        in_file = handled_chars t k (Plain-NoNul s p);
        on_console = handled_line t k;
        emptied = refl;
      },
    )
