-- ===== src/App.antt =====
-- app/main.c: the host's callback, and the loop of `main`. `none` is an access outside an array or
-- through a null pointer, which C leaves undefined.
pub mod Loop
pub mod Refusal
pub mod Line
pub mod Files
pub mod Main
pub mod Reading
pub mod Started
pub mod Failure
pub mod Answer
pub mod Illegal
pub mod Telling
pub mod Trap
pub mod Program
pub mod Progress
pub mod Bios
pub mod Unallocated
use psycho.Prelude.{
  ℕ, ◌+◌, ◌==◌, if◌then◌else◌, Bool, true, false, Option, none, some, List, [], ◌∷◌, ◌++◌, ◌>>=◌,
}
use psycho.Prelude.Int.{ℤ, pos, negsuc}
use psycho.Text.{Text, text, str, format}
use psycho.State.{Ctx, Cpu, Buffer, ReturnCode, Event, LogMsg, LogLevel}
use psycho.Log.{log_level_set_global}
use psycho.Disasm
use psycho.BiosTrace.{c_string, tty_output_size_max}
use psycho.Context
use psycho.Context.{exe_load}

-- What the program does when it is called back: it ends by a trap, prints on the console, or
-- writes to the file `tty_file.txt`.
pub data Output : Type 0 where
  trap : Output
  console : Text → Output
  tty_file : Text → Output

-- `"\e[" code "m"`.
abbrev pub escape : Text → Text
escape code = 0x1B ∷ (text "[" ++ (code ++ text "m"))

abbrev pub colour : LogLevel → Option Text
colour LogLevel.info = some (text "1;37")
colour LogLevel.warn = some (text "1;33")
colour LogLevel.error = some (text "1;31")
colour _ = none

unfoldable pub handle_log_message : LogMsg → Text
unfolding text format
handle_log_message m = elim (colour m.level) [
  | some code ↦ format (escape code ++ (text "%s\n" ++ escape (text "0"))) (str m.msg ∷ [])
  | none ↦ format (text "%s\n") (str m.msg ∷ [])
]

-- With `tty_file` open, or a null pointer that is printed to.
unfoldable pub ctx_event_handle : Bool → Event → Option Output
unfolding handle_log_message
ctx_event_handle is_open Event.cpu_illegal = some trap
ctx_event_handle is_open (Event.log_message m) = some (console (handle_log_message m))
ctx_event_handle true (Event.tty_message chars) = do
  line ← c_string tty_output_size_max chars
  some (tty_file line)
ctx_event_handle false (Event.tty_message chars) = none

-- The calls between `psycho_init` and the loop; those from the log level on are made again once the
-- executable is loaded.
unfoldable pub set_traces : Ctx → Ctx
set_traces c = Disasm.trace_instruction_enable true (log_level_set_global LogLevel.trace c)

unfoldable pub setup : Buffer → Buffer → Ctx → Ctx
unfolding set_traces
setup ram bios c = set_traces (Context.tty_stdout_enable true (Context.init ram bios c))

-- The value of an `enum psycho_return_code`, and the test `!code`.
abbrev pub code_value : ReturnCode → ℤ
code_value ReturnCode.exe_size_bad = negsuc 0
code_value ReturnCode.exe_id_bad = negsuc 1
code_value ReturnCode.ok = pos 1

abbrev pub is_zero : ℤ → Bool
is_zero (pos n) = n == 0
is_zero (negsuc n) = false

-- A round of the loop ends by the trap, or goes on.
pub data Round : Type 0 where
  trapped : Round
  next : Ctx → Round

abbrev pub exe_entry : ℕ
exe_entry = 0x8003_0000

-- The round's first part. The address at which the executable is put in is the one where the BIOS
-- hands over.
unfoldable pub load_at_entry : Buffer → Ctx → Option Round
unfolding set_traces
load_at_entry exe c =
    let loaded : Option Round = (do
      (code, d) ← exe_load exe c
      some (if is_zero (code_value code) then trapped else next (set_traces d))) in
    if c.cpu.pc == exe_entry then loaded else some (next c)

-- Whether a list of events has one of an illegal instruction.
abbrev pub is_illegal : List Event → Bool
is_illegal [] = false
is_illegal (Event.cpu_illegal ∷ es) = true
is_illegal (Event.log_message m ∷ es) = is_illegal es
is_illegal (Event.tty_message chars ∷ es) = is_illegal es

abbrev is_trap : Output → Bool
is_trap trap = true
is_trap (console t) = false
is_trap (tty_file t) = false

-- The callback is called with an event, unless it has trapped before.
unfoldable pub call_back : Bool → Event → Bool → Option Bool
unfolding ctx_event_handle
call_back is_open e true = some true
call_back is_open e false = do out ← ctx_event_handle is_open e; some (is_trap out)

-- The callback is called with each of the events, the oldest of which is the last of the list: whether
-- it has trapped, or `none` if a call prints to the null pointer or reads past an array.
unfoldable pub answer : Bool → List Event → Option Bool
unfolding call_back
answer is_open [] = some false
answer is_open (e ∷ es) = do has_trapped ← answer is_open es; call_back is_open e has_trapped

-- The step, with the callback called for its events, as it writes to `tty_file`, open or not.
unfoldable pub then_step : Bool → Round → Option Round
unfolding answer
then_step is_open trapped = some trapped
then_step is_open (next c) = do
  d ← Context.step c
  has_trapped ← answer is_open d.events
  some (if has_trapped then trapped else next d)

unfoldable pub round : Bool → Buffer → Ctx → Option Round
unfolding load_at_entry then_step
round is_open exe c = do r ← load_at_entry exe c; then_step is_open r
