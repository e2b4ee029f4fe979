-- ===== src/Log.antt =====
-- core/log.c and core/log.h: levels for each module, and messages to the host. The build is the
-- one with NDEBUG, where the `assert` of `psycho_log_message_dispatch` is nothing.
pub mod Levels
pub mod Bounds
use psycho.Prelude.{ℕ, zero, suc, ◌+◌, ◌-◌, leb, ◌==◌, if◌then◌else◌, List, [], ◌∷◌, ◌++◌}
use psycho.Text.{Text, Arg, str, text, format, length}
use psycho.State.{Ctx, Event, log_message, LogLevel, Severity, ModuleId, LogMsg}

-- The enumeration values of `enum psycho_log_level`.
abbrev pub level_code : LogLevel → ℕ
level_code LogLevel.off = 0
level_code LogLevel.info = 1
level_code LogLevel.warn = 2
level_code LogLevel.error = 3
level_code LogLevel.debug = 4
level_code LogLevel.trace = 5

-- The level of a message, as the enumeration has it.
abbrev pub severity_level : Severity → LogLevel
severity_level Severity.info = LogLevel.info
severity_level Severity.warn = LogLevel.warn
severity_level Severity.error = LogLevel.error
severity_level Severity.debug = LogLevel.debug
severity_level Severity.trace = LogLevel.trace

-- The entry of the table for the level that is off is a null pointer, so that the names are those of
-- the other levels; every call in the source has one of them.
unfoldable pub log_level_name : Severity → Text
unfolding text
log_level_name Severity.info = text "info"
log_level_name Severity.warn = text "warn"
log_level_name Severity.error = text "error"
log_level_name Severity.debug = text "debug"
log_level_name Severity.trace = text "trace"

unfoldable pub module_name : ModuleId → Text
unfolding text
module_name ModuleId.ctx = text "ctx"
module_name ModuleId.cpu = text "cpu"
module_name ModuleId.disasm = text "disasm"
module_name ModuleId.bus = text "bus"
module_name ModuleId.bios = text "bios"
module_name ModuleId.tty_stdout = text "tty-stdout"

-- The index of a module in `struct psycho_log`.
abbrev pub module_index : ModuleId → ℕ
module_index ModuleId.ctx = 0
module_index ModuleId.cpu = 1
module_index ModuleId.disasm = 2
module_index ModuleId.bus = 3
module_index ModuleId.bios = 4
module_index ModuleId.tty_stdout = 5

set_level : (ModuleId → LogLevel) → ModuleId → LogLevel → ModuleId → LogLevel
set_level levels id level other =
    if module_index id == module_index other then level else levels other

unfoldable pub log_module_level_set : ModuleId → LogLevel → Ctx → Ctx
unfolding set_level
log_module_level_set id level c = record c {
  log = record { modules = set_level c.log.modules id level };
}

-- The modules in the order of their indices, below `PSYCHO_LOG_MODULE_ID_NUM`.
abbrev module_ids : List ModuleId
module_ids =
    ModuleId.ctx ∷ ModuleId.cpu ∷ ModuleId.disasm ∷ ModuleId.bus ∷ ModuleId.bios
    ∷ ModuleId.tty_stdout ∷ []

-- The loop of `psycho_log_level_set_global`.
set_levels : LogLevel → List ModuleId → (ModuleId → LogLevel) → ModuleId → LogLevel
unfolding set_level
set_levels level [] levels = levels
set_levels level (id ∷ ids) levels = set_levels level ids (set_level levels id level)

unfoldable pub log_level_set_global : LogLevel → Ctx → Ctx
unfolding set_levels
log_level_set_global level c = record c {
  log = record { modules = set_levels level module_ids c.log.modules };
}

abbrev pub log_msg_size_max : ℕ
log_msg_size_max = 512

take : ℕ → Text → Text
take zero s = []
take (suc n) [] = []
take (suc n) (x ∷ s) = x ∷ take n s

-- The call of `vsnprintf` may write `sizeof(msg.msg)` bytes, its NUL included, behind the prefix.
unfoldable pub message : ModuleId → Severity → Text → List Arg → LogMsg
unfolding text take log_level_name module_name
message id level f args =
    let prefix =
      format (text "[%s/%s] ") (str (log_level_name level) ∷ str (module_name id) ∷ []) in
    let body = format f args in
    record {
      id = id;
      level = severity_level level;
      msg = prefix ++ take (log_msg_size_max - 1) body;
      msg_len = length prefix + length body;
    }

-- `ctx->event_cb(ctx, event, ...)`.
abbrev pub event_cb : Event → Ctx → Ctx
event_cb e c = record c { events = e ∷ c.events }

abbrev pub log_message_dispatch : ModuleId → Severity → Text → List Arg → Ctx → Ctx
log_message_dispatch id level f args = event_cb (log_message (message id level f args))

unfoldable pub handled :
    (ModuleId → LogLevel) → ModuleId → Severity → Text → List Arg → List Event → List Event
handled levels id lvl f args es =
    if leb (level_code (severity_level lvl)) (level_code (levels id))
    then log_message (message id lvl f args) ∷ es
    else es

-- `LOG_HANDLE`, with the module that the `LOG_MODULE` line of the caller's file names. Only the
-- events change, which is plain without unfolding the test.
abbrev pub log_handle : ModuleId → Severity → Text → List Arg → Ctx → Ctx
log_handle id lvl f args c = record c { events = handled c.log.modules id lvl f args c.events }
