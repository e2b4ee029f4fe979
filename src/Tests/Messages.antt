-- ===== src/Tests/Messages.antt =====
-- Messages of the log.
use psycho.Prelude.{◌≡◌, ◌≤◌, ◌++◌, ◌==◌, ltb, leb, if◌then◌else◌, [], ◌∷◌}
use psycho.Text.{str, text, format, length}
use psycho.State.{LogLevel, Severity, ModuleId, log_message}
use psycho.Log.{
  level_code, severity_level, module_index, message, log_handle, log_module_level_set,
  log_level_set_global, log_msg_size_max,
}
use psycho.Log.Levels.{log_handle_lem}
use psycho.Log.Bounds.{prefix, message_lem}
use psycho.Tests.{machine}

-- All modules at `warn`, the BIOS trace at `info`.
log_handle_example :
    let limit =
      if module_index ModuleId.bios == module_index ModuleId.bios
      then LogLevel.info
      else LogLevel.warn in
    (log_handle ModuleId.bios Severity.info (text "EXE loaded") [] (
      log_module_level_set ModuleId.bios LogLevel.info
        (log_level_set_global LogLevel.warn machine))).events
    ≡ (if leb (level_code (severity_level Severity.info)) (level_code limit)
        then log_message (message ModuleId.bios Severity.info (text "EXE loaded") [])
          ∷ machine.events
        else machine.events)
log_handle_example =
    log_handle_lem LogLevel.warn LogLevel.info Severity.info ModuleId.bios ModuleId.bios
      (text "EXE loaded") [] machine

message_example :
    let m = message ModuleId.ctx Severity.info (text "%s") (str (text "EXE loaded") ∷ []) in
    let whole =
      prefix ModuleId.ctx Severity.info ++ format (text "%s") (str (text "EXE loaded") ∷ []) in
    if ltb (length whole) log_msg_size_max
    then (m.msg ≡ whole) × (m.msg_len ≡ length whole)
    else log_msg_size_max ≤ length m.msg
message_example = message_lem ModuleId.ctx Severity.info (text "%s") (str (text "EXE loaded") ∷ [])
