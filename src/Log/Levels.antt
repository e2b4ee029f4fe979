-- ===== src/Log/Levels.antt =====
-- The levels of core/log.c as `LOG_HANDLE` of core/log.h sees them.
use psycho.Prelude.{◌≡◌, ◌==◌, leb, if◌then◌else◌, refl, List, ◌∷◌}
use psycho.Text.{Text, Arg}
use psycho.State.{Ctx, LogLevel, Severity, ModuleId, log_message}
use psycho.Log.{
  level_code, severity_level, log_level_set_global, log_module_level_set, set_levels, log_handle,
  handled, message, module_index,
}

-- After the level of all modules was set, whichever they had, and then the one of a module, a module
-- of either kind logs the messages up to the level set last for it, and no others.
pub log_handle_lem :
    (all own : LogLevel) (lvl : Severity) (id m : ModuleId) (f : Text) (args : List Arg) (c : Ctx)
    → let limit = if module_index id == module_index m then own else all in
      (log_handle m lvl f args (log_module_level_set id own (log_level_set_global all c))).events
      ≡ (if leb (level_code (severity_level lvl)) (level_code limit)
          then log_message (message m lvl f args) ∷ c.events
          else c.events)
unfolding log_module_level_set log_level_set_global handled set_levels
log_handle_lem all own lvl id ModuleId.ctx f args c = refl
log_handle_lem all own lvl id ModuleId.cpu f args c = refl
log_handle_lem all own lvl id ModuleId.disasm f args c = refl
log_handle_lem all own lvl id ModuleId.bus f args c = refl
log_handle_lem all own lvl id ModuleId.bios f args c = refl
log_handle_lem all own lvl id ModuleId.tty_stdout f args c = refl
