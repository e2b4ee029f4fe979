-- ===== src/App/Refusal.antt =====
-- The test of `psycho_exe_load`'s result in the loop of `main` in app/main.c.
use psycho.Prelude.{◌≡◌, ◌≢◌, arith, refl, ap, some, ◌∙◌, false}
use psycho.State.{Ctx, Buffer, ReturnCode}
use psycho.Context.{exe_load}
use psycho.Context.Loader.{exe_load-refused}
use psycho.App.{set_traces, next, load_at_entry, is_zero, code_value, exe_entry}

accepted : (code : ReturnCode) → is_zero (code_value code) ≡ false
accepted ReturnCode.exe_size_bad = refl
accepted ReturnCode.exe_id_bad = refl
accepted ReturnCode.ok = refl

loaded_on :
    (exe : Buffer) (c d : Ctx) (code : ReturnCode)
    → c.cpu.pc ≡ exe_entry
    → exe_load exe c ≡ some (code, d)
    → load_at_entry exe c ≡ some (next (set_traces d))
unfolding load_at_entry
loaded_on exe c d code h e = ground (arith, accepted code)

-- At the entry address, an executable that `psycho_exe_load` refuses does not end the program: the
-- round goes on to the step, with nothing loaded and the traces set.
pub load_at_entry-refused :
    (exe : Buffer) (c d : Ctx) (code : ReturnCode)
    → c.cpu.pc ≡ exe_entry
    → exe_load exe c ≡ some (code, d)
    → code ≢ ReturnCode.ok
    → load_at_entry exe c ≡ some (next (set_traces c))
load_at_entry-refused exe c d code h e n =
    loaded_on exe c d code h e
    ∙ ap (λ (x : Ctx). some (next (set_traces x))) (exe_load-refused exe c d code e n).0
