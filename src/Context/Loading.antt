-- ===== src/Context/Loading.antt =====
-- The invariant through `psycho_exe_load` of core/ctx.c, whatever the executable is.
use mathlib.Core.Path.{subst}
use psycho.Prelude.{ℕ, ◌+◌, ◌-◌, ◌<◌, ◌≡◌, arith, some, ap, if_cases, of_some, ◌∙◌, ltb}
use psycho.State.{Ctx, Buffer, ReturnCode, ram_size}
use psycho.Memory.{read, copy}
use psycho.Memory.Laws.{IsBytes, le_value-lt}
use psycho.Bus.View.{IsSized}
use psycho.Bus.Bytes.{HoldsBytes}
use psycho.Cpu.Valid.{IsWide, IsWord, update-IsWord}
use psycho.Cpu.Valid.Access.{bind-some}
use psycho.CpuDefs.{vaddr_to_paddr}
use psycho.Context
use psycho.Context.{starts_with, exe_id, exe_load, exe_load_image, enter_image}
use psycho.Context.Stepping.{Emulator}

read-IsWord : (b : Buffer) (i v : ℕ) → IsBytes b.byte → read 4 b i ≡ some v → IsWord v
unfolding read
read-IsWord b i v h e = ground (arith, le_value-lt 4 b.byte i h)

copy-IsBytes :
    (dst : Buffer) (i : ℕ) (src : Buffer) (j n : ℕ) (b : Buffer)
    → IsBytes dst.byte
    → IsBytes src.byte
    → copy dst i src j n ≡ some b
    → (a : ℕ) → b.byte a < 256
unfolding copy
copy-IsBytes dst i src j n b h k e a = ground (arith, h a, k (j + (a - i)))

copy-size :
    (dst : Buffer) (i : ℕ) (src : Buffer) (j n : ℕ) (b : Buffer)
    → copy dst i src j n ≡ some b
    → b.size ≡ dst.size
unfolding copy
copy-size dst i src j n b e = ground arith

module _ (pc gp base off : ℕ) (ram : Buffer) (c : Ctx) where
  enter_image-IsWide :
      IsWord pc → IsWord gp → IsWide c.cpu → IsWide (enter_image pc gp base off ram c).cpu
  unfolding enter_image
  enter_image-IsWide p g w = grind (arith, update-IsWord)

  enter_image-Emulator :
      IsWord pc
      → IsWord gp
      → IsBytes ram.byte
      → ram.size ≡ ram_size
      → Emulator c
      → Emulator (enter_image pc gp base off ram c)
  enter_image-Emulator p g b z m = record {
    machine = record {
      valid = record {
        wide = enter_image-IsWide p g m.machine.valid.wide;
        zero_zero = unfold enter_image in m.machine.valid.zero_zero;
      };
      bytes =
          let h : HoldsBytes c.bus = m.machine.bytes in
          unfold enter_image in
          record {
            ram_bytes = b;
            bios_bytes = h.bios_bytes;
            scratchpad_bytes = h.scratchpad_bytes;
          };
      sized =
          let h : IsSized c.bus = m.machine.sized in
          unfold enter_image in
          record {
            ram_sized = z;
            bios_sized = h.bios_sized;
            scratchpad_sized = h.scratchpad_sized;
          };
    };
    tty = unfold enter_image in m.tty;
  }

exe_load_image-Emulator :
    (exe : Buffer) (c d : Ctx)
    → IsBytes exe.byte
    → Emulator c
    → exe_load_image exe c ≡ some d
    → Emulator d
unfolding exe_load_image
exe_load_image-Emulator exe c d h m e =
    let (pc, e1, k1) = bind-some (read 4 exe Context.exe_off_initial_pc) _ e in
    let (gp, e2, k2) = bind-some (read 4 exe Context.exe_off_initial_gp) _ k1 in
    let (dst, e3, k3) = bind-some (read 4 exe Context.exe_off_dest_addr) _ k2 in
    let (size, e4, k4) = bind-some (read 4 exe Context.exe_off_file_size) _ k3 in
    let (ram, e5, k5) =
      bind-some (copy c.bus.ram (vaddr_to_paddr dst) exe Context.exe_off_code size) _ k4 in
    let (base, e6, k6) = bind-some (read 4 exe Context.exe_off_initial_sp_fp_base) _ k5 in
    let (off, e7, k7) = bind-some (read 4 exe Context.exe_off_initial_sp_fp_off) _ k6 in
    let done : Emulator (enter_image pc gp base off ram c) =
      enter_image-Emulator pc gp base off ram c (read-IsWord exe _ pc h e1)
        (read-IsWord exe _ gp h e2)
        (copy-IsBytes c.bus.ram _ exe _ size ram m.machine.bytes.ram_bytes h e5)
        (copy-size c.bus.ram _ exe _ size ram e5 ∙ m.machine.sized.ram_sized) m in
    subst Emulator (of_some k7) (record {
      machine = record {
        valid = done.machine.valid;
        bytes = done.machine.bytes;
        sized = done.machine.sized;
      };
      tty = done.tty;
    })

-- Whatever bytes it is given, a `psycho_exe_load` that has a result keeps the invariant of the
-- context, be it loaded or refused.
pub exe_load-Emulator :
    (exe : Buffer) (c d : Ctx) (code : ReturnCode)
    → IsBytes exe.byte
    → Emulator c
    → exe_load exe c ≡ some (code, d)
    → Emulator d
unfolding exe_load
exe_load-Emulator exe c d code h m e =
    if_cases (ltb exe.size Context.exe_min_size) e
      (λ small. subst Emulator (ap (λ (r : ReturnCode × Ctx). r.1) (of_some small)) m)
      (λ large.
        if_cases (starts_with exe_id exe.byte 0) large
          (λ known.
            let (x, e', k) = bind-some (exe_load_image exe c) _ known in
            subst Emulator (ap (λ (r : ReturnCode × Ctx). r.1) (of_some k))
              (exe_load_image-Emulator exe c x h m e'))
          (λ unknown. subst Emulator (ap (λ (r : ReturnCode × Ctx). r.1) (of_some unknown)) m))
