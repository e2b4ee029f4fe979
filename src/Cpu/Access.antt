-- ===== src/Cpu/Access.antt =====
-- The loads and stores of `psycho_cpu_step`, each as the code of its `case`. `none` is a bus
-- access without a defined result.
use psycho.Prelude.{ℕ, ◌-◌, ◌*◌, bit_and, bit_or, ◌==◌, if◌then◌else◌, Option, some, ◌>>=◌}
use psycho.Word.{shl, shr, sign_ext_8_32, sign_ext_16_32}
use psycho.State.{Ctx, cop0_sr}
use psycho.CpuDefs.{cpu_sr_isc}
use psycho.Bus
use psycho.Cpu.{get_phys_addr, gpr_set_delayed, raise_exception, ExcCode}
use psycho.Cpu.Special.{rt, gpr_rt}

-- `paddr & ~3` and `(paddr & 3) * 8`.
abbrev pub aligned : ℕ → ℕ
aligned paddr = bit_and paddr 0xFFFF_FFFC

abbrev pub lane_shift : ℕ → ℕ
lane_shift paddr = bit_and paddr 3 * 8

-- The register's value with a load to the same register that is still on its way.
abbrev pub forwarded : Ctx → ℕ
forwarded c = if c.cpu.ld_next.dst == rt c then c.cpu.ld_next.val else gpr_rt c

-- The words that the unaligned instructions make of a register and a memory word.
unfoldable pub lwl_merge : ℕ → ℕ → ℕ → ℕ
lwl_merge shift val word = bit_or (bit_and val (shr 0x00FF_FFFF shift)) (shl word (24 - shift))

unfoldable pub lwr_merge : ℕ → ℕ → ℕ → ℕ
lwr_merge shift val word = bit_or (bit_and val (shl 0xFFFF_FF00 (24 - shift))) (shr word shift)

unfoldable pub swl_merge : ℕ → ℕ → ℕ → ℕ
swl_merge shift reg word = bit_or (bit_and word (shl 0xFFFF_FF00 shift)) (shr reg (24 - shift))

unfoldable pub swr_merge : ℕ → ℕ → ℕ → ℕ
swr_merge shift reg word = bit_or (bit_and word (shr 0x00FF_FFFF (24 - shift))) (shl reg shift)

unfoldable pub lb : Ctx → Option Ctx
unfolding get_phys_addr
lb c0 =
    let (m_paddr, c1) = get_phys_addr c0 in
    do (byte, c) ← Bus.load_byte m_paddr c1; some (gpr_set_delayed (rt c) (sign_ext_8_32 byte) c)

unfoldable pub lh : Ctx → Option Ctx
unfolding get_phys_addr
lh c0 =
    let (m_paddr, c1) = get_phys_addr c0 in
    let loaded = (do
      (halfword, c) ← Bus.load_halfword m_paddr c1
      some (gpr_set_delayed (rt c) (sign_ext_16_32 halfword) c)) in
    if bit_and m_paddr 1 == 0 then loaded else some (raise_exception ExcCode.adel c1)

unfoldable pub lwl : Ctx → Option Ctx
unfolding get_phys_addr lwl_merge
lwl c0 =
    let (m_paddr, c1) = get_phys_addr c0 in
    do
      (word, c) ← Bus.load_word (aligned m_paddr) c1
      some (gpr_set_delayed (rt c) (lwl_merge (lane_shift m_paddr) (forwarded c) word) c)

unfoldable pub lw : Ctx → Option Ctx
unfolding get_phys_addr
lw c0 =
    let (m_paddr, c1) = get_phys_addr c0 in
    let loaded = (do (word, c) ← Bus.load_word m_paddr c1; some (gpr_set_delayed (rt c) word c)) in
    if bit_and m_paddr 3 == 0 then loaded else some (raise_exception ExcCode.adel c1)

unfoldable pub lbu : Ctx → Option Ctx
unfolding get_phys_addr
lbu c0 =
    let (m_paddr, c1) = get_phys_addr c0 in
    do (byte, c) ← Bus.load_byte m_paddr c1; some (gpr_set_delayed (rt c) byte c)

unfoldable pub lhu : Ctx → Option Ctx
unfolding get_phys_addr
lhu c0 =
    let (m_paddr, c1) = get_phys_addr c0 in
    let loaded = (do
      (halfword, c) ← Bus.load_halfword m_paddr c1
      some (gpr_set_delayed (rt c) halfword c)) in
    if bit_and m_paddr 1 == 0 then loaded else some (raise_exception ExcCode.adel c1)

unfoldable pub lwr : Ctx → Option Ctx
unfolding get_phys_addr lwr_merge
lwr c0 =
    let (m_paddr, c1) = get_phys_addr c0 in
    do
      (word, c) ← Bus.load_word (aligned m_paddr) c1
      some (gpr_set_delayed (rt c) (lwr_merge (lane_shift m_paddr) (forwarded c) word) c)

unfoldable pub sb : Ctx → Option Ctx
unfolding get_phys_addr
sb c0 = let (m_paddr, c) = get_phys_addr c0 in Bus.store_byte m_paddr (bit_and (gpr_rt c) 0xFF) c

unfoldable pub sh : Ctx → Option Ctx
unfolding get_phys_addr
sh c0 =
    let (m_paddr, c) = get_phys_addr c0 in
    let stored = Bus.store_halfword m_paddr (bit_and (gpr_rt c) 0xFFFF) c in
    if bit_and m_paddr 1 == 0 then stored else some (raise_exception ExcCode.ades c)

unfoldable pub swl : Ctx → Option Ctx
unfolding get_phys_addr swl_merge
swl c0 =
    let (m_paddr, c1) = get_phys_addr c0 in
    do
      (word, c) ← Bus.load_word (aligned m_paddr) c1
      Bus.store_word (aligned m_paddr) (swl_merge (lane_shift m_paddr) (gpr_rt c) word) c

-- A store while the cache is isolated does nothing; only `sw` asks.
unfoldable pub sw : Ctx → Option Ctx
unfolding get_phys_addr
sw c0 =
    let (m_paddr, c) = get_phys_addr c0 in
    let stored = Bus.store_word m_paddr (gpr_rt c) c in
    if bit_and (c0.cpu.cop0 cop0_sr) cpu_sr_isc == 0
    then (if bit_and m_paddr 3 == 0 then stored else some (raise_exception ExcCode.ades c))
    else some c0

unfoldable pub swr : Ctx → Option Ctx
unfolding get_phys_addr swr_merge
swr c0 =
    let (m_paddr, c1) = get_phys_addr c0 in
    do
      (word, c) ← Bus.load_word (aligned m_paddr) c1
      Bus.store_word (aligned m_paddr) (swr_merge (lane_shift m_paddr) (gpr_rt c) word) c
