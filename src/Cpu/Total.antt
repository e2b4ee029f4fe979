-- ===== src/Cpu/Total.antt =====
-- A step has a result whenever the words that it touches lie in the arrays.
use psycho.Prelude.{◌>>=◌}
use psycho.Prelude.{
  ℕ, ◌*◌, ◌/◌, ◌%◌, ◌^◌, ◌<◌, ◌≤◌, ◌≡◌, arith, bit_and, refl, Option, none, some, ◌==◌,
}
use psycho.Prelude.{if◌then◌else◌, Bool-cases, inl, inr}
use psycho.Bits.{bit_and_mask, bit_and_split, bit_and-zero, bit_and-le_right}
use mathlib.Core.Path.{subst, sym}
use psycho.Word.{sign_ext_8_32, sign_ext_16_32}
use psycho.State.{Ctx, cop0_sr}
use psycho.CpuDefs.{instr_op, vaddr_to_paddr}
use psycho.Bus
use psycho.Bus.Bytes.{load_word-Loads}
use psycho.Bus.Total.{
  InBounds, Returns, load_word-Returns, load_halfword-Returns, load_byte-Returns,
}
use psycho.Bus.Total.{store_word-Returns, store_halfword-Returns, store_byte-Returns}
use psycho.Cpu.{
  get_phys_addr, raise_exception, gpr_set_delayed, illegal, load_delay_process, ExcCode,
}
use native.Mathlib.Decide.{dec_lt}
use psycho.Cpu.Decode.{GroupOp, op_code, decode_op, decode_op-eq-some_iff}
use psycho.Cpu.Special.{rt, gpr_rt, clear_zero}
use psycho.Cpu.Access.{aligned, lane_shift, forwarded, lwl_merge, lwr_merge, swl_merge, swr_merge}
use psycho.Cpu.Access.{lb, lh, lwl, lw, lbu, lhu, lwr, sb, sh, swl, sw, swr}
use psycho.Cpu.Step.{
  finish, exec, begin, enter_slot, check_pc, set_curr_pc, advance, dispatch, step,
}
use psycho.Cpu.Valid.Access.{Good, phys-Good, Loads-Good}
use psycho.Cpu.Valid.Step.{Machine}
use psycho.Cpu.Valid.Run.{begin-Machine, advance-Machine, step-Machine}

-- `paddr & ~3` is the address of the aligned word.
pub aligned_lem : (p : ℕ) → p < 2 ^ 32 → aligned p ≡ p / 4 * 4
aligned_lem p h =
    omega (arith, bit_and_split 2 p 0xFFFF_FFFC, bit_and_mask 30 (p / 4), bit_and-zero (p % 4))

-- The bus access of the instruction that `c` is about to execute, if it has one, lies in the
-- arrays.
abbrev pub DataInBounds : Ctx → Type 0
DataInBounds c = InBounds (get_phys_addr c).0

bind-Returns :
    {A B : Type 0} (m : Option A) (f : A → Option B)
    → Returns m
    → ((a : A) → m ≡ some a → Returns (f a))
    → Returns (m >>= f)
bind-Returns none f (a, e) h = cc
bind-Returns (some x) f r h = h x refl

finish-Returns : (o : Option Ctx) → Returns o → Returns (finish o)
finish-Returns none (a, e) = cc
finish-Returns (some d) r = (clear_zero d, refl)

guard-Returns :
    (x : ℕ) (o : Option Ctx) (d : Ctx)
    → (x ≡ 0 → Returns o)
    → Returns (if x == 0 then o else some d)
guard-Returns x o d h = elim (Bool-cases (x == 0)) [
  | inl e ↦ rw e (h (ground arith))
  | inr e ↦ rw e (d, refl)
]

vaddr_to_paddr-lt : (v : ℕ) → vaddr_to_paddr v < 2 ^ 32
unfolding vaddr_to_paddr
vaddr_to_paddr-lt v = ground (arith, bit_and-le_right v 0x1FFF_FFFF)

InBounds-aligned : (p : ℕ) → p < 2 ^ 32 → InBounds p → InBounds (aligned p)
InBounds-aligned p h b =
    subst InBounds (sym (aligned_lem p h)) (let k : InBounds p = b in grind arith)

module _ (c : Ctx) (m : Machine c) (b : DataInBounds c) where
  abbrev p : ℕ
  p = (get_phys_addr c).0

  abbrev d : Ctx
  d = (get_phys_addr c).1

  d-Good : Good d
  d-Good = phys-Good c c (record { wide = m.valid.wide; bytes = m.bytes; sized = m.sized })

  p-lt : p < 2 ^ 32
  unfolding get_phys_addr
  p-lt = vaddr_to_paddr-lt _

  -- The word around the address can be read, and written in any context of the same sizes.
  word_read : Returns (Bus.load_word (aligned p) d)
  word_read =
      load_word-Returns d d-Good.sized (aligned p) (InBounds-aligned p p-lt b)
        (omega (arith, aligned_lem p p-lt))

  rewritten :
      (f : ℕ → Ctx → ℕ)
      → Returns (Bus.load_word (aligned p) d >>= λ (v, e). Bus.store_word (aligned p) (f v e) e)
  rewritten f = bind-Returns (Bus.load_word (aligned p) d) _ word_read (λ r e.
      let l = load_word-Loads d d-Good.bytes (aligned p) r.0 r.1 e in
      let g = Loads-Good 4 d r.0 r.1 d-Good l in
      store_word-Returns r.1 g.sized (aligned p) (InBounds-aligned p p-lt b) (f r.0 r.1)
        (omega (arith, aligned_lem p p-lt)))

  loaded :
      (o : Option (ℕ × Ctx)) (f : ℕ → Ctx → ℕ)
      → Returns o
      → Returns (o >>= λ (v, e). some (gpr_set_delayed (rt e) (f v e) e))
  loaded o f r = bind-Returns o _ r (λ x e. (gpr_set_delayed (rt x.1) (f x.0 x.1) x.1, refl))

  byte_read : Returns (Bus.load_byte p d)
  byte_read = load_byte-Returns d d-Good.sized p b

  half_read : bit_and p 1 ≡ 0 → Returns (Bus.load_halfword p d)
  half_read h = load_halfword-Returns d d-Good.sized p b (omega (arith, h, bit_and_mask 1 p))

  exact_read : bit_and p 3 ≡ 0 → Returns (Bus.load_word p d)
  exact_read h = load_word-Returns d d-Good.sized p b (omega (arith, h, bit_and_mask 2 p))

  guarded :
      (mask : ℕ) (e : ExcCode) (o : Option Ctx)
      → (bit_and p mask ≡ 0 → Returns o)
      → Returns (if bit_and p mask == 0 then o else some (raise_exception e d))
  guarded mask e o h = guard-Returns (bit_and p mask) o (raise_exception e d) h

  stored : Returns (
      if bit_and p 3 == 0
      then Bus.store_word p (gpr_rt d) d
      else some (raise_exception ExcCode.ades d))
  stored =
      guarded 3 ExcCode.ades (Bus.store_word p (gpr_rt d) d)
        (λ h. store_word-Returns d d-Good.sized p b (gpr_rt d) (omega (arith, h, bit_and_mask 2 p)))

  sw-Returns : Returns (sw c)
  unfolding sw
  sw-Returns = guard-Returns (bit_and (c.cpu.cop0 cop0_sr) 0x1_0000) _ c (λ _. stored)

  exec_access-Returns : (i : GroupOp) → Returns (exec i c)
  unfolding exec lb lbu lh lhu lw lwl lwr sb sh sw swl swr
  exec_access-Returns GroupOp.group_special = (_, refl)
  exec_access-Returns GroupOp.lb = finish-Returns _ (loaded _ (λ v e. sign_ext_8_32 v) byte_read)
  exec_access-Returns GroupOp.lbu = finish-Returns _ (loaded _ (λ v e. v) byte_read)
  exec_access-Returns GroupOp.lh =
      finish-Returns _
        (guarded 1 ExcCode.adel _ (λ h. loaded _ (λ v e. sign_ext_16_32 v) (half_read h)))
  exec_access-Returns GroupOp.lhu =
      finish-Returns _ (guarded 1 ExcCode.adel _ (λ h. loaded _ (λ v e. v) (half_read h)))
  exec_access-Returns GroupOp.lw =
      finish-Returns _ (guarded 3 ExcCode.adel _ (λ h. loaded _ (λ v e. v) (exact_read h)))
  exec_access-Returns GroupOp.lwl =
      finish-Returns _ (loaded _ (λ v e. lwl_merge (lane_shift p) (forwarded e) v) word_read)
  exec_access-Returns GroupOp.lwr =
      finish-Returns _ (loaded _ (λ v e. lwr_merge (lane_shift p) (forwarded e) v) word_read)
  exec_access-Returns GroupOp.sb = finish-Returns _ (store_byte-Returns d d-Good.sized p b _)
  exec_access-Returns GroupOp.sh = finish-Returns _ (
      guarded 1 ExcCode.ades (Bus.store_halfword p (bit_and (gpr_rt d) 0xFFFF) d) (λ h.
        store_halfword-Returns d d-Good.sized p b (bit_and (gpr_rt d) 0xFFFF)
          (omega (arith, h, bit_and_mask 1 p))))
  exec_access-Returns GroupOp.sw = finish-Returns _ sw-Returns
  exec_access-Returns GroupOp.swl =
      finish-Returns _ (rewritten (λ v e. swl_merge (lane_shift p) (gpr_rt e) v))
  exec_access-Returns GroupOp.swr =
      finish-Returns _ (rewritten (λ v e. swr_merge (lane_shift p) (gpr_rt e) v))
  exec_access-Returns _ = (_, refl)

exec_plain-Returns : (c : Ctx) (i : GroupOp) → op_code i < 0x20 → Returns (exec i c)
unfolding exec
exec_plain-Returns c GroupOp.lb h = absurd (omega arith)
exec_plain-Returns c GroupOp.lbu h = absurd (omega arith)
exec_plain-Returns c GroupOp.lh h = absurd (omega arith)
exec_plain-Returns c GroupOp.lhu h = absurd (omega arith)
exec_plain-Returns c GroupOp.lw h = absurd (omega arith)
exec_plain-Returns c GroupOp.lwl h = absurd (omega arith)
exec_plain-Returns c GroupOp.lwr h = absurd (omega arith)
exec_plain-Returns c GroupOp.sb h = absurd (omega arith)
exec_plain-Returns c GroupOp.sh h = absurd (omega arith)
exec_plain-Returns c GroupOp.sw h = absurd (omega arith)
exec_plain-Returns c GroupOp.swl h = absurd (omega arith)
exec_plain-Returns c GroupOp.swr h = absurd (omega arith)
exec_plain-Returns c _ h = (_, refl)

-- An instruction that is no load or store, by its opcode, always has a result; a load or store has
-- one if its word lies in the arrays.
pub dispatch-Returns :
    (c : Ctx) → Machine c → (0x20 ≤ instr_op c.cpu.instr → DataInBounds c) → Returns (dispatch c)
unfolding dispatch
dispatch-Returns c m h = go (decode_op (instr_op c.cpu.instr)) refl
  where
    go :
        (o : Option GroupOp)
        → decode_op (instr_op c.cpu.instr) ≡ o
        → Returns (elim o as (λ x. Option Ctx) [ some i ↦ exec i c | none ↦ some (illegal c) ])
    go none e = (illegal c, refl)
    go (some i) e =
        let op : op_code i ≡ instr_op c.cpu.instr = (decode_op-eq-some_iff _ i).0 e in
        elim (dec_lt (op_code i) 0x20) [
          | yes k ↦ exec_plain-Returns c i k
          | no k ↦ exec_access-Returns c m (h (omega arith)) i
        ]

-- The word that is fetched lies in the arrays, and so does that of the load or store, if the
-- fetched instruction is one.
pub record StepInBounds (c : Ctx) : Type 0 where
  pub fetch : InBounds (vaddr_to_paddr (begin c).cpu.curr_pc)
  pub data_access :
      (word : ℕ) (d : Ctx)
      → Bus.load_word (vaddr_to_paddr (begin c).cpu.curr_pc) (begin c) ≡ some (word, d)
      → 0x20 ≤ instr_op word
      → DataInBounds (advance word d)

check_pc-aligned : (c : Ctx) → (check_pc c).cpu.pc % 4 ≡ 0
unfolding check_pc raise_exception
check_pc-aligned c = ground (arith, bit_and_mask 2 c.cpu.pc)

vaddr_to_paddr-aligned : (v : ℕ) → v % 4 ≡ 0 → vaddr_to_paddr v % 4 ≡ 0
unfolding vaddr_to_paddr
vaddr_to_paddr-aligned v h = ground (arith, bit_and_mask 29 v)

begin-aligned : (c : Ctx) → (begin c).cpu.curr_pc % 4 ≡ 0
unfolding begin set_curr_pc
begin-aligned c = check_pc-aligned (load_delay_process (enter_slot c))

-- A step of a valid machine whose accesses lie in the arrays returns, into a valid machine.
pub step-Returns :
    (c : Ctx) → Machine c → StepInBounds c → (c' : Ctx) × (step c ≡ some c') × Machine c'
step-Returns c m s =
    let b = begin-Machine c m in
    let pc = (begin c).cpu.curr_pc in
    let fetched =
      load_word-Returns (begin c) b.sized (vaddr_to_paddr pc) s.fetch
        (vaddr_to_paddr-aligned pc (begin-aligned c)) in
    let done : Returns (step c) =
      unfold step in
      bind-Returns _ _ fetched (λ r e.
        dispatch-Returns (advance r.0 r.1)
          (advance-Machine (begin c) r.1 r.0 b (load_word-Loads (begin c) b.bytes _ r.0 r.1 e))
          (s.data_access r.0 r.1 e)) in
    (done.0, done.1, step-Machine c done.0 m done.1)
