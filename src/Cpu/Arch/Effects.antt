-- ===== src/Cpu/Arch/Effects.antt =====
-- The helpers of core/cpu.c that the instructions end in, each against its effect.
use psycho.Prelude.{
  ℕ, ◌*◌, ◌≡◌, ◌≢◌, ◌==◌, if◌then◌else◌, arith, refl, ap, ◌∙◌, false, Option, some, bit_and,
  Bool-cases, inl, inr,
}
use psycho.Bus.View.{byte_at}
use psycho.Word.{add32}
use psycho.State.{Ctx, Cpu, cop0_sr, cop0_cause, cop0_epc}
use psycho.Cpu.{
  gpr_set, gpr_set_delayed, load_delay_process, no_load, jmp, raise_exception, ExcCode,
}
use psycho.Cpu.Special.{clear_zero, set_hi_lo}
use psycho.Cpu.Step.{begin, enter_slot, check_pc, set_curr_pc, advance}
use psycho.Cpu.Arch.{
  view, Effect, idles, writes, loads, jumps, jumps_and_links, sets_hi_lo, sets_cop0, traps, stores,
  apply, proceed, put_off, put_bytes,
}
use psycho.Cpu.Valid.{IsLoad, IsWide}
use psycho.Cpu.Exceptions.{sr_push_lem, cause_of_lem}
use psycho.Memory.{update}

-- The context behind `begin`, with an aligned program counter.
abbrev pub begun : Ctx → Ctx
begun c = record c {
  cpu = record (c.cpu) {
    gpr = (view c).reg;
    curr_pc = c.cpu.pc;
    ld_next = c.cpu.ld_pend;
    ld_pend = no_load;
    next_in_branch_delay_slot = false;
    in_branch_delay_slot = c.cpu.next_in_branch_delay_slot;
  };
}

-- The context at the `switch`.
abbrev pub ready : ℕ → Ctx → Ctx
ready word c = record (begun c) {
  cpu = record ((begun c).cpu) {
    instr = word;
    pc = c.cpu.next_pc;
    next_pc = add32 c.cpu.next_pc 4;
  };
}

pub begin-begun : (c : Ctx) → bit_and c.cpu.pc 3 ≡ 0 → begin c ≡ begun c
unfolding begin enter_slot load_delay_process check_pc set_curr_pc
begin-begun c h = rw h refl

pub advance-begun : (c : Ctx) (word : ℕ) → advance word (begun c) ≡ ready word c
unfolding advance
advance-begun c word = refl

-- What an instruction that has an effect leaves.
abbrev pub Effects : Ctx → Effect → Option Ctx → Type 0
Effects c e o = (d : Ctx) × (o ≡ some d) × (view d ≡ apply e (view c))

module _ (c : Ctx) (word : ℕ) (l : IsLoad c.cpu.ld_pend) (z : (view c).reg 0 ≡ 0) where
  -- The register file once an own write is in place, which wins over a load that arrives.
  reg_writes :
      (r v x : ℕ)
      → (view (clear_zero (gpr_set r v (ready word c)))).reg x ≡ (apply (writes r v) (view c)).reg x
  unfolding clear_zero gpr_set apply
  reg_writes r v x = ground (arith, l.none_zero)

  pub writes-Effects :
      (r v : ℕ) → Effects c (writes r v) (some (clear_zero (gpr_set r v (ready word c))))
  writes-Effects r v = (
    _,
    refl,
    unfold clear_zero gpr_set apply in
        λ i. record (apply (writes r v) (view c)) { reg = λ (x : ℕ). reg_writes r v x i },
  )

  -- The register file of an instruction that writes no register: the load arrives.
  reg_kept : (x : ℕ) → (view (clear_zero (ready word c))).reg x ≡ (apply idles (view c)).reg x
  unfolding clear_zero apply
  reg_kept x = ground (arith, l.none_zero, z)

  abbrev delayed : ℕ → ℕ → Ctx
  delayed r v = record (ready word c) {
    cpu = record ((ready word c).cpu) {
      ld_pend = record { dst = r; val = v };
      ld_next = if c.cpu.ld_pend.dst == r then no_load else c.cpu.ld_pend;
    };
  }

  pub idles-Effects : Effects c idles (some (clear_zero (ready word c)))
  idles-Effects = (
    _,
    refl,
    unfold clear_zero apply in λ i. record (apply idles (view c)) { reg = λ (x : ℕ). reg_kept x i },
  )

  reg_loads :
      (r v x : ℕ) → r ≢ 0 → (view (clear_zero (delayed r v))).reg x ≡ (put_off r v (view c)).reg x
  unfolding clear_zero
  reg_loads r v x n = ground (arith, l.none_zero, z)

  pub loads-Effects :
      (r v : ℕ) → Effects c (loads r v) (some (clear_zero (gpr_set_delayed r v (ready word c))))
  unfolding clear_zero gpr_set_delayed apply
  loads-Effects r v = elim (Bool-cases (r == 0)) [
    | inl e ↦ (_, refl, rw e (λ i. record (proceed (view c)) { reg = λ (x : ℕ). reg_kept x i }))
    | inr e ↦ (
      _,
      refl,
      rw e (λ i. record (put_off r v (view c)) {
        reg = λ (x : ℕ). reg_loads r v x (ground arith) i;
      }),
    )
  ]

  pub sets_hi_lo-Effects :
      (hi lo : ℕ)
      → Effects c (sets_hi_lo hi lo) (some (clear_zero (set_hi_lo hi lo (ready word c))))
  sets_hi_lo-Effects hi lo = (
    _,
    refl,
    unfold clear_zero apply in
        λ i. record (apply (sets_hi_lo hi lo) (view c)) { reg = λ (x : ℕ). reg_kept x i },
  )

  pub jumps-Effects : (t : ℕ) → Effects c (jumps t) (some (clear_zero (jmp t (ready word c))))
  jumps-Effects t = (
    _,
    refl,
    unfold clear_zero jmp apply in
        λ i. record (apply (jumps t) (view c)) { reg = λ (x : ℕ). reg_kept x i },
  )

  pub jumps_and_links-Effects :
      (r t : ℕ)
      → Effects c
          (jumps_and_links r t)
          (some (clear_zero (jmp t (gpr_set r (add32 c.cpu.pc (4 * 2)) (ready word c)))))
  jumps_and_links-Effects r t = (
    _,
    refl,
    unfold clear_zero jmp gpr_set apply in
        λ i. record (apply (jumps_and_links r t) (view c)) {
          reg = λ (x : ℕ). reg_writes r (add32 c.cpu.pc (4 * 2)) x i;
        },
  )

  -- A store leaves the processor alone.
  pub stores-Effects :
      (n p v : ℕ) (d : Ctx)
      → d.cpu ≡ (ready word c).cpu
      → ((q : ℕ) → byte_at d.bus q ≡ put_bytes n p v (byte_at c.bus) q)
      → Effects c (stores n p v) (some (clear_zero d))
  stores-Effects n p v d u b = (
    _,
    refl,
    unfold clear_zero in
        ap (λ (k : Cpu). view (clear_zero (record d { cpu = k }))) u
        ∙ (unfold clear_zero apply in
            λ i. record (apply (stores n p v) (view c)) {
              reg = λ (x : ℕ). reg_kept x i;
              mem = λ (q : ℕ). b q i;
            }),
  )

  pub sets_cop0-Effects :
      (r v : ℕ)
      → let d = ready word c in
        Effects c
          (sets_cop0 r v)
          (some (clear_zero (record d { cpu = record (d.cpu) { cop0 = update d.cpu.cop0 r v } })))
  sets_cop0-Effects r v = (
    _,
    refl,
    unfold clear_zero apply in
        λ i. record (apply (sets_cop0 r v) (view c)) { reg = λ (x : ℕ). reg_kept x i },
  )

  pub traps-Effects :
      (exc : ExcCode)
      → IsWide (ready word c).cpu
      → Effects c (traps exc) (some (clear_zero (raise_exception exc (ready word c))))
  traps-Effects exc w = (
    _,
    refl,
    unfold clear_zero raise_exception apply in
        (λ i. record (apply (traps exc) (view c)) {
          reg = λ (x : ℕ). reg_kept x i;
          cop0 =
              update
                (update (update c.cpu.cop0 cop0_epc c.cpu.pc) cop0_sr
                  (sr_push_lem (c.cpu.cop0 cop0_sr) (w.cop0_word cop0_sr) i))
                cop0_cause (cause_of_lem exc (c.cpu.cop0 cop0_cause) i);
        }),
  )
