-- ===== src/Cpu/Exceptions.antt =====
-- What `raise_exception` and `rfe` of core/cpu.c leave in SR, Cause and EPC, and where the
-- program goes on.
use psycho.Prelude.{ℕ, ◌+◌, ◌*◌, ◌/◌, ◌%◌, ◌^◌, ◌<◌, ◌≡◌, arith, bit_and, bit_or}
use psycho.Bits.{bit_and_field, bit_and_mask, bit_or_fields}
use psycho.State.{Ctx, cop0_sr}
use psycho.Cpu.{ExcCode, exc_code, sr_push, cause_of, raise_exception}
use psycho.Cpu.Step.{sr_pop, rfe}
use psycho.Cpu.Valid.{IsWide}

pub sr_push_lem : (sr : ℕ) → sr < 2 ^ 32 → sr_push sr ≡ sr / 64 * 64 + sr % 16 * 4
sr_push_lem sr h = ground (
  arith,
  bit_and_field 6 26 sr,
  bit_and_mask 4 sr,
  bit_or_fields 6 (sr / 64) (sr % 16 * 4) (omega arith),
)

pub sr_pop_lem : (sr : ℕ) → sr < 2 ^ 32 → sr_pop sr ≡ sr / 16 * 16 + sr / 4 % 16
sr_pop_lem sr h = ground (
  arith,
  bit_and_field 4 28 sr,
  bit_and_field 2 4 sr,
  bit_or_fields 4 (sr / 16) (sr / 4 % 16) (omega arith),
)

exc_code-lt : (exc : ExcCode) → exc_code exc < 32
exc_code-lt ExcCode.adel = omega arith
exc_code-lt ExcCode.ades = omega arith
exc_code-lt ExcCode.sys = omega arith
exc_code-lt ExcCode.bp = omega arith
exc_code-lt ExcCode.ov = omega arith

code_field :
    (code cause : ℕ)
    → code < 32
    → bit_or (bit_and cause 0xFF00) (code * 4 % 2 ^ 32) ≡ cause / 256 % 256 * 256 + code * 4
code_field code cause h =
    ground
      (arith, bit_and_field 8 8 cause, bit_or_fields 8 (cause / 256 % 256) (code * 4) (omega arith))

pub cause_of_lem :
    (exc : ExcCode) (cause : ℕ) → cause_of exc cause ≡ cause / 256 % 256 * 256 + exc_code exc * 4
cause_of_lem exc cause = code_field (exc_code exc) cause (exc_code-lt exc)

-- The low six bits of SR are three pairs of flags: an exception pushes the pair of the program
-- on this stack, and `rfe` pops it again, with every bit above them kept.
pub sr_pop-sr_push :
    (sr : ℕ) → sr < 2 ^ 32 → sr_pop (sr_push sr) ≡ sr / 64 * 64 + sr / 4 % 4 * 16 + sr % 16
sr_pop-sr_push sr h =
    ground (arith, sr_push_lem sr h, sr_pop_lem (sr_push sr) (omega (arith, sr_push_lem sr h)))

-- In a well-formed CPU, `rfe` after an exception gives SR back but for its pair 4 and 5, which
-- takes the value of the pair below it.
pub rfe-raise_exception :
    (exc : ExcCode) (c : Ctx)
    → IsWide c.cpu
    → let sr = c.cpu.cop0 cop0_sr in
      (rfe (raise_exception exc c)).cpu.cop0 cop0_sr ≡ sr / 64 * 64 + sr / 4 % 4 * 16 + sr % 16
unfolding raise_exception rfe
rfe-raise_exception exc c w = sr_pop-sr_push _ (w.cop0_word cop0_sr)
