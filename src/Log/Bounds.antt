-- ===== src/Log/Bounds.antt =====
-- The array of 512 characters that `psycho_log_message_dispatch` of core/log.c prints into.
use psycho.Prelude.{
  le-or_lt, ℕ, zero, suc, ◌+◌, ◌-◌, ◌<◌, ◌≤◌, ◌≡◌, arith, ltb, if◌then◌else◌, refl, ap, inl, inr,
  List, [], ◌∷◌, ◌++◌,
}
use psycho.Text.{Text, Arg, str, text, format, length}
use psycho.Text.Length.{length-append}
use psycho.State.{Severity, ModuleId}
use psycho.Log.{log_level_name, module_name, message, take, log_msg_size_max}

-- `[level/module] `, what stands in front of the message.
abbrev pub prefix : ModuleId → Severity → Text
prefix id level = format (text "[%s/%s] ") (str (log_level_name level) ∷ str (module_name id) ∷ [])

take-all : (n : ℕ) (s : Text) → length s ≤ n → take n s ≡ s
unfolding take
take-all zero [] h = refl
take-all zero (x ∷ s) h = absurd (omega arith)
take-all (suc n) [] h = refl
take-all (suc n) (x ∷ s) h = ap (λ (t : Text). x ∷ t) (take-all n s (omega arith))

length-take : (n : ℕ) (s : Text) → n ≤ length s → length (take n s) ≡ n
unfolding take
length-take zero s h = refl
length-take (suc n) [] h = absurd (omega arith)
length-take (suc n) (x ∷ s) h = ap suc (length-take n s (omega arith))

-- What `vsnprintf` leaves of a text behind a prefix.
module _ (p b : Text) where
  abbrev cut : Text
  cut = p ++ take (log_msg_size_max - 1) b

  cut-all : length (p ++ b) < log_msg_size_max → cut ≡ p ++ b
  cut-all h = ap (λ (t : Text). p ++ t) (take-all 511 b (omega (arith, length-append p b)))

  cut-over : 0 < length p → log_msg_size_max ≤ length (p ++ b) → log_msg_size_max ≤ length cut
  cut-over z h = elim (le-or_lt (length b) 511) [
    | inl l ↦ rw (take-all 511 b l) h
    | inr g ↦ omega (arith, length-append p (take 511 b), length-take 511 b (omega arith))
  ]

  abbrev Outcome : Type 0
  Outcome =
      if ltb (length (p ++ b)) log_msg_size_max
      then (cut ≡ p ++ b) × (length p + length b ≡ length (p ++ b))
      else log_msg_size_max ≤ length cut

  cut-Outcome : 0 < length p → Outcome
  cut-Outcome z = ground (arith, cut-all, cut-over z, length-append p b)

-- If prefix and body have less than 512 characters, which leaves room for the NUL, they are the
-- message and `msg_len` is their length. If not, the message has 512 characters or more,
-- and is written past the end of the array.
pub message_lem :
    (id : ModuleId) (level : Severity) (f : Text) (args : List Arg)
    → let m = message id level f args in
      let whole = prefix id level ++ format f args in
      if ltb (length whole) log_msg_size_max
      then (m.msg ≡ whole) × (m.msg_len ≡ length whole)
      else log_msg_size_max ≤ length m.msg
unfolding message format text
message_lem id level f args = cut-Outcome (prefix id level) (format f args) (omega arith)
