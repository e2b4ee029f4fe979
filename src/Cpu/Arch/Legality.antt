-- ===== src/Cpu/Arch/Legality.antt =====
-- The words that have an effect are instructions of the processor.
use psycho.Prelude.{ℕ, ◌≡◌, ◌==◌, refl, Bool, true, false, Bool-cases, inl, inr, Option, none, some}
use psycho.CpuDefs.{instr_op, instr_rs, instr_funct}
use psycho.Cpu.Decode.{GroupOp, GroupSpecial, decode_op, decode_special}
use psycho.Cpu.Legal.{is_group, is_instruction}
use psycho.Cpu.Arch.{Arch, Effect}
use psycho.Cpu.Arch.Instr.{special_effect, special_word, cop0_effect}
use psycho.Cpu.Arch.Data.{group_effect}
use psycho.Cpu.Arch.Plain.{nothing-ne-some}
use psycho.Cpu.Arch.Step.{word_effect}

module _ (word : ℕ) (a : Arch) (e : Effect) where
  special-legal : special_word word a ≡ some e → is_group GroupOp.group_special word ≡ true
  special-legal = go (decode_special (instr_funct word))
    where
      go :
          (o : Option GroupSpecial)
          → (elim o as (λ x. Option Effect) [ some i ↦ special_effect i word a | none ↦ none ])
            ≡ some e
          → (elim o as (λ x. Bool) [ some i ↦ true | none ↦ false ]) ≡ true
      go none h = absurd (nothing-ne-some e h)
      go (some i) h = refl

  cop0-legal : cop0_effect word a ≡ some e → is_group GroupOp.group_cop0 word ≡ true
  cop0-legal h = elim (Bool-cases (instr_rs word == 0x00)) [
    | inl m ↦ rw m refl
    | inr m ↦ elim (Bool-cases (instr_rs word == 0x04)) [
      | inl t ↦ rw (m, t) refl
      | inr t ↦ elim (Bool-cases (instr_funct word == 0x10)) [
        | inl r ↦ rw (m, t, r) refl
        | inr r ↦ absurd (nothing-ne-some e (rw (m, t, r) at h))
      ]
    ]
  ]

  group-legal : (i : GroupOp) → group_effect i word a ≡ some e → is_group i word ≡ true
  group-legal GroupOp.group_special h = special-legal h
  group-legal GroupOp.group_cop0 h = cop0-legal h
  group-legal _ h = refl

  pub effect-legal : word_effect word a ≡ some e → is_instruction word ≡ true
  unfolding is_instruction
  effect-legal = go (decode_op (instr_op word))
    where
      go :
          (o : Option GroupOp)
          → (elim o as (λ x. Option Effect) [ some i ↦ group_effect i word a | none ↦ none ])
            ≡ some e
          → (elim o as (λ x. Bool) [ some i ↦ is_group i word | none ↦ false ]) ≡ true
      go none h = absurd (nothing-ne-some e h)
      go (some i) h = group-legal i h
