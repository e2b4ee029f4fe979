-- ===== src/Cpu/Alike/Access.antt =====
-- The loads and stores from two states with the same registers and memory.
use psycho.Prelude.{arith, Option, none, some}
use psycho.State.{Ctx}
use psycho.Memory.{read, write}
use psycho.Bus
use psycho.Cpu.{gpr_set_delayed, raise_exception, dbg_data_bp_chk}
use psycho.Cpu.Access
use psycho.Cpu.Alike.{Alike, Keeps, dress}

-- Two runs from one state of registers and memory end alike, and the first keeps the rest.
abbrev pub Agrees : Ctx → Option Ctx → Option Ctx → Type 0
Agrees c none none = Unit {0}
Agrees c (some d) (some d') = Alike d d' × Keeps c d
Agrees c _ _ = ⊥

module _ (x c : Ctx) where
  pub lb-Agrees : Agrees c (Access.lb c) (Access.lb (dress x c))
  unfolding Access.lb Bus.load_byte dbg_data_bp_chk gpr_set_delayed read raise_exception
  lb-Agrees = ground arith

  pub lh-Agrees : Agrees c (Access.lh c) (Access.lh (dress x c))
  unfolding Access.lh Bus.load_halfword dbg_data_bp_chk gpr_set_delayed read raise_exception
  lh-Agrees = ground arith

  pub lwl-Agrees : Agrees c (Access.lwl c) (Access.lwl (dress x c))
  unfolding Access.lwl Bus.load_word dbg_data_bp_chk gpr_set_delayed read raise_exception
  lwl-Agrees = ground arith

  pub lw-Agrees : Agrees c (Access.lw c) (Access.lw (dress x c))
  unfolding Access.lw Bus.load_word dbg_data_bp_chk gpr_set_delayed read raise_exception
  lw-Agrees = ground arith

  pub lbu-Agrees : Agrees c (Access.lbu c) (Access.lbu (dress x c))
  unfolding Access.lbu Bus.load_byte dbg_data_bp_chk gpr_set_delayed read raise_exception
  lbu-Agrees = ground arith

  pub lhu-Agrees : Agrees c (Access.lhu c) (Access.lhu (dress x c))
  unfolding Access.lhu Bus.load_halfword dbg_data_bp_chk gpr_set_delayed read raise_exception
  lhu-Agrees = ground arith

  pub lwr-Agrees : Agrees c (Access.lwr c) (Access.lwr (dress x c))
  unfolding Access.lwr Bus.load_word dbg_data_bp_chk gpr_set_delayed read raise_exception
  lwr-Agrees = ground arith

  pub sb-Agrees : Agrees c (Access.sb c) (Access.sb (dress x c))
  unfolding Access.sb Bus.store_byte dbg_data_bp_chk write raise_exception
  sb-Agrees = ground arith

  pub sh-Agrees : Agrees c (Access.sh c) (Access.sh (dress x c))
  unfolding Access.sh Bus.store_halfword dbg_data_bp_chk write raise_exception
  sh-Agrees = ground arith

  pub swl-Agrees : Agrees c (Access.swl c) (Access.swl (dress x c))
  unfolding Access.swl Bus.load_word Bus.store_word dbg_data_bp_chk read write raise_exception
  swl-Agrees = ground arith

  pub sw-Agrees : Agrees c (Access.sw c) (Access.sw (dress x c))
  unfolding Access.sw Bus.store_word dbg_data_bp_chk write raise_exception
  sw-Agrees = ground arith

  pub swr-Agrees : Agrees c (Access.swr c) (Access.swr (dress x c))
  unfolding Access.swr Bus.load_word Bus.store_word dbg_data_bp_chk read write raise_exception
  swr-Agrees = ground arith
