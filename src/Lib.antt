-- ===== src/Lib.antt =====
-- The core of psycho, an emulator of the Sony PlayStation, and what its code does.
--
-- The program has a processor (core/cpu.c with core/cpu-defs.h and core/util.h) that fetches,
-- decodes and executes one instruction per call of `psycho_cpu_step`; a bus (core/bus.c) that
-- maps physical addresses to RAM, the scratchpad and the BIOS; a log (core/log.c) that hands
-- messages to the host's callback; a disassembler (core/disasm.c) that prints each instruction to
-- the log; a trace of BIOS calls (core/bios-trace.c) that collects the lines a program prints; a
-- context (core/ctx.c) that holds them all, sets them up, steps them and loads executables; and
-- an application (app/main.c) that loads two files and steps for ever.
--
-- State.antt has the structs and enums of core/include/core. A context is a value: a function
-- that takes `struct psycho_ctx *` takes a `Ctx` and returns the new one. A register file is a
-- function of the register's number and an array of bytes a function of the index with the
-- array's size. The host's callback is the list of the events that it was called with. Words are
-- natural numbers with their wrap-around written out; Word.antt has the conversions of
-- core/util.h and C's operators on `u32` and `s32`, with gcc's result where C leaves one to the
-- implementation. Bits.antt has the laws of `&`, `|` and `^`, Text.antt C strings and the formats
-- of `printf` that the core uses, and Memory.antt `memcpy` on a little-endian host. An access
-- outside an array has no defined result in C: the functions that may do one return an `Option`,
-- with `none` for it.
--
-- CpuDefs.antt is core/cpu-defs.h: the fields of an instruction (CpuDefs/Fields.antt) and the
-- addresses made of them (CpuDefs/Address.antt). Bus.antt is core/bus.c: `load_word` stands for
-- `psycho_bus_load_word` and so on. Bus/View.antt describes the memory map as a function from
-- addresses to bytes, and Bus/Laws.antt, Bus/Stores.antt and Bus/Faults.antt compare the accesses
-- with it. Log.antt is core/log.c and the macros of core/log.h; a message
-- has a `Severity`, the levels that have a name in the source's table.
--
-- Cpu.antt has the helpers of core/cpu.c in front of `psycho_cpu_step`. The step is in
-- Cpu/Step.antt: `begin` up to the fetch, `advance` after it, and `dispatch` for the outer
-- `switch`, whose cases are `exec`. Cpu/Decode.antt has the opcodes, Cpu/Special.antt the cases
-- of `INSTR_GROUP_SPECIAL` and Cpu/Access.antt the loads and stores. A `break` out of the outer
-- `switch` is `finish` or `clear_zero`, which clear `gpr[0]`; a `return` skips it. Cpu/Valid.antt
-- and its modules carry the invariant of processor and memory through every instruction and every
-- number of steps, Cpu/Total.antt is about when a step has a result. The other modules of Cpu are
-- about one mechanism each: exceptions, load delay, branches and their delay slots, unaligned
-- accesses (Cpu/Unaligned.antt for the merged words, and its modules for the words of the memory
-- map), multiplication and division, the other arithmetic (Cpu/Alu.antt and Cpu/Alu/Dispatch.antt),
-- overflow traps; Cpu/Alike.antt and its modules compare a step from two states with the same
-- registers and memory.
--
-- Cpu/Arch.antt is an abstract machine to compare the step with: what a program sees of the
-- registers and of memory, `view`, and the `Effect` of each instruction on it, in arithmetic on
-- integers, with `arch_step` and `arch_run` for one instruction and for several. Its
-- instructions are in Cpu/Arch/Instr.antt, its loads and stores in Cpu/Arch/Data.antt. An
-- instruction has no effect there if it is illegal or at an address that is misaligned or
-- without memory, if it branches or raises an exception in a delay slot, branches further than
-- the code computes, links and then jumps to a misaligned address, or accesses data with a data
-- breakpoint enabled, outside RAM, scratchpad and BIOS, a halfword in the BIOS, or through an
-- address that core/cpu.c mirrors. The modules below it take the helpers and the instructions of
-- core/cpu.c one by one. Context/Program.antt, with Context/Tracing.antt about the instruction
-- trace, and App/Program.antt carry the comparison over to `psycho_step` and to the loop of
-- `main`.
--
-- Disasm.antt is core/disasm.c: `instr` stands for `psycho_disasm_instr`, whose inner `switch`es
-- are `disasm_special`, `disasm_bcond` and `disasm_cop0`. Disasm/Shapes.antt has the assembly
-- syntax to compare it with, Disasm/Lines.antt the comparison, Disasm/Fits.antt the bound of the
-- array and Disasm/Trace.antt and Disasm/Total.antt about the printing of null pointers;
-- Disasm/Illegal.antt compares the words that are printed as illegal with those of
-- Cpu/Legal.antt, which the processor does not trap.
--
-- BiosTrace.antt is core/bios-trace.c: `c_string` reads an array of characters up to its NUL,
-- within the array. BiosTrace/Line.antt follows a line from its first character to its newline
-- and BiosTrace/Safe.antt is about the bounds of the arrays.
--
-- Context.antt is core/ctx.c. Context/Loader.antt, Context/Start.antt and Context/Loading.antt
-- are about the loader and the machine that it leaves; Context/Stepping.antt and
-- Context/Total.antt about `psycho_step`, which puts the two traces around the processor's step.
-- App.antt is the callback of app/main.c and the loop of its `main`: a `round` of the loop ends
-- by the callback's trap or goes on. `answer` calls the callback for the events of a round, the
-- oldest first; the round is told whether the TTY's file is open, since the callback prints a line
-- to the null pointer if it is not, and has no result then. App/Answer.antt is about what the
-- callback makes of a list of events. App/Files.antt has the loads of the two files and
-- App/Main.antt `main` up to its loop, over a C library that is a parameter: the record `Os` has
-- its functions over a state of any type, and `IsLawful` what the C standard says of the counts
-- and bytes of `fread` and `malloc`. App/Reading.antt is about what a load has read,
-- App/Started.antt about the entry of the loop, App/Failure.antt about the ends before it and
-- App/Unallocated.antt about memory that is not there. App/Loop.antt is about every number of
-- rounds, App/Refusal.antt about an executable that is refused, App/Line.antt about a printed line
-- on its way to the host, App/Progress.antt about when the loop goes on, App/Bios.antt with
-- Cpu/Bios.antt about the BIOS; App/Illegal.antt,
-- App/Telling.antt and App/Trap.antt are about the trap.
--
-- The arrays of RAM, BIOS and scratchpad have the sizes of core/include/core/bus.h, and the
-- host's arrays do not overlap. No definition needs fuel but the printing of numbers, which has
-- one step for each of the digits that 32 bits can take. Prelude.antt has the shared names and
-- tests, and Tests.antt a concrete machine for the examples.
--
-- Not modelled: what the C library does behind its functions, and the console (what is printed is
-- the value `Output` or the text of `Outcome`); the assertions of debug builds;
-- core/include/core/compiler.h, which has attributes and branch hints.
pub mod Prelude
pub mod Bits
pub mod Text
pub mod State
pub mod Log
pub mod Word
pub mod CpuDefs
pub mod Memory
pub mod Bus
pub mod Cpu
pub mod Context
pub mod Disasm
pub mod BiosTrace
pub mod App
pub mod Tests
