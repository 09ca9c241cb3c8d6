-- ===== src/Lib.antt =====
-- coverage-vp: a RISC-V virtual prototype that executes RV32 binaries concolically.
--
-- The program has two cores, which meet in the instruction set simulator. The engine
-- vp/src/symex/clover keeps for every word a concrete value and the symbolic expression that it
-- is an instance of, collects the branches of each execution in a tree, and asks a solver for
-- inputs that take a branch the other way. The simulator vp/src/core/rv32 fetches, decodes and
-- executes instructions over such values; its control and status registers, traps and
-- interrupts are concrete. After each execution the driver resets the trace and starts the next
-- one with the inputs that Trace::findNewPath found.
--
-- - Base: Boolean tests, lists over the native numbers, and laws of the bit operations at every
--   width.
-- - Clover/Klee, Clover/Expr: what vp/src/symex/clover uses of klee, as records of operations
--   and of their documented behaviour. Clover/Expr/Standard: the meaning of its bit vector
--   operations.
-- - Clover/Value: ConcolicValue and the constructors of Solver (concolic.cpp, solver.cpp,
--   bitvector.cpp, intval.cpp). A std::shared_ptr is the value that it points to.
-- - Clover/Buffer: Solver::BVC of a buffer and Solver::BVCToBytes (solver.cpp), with the number
--   of a buffer in Buffer/Numbers.
-- - Clover/Context: ExecutionContext (context.cpp, clover.h), a store as a function of the
--   name; Context/Replayed: the replay of a run.
-- - Clover/Memory: ConcolicMemory (memory.cpp). The hash table is a function of the 32-bit
--   address.
-- - Clover/Branch: Trace::Branch and getRandomPath (branch.cpp). Clover/Trace: Trace and
--   Solver::getAssignment (trace.cpp, solver.cpp). The pointer pathCondsCurrent is the list of
--   directions that lead to its node.
-- - Rv32/Word, Rv32/Csr: csr.h of vp/src/core/rv32, registers as 32-bit words with the union's
--   fields at their bits. Rv32/Access: get_csr_value, set_csr_value and the checks before them
--   (iss.cpp).
-- - Rv32/Hart, Rv32/Exc: the part of ISS that controls execution (iss.h), and the codes of
--   vp/src/core/common/{trap,irq_if}.h. Rv32/Trap: traps and interrupts (iss.cpp).
-- - Rv32/Instr: Instruction of vp/src/core/common/instr.h, its fields and immediates;
--   Rv32/Instr/Pattern: Opcode::Mapping and the masks and encodings of instr.cpp. Rv32/Decode:
--   decode_normal (instr.cpp), a function for each group of its cases; Rv32/Instr/Format:
--   Opcode::getType.
-- - Rv32/Compressed: the fields, the decoder and the expansion of compressed instructions, and
--   InstructionFactory (instr.cpp, instr.h).
-- - Rv32/RegFile: RegFile (iss.cpp). Rv32/Exec/Alu: the cases of exec_step that compute a
--   register from registers and immediates; Rv32/Exec/Isa: the same instructions on plain
--   words, as the RISC-V manual defines them. Rv32/Exec/Control: the branches and the jumps.
-- - Rv32/Step: the whole of ISS (iss.h, iss.cpp). Step/Machine: its state, with the interfaces
--   of mem_if.h as a record of operations; Step/Operands: the operands that exec_step inspects;
--   Step/Data: loads and stores, with the sizes of mem.h; Step/System: the other instructions;
--   Step/Execute: fetch, decode and exec_step; Step/Run: run_step and run. Step/Accesses and
--   Step/CsrAccesses describe the memory and the CSR instructions by tables.
-- - Rv32/Mmu: GenericMMU of vp/src/core/common/mmu.h. Mmu/Walk: the page table walk, over an
--   interface to the memory of entries; Mmu/Translate: the translation buffer and the
--   translation; Mmu/Permission: the rules for an entry, by its bits; Mmu/Found: the walk as a
--   chain of entries; Mmu/Address, Mmu/Bounded: the address of a leaf and its width; Mmu/Page,
--   Mmu/Remembered: what the buffer answers.
-- - Examples: a solver and an expression builder that meet the assumptions on klee, and the
--   theorems at concrete inputs.
--
-- A function that returns and changes its object is a function to the new state; one that
-- throws a SimulationTrap ends in `trap` with the state as it was then, and a failed assertion
-- or another exception in `thrown` or `none`. A word of w bits is a number, with its wrap-
-- around written out. ISS::run is a loop on fuel, where none stands for a run that goes on.
-- Trace::findNewPath is a loop that need not end for an arbitrary tree of pointers; its model
-- takes fuel, and one more than the number of nodes still to be negated is enough, since each
-- pass marks one of them. klee is a library: its operations are parameters, and what is proved
-- of their results rests on the records Semantics, Decides, Meaning and Standard, and for the
-- branches on the solver's verdict on constants, which Examples shows can be met. rand is a
-- parameter too, over an arbitrary state of a generator, so what is proved holds for every
-- sequence that it returns.
--
-- Not modelled: SystemC and its time (what the clocks return is an argument; a wait and a
-- synchronisation are functions that set the pending interrupts and the memory), the
-- transactions behind the memory interface, the emulation of system calls, which is a
-- parameter, trace output, the platforms' devices, the debugger, the loading of binaries, and
-- the coverage report, which are input and output around these cores.
pub mod Base
pub mod Clover
pub mod Rv32
pub mod Examples
