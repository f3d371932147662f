-- ===== src/Lib.antt =====
-- t89emu, an emulator of an RV32I microcontroller with its debugger.
--
-- The program. `Mcu` (t89emu/src/Mcu.cpp) owns a register file, two program counters, the control
-- registers, and a bus with four memory devices: ROM, RAM, a frame buffer and a core-local
-- interruptor. One call of `nextInstruction` ticks the interruptor, takes a pending interrupt, fetches
-- a word over the bus, decodes and executes it, and takes a trap if the instruction throws. `McuDebug`
-- (t89emu/src/McuDebug.cpp) runs the processor up to breakpoints or by source lines. `ElfParser`
-- finds the segments of an executable and copies them into the ROM; `DwarfParser` reads its debugging
-- information: compile units with trees of entries, from which come types, variables and scopes, the
-- line table, and the rules that give the address of a frame.
--
-- The model. State is passed explicitly: a method of class X is a function on the record X. A status
-- code is a number, as in the source; `none` stands for what C++ leaves undefined (a read outside a
-- buffer, a shift by 32 or more, an uninitialised variable). Numbers are natural, and the wrap-around
-- of a w-bit integer is written out. The parsers can also exit and loop, so they yield a `Result`: a
-- value, an exit, a fault for undefined behaviour, or the end of the fuel. A file and its sections are
-- lists of bytes.
--   Common           lists, options, 32-bit words, digits of numbers
--   Arch             t89emu/include/Architecture.h: opcodes, status codes, access sizes
--   Core             Alu.cpp, AluControlUnit.cpp, ImmediateGenerator.cpp, MemControlUnit.cpp
--   State            RegisterFile.cpp, NextPc.cpp, ProgramCounter.cpp, Csr.cpp, Trap.cpp
--   Device           MemoryDevice.cpp and the four devices that extend it
--   Bus              Bus.cpp, as Bus.h configures it; the devices live in a store that the processor
--                    and the bus share
--   Mcu              Mcu.cpp: one function for each case of the instruction switch
--   Mcu.Isa          the RISC-V manual's computations in registers, branches and jumps as an abstract
--                    machine, which `executeInstruction` is compared with
--   Result           results of code that can exit
--   Elf              ElfParser.cpp: headers, segments, the copy into ROM, sections, symbols and the
--                    lines of the disassembly, each with its name and its operands
--   Dwarf            DataStream, LineNumber, CallFrame, StringTable, Expr, Variable, Scope, DataType:
--                    the files of these names under Dwarf/; Encoding: DwarfEncodings.h; Info:
--                    DebugInfoEntry.cpp and the tree of CompileUnit.cpp; Parser: DwarfParser.cpp and
--                    the compile units of CompileUnit.cpp
--   Debug            McuDebug.cpp: breakpoints, running and stepping; Session: the constructor, and
--                    what it asks of the parsers
--   Tests            concrete runs
--
-- Bounds. Buffers are functions from offsets, of the size that the device states; each access tests
-- the size. `executeInstructions` recurs on its number of cycles. The loop of `stepLine` has no bound
-- in the source, so it runs on fuel: more fuel than there are cycles before a stopping state is enough.
--
-- The loops over a stream run on fuel: one unit for each byte left for the line number program, the
-- frame instructions and the expressions, one more for the abbreviations, and twice the bytes and one
-- more for the tree of entries, since each entry and each end of siblings takes a byte. The number of
-- compile units is an argument.
--
-- The stack machine of a variable keeps its stack and the place in its stream from one evaluation of
-- its location to the next, as in the source.
--
-- Not modelled: the user interface; the characters that `sprintf` makes of a disassembled instruction
-- (its format and arguments are modelled), and the text of a printed entry; the reading of the
-- executable and of source files, whose contents are arguments. The line that `stepLine` compares is a
-- parameter of it. The other bus configuration and the driver in Tester.cpp are not compiled.
pub mod Common
pub mod Arch
pub mod Core
pub mod State
pub mod Device
pub mod Bus
pub mod Mcu
pub mod Debug
pub mod Result
pub mod Dwarf
pub mod Elf
pub mod Tests
