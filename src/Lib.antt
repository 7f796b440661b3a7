-- ===== src/Lib.antt =====
-- The Mini32 computer: the C++ simulator of a 32-bit multi-cycle processor with its memories and
-- devices, in simulator/.
--
-- How the parts interact. CpuCore fetches words from the ROM over the Bus, decodes them with the
-- Decoder, computes with the Alu and keeps its registers in the RegisterFile; loads and stores go
-- over the Bus to the RAM, the UART, the timer, the GPIO pins and the debug register. When an
-- instruction retires, the core ticks the timer over the Bus.
--
-- Which file models which part (paths from the repository's root):
--   Alu              simulator/src/alu.cpp: `execute`, a clause for each operation
--   RegisterFile     simulator/src/register_file.cpp: `read` and `write`, with the exception
--   Memory           the byte arrays of ROM and RAM and their little-endian words
--   Ram, Rom         simulator/src/ram.cpp and rom.cpp
--   Mmio             simulator/include/mini32/mmio.hpp, and the contract IsWindow of a device
--   Uart, Timer, Gpio, DebugDevice   the files of the same names in simulator/src/
--   Bus              simulator/src/bus.cpp; the devices are fields of the bus, where the code has
--                    references to them; Bus/Statics has the timer and pins that buses share when
--                    they are built without
--   Opcode           simulator/include/mini32/isa.hpp
--   Decoder, Control, Immediate      simulator/src/decoder.cpp, by its functions: `decode`,
--                    `control_for`, and the immediates with the displacements
--   Decoder/Encoding the encoders of tests/instruction_encoding.hpp; which of them an opcode takes
--                    is `format_of` of Decoder/Fields, the format table of docs/isa.md
--   CpuCore          simulator/include/mini32/cpu_core.hpp, the state and the helpers;
--                    CpuCore/Ticks has `tick`, a function for each microstate, and CpuCore/Steps
--                    has `step`
--   Isa              an independent description of one instruction, after docs/isa.md and
--                    docs/memory-map.md, with no clock and no datapath; Bus/MemoryMap has its map.
--                    It shares the decoder and the devices with the model of the code, which have
--                    theorems of their own; the arithmetic, the effects and the faults are its
--                    own but for their names
--   Isa/Execution    the run of a program by that description, up to a limit
--   CpuCore/Stages, CpuCore/Invariant, CpuCore/Liveness   the microstates, their transitions and what
--                    each relies on, tick by tick; CpuCore/ControlFlow has where branches and jumps go
--   Simulator        simulator/app/main.cpp from an accepted image on: the loading, the run loop
--                    and the exit codes; Simulator/Images writes out the machine that it starts
--   Simulator/Program   simulator/app/main.cpp: `main` with its arguments, file and messages
--   RefTrace         simulator/app/ref_trace.cpp: the loop and the values of its records;
--                    RefTrace/Printing has the lines and RefTrace/Program has `main`;
--                    RefTrace/Reading is a reader of the lines
--   RefTrace/Events  the records of a run by the instruction set, from Isa alone
--   Host             the arguments, files and output streams of the two programs, with the command
--                    lines that ask for a run in Host/Commands
--   Text             what the programs use of the standard library to print and read numbers
--   Examples         the theorems at concrete inputs
-- Base holds the shared names and Bits the arithmetic of masks.
--
-- How the code is modelled. A std::uint32_t is a native number and each operation writes its wrap
-- out. The member `data` of the read results is `value` here, since `data` is a keyword. A thrown
-- exception, an access past the end of an array and the dereference of an empty optional are
-- failures of the type Result, so that a theorem that says an operation returns `ok` says that none
-- of them happens. The callback of the UART is a flag and the list of the bytes it was called with.
-- The retired count is a std::size_t of 64 bits. A text is the list of its bytes. The host is a
-- parameter of the two programs: a function from file names to files, each with what tellg and read
-- give; a program comes to its exit code and what it has written to the two streams.
--
-- Bounds and fuel. The loop of `step` runs on fuel, one for each tick; five ticks are enough for
-- every instruction, the longest being a load (FETCH, DECODE, EXECUTE, MEMORY, WRITEBACK), and more
-- fuel changes nothing. The run loop of main has a count of rounds, one for each instruction; more
-- rounds than the instruction limit are enough, since every round but the last retires an
-- instruction. The two programs take the number of ticks of a step as a parameter, and the rounds of
-- main's run loop are one more than the limit; the loop of the reference trace ends by its own limit.
--
-- Not modelled: the binary mode of the standard output on Windows, a stream that stops taking
-- output, the hardware in rtl/, the Python tools, the board files and the tests.
pub mod Alu
pub mod Base
pub mod Bits
pub mod Bus
pub mod Control
pub mod CpuCore
pub mod DebugDevice
pub mod Decoder
pub mod Examples
pub mod Gpio
pub mod Host
pub mod Immediate
pub mod Isa
pub mod Memory
pub mod Mmio
pub mod Opcode
pub mod Ram
pub mod RefTrace
pub mod RegisterFile
pub mod Rom
pub mod Simulator
pub mod Text
pub mod Timer
pub mod Uart
