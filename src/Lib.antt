-- ===== src/Lib.antt =====
-- A verification library for the host software of the Mu2e PCIe boards: the run plan compiler of the
-- CFO, the library's access to the DMA rings and registers of a board, and the verified register
-- access above it.
--
-- The parts, and how they interact. `CFO_Compiler` (cfoInterfaceLib/CFO_Compiler.cpp) reads the text
-- of a run plan and writes the binary that the CFO executes, eight bytes for each operation.
-- `mu2edev` (dtcInterfaceLib/mu2edev.cpp) is the device: it shares rings of buffers with the kernel
-- driver and reaches registers by `ioctl`. `CFOandDTC_Registers` (dtcInterfaceLib) reads and writes
-- registers through the device, tries again on failure, and checks what it wrote.
--
-- Prelude and its children: tests on numbers, lists and byte strings, results with errors, signed
-- status codes. Bits: `&` and `|` of any width, and numbers cut into three fields.
-- Compiler is `CFO_Compiler`. Instr has the operations and their codes (`CFO_INSTR`,
-- `parseInstruction`, `translateOpCode`); Scan `getVectorFromString`; Number `getNumber<T>` for an
-- unsigned type of a given width; Source the reading of lines through a buffer, `isComment` and the
-- cleaning of the arguments; State the fields of the object; Params and ModeBits the cases of
-- `calculateParameterAndErrorCheck`; Op `outParameter` and `processOp`; File `processFile`. A
-- thrown exception is a value of Error, and a read out of range or a division by zero is one too.
-- The arithmetic of `double` that WAIT uses is the parameter Float. Plan says what a well-formed
-- plan is, and its children that the compiler makes one; ModeBits/Mask, Meaning and Field say what
-- the operations on mode bits do.
-- Device is `mu2edev`. Ring has `m_ioc_get_info_t`, `idx_add` and `mu2e_chn_info_delta_` of
-- mu2e_driver/mu2e_mmap_ioctl.h; Backend what the library calls (system calls, shared memory, clock,
-- simulator); State the fields; Init `initDMAEngine`; Read `read_data` and `read_release`; Write
-- `write_data`; Register the register accesses; Lock
-- `begin_dcs_transaction` and `end_dcs_transaction`. Only the entry of the active device is kept of the
-- arrays over devices.
-- Registers is `CFOandDTC_Registers`. Port is the device as this part uses it, with the virtual
-- functions of the two boards; Bitset is `std::bitset<32>`; Access has `WriteRegister_`,
-- `ReadRegister_`, `CFOandDTCVerifyRegisterWrite_`, `GetBit_` and `SetBit_`.
--
-- Boards has the accessors of single registers: `DTC_Registers` in Dtc, `CFO_Registers`
-- (cfoInterfaceLib/CFO_Registers.cpp) in Cfo, those that both inherit in Common. Each is a function
-- over the board of Base, which is a Port; its name is that of the method in lower case. Address has
-- the addresses, Tables the register of each link. A link to a register that there is not is the
-- exception of the source, and an access to a bit past the width, which the source leaves undefined,
-- is not excluded. Ports makes a Port of the device library, with the check of each board. Bank says
-- that registers keep what is written, Framed only that a write leaves the other registers; Flags and
-- Counters collect accessors that belong together (Flags/Misplaced has three that do not fit, and are
-- not in the tables of Flags), Evb has those of the fields of one register, ModeBytes those of the
-- bytes of the event mode, and Reset `ResetSERDES`, whose loop has 99 rounds as in the source.
--
-- Verifier is `DTC_Data_Verifier` (dtcInterfaceLib/DTC_Data_Verifier.h), which stands by itself: Block
-- is what its checks read of a data block through the packet classes, Calorimeter and Emulator the
-- checks of two kinds of blocks, Event those of blocks, subevents and events.
--
-- Bounds. Integers are natural numbers with the wrap-around of their width written out. The loop over
-- the lines of a source has fuel for one line per character and one more; each line read takes a
-- character at least. The loop in `write_data` that waits for the hardware has fuel for its second
-- at a millisecond per round, and the loops that wait for the slow control lock at 100
-- microseconds. The wait for an I2C transfer has no bound in the code, and takes fuel
-- as an argument; running out is an error.
--
-- Not modelled: texts of messages and traces, the opening of files (whether it succeeds is an
-- argument), time measurement, the accessors of registers that use floating point, format text or
-- wait in loops (all but `ResetSERDES`), the I2C sequences, the event and slow control layers, the
-- simulator, the kernel driver, command line programs, bindings and scripts.
pub mod Prelude
pub mod Bits
pub mod Compiler
pub mod Device
pub mod Registers
pub mod Verifier
pub mod Boards
