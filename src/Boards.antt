-- ===== src/Boards.antt =====
-- The accessors of the registers of the two boards: `DTC_Registers` and `CFOandDTC_Registers`
-- (dtcInterfaceLib/DTC_Registers.cpp, dtcInterfaceLib/CFOandDTC_Registers.cpp) and `CFO_Registers`
-- (cfoInterfaceLib/CFO_Registers.cpp). An accessor names a register of Address and the bits of it.
pub mod Base
pub mod Address
pub mod Common
pub mod Dtc
pub mod Cfo
pub mod Bank
pub mod Framed
pub mod Flags
pub mod Ports
pub mod Counters
pub mod Evb
pub mod ModeBytes
pub mod Reset
mod Tests
