-- ===== src/Boards/Flags.antt =====
-- The accessors that set, clear and read single bits of registers (dtcInterfaceLib/DTC_Registers.cpp,
-- cfoInterfaceLib/CFO_Registers.cpp, dtcInterfaceLib/CFOandDTC_Registers.cpp).
pub mod Defs
pub mod Common
pub mod Dtc
pub mod Cfo
pub mod Accessors
pub mod Laws
pub mod Misplaced
pub mod Apart
