-- ===== src/Boards/Cfo.antt =====
-- The accessors of the CFO (`CFO_Registers`, cfoInterfaceLib/CFO_Registers.cpp).
pub mod Tables
pub mod Control
pub mod ControlMore
pub mod Timing
pub mod Counters
pub mod Memory
pub mod Prbs
pub mod Firmware
