-- ===== src/Boards/Dtc.antt =====
-- The accessors of the DTC (`DTC_Registers`, dtcInterfaceLib/DTC_Registers.cpp).
pub mod Tables
pub mod TablesMore
pub mod Control
pub mod ControlMore
pub mod ControlRest
pub mod Serdes
pub mod SerdesStatus
pub mod EventBuilding
pub mod Errors
pub mod CfoEmulation
pub mod DetectorEmulation
pub mod Counters
pub mod Links
pub mod Builder
pub mod BuilderMore
pub mod LinkErrors
pub mod Optics
pub mod Firmware
pub mod Timers
pub mod EmulatorErrors
pub mod ErrorCounts
pub mod PacketCounts
