-- ===== src/Verifier.antt =====
-- `DTC_Data_Verifier` of dtcInterfaceLib/DTC_Data_Verifier.h: the checks of the blocks, subevents and
-- events of a buffer.
pub mod Block
pub mod Calorimeter
pub mod Emulator
pub mod Event
pub mod Sound
mod Tests
