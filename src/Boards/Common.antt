-- ===== src/Boards/Common.antt =====
-- The accessors that both boards share (`CFOandDTC_Registers`, dtcInterfaceLib/CFOandDTC_Registers.cpp).
pub mod Design
pub mod Alarms
pub mod AlarmsMore
