-- ===== src/Registers.antt =====
-- Access to the registers, `WriteRegister_`, `ReadRegister_`, `GetBit_`, `SetBit_` and
-- `CFOandDTCVerifyRegisterWrite_` of dtcInterfaceLib/CFOandDTC_Registers.cpp. Addresses and values
-- are 32 bits wide.
pub mod Port
pub mod Bitset
pub mod Access
mod Tests
