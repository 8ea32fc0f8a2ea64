-- ===== src/Boards/Address.antt =====
-- The addresses of the registers that the accessors use.
pub mod Common
pub mod Dtc
pub mod DtcMiddle
pub mod DtcHigh
pub mod DtcTop
pub mod Cfo
