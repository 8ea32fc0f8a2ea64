-- ===== src/Compiler.antt =====
-- The run plan compiler, cfoInterfaceLib/CFO_Compiler.cpp and CFO_Compiler.hh.
pub mod Error
pub mod Instr
pub mod Scan
pub mod Number
pub mod Source
pub mod State
pub mod Float
pub mod ModeBits
pub mod Params
pub mod Op
pub mod File
pub mod Plan
mod Tests
