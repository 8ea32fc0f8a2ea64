-- ===== src/Compiler/Tests.antt =====
-- Tests of the compiler at concrete inputs, and the arithmetic that they use.
mod Plans
mod Modes
pub mod Rational
