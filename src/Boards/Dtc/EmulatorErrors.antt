-- ===== src/Boards/Dtc/EmulatorErrors.antt =====
-- Accessors of `DTC_Registers` (dtcInterfaceLib/DTC_Registers.cpp): errors that the emulated ROCs induce.
use Prim.Native.Nat.{bit_and}
use mu2e_pcie_utils.Prelude.{true, false, Bool, ℕ, Option, ok, ◌>>=◌}
use mu2e_pcie_utils.Registers.Bitset.{test_bit, assign_bit}
use mu2e_pcie_utils.Boards.Base.{
  Board, Action, Query, Link, read, write, value_or, value_or_from, register_of,
}
use mu2e_pcie_utils.Boards.Dtc.TablesMore.{
  dtc_roc_emulator_induce_extra_word_error_of, dtc_roc_emulator_induce_timeout_error_of,
  dtc_serdes_character_not_in_table_error_count_of,
}

abbrev pub read_enable_roc_emulator_periodic_timeout_error :
    (b : Board) → Link → Option ℕ → Query b Bool
read_enable_roc_emulator_periodic_timeout_error b link val s = do
  reg ← register_of (dtc_roc_emulator_induce_timeout_error_of link)
  (v₁, s₁) ← value_or b reg val s
  ok (test_bit v₁ 31, s₁)

abbrev pub enable_roc_emulator_periodic_timeout_error : (b : Board) → Link → Action b
enable_roc_emulator_periodic_timeout_error b link s = do
  reg ← register_of (dtc_roc_emulator_induce_timeout_error_of link)
  (v₁, s₁) ← read b reg s
  write b reg (assign_bit v₁ 31 true) s₁

abbrev pub disable_roc_emulator_periodic_timeout_error : (b : Board) → Link → Action b
disable_roc_emulator_periodic_timeout_error b link s = do
  reg ← register_of (dtc_roc_emulator_induce_timeout_error_of link)
  (v₁, s₁) ← read b reg s
  write b reg (assign_bit v₁ 31 false) s₁

abbrev pub read_enable_roc_emulator_timeout_error_output_partial_data :
    (b : Board) → Link → Option ℕ → Query b Bool
read_enable_roc_emulator_timeout_error_output_partial_data b link val s = do
  reg ← register_of (dtc_roc_emulator_induce_timeout_error_of link)
  (v₁, s₁) ← value_or b reg val s
  ok (test_bit v₁ 30, s₁)

abbrev pub enable_roc_emulator_timeout_error_output_partial_data : (b : Board) → Link → Action b
enable_roc_emulator_timeout_error_output_partial_data b link s = do
  reg ← register_of (dtc_roc_emulator_induce_timeout_error_of link)
  (v₁, s₁) ← read b reg s
  write b reg (assign_bit v₁ 30 true) s₁

abbrev pub disable_roc_emulator_timeout_error_output_partial_data : (b : Board) → Link → Action b
disable_roc_emulator_timeout_error_output_partial_data b link s = do
  reg ← register_of (dtc_roc_emulator_induce_timeout_error_of link)
  (v₁, s₁) ← read b reg s
  write b reg (assign_bit v₁ 30 false) s₁

abbrev pub read_roc_emulator_timeout_error_timestamp : (b : Board) → Link → Option ℕ → Query b ℕ
read_roc_emulator_timeout_error_timestamp b link val s = do
  reg ← register_of (dtc_roc_emulator_induce_timeout_error_of link)
  (v₁, s₁) ← value_or_from b (λ x. bit_and x 0x3FFFFFFF) reg val s
  ok (v₁, s₁)

abbrev pub set_roc_emulator_timeout_error_timestamp : (b : Board) → Link → ℕ → Action b
set_roc_emulator_timeout_error_timestamp b link timestamp s = do
  reg ← register_of (dtc_roc_emulator_induce_timeout_error_of link)
  write b reg (bit_and timestamp 0x3FFFFFFF) s

abbrev pub read_enable_roc_emulator_extra_word_error : (b : Board) → Link → Option ℕ → Query b Bool
read_enable_roc_emulator_extra_word_error b link val s = do
  reg ← register_of (dtc_roc_emulator_induce_extra_word_error_of link)
  (v₁, s₁) ← value_or b reg val s
  ok (test_bit v₁ 31, s₁)

abbrev pub enable_roc_emulator_extra_word_error : (b : Board) → Link → Action b
enable_roc_emulator_extra_word_error b link s = do
  reg ← register_of (dtc_roc_emulator_induce_extra_word_error_of link)
  (v₁, s₁) ← read b reg s
  write b reg (assign_bit v₁ 31 true) s₁

abbrev pub disable_roc_emulator_extra_word_error : (b : Board) → Link → Action b
disable_roc_emulator_extra_word_error b link s = do
  reg ← register_of (dtc_roc_emulator_induce_extra_word_error_of link)
  (v₁, s₁) ← read b reg s
  write b reg (assign_bit v₁ 31 false) s₁

abbrev pub read_roc_emulator_extra_word_error_timestamp : (b : Board) → Link → Option ℕ → Query b ℕ
read_roc_emulator_extra_word_error_timestamp b link val s = do
  reg ← register_of (dtc_roc_emulator_induce_extra_word_error_of link)
  (v₁, s₁) ← value_or_from b (λ x. bit_and x 0x7FFFFFFF) reg val s
  ok (v₁, s₁)

abbrev pub set_roc_emulator_extra_word_error_timestamp : (b : Board) → Link → ℕ → Action b
set_roc_emulator_extra_word_error_timestamp b link timestamp s = do
  reg ← register_of (dtc_roc_emulator_induce_extra_word_error_of link)
  write b reg (bit_and timestamp 0x7FFFFFFF) s

abbrev pub read_serdes_character_not_in_table_error_count :
    (b : Board) → Link → Option ℕ → Query b ℕ
read_serdes_character_not_in_table_error_count b link val s = do
  reg ← register_of (dtc_serdes_character_not_in_table_error_count_of link)
  (v₁, s₁) ← value_or b reg val s
  ok (v₁, s₁)

abbrev pub clear_serdes_character_not_in_table_error_count : (b : Board) → Link → Action b
clear_serdes_character_not_in_table_error_count b link s = do
  reg ← register_of (dtc_serdes_character_not_in_table_error_count_of link)
  write b reg 1 s
