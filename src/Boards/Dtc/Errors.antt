-- ===== src/Boards/Dtc/Errors.antt =====
-- Accessors of `DTC_Registers` (dtcInterfaceLib/DTC_Registers.cpp): error flags.
use mu2e_pcie_utils.Prelude.{◌+◌, ◌%◌, ◌^◌, false, Bool, ℕ, Option, ok, ◌>>=◌}
use mu2e_pcie_utils.Registers.Bitset.{test_bit, assign_bit}
use mu2e_pcie_utils.Boards.Base.{Board, Action, Query, Link, read, write, value_or}
use mu2e_pcie_utils.Boards.Address.Dtc.{dtc_receive_packet_error_reg}

abbrev pub clear_packet_error : (b : Board) → Link → Action b
clear_packet_error b link s = do
  (v₁, s₁) ← read b dtc_receive_packet_error_reg s
  write b dtc_receive_packet_error_reg (assign_bit v₁ (((b.index link) + 8) % 2 ^ 32) false) s₁

abbrev pub read_packet_error : (b : Board) → Link → Option ℕ → Query b Bool
read_packet_error b link val s = do
  (v₁, s₁) ← value_or b dtc_receive_packet_error_reg val s
  ok (test_bit v₁ (((b.index link) + 8) % 2 ^ 32), s₁)

abbrev pub clear_packet_crc_error : (b : Board) → Link → Action b
clear_packet_crc_error b link s = do
  (v₁, s₁) ← read b dtc_receive_packet_error_reg s
  write b dtc_receive_packet_error_reg (assign_bit v₁ (b.index link) false) s₁

abbrev pub read_packet_crc_error : (b : Board) → Link → Option ℕ → Query b Bool
read_packet_crc_error b link val s = do
  (v₁, s₁) ← value_or b dtc_receive_packet_error_reg val s
  ok (test_bit v₁ (b.index link), s₁)
