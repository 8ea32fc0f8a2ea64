-- ===== src/Boards/Dtc/Links.antt =====
-- Accessors of `DTC_Registers` (dtcInterfaceLib/DTC_Registers.cpp): pseudo random tests, inversion, clocks and retransmission.
use Prim.Native.Nat.{bit_and}
use mu2e_pcie_utils.Prelude.{◌+◌, ◌%◌, ◌^◌, true, false, Bool, ℕ, Option, ok, ◌>>=◌}
use mu2e_pcie_utils.Registers.Bitset.{test_bit, assign_bit}
use mu2e_pcie_utils.Boards.Base.{Board, Action, Query, Link, read, write, value_or, register_of}
use mu2e_pcie_utils.Boards.Address.Dtc.{
  dtc_dd3_test_register_reg, dtc_event_mode_lookup_table_control_reg, dtc_rx_prbs_control_reg,
  dtc_tx_prbs_control_reg,
}
use mu2e_pcie_utils.Boards.Address.DtcMiddle.{
  dtc_local_fragment_drop_count_reg, dtc_serdes_tx_rx_invert_enable_reg,
  dtc_sfp_iic_bus_control_reg,
}
use mu2e_pcie_utils.Boards.Dtc.Tables.{
  dtc_missed_cfo_packet_count_of, dtc_retransmit_request_count_of,
}

abbrev pub read_tx_prbs_force_error : (b : Board) → Link → Option ℕ → Query b Bool
read_tx_prbs_force_error b link val s = do
  (v₁, s₁) ← value_or b dtc_tx_prbs_control_reg val s
  ok (test_bit v₁ (((b.index link) + 24) % 2 ^ 32), s₁)

abbrev pub set_tx_prbs_force_error : (b : Board) → Link → Action b
set_tx_prbs_force_error b link s = do
  (v₁, s₁) ← read b dtc_tx_prbs_control_reg s
  write b dtc_tx_prbs_control_reg (assign_bit v₁ (((b.index link) + 24) % 2 ^ 32) true) s₁

abbrev pub clear_tx_prbs_force_error : (b : Board) → Link → Action b
clear_tx_prbs_force_error b link s = do
  (v₁, s₁) ← read b dtc_tx_prbs_control_reg s
  write b dtc_tx_prbs_control_reg (assign_bit v₁ (((b.index link) + 24) % 2 ^ 32) false) s₁

abbrev pub read_rx_prbs_error : (b : Board) → Link → Option ℕ → Query b Bool
read_rx_prbs_error b link val s = do
  (v₁, s₁) ← value_or b dtc_rx_prbs_control_reg val s
  ok (test_bit v₁ (((b.index link) + 24) % 2 ^ 32), s₁)

abbrev pub read_event_mode_table_enable : (b : Board) → Option ℕ → Query b Bool
read_event_mode_table_enable b val s = do
  (v₁, s₁) ← value_or b dtc_event_mode_lookup_table_control_reg val s
  ok (test_bit v₁ 16, s₁)

abbrev pub set_event_mode_table_enable : (b : Board) → Action b
set_event_mode_table_enable b s = do
  (v₁, s₁) ← read b dtc_event_mode_lookup_table_control_reg s
  write b dtc_event_mode_lookup_table_control_reg (assign_bit v₁ 16 true) s₁

abbrev pub clear_event_mode_table_enable : (b : Board) → Action b
clear_event_mode_table_enable b s = do
  (v₁, s₁) ← read b dtc_event_mode_lookup_table_control_reg s
  write b dtc_event_mode_lookup_table_control_reg (assign_bit v₁ 16 false) s₁

abbrev pub read_event_mode_lookup_byte_select : (b : Board) → Option ℕ → Query b ℕ
read_event_mode_lookup_byte_select b val s = do
  (v₁, s₁) ← value_or b dtc_event_mode_lookup_table_control_reg val s
  ok (((bit_and v₁ 0x7) % 2 ^ 8), s₁)

abbrev pub set_event_mode_lookup_byte_select : (b : Board) → ℕ → Action b
set_event_mode_lookup_byte_select b byte s = do
  (v₁, s₁) ← read b dtc_event_mode_lookup_table_control_reg s
  write b dtc_event_mode_lookup_table_control_reg
      (((bit_and v₁ 0xFFF8) + (bit_and byte 0x7)) % 2 ^ 32) s₁

abbrev pub read_ddr_memory_test_complete : (b : Board) → Option ℕ → Query b Bool
read_ddr_memory_test_complete b val s = do
  (v₁, s₁) ← value_or b dtc_dd3_test_register_reg val s
  ok (test_bit v₁ 8, s₁)

abbrev pub read_ddr_memory_test_error : (b : Board) → Option ℕ → Query b Bool
read_ddr_memory_test_error b val s = do
  (v₁, s₁) ← value_or b dtc_dd3_test_register_reg val s
  ok (test_bit v₁ 0, s₁)

abbrev pub clear_ddr_memory_test_error : (b : Board) → Action b
clear_ddr_memory_test_error b s = write b dtc_dd3_test_register_reg 1 s

abbrev pub read_invert_serdes_rx_input : (b : Board) → Link → Option ℕ → Query b Bool
read_invert_serdes_rx_input b link val s = do
  (v₁, s₁) ← value_or b dtc_serdes_tx_rx_invert_enable_reg val s
  ok (test_bit v₁ (((b.index link) + 8) % 2 ^ 32), s₁)

abbrev pub set_invert_serdes_rx_input : (b : Board) → Link → Bool → Action b
set_invert_serdes_rx_input b link invert s = do
  (v₁, s₁) ← read b dtc_serdes_tx_rx_invert_enable_reg s
  write b dtc_serdes_tx_rx_invert_enable_reg (assign_bit v₁ (((b.index link) + 8) % 2 ^ 32) invert)
      s₁

abbrev pub read_invert_serdes_tx_output : (b : Board) → Link → Option ℕ → Query b Bool
read_invert_serdes_tx_output b link val s = do
  (v₁, s₁) ← value_or b dtc_serdes_tx_rx_invert_enable_reg val s
  ok (test_bit v₁ (b.index link), s₁)

abbrev pub set_invert_serdes_tx_output : (b : Board) → Link → Bool → Action b
set_invert_serdes_tx_output b link invert s = do
  (v₁, s₁) ← read b dtc_serdes_tx_rx_invert_enable_reg s
  write b dtc_serdes_tx_rx_invert_enable_reg (assign_bit v₁ (b.index link) invert) s₁

abbrev pub read_sfp_iic_interface_reset : (b : Board) → Option ℕ → Query b Bool
read_sfp_iic_interface_reset b val s = do
  (v₁, s₁) ← value_or b dtc_sfp_iic_bus_control_reg val s
  ok (test_bit v₁ 31, s₁)

abbrev pub read_retransmit_request_count : (b : Board) → Link → Option ℕ → Query b ℕ
read_retransmit_request_count b link val s = do
  reg ← register_of (dtc_retransmit_request_count_of link)
  (v₁, s₁) ← value_or b reg val s
  ok (v₁, s₁)

abbrev pub clear_retransmit_request_count : (b : Board) → Link → Action b
clear_retransmit_request_count b link s = do
  reg ← register_of (dtc_retransmit_request_count_of link)
  write b reg 1 s

abbrev pub read_missed_cfo_packet_count : (b : Board) → Link → Option ℕ → Query b ℕ
read_missed_cfo_packet_count b link val s = do
  reg ← register_of (dtc_missed_cfo_packet_count_of link)
  (v₁, s₁) ← value_or b reg val s
  ok (v₁, s₁)

abbrev pub clear_missed_cfo_packet_count : (b : Board) → Link → Action b
clear_missed_cfo_packet_count b link s = do
  reg ← register_of (dtc_missed_cfo_packet_count_of link)
  write b reg 1 s

abbrev pub read_local_fragment_drop_count : (b : Board) → Option ℕ → Query b ℕ
read_local_fragment_drop_count b val s = do
  (v₁, s₁) ← value_or b dtc_local_fragment_drop_count_reg val s
  ok (v₁, s₁)

abbrev pub clear_local_fragment_drop_count : (b : Board) → Action b
clear_local_fragment_drop_count b s = write b dtc_local_fragment_drop_count_reg 1 s
