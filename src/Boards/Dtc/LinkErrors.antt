-- ===== src/Boards/Dtc/LinkErrors.antt =====
-- Accessors of `DTC_Registers` (dtcInterfaceLib/DTC_Registers.cpp): the errors of the links.
use mu2e_pcie_utils.Prelude.{Bool, ℕ, Option, ok, ◌>>=◌}
use mu2e_pcie_utils.Registers.Bitset.{test_bit}
use mu2e_pcie_utils.Boards.Base.{Board, Query, Link, value_or, register_of}
use mu2e_pcie_utils.Boards.Address.DtcMiddle.{dtc_link_mux_error_flags_reg}
use mu2e_pcie_utils.Boards.Dtc.Tables.{dtc_error_flags_of}

abbrev pub read_roc_link_roc_data_request_sync_error : (b : Board) → Link → Option ℕ → Query b Bool
read_roc_link_roc_data_request_sync_error b link val s = do
  reg ← register_of (dtc_error_flags_of link)
  (v₁, s₁) ← value_or b reg val s
  ok (test_bit v₁ 5, s₁)

abbrev pub read_roc_link_rx_packet_count_error : (b : Board) → Link → Option ℕ → Query b Bool
read_roc_link_rx_packet_count_error b link val s = do
  reg ← register_of (dtc_error_flags_of link)
  (v₁, s₁) ← value_or b reg val s
  ok (test_bit v₁ 4, s₁)

abbrev pub read_roc_link_rx_packet_error : (b : Board) → Link → Option ℕ → Query b Bool
read_roc_link_rx_packet_error b link val s = do
  reg ← register_of (dtc_error_flags_of link)
  (v₁, s₁) ← value_or b reg val s
  ok (test_bit v₁ 3, s₁)

abbrev pub read_roc_link_rx_packet_crc_error : (b : Board) → Link → Option ℕ → Query b Bool
read_roc_link_rx_packet_crc_error b link val s = do
  reg ← register_of (dtc_error_flags_of link)
  (v₁, s₁) ← value_or b reg val s
  ok (test_bit v₁ 2, s₁)

abbrev pub read_roc_link_data_pending_timeout_error : (b : Board) → Link → Option ℕ → Query b Bool
read_roc_link_data_pending_timeout_error b link val s = do
  reg ← register_of (dtc_error_flags_of link)
  (v₁, s₁) ← value_or b reg val s
  ok (test_bit v₁ 1, s₁)

abbrev pub read_roc_link_receive_data_packet_count_error :
    (b : Board) → Link → Option ℕ → Query b Bool
read_roc_link_receive_data_packet_count_error b link val s = do
  reg ← register_of (dtc_error_flags_of link)
  (v₁, s₁) ← value_or b reg val s
  ok (test_bit v₁ 0, s₁)

abbrev pub read_dcs_mux_decode_error : (b : Board) → Option ℕ → Query b Bool
read_dcs_mux_decode_error b val s = do
  (v₁, s₁) ← value_or b dtc_link_mux_error_flags_reg val s
  ok (test_bit v₁ 1, s₁)

abbrev pub read_data_mux_decode_error : (b : Board) → Option ℕ → Query b Bool
read_data_mux_decode_error b val s = do
  (v₁, s₁) ← value_or b dtc_link_mux_error_flags_reg val s
  ok (test_bit v₁ 0, s₁)
