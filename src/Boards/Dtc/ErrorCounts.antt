-- ===== src/Boards/Dtc/ErrorCounts.antt =====
-- Accessors of `DTC_Registers` (dtcInterfaceLib/DTC_Registers.cpp): counters of errors.
use mu2e_pcie_utils.Prelude.{true, false, Bool, ℕ, Option, ok, ◌>>=◌}
use mu2e_pcie_utils.Registers.Bitset.{test_bit, assign_bit}
use mu2e_pcie_utils.Boards.Base.{Board, Action, Query, Link, read, write, value_or, register_of}
use mu2e_pcie_utils.Boards.Address.DtcHigh.{
  dtc_ebvserdes_rx_packet_error_count_reg,
  dtc_jitter_attenuator_serdes_rx_external_clock_los_count_reg,
  dtc_jitter_attenuator_serdes_rx_recovered_clock_los_count_reg,
  dtc_serdes_rx_crc_error_control_reg,
}
use mu2e_pcie_utils.Boards.Dtc.TablesMore.{
  dtc_serdes_rx_crc_error_count_of, dtc_serdes_rx_disparity_error_count_of,
  dtc_serdes_rx_prbs_error_count_of,
}

abbrev pub read_serdes_rx_disparity_error_count : (b : Board) → Link → Option ℕ → Query b ℕ
read_serdes_rx_disparity_error_count b link val s = do
  reg ← register_of (dtc_serdes_rx_disparity_error_count_of link)
  (v₁, s₁) ← value_or b reg val s
  ok (v₁, s₁)

abbrev pub clear_serdes_rx_disparity_error_count : (b : Board) → Link → Action b
clear_serdes_rx_disparity_error_count b link s = do
  reg ← register_of (dtc_serdes_rx_disparity_error_count_of link)
  write b reg 1 s

abbrev pub read_serdes_rx_prbs_error_count : (b : Board) → Link → Option ℕ → Query b ℕ
read_serdes_rx_prbs_error_count b link val s = do
  reg ← register_of (dtc_serdes_rx_prbs_error_count_of link)
  (v₁, s₁) ← value_or b reg val s
  ok (v₁, s₁)

abbrev pub clear_serdes_rx_prbs_error_count : (b : Board) → Link → Action b
clear_serdes_rx_prbs_error_count b link s = do
  reg ← register_of (dtc_serdes_rx_prbs_error_count_of link)
  write b reg 1 s

abbrev pub read_serdes_rx_crc_error_count : (b : Board) → Link → Option ℕ → Query b ℕ
read_serdes_rx_crc_error_count b link val s = do
  reg ← register_of (dtc_serdes_rx_crc_error_count_of link)
  (v₁, s₁) ← value_or b reg val s
  ok (v₁, s₁)

abbrev pub clear_serdes_rx_crc_error_count : (b : Board) → Link → Action b
clear_serdes_rx_crc_error_count b link s = do
  reg ← register_of (dtc_serdes_rx_crc_error_count_of link)
  write b reg 1 s

abbrev pub read_enable_induce_serdes_rx_crc_error : (b : Board) → Link → Option ℕ → Query b Bool
read_enable_induce_serdes_rx_crc_error b link val s = do
  (v₁, s₁) ← value_or b dtc_serdes_rx_crc_error_control_reg val s
  ok (test_bit v₁ (b.index link), s₁)

abbrev pub enable_induce_serdes_rx_crc_error : (b : Board) → Link → Action b
enable_induce_serdes_rx_crc_error b link s = do
  (v₁, s₁) ← read b dtc_serdes_rx_crc_error_control_reg s
  write b dtc_serdes_rx_crc_error_control_reg (assign_bit v₁ (b.index link) true) s₁

abbrev pub disable_induce_serdes_rx_crc_error : (b : Board) → Link → Action b
disable_induce_serdes_rx_crc_error b link s = do
  (v₁, s₁) ← read b dtc_serdes_rx_crc_error_control_reg s
  write b dtc_serdes_rx_crc_error_control_reg (assign_bit v₁ (b.index link) false) s₁

abbrev pub read_evb_serdes_rx_packet_error_counter : (b : Board) → Option ℕ → Query b ℕ
read_evb_serdes_rx_packet_error_counter b val s = do
  (v₁, s₁) ← value_or b dtc_ebvserdes_rx_packet_error_count_reg val s
  ok (v₁, s₁)

abbrev pub clear_evb_serdes_rx_packet_error_counter : (b : Board) → Action b
clear_evb_serdes_rx_packet_error_counter b s = write b dtc_ebvserdes_rx_packet_error_count_reg 1 s

abbrev pub read_jitter_attenuator_recovered_clock_los_count : (b : Board) → Option ℕ → Query b ℕ
read_jitter_attenuator_recovered_clock_los_count b val s = do
  (v₁, s₁) ← value_or b dtc_jitter_attenuator_serdes_rx_recovered_clock_los_count_reg val s
  ok (v₁, s₁)

abbrev pub clear_jitter_attenuator_recoevered_clock_los_count : (b : Board) → Action b
clear_jitter_attenuator_recoevered_clock_los_count b s =
    write b dtc_jitter_attenuator_serdes_rx_recovered_clock_los_count_reg 1 s

abbrev pub read_jitter_attenuator_external_clock_los_count : (b : Board) → Option ℕ → Query b ℕ
read_jitter_attenuator_external_clock_los_count b val s = do
  (v₁, s₁) ← value_or b dtc_jitter_attenuator_serdes_rx_external_clock_los_count_reg val s
  ok (v₁, s₁)

abbrev pub clear_jitter_attenuator_external_clock_los_count : (b : Board) → Action b
clear_jitter_attenuator_external_clock_los_count b s =
    write b dtc_jitter_attenuator_serdes_rx_external_clock_los_count_reg 1 s
