-- ===== src/Boards/Dtc/PacketCounts.antt =====
-- Accessors of `DTC_Registers` (dtcInterfaceLib/DTC_Registers.cpp): counters of packets and the event mode table.
use mu2e_pcie_utils.Prelude.{ℕ, Option, ok, ◌>>=◌}
use mu2e_pcie_utils.Boards.Base.{Board, Action, Query, Link, write, value_or, register_of}
use mu2e_pcie_utils.Boards.Address.DtcHigh.{dtc_cfo_tx_clock_marker_count_link6_reg}
use mu2e_pcie_utils.Boards.Address.DtcTop.{dtc_evb_diagnostic_rx_packet_low_reg}
use mu2e_pcie_utils.Boards.Dtc.TablesMore.{
  dtc_roc_emulator_interpacket_delay_of, dtc_rx_data_header_packet_count_of,
  dtc_rx_data_packet_count_of, dtc_tx_data_request_packet_count_of,
}

abbrev pub read_roc_emulator_interpacket_delay : (b : Board) → Link → Option ℕ → Query b ℕ
read_roc_emulator_interpacket_delay b link val s = do
  reg ← register_of (dtc_roc_emulator_interpacket_delay_of link)
  (v₁, s₁) ← value_or b reg val s
  ok (v₁, s₁)

abbrev pub set_roc_emulator_interpacket_delay : (b : Board) → Link → ℕ → Action b
set_roc_emulator_interpacket_delay b link delay s = do
  reg ← register_of (dtc_roc_emulator_interpacket_delay_of link)
  write b reg delay s

abbrev pub read_tx_data_request_packet_count : (b : Board) → Link → Option ℕ → Query b ℕ
read_tx_data_request_packet_count b link val s = do
  reg ← register_of (dtc_tx_data_request_packet_count_of link)
  (v₁, s₁) ← value_or b reg val s
  ok (v₁, s₁)

abbrev pub clear_tx_data_requets_packet_count : (b : Board) → Link → Action b
clear_tx_data_requets_packet_count b link s = do
  reg ← register_of (dtc_tx_data_request_packet_count_of link)
  write b reg 0 s

abbrev pub read_cfo_tx_clock_marker_count_link6 : (b : Board) → Option ℕ → Query b ℕ
read_cfo_tx_clock_marker_count_link6 b val s = do
  (v₁, s₁) ← value_or b dtc_cfo_tx_clock_marker_count_link6_reg val s
  ok (v₁, s₁)

abbrev pub read_rx_data_header_packet_count : (b : Board) → Link → Option ℕ → Query b ℕ
read_rx_data_header_packet_count b link val s = do
  reg ← register_of (dtc_rx_data_header_packet_count_of link)
  (v₁, s₁) ← value_or b reg val s
  ok (v₁, s₁)

abbrev pub clear_rx_data_header_packet_count : (b : Board) → Link → Action b
clear_rx_data_header_packet_count b link s = do
  reg ← register_of (dtc_rx_data_header_packet_count_of link)
  write b reg 0 s

abbrev pub read_rx_data_packet_count : (b : Board) → Link → Option ℕ → Query b ℕ
read_rx_data_packet_count b link val s = do
  reg ← register_of (dtc_rx_data_packet_count_of link)
  (v₁, s₁) ← value_or b reg val s
  ok (v₁, s₁)

abbrev pub clear_rx_data_packet_count : (b : Board) → Link → Action b
clear_rx_data_packet_count b link s = do
  reg ← register_of (dtc_rx_data_packet_count_of link)
  write b reg 0 s

abbrev pub clear_evb_diagnostic_fifo : (b : Board) → Action b
clear_evb_diagnostic_fifo b s = write b dtc_evb_diagnostic_rx_packet_low_reg 0 s
