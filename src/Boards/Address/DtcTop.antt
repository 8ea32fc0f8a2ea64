-- ===== src/Boards/Address/DtcTop.antt =====
-- Addresses of registers (dtcInterfaceLib/DTC_Registers.h).
use mu2e_pcie_utils.Prelude.{ℕ}

abbrev pub dtc_rx_data_packet_count_link1_reg : ℕ
dtc_rx_data_packet_count_link1_reg = 0x9694

abbrev pub dtc_rx_data_packet_count_link2_reg : ℕ
dtc_rx_data_packet_count_link2_reg = 0x9698

abbrev pub dtc_rx_data_packet_count_link3_reg : ℕ
dtc_rx_data_packet_count_link3_reg = 0x969C

abbrev pub dtc_rx_data_packet_count_link4_reg : ℕ
dtc_rx_data_packet_count_link4_reg = 0x96A0

abbrev pub dtc_rx_data_packet_count_link5_reg : ℕ
dtc_rx_data_packet_count_link5_reg = 0x96A4

abbrev pub dtc_evb_diagnostic_rx_packet_low_reg : ℕ
dtc_evb_diagnostic_rx_packet_low_reg = 0x96B0
