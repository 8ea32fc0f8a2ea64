-- ===== src/Boards/Dtc/TablesMore.antt =====
-- The registers that each accessor with a link chooses by it (dtcInterfaceLib/DTC_Registers.cpp).
use mu2e_pcie_utils.Prelude.{ℕ, Option, none, some}
use mu2e_pcie_utils.Boards.Base.{Link, link_0, link_1, link_2, link_3, link_4, link_5, link_cfo}
use mu2e_pcie_utils.Boards.Address.DtcHigh.{
  dtc_roc_emulator_induce_extra_word_error_link0_reg,
  dtc_roc_emulator_induce_extra_word_error_link1_reg,
  dtc_roc_emulator_induce_extra_word_error_link2_reg,
  dtc_roc_emulator_induce_extra_word_error_link3_reg,
  dtc_roc_emulator_induce_extra_word_error_link4_reg,
  dtc_roc_emulator_induce_extra_word_error_link5_reg,
  dtc_roc_emulator_induce_timeout_error_link4_reg, dtc_roc_emulator_induce_timeout_error_link5_reg,
  dtc_roc_emulator_interpacket_delay_link0_reg, dtc_roc_emulator_interpacket_delay_link1_reg,
  dtc_roc_emulator_interpacket_delay_link2_reg, dtc_roc_emulator_interpacket_delay_link3_reg,
  dtc_roc_emulator_interpacket_delay_link4_reg, dtc_roc_emulator_interpacket_delay_link5_reg,
  dtc_rx_data_header_packet_count_link0_reg, dtc_rx_data_header_packet_count_link1_reg,
  dtc_rx_data_header_packet_count_link2_reg, dtc_rx_data_header_packet_count_link3_reg,
  dtc_rx_data_header_packet_count_link4_reg, dtc_rx_data_header_packet_count_link5_reg,
  dtc_rx_data_packet_count_link0_reg, dtc_serdes_character_not_in_table_error_count_cfo_link_reg,
  dtc_serdes_character_not_in_table_error_count_link0_reg,
  dtc_serdes_character_not_in_table_error_count_link1_reg,
  dtc_serdes_character_not_in_table_error_count_link2_reg,
  dtc_serdes_character_not_in_table_error_count_link3_reg,
  dtc_serdes_character_not_in_table_error_count_link4_reg,
  dtc_serdes_character_not_in_table_error_count_link5_reg,
  dtc_serdes_rx_crc_error_count_cfo_link_reg, dtc_serdes_rx_crc_error_count_link0_reg,
  dtc_serdes_rx_crc_error_count_link1_reg, dtc_serdes_rx_crc_error_count_link2_reg,
  dtc_serdes_rx_crc_error_count_link3_reg, dtc_serdes_rx_crc_error_count_link4_reg,
  dtc_serdes_rx_crc_error_count_link5_reg, dtc_serdes_rx_disparity_error_count_cfo_link_reg,
  dtc_serdes_rx_disparity_error_count_link0_reg, dtc_serdes_rx_disparity_error_count_link1_reg,
  dtc_serdes_rx_disparity_error_count_link2_reg, dtc_serdes_rx_disparity_error_count_link3_reg,
  dtc_serdes_rx_disparity_error_count_link4_reg, dtc_serdes_rx_disparity_error_count_link5_reg,
  dtc_serdes_rx_prbs_error_count_cfo_link_reg, dtc_serdes_rx_prbs_error_count_link0_reg,
  dtc_serdes_rx_prbs_error_count_link1_reg, dtc_serdes_rx_prbs_error_count_link2_reg,
  dtc_serdes_rx_prbs_error_count_link3_reg, dtc_serdes_rx_prbs_error_count_link4_reg,
  dtc_serdes_rx_prbs_error_count_link5_reg, dtc_tx_data_request_packet_count_link0_reg,
  dtc_tx_data_request_packet_count_link1_reg, dtc_tx_data_request_packet_count_link2_reg,
  dtc_tx_data_request_packet_count_link3_reg, dtc_tx_data_request_packet_count_link4_reg,
  dtc_tx_data_request_packet_count_link5_reg,
}
use mu2e_pcie_utils.Boards.Address.DtcMiddle.{
  dtc_data_pending_diag_timer_link0_reg, dtc_data_pending_diag_timer_link1_reg,
  dtc_data_pending_diag_timer_link2_reg, dtc_data_pending_diag_timer_link3_reg,
  dtc_data_pending_diag_timer_link4_reg, dtc_data_pending_diag_timer_link5_reg,
  dtc_roc_emulator_induce_timeout_error_link0_reg, dtc_roc_emulator_induce_timeout_error_link1_reg,
  dtc_roc_emulator_induce_timeout_error_link2_reg, dtc_roc_emulator_induce_timeout_error_link3_reg,
}
use mu2e_pcie_utils.Boards.Address.DtcTop.{
  dtc_rx_data_packet_count_link1_reg, dtc_rx_data_packet_count_link2_reg,
  dtc_rx_data_packet_count_link3_reg, dtc_rx_data_packet_count_link4_reg,
  dtc_rx_data_packet_count_link5_reg,
}

abbrev pub dtc_data_pending_diag_timer_of : Link → Option ℕ
dtc_data_pending_diag_timer_of link_0 = some dtc_data_pending_diag_timer_link0_reg
dtc_data_pending_diag_timer_of link_1 = some dtc_data_pending_diag_timer_link1_reg
dtc_data_pending_diag_timer_of link_2 = some dtc_data_pending_diag_timer_link2_reg
dtc_data_pending_diag_timer_of link_3 = some dtc_data_pending_diag_timer_link3_reg
dtc_data_pending_diag_timer_of link_4 = some dtc_data_pending_diag_timer_link4_reg
dtc_data_pending_diag_timer_of link_5 = some dtc_data_pending_diag_timer_link5_reg
dtc_data_pending_diag_timer_of _ = none

abbrev pub dtc_roc_emulator_induce_timeout_error_of : Link → Option ℕ
dtc_roc_emulator_induce_timeout_error_of link_0 =
    some dtc_roc_emulator_induce_timeout_error_link0_reg
dtc_roc_emulator_induce_timeout_error_of link_1 =
    some dtc_roc_emulator_induce_timeout_error_link1_reg
dtc_roc_emulator_induce_timeout_error_of link_2 =
    some dtc_roc_emulator_induce_timeout_error_link2_reg
dtc_roc_emulator_induce_timeout_error_of link_3 =
    some dtc_roc_emulator_induce_timeout_error_link3_reg
dtc_roc_emulator_induce_timeout_error_of link_4 =
    some dtc_roc_emulator_induce_timeout_error_link4_reg
dtc_roc_emulator_induce_timeout_error_of link_5 =
    some dtc_roc_emulator_induce_timeout_error_link5_reg
dtc_roc_emulator_induce_timeout_error_of _ = none

abbrev pub dtc_roc_emulator_induce_extra_word_error_of : Link → Option ℕ
dtc_roc_emulator_induce_extra_word_error_of link_0 =
    some dtc_roc_emulator_induce_extra_word_error_link0_reg
dtc_roc_emulator_induce_extra_word_error_of link_1 =
    some dtc_roc_emulator_induce_extra_word_error_link1_reg
dtc_roc_emulator_induce_extra_word_error_of link_2 =
    some dtc_roc_emulator_induce_extra_word_error_link2_reg
dtc_roc_emulator_induce_extra_word_error_of link_3 =
    some dtc_roc_emulator_induce_extra_word_error_link3_reg
dtc_roc_emulator_induce_extra_word_error_of link_4 =
    some dtc_roc_emulator_induce_extra_word_error_link4_reg
dtc_roc_emulator_induce_extra_word_error_of link_5 =
    some dtc_roc_emulator_induce_extra_word_error_link5_reg
dtc_roc_emulator_induce_extra_word_error_of _ = none

abbrev pub dtc_serdes_character_not_in_table_error_count_of : Link → Option ℕ
dtc_serdes_character_not_in_table_error_count_of link_0 =
    some dtc_serdes_character_not_in_table_error_count_link0_reg
dtc_serdes_character_not_in_table_error_count_of link_1 =
    some dtc_serdes_character_not_in_table_error_count_link1_reg
dtc_serdes_character_not_in_table_error_count_of link_2 =
    some dtc_serdes_character_not_in_table_error_count_link2_reg
dtc_serdes_character_not_in_table_error_count_of link_3 =
    some dtc_serdes_character_not_in_table_error_count_link3_reg
dtc_serdes_character_not_in_table_error_count_of link_4 =
    some dtc_serdes_character_not_in_table_error_count_link4_reg
dtc_serdes_character_not_in_table_error_count_of link_5 =
    some dtc_serdes_character_not_in_table_error_count_link5_reg
dtc_serdes_character_not_in_table_error_count_of link_cfo =
    some dtc_serdes_character_not_in_table_error_count_cfo_link_reg
dtc_serdes_character_not_in_table_error_count_of _ = none

abbrev pub dtc_serdes_rx_disparity_error_count_of : Link → Option ℕ
dtc_serdes_rx_disparity_error_count_of link_0 = some dtc_serdes_rx_disparity_error_count_link0_reg
dtc_serdes_rx_disparity_error_count_of link_1 = some dtc_serdes_rx_disparity_error_count_link1_reg
dtc_serdes_rx_disparity_error_count_of link_2 = some dtc_serdes_rx_disparity_error_count_link2_reg
dtc_serdes_rx_disparity_error_count_of link_3 = some dtc_serdes_rx_disparity_error_count_link3_reg
dtc_serdes_rx_disparity_error_count_of link_4 = some dtc_serdes_rx_disparity_error_count_link4_reg
dtc_serdes_rx_disparity_error_count_of link_5 = some dtc_serdes_rx_disparity_error_count_link5_reg
dtc_serdes_rx_disparity_error_count_of link_cfo =
    some dtc_serdes_rx_disparity_error_count_cfo_link_reg
dtc_serdes_rx_disparity_error_count_of _ = none

abbrev pub dtc_serdes_rx_prbs_error_count_of : Link → Option ℕ
dtc_serdes_rx_prbs_error_count_of link_0 = some dtc_serdes_rx_prbs_error_count_link0_reg
dtc_serdes_rx_prbs_error_count_of link_1 = some dtc_serdes_rx_prbs_error_count_link1_reg
dtc_serdes_rx_prbs_error_count_of link_2 = some dtc_serdes_rx_prbs_error_count_link2_reg
dtc_serdes_rx_prbs_error_count_of link_3 = some dtc_serdes_rx_prbs_error_count_link3_reg
dtc_serdes_rx_prbs_error_count_of link_4 = some dtc_serdes_rx_prbs_error_count_link4_reg
dtc_serdes_rx_prbs_error_count_of link_5 = some dtc_serdes_rx_prbs_error_count_link5_reg
dtc_serdes_rx_prbs_error_count_of link_cfo = some dtc_serdes_rx_prbs_error_count_cfo_link_reg
dtc_serdes_rx_prbs_error_count_of _ = none

abbrev pub dtc_serdes_rx_crc_error_count_of : Link → Option ℕ
dtc_serdes_rx_crc_error_count_of link_0 = some dtc_serdes_rx_crc_error_count_link0_reg
dtc_serdes_rx_crc_error_count_of link_1 = some dtc_serdes_rx_crc_error_count_link1_reg
dtc_serdes_rx_crc_error_count_of link_2 = some dtc_serdes_rx_crc_error_count_link2_reg
dtc_serdes_rx_crc_error_count_of link_3 = some dtc_serdes_rx_crc_error_count_link3_reg
dtc_serdes_rx_crc_error_count_of link_4 = some dtc_serdes_rx_crc_error_count_link4_reg
dtc_serdes_rx_crc_error_count_of link_5 = some dtc_serdes_rx_crc_error_count_link5_reg
dtc_serdes_rx_crc_error_count_of link_cfo = some dtc_serdes_rx_crc_error_count_cfo_link_reg
dtc_serdes_rx_crc_error_count_of _ = none

abbrev pub dtc_roc_emulator_interpacket_delay_of : Link → Option ℕ
dtc_roc_emulator_interpacket_delay_of link_0 = some dtc_roc_emulator_interpacket_delay_link0_reg
dtc_roc_emulator_interpacket_delay_of link_1 = some dtc_roc_emulator_interpacket_delay_link1_reg
dtc_roc_emulator_interpacket_delay_of link_2 = some dtc_roc_emulator_interpacket_delay_link2_reg
dtc_roc_emulator_interpacket_delay_of link_3 = some dtc_roc_emulator_interpacket_delay_link3_reg
dtc_roc_emulator_interpacket_delay_of link_4 = some dtc_roc_emulator_interpacket_delay_link4_reg
dtc_roc_emulator_interpacket_delay_of link_5 = some dtc_roc_emulator_interpacket_delay_link5_reg
dtc_roc_emulator_interpacket_delay_of _ = none

abbrev pub dtc_tx_data_request_packet_count_of : Link → Option ℕ
dtc_tx_data_request_packet_count_of link_0 = some dtc_tx_data_request_packet_count_link0_reg
dtc_tx_data_request_packet_count_of link_1 = some dtc_tx_data_request_packet_count_link1_reg
dtc_tx_data_request_packet_count_of link_2 = some dtc_tx_data_request_packet_count_link2_reg
dtc_tx_data_request_packet_count_of link_3 = some dtc_tx_data_request_packet_count_link3_reg
dtc_tx_data_request_packet_count_of link_4 = some dtc_tx_data_request_packet_count_link4_reg
dtc_tx_data_request_packet_count_of link_5 = some dtc_tx_data_request_packet_count_link5_reg
dtc_tx_data_request_packet_count_of _ = none

abbrev pub dtc_rx_data_header_packet_count_of : Link → Option ℕ
dtc_rx_data_header_packet_count_of link_0 = some dtc_rx_data_header_packet_count_link0_reg
dtc_rx_data_header_packet_count_of link_1 = some dtc_rx_data_header_packet_count_link1_reg
dtc_rx_data_header_packet_count_of link_2 = some dtc_rx_data_header_packet_count_link2_reg
dtc_rx_data_header_packet_count_of link_3 = some dtc_rx_data_header_packet_count_link3_reg
dtc_rx_data_header_packet_count_of link_4 = some dtc_rx_data_header_packet_count_link4_reg
dtc_rx_data_header_packet_count_of link_5 = some dtc_rx_data_header_packet_count_link5_reg
dtc_rx_data_header_packet_count_of _ = none

abbrev pub dtc_rx_data_packet_count_of : Link → Option ℕ
dtc_rx_data_packet_count_of link_0 = some dtc_rx_data_packet_count_link0_reg
dtc_rx_data_packet_count_of link_1 = some dtc_rx_data_packet_count_link1_reg
dtc_rx_data_packet_count_of link_2 = some dtc_rx_data_packet_count_link2_reg
dtc_rx_data_packet_count_of link_3 = some dtc_rx_data_packet_count_link3_reg
dtc_rx_data_packet_count_of link_4 = some dtc_rx_data_packet_count_link4_reg
dtc_rx_data_packet_count_of link_5 = some dtc_rx_data_packet_count_link5_reg
dtc_rx_data_packet_count_of _ = none
