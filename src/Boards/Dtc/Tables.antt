-- ===== src/Boards/Dtc/Tables.antt =====
-- The registers that each accessor with a link chooses by it (dtcInterfaceLib/DTC_Registers.cpp).
use mu2e_pcie_utils.Prelude.{ℕ, Option, none, some}
use mu2e_pcie_utils.Boards.Base.{Link, link_0, link_1, link_2, link_3, link_4, link_5, link_cfo}
use mu2e_pcie_utils.Boards.Address.Dtc.{
  dtc_receive_byte_count_cfo_link_reg, dtc_receive_byte_count_link0_reg,
  dtc_receive_byte_count_link1_reg, dtc_receive_byte_count_link2_reg,
  dtc_receive_byte_count_link3_reg, dtc_receive_byte_count_link4_reg,
  dtc_receive_byte_count_link5_reg, dtc_receive_packet_count_cfo_link_reg,
  dtc_receive_packet_count_link0_reg, dtc_receive_packet_count_link1_reg,
  dtc_receive_packet_count_link2_reg, dtc_receive_packet_count_link3_reg,
  dtc_receive_packet_count_link4_reg, dtc_receive_packet_count_link5_reg,
  dtc_transmit_byte_count_cfo_link_reg, dtc_transmit_byte_count_link0_reg,
  dtc_transmit_byte_count_link1_reg, dtc_transmit_byte_count_link2_reg,
  dtc_transmit_byte_count_link3_reg, dtc_transmit_byte_count_link4_reg,
  dtc_transmit_byte_count_link5_reg, dtc_transmit_packet_count_cfo_link_reg,
  dtc_transmit_packet_count_link0_reg, dtc_transmit_packet_count_link1_reg,
  dtc_transmit_packet_count_link2_reg, dtc_transmit_packet_count_link3_reg,
  dtc_transmit_packet_count_link4_reg, dtc_transmit_packet_count_link5_reg,
}
use mu2e_pcie_utils.Boards.Address.DtcMiddle.{
  dtc_diag_serdes_packet0_reg, dtc_diag_serdes_packet1_reg, dtc_diag_serdes_packet2_reg,
  dtc_diag_serdes_packet3_reg, dtc_diag_serdes_packet4_reg, dtc_diag_serdes_packet5_reg,
  dtc_link0_error_flags_reg, dtc_link1_error_flags_reg, dtc_link2_error_flags_reg,
  dtc_link3_error_flags_reg, dtc_link4_error_flags_reg, dtc_link5_error_flags_reg,
  dtc_missed_cfo_packet_count_link0_reg, dtc_missed_cfo_packet_count_link1_reg,
  dtc_missed_cfo_packet_count_link2_reg, dtc_missed_cfo_packet_count_link3_reg,
  dtc_missed_cfo_packet_count_link4_reg, dtc_missed_cfo_packet_count_link5_reg,
  dtc_retransmit_request_count_link0_reg, dtc_retransmit_request_count_link1_reg,
  dtc_retransmit_request_count_link2_reg, dtc_retransmit_request_count_link3_reg,
  dtc_retransmit_request_count_link4_reg, dtc_retransmit_request_count_link5_reg,
  dtc_rxcdr_unlock_count_cfo_link_reg, dtc_rxcdr_unlock_count_link0_reg,
  dtc_rxcdr_unlock_count_link1_reg, dtc_rxcdr_unlock_count_link2_reg,
  dtc_rxcdr_unlock_count_link3_reg, dtc_rxcdr_unlock_count_link4_reg,
  dtc_rxcdr_unlock_count_link5_reg,
}

abbrev pub dtc_receive_byte_count_of : Link → Option ℕ
dtc_receive_byte_count_of link_0 = some dtc_receive_byte_count_link0_reg
dtc_receive_byte_count_of link_1 = some dtc_receive_byte_count_link1_reg
dtc_receive_byte_count_of link_2 = some dtc_receive_byte_count_link2_reg
dtc_receive_byte_count_of link_3 = some dtc_receive_byte_count_link3_reg
dtc_receive_byte_count_of link_4 = some dtc_receive_byte_count_link4_reg
dtc_receive_byte_count_of link_5 = some dtc_receive_byte_count_link5_reg
dtc_receive_byte_count_of link_cfo = some dtc_receive_byte_count_cfo_link_reg
dtc_receive_byte_count_of _ = none

abbrev pub dtc_receive_packet_count_of : Link → Option ℕ
dtc_receive_packet_count_of link_0 = some dtc_receive_packet_count_link0_reg
dtc_receive_packet_count_of link_1 = some dtc_receive_packet_count_link1_reg
dtc_receive_packet_count_of link_2 = some dtc_receive_packet_count_link2_reg
dtc_receive_packet_count_of link_3 = some dtc_receive_packet_count_link3_reg
dtc_receive_packet_count_of link_4 = some dtc_receive_packet_count_link4_reg
dtc_receive_packet_count_of link_5 = some dtc_receive_packet_count_link5_reg
dtc_receive_packet_count_of link_cfo = some dtc_receive_packet_count_cfo_link_reg
dtc_receive_packet_count_of _ = none

abbrev pub dtc_transmit_byte_count_of : Link → Option ℕ
dtc_transmit_byte_count_of link_0 = some dtc_transmit_byte_count_link0_reg
dtc_transmit_byte_count_of link_1 = some dtc_transmit_byte_count_link1_reg
dtc_transmit_byte_count_of link_2 = some dtc_transmit_byte_count_link2_reg
dtc_transmit_byte_count_of link_3 = some dtc_transmit_byte_count_link3_reg
dtc_transmit_byte_count_of link_4 = some dtc_transmit_byte_count_link4_reg
dtc_transmit_byte_count_of link_5 = some dtc_transmit_byte_count_link5_reg
dtc_transmit_byte_count_of link_cfo = some dtc_transmit_byte_count_cfo_link_reg
dtc_transmit_byte_count_of _ = none

abbrev pub dtc_transmit_packet_count_of : Link → Option ℕ
dtc_transmit_packet_count_of link_0 = some dtc_transmit_packet_count_link0_reg
dtc_transmit_packet_count_of link_1 = some dtc_transmit_packet_count_link1_reg
dtc_transmit_packet_count_of link_2 = some dtc_transmit_packet_count_link2_reg
dtc_transmit_packet_count_of link_3 = some dtc_transmit_packet_count_link3_reg
dtc_transmit_packet_count_of link_4 = some dtc_transmit_packet_count_link4_reg
dtc_transmit_packet_count_of link_5 = some dtc_transmit_packet_count_link5_reg
dtc_transmit_packet_count_of link_cfo = some dtc_transmit_packet_count_cfo_link_reg
dtc_transmit_packet_count_of _ = none

abbrev pub dtc_retransmit_request_count_of : Link → Option ℕ
dtc_retransmit_request_count_of link_0 = some dtc_retransmit_request_count_link0_reg
dtc_retransmit_request_count_of link_1 = some dtc_retransmit_request_count_link1_reg
dtc_retransmit_request_count_of link_2 = some dtc_retransmit_request_count_link2_reg
dtc_retransmit_request_count_of link_3 = some dtc_retransmit_request_count_link3_reg
dtc_retransmit_request_count_of link_4 = some dtc_retransmit_request_count_link4_reg
dtc_retransmit_request_count_of link_5 = some dtc_retransmit_request_count_link5_reg
dtc_retransmit_request_count_of _ = none

abbrev pub dtc_missed_cfo_packet_count_of : Link → Option ℕ
dtc_missed_cfo_packet_count_of link_0 = some dtc_missed_cfo_packet_count_link0_reg
dtc_missed_cfo_packet_count_of link_1 = some dtc_missed_cfo_packet_count_link1_reg
dtc_missed_cfo_packet_count_of link_2 = some dtc_missed_cfo_packet_count_link2_reg
dtc_missed_cfo_packet_count_of link_3 = some dtc_missed_cfo_packet_count_link3_reg
dtc_missed_cfo_packet_count_of link_4 = some dtc_missed_cfo_packet_count_link4_reg
dtc_missed_cfo_packet_count_of link_5 = some dtc_missed_cfo_packet_count_link5_reg
dtc_missed_cfo_packet_count_of _ = none

abbrev pub dtc_error_flags_of : Link → Option ℕ
dtc_error_flags_of link_0 = some dtc_link0_error_flags_reg
dtc_error_flags_of link_1 = some dtc_link1_error_flags_reg
dtc_error_flags_of link_2 = some dtc_link2_error_flags_reg
dtc_error_flags_of link_3 = some dtc_link3_error_flags_reg
dtc_error_flags_of link_4 = some dtc_link4_error_flags_reg
dtc_error_flags_of link_5 = some dtc_link5_error_flags_reg
dtc_error_flags_of _ = none

abbrev pub dtc_rxcdr_unlock_count_of : Link → Option ℕ
dtc_rxcdr_unlock_count_of link_0 = some dtc_rxcdr_unlock_count_link0_reg
dtc_rxcdr_unlock_count_of link_1 = some dtc_rxcdr_unlock_count_link1_reg
dtc_rxcdr_unlock_count_of link_2 = some dtc_rxcdr_unlock_count_link2_reg
dtc_rxcdr_unlock_count_of link_3 = some dtc_rxcdr_unlock_count_link3_reg
dtc_rxcdr_unlock_count_of link_4 = some dtc_rxcdr_unlock_count_link4_reg
dtc_rxcdr_unlock_count_of link_5 = some dtc_rxcdr_unlock_count_link5_reg
dtc_rxcdr_unlock_count_of link_cfo = some dtc_rxcdr_unlock_count_cfo_link_reg
dtc_rxcdr_unlock_count_of _ = none

abbrev pub dtc_diag_serdes_packet_of : Link → Option ℕ
dtc_diag_serdes_packet_of link_0 = some dtc_diag_serdes_packet0_reg
dtc_diag_serdes_packet_of link_1 = some dtc_diag_serdes_packet1_reg
dtc_diag_serdes_packet_of link_2 = some dtc_diag_serdes_packet2_reg
dtc_diag_serdes_packet_of link_3 = some dtc_diag_serdes_packet3_reg
dtc_diag_serdes_packet_of link_4 = some dtc_diag_serdes_packet4_reg
dtc_diag_serdes_packet_of link_5 = some dtc_diag_serdes_packet5_reg
dtc_diag_serdes_packet_of _ = none
