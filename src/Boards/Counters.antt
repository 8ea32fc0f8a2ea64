-- ===== src/Boards/Counters.antt =====
-- The counters of the DTC for each link, with the accessors that read and clear them
-- (dtcInterfaceLib/DTC_Registers.cpp).
pub mod Codes
pub mod Apart
use mu2e_pcie_utils.Prelude.{ℕ, Option}
use mu2e_pcie_utils.Boards.Base.{Board, Action, Query, Link}
use mu2e_pcie_utils.Boards.Dtc.Tables.{
  dtc_missed_cfo_packet_count_of, dtc_receive_byte_count_of, dtc_receive_packet_count_of,
  dtc_retransmit_request_count_of, dtc_rxcdr_unlock_count_of, dtc_transmit_byte_count_of,
  dtc_transmit_packet_count_of,
}
use mu2e_pcie_utils.Boards.Dtc.TablesMore.{
  dtc_rx_data_header_packet_count_of, dtc_rx_data_packet_count_of,
  dtc_serdes_character_not_in_table_error_count_of, dtc_serdes_rx_crc_error_count_of,
  dtc_serdes_rx_disparity_error_count_of, dtc_serdes_rx_prbs_error_count_of,
  dtc_tx_data_request_packet_count_of,
}
use mu2e_pcie_utils.Boards.Dtc.Counters.{
  clear_receive_byte_count, clear_receive_packet_count, clear_transmit_byte_count,
  clear_transmit_packet_count, read_receive_byte_count, read_receive_packet_count,
  read_transmit_byte_count, read_transmit_packet_count,
}
use mu2e_pcie_utils.Boards.Dtc.EmulatorErrors.{
  clear_serdes_character_not_in_table_error_count, read_serdes_character_not_in_table_error_count,
}
use mu2e_pcie_utils.Boards.Dtc.ErrorCounts.{
  clear_serdes_rx_crc_error_count, clear_serdes_rx_disparity_error_count,
  clear_serdes_rx_prbs_error_count, read_serdes_rx_crc_error_count,
  read_serdes_rx_disparity_error_count, read_serdes_rx_prbs_error_count,
}
use mu2e_pcie_utils.Boards.Dtc.Links.{
  clear_missed_cfo_packet_count, clear_retransmit_request_count, read_missed_cfo_packet_count,
  read_retransmit_request_count,
}
use mu2e_pcie_utils.Boards.Dtc.Optics.{clear_rxcdr_unlock_count, read_rxcdr_unlock_count}
use mu2e_pcie_utils.Boards.Dtc.PacketCounts.{
  clear_rx_data_header_packet_count, clear_rx_data_packet_count, clear_tx_data_requets_packet_count,
  read_rx_data_header_packet_count, read_rx_data_packet_count, read_tx_data_request_packet_count,
}

-- The counters of the DTC that there are for each link.
pub data Counter : Type 0 where
  receive_byte_count : Counter
  receive_packet_count : Counter
  transmit_byte_count : Counter
  transmit_packet_count : Counter
  retransmit_request_count : Counter
  missed_cfo_packet_count : Counter
  rxcdr_unlock_count : Counter
  serdes_character_not_in_table_error_count : Counter
  serdes_rx_disparity_error_count : Counter
  serdes_rx_prbs_error_count : Counter
  serdes_rx_crc_error_count : Counter
  tx_data_request_packet_count : Counter
  rx_data_header_packet_count : Counter
  rx_data_packet_count : Counter

-- The register of a counter, if the link has it.
abbrev pub register : Counter → Link → Option ℕ
register receive_byte_count = dtc_receive_byte_count_of
register receive_packet_count = dtc_receive_packet_count_of
register transmit_byte_count = dtc_transmit_byte_count_of
register transmit_packet_count = dtc_transmit_packet_count_of
register retransmit_request_count = dtc_retransmit_request_count_of
register missed_cfo_packet_count = dtc_missed_cfo_packet_count_of
register rxcdr_unlock_count = dtc_rxcdr_unlock_count_of
register serdes_character_not_in_table_error_count =
    dtc_serdes_character_not_in_table_error_count_of
register serdes_rx_disparity_error_count = dtc_serdes_rx_disparity_error_count_of
register serdes_rx_prbs_error_count = dtc_serdes_rx_prbs_error_count_of
register serdes_rx_crc_error_count = dtc_serdes_rx_crc_error_count_of
register tx_data_request_packet_count = dtc_tx_data_request_packet_count_of
register rx_data_header_packet_count = dtc_rx_data_header_packet_count_of
register rx_data_packet_count = dtc_rx_data_packet_count_of

abbrev pub clear_counter : Counter → (b : Board) → Link → Action b
clear_counter receive_byte_count = clear_receive_byte_count
clear_counter receive_packet_count = clear_receive_packet_count
clear_counter transmit_byte_count = clear_transmit_byte_count
clear_counter transmit_packet_count = clear_transmit_packet_count
clear_counter retransmit_request_count = clear_retransmit_request_count
clear_counter missed_cfo_packet_count = clear_missed_cfo_packet_count
clear_counter rxcdr_unlock_count = clear_rxcdr_unlock_count
clear_counter serdes_character_not_in_table_error_count =
    clear_serdes_character_not_in_table_error_count
clear_counter serdes_rx_disparity_error_count = clear_serdes_rx_disparity_error_count
clear_counter serdes_rx_prbs_error_count = clear_serdes_rx_prbs_error_count
clear_counter serdes_rx_crc_error_count = clear_serdes_rx_crc_error_count
clear_counter tx_data_request_packet_count = clear_tx_data_requets_packet_count
clear_counter rx_data_header_packet_count = clear_rx_data_header_packet_count
clear_counter rx_data_packet_count = clear_rx_data_packet_count

abbrev pub read_counter : Counter → (b : Board) → Link → Option ℕ → Query b ℕ
read_counter receive_byte_count = read_receive_byte_count
read_counter receive_packet_count = read_receive_packet_count
read_counter transmit_byte_count = read_transmit_byte_count
read_counter transmit_packet_count = read_transmit_packet_count
read_counter retransmit_request_count = read_retransmit_request_count
read_counter missed_cfo_packet_count = read_missed_cfo_packet_count
read_counter rxcdr_unlock_count = read_rxcdr_unlock_count
read_counter serdes_character_not_in_table_error_count =
    read_serdes_character_not_in_table_error_count
read_counter serdes_rx_disparity_error_count = read_serdes_rx_disparity_error_count
read_counter serdes_rx_prbs_error_count = read_serdes_rx_prbs_error_count
read_counter serdes_rx_crc_error_count = read_serdes_rx_crc_error_count
read_counter tx_data_request_packet_count = read_tx_data_request_packet_count
read_counter rx_data_header_packet_count = read_rx_data_header_packet_count
read_counter rx_data_packet_count = read_rx_data_packet_count

-- The value that clearing a counter writes.
abbrev pub cleared : Counter → ℕ
cleared receive_byte_count = 0
cleared receive_packet_count = 0
cleared transmit_byte_count = 0
cleared transmit_packet_count = 0
cleared retransmit_request_count = 1
cleared missed_cfo_packet_count = 1
cleared rxcdr_unlock_count = 0
cleared serdes_character_not_in_table_error_count = 1
cleared serdes_rx_disparity_error_count = 1
cleared serdes_rx_prbs_error_count = 1
cleared serdes_rx_crc_error_count = 1
cleared tx_data_request_packet_count = 0
cleared rx_data_header_packet_count = 0
cleared rx_data_packet_count = 0
