-- ===== src/Boards/Address/DtcHigh.antt =====
-- Addresses of registers (dtcInterfaceLib/DTC_Registers.h).
use mu2e_pcie_utils.Prelude.{ℕ}

abbrev pub dtc_roc_emulator_induce_timeout_error_link4_reg : ℕ
dtc_roc_emulator_induce_timeout_error_link4_reg = 0x94C0

abbrev pub dtc_roc_emulator_induce_timeout_error_link5_reg : ℕ
dtc_roc_emulator_induce_timeout_error_link5_reg = 0x94C4

abbrev pub dtc_roc_emulator_induce_extra_word_error_link0_reg : ℕ
dtc_roc_emulator_induce_extra_word_error_link0_reg = 0x94D0

abbrev pub dtc_roc_emulator_induce_extra_word_error_link1_reg : ℕ
dtc_roc_emulator_induce_extra_word_error_link1_reg = 0x94D4

abbrev pub dtc_roc_emulator_induce_extra_word_error_link2_reg : ℕ
dtc_roc_emulator_induce_extra_word_error_link2_reg = 0x94D8

abbrev pub dtc_roc_emulator_induce_extra_word_error_link3_reg : ℕ
dtc_roc_emulator_induce_extra_word_error_link3_reg = 0x94DC

abbrev pub dtc_roc_emulator_induce_extra_word_error_link4_reg : ℕ
dtc_roc_emulator_induce_extra_word_error_link4_reg = 0x94E0

abbrev pub dtc_roc_emulator_induce_extra_word_error_link5_reg : ℕ
dtc_roc_emulator_induce_extra_word_error_link5_reg = 0x94E4

abbrev pub dtc_serdes_character_not_in_table_error_count_link0_reg : ℕ
dtc_serdes_character_not_in_table_error_count_link0_reg = 0x9500

abbrev pub dtc_serdes_character_not_in_table_error_count_link1_reg : ℕ
dtc_serdes_character_not_in_table_error_count_link1_reg = 0x9504

abbrev pub dtc_serdes_character_not_in_table_error_count_link2_reg : ℕ
dtc_serdes_character_not_in_table_error_count_link2_reg = 0x9508

abbrev pub dtc_serdes_character_not_in_table_error_count_link3_reg : ℕ
dtc_serdes_character_not_in_table_error_count_link3_reg = 0x950C

abbrev pub dtc_serdes_character_not_in_table_error_count_link4_reg : ℕ
dtc_serdes_character_not_in_table_error_count_link4_reg = 0x9510

abbrev pub dtc_serdes_character_not_in_table_error_count_link5_reg : ℕ
dtc_serdes_character_not_in_table_error_count_link5_reg = 0x9514

abbrev pub dtc_serdes_character_not_in_table_error_count_cfo_link_reg : ℕ
dtc_serdes_character_not_in_table_error_count_cfo_link_reg = 0x9518

abbrev pub dtc_serdes_rx_disparity_error_count_link0_reg : ℕ
dtc_serdes_rx_disparity_error_count_link0_reg = 0x9520

abbrev pub dtc_serdes_rx_disparity_error_count_link1_reg : ℕ
dtc_serdes_rx_disparity_error_count_link1_reg = 0x9524

abbrev pub dtc_serdes_rx_disparity_error_count_link2_reg : ℕ
dtc_serdes_rx_disparity_error_count_link2_reg = 0x9528

abbrev pub dtc_serdes_rx_disparity_error_count_link3_reg : ℕ
dtc_serdes_rx_disparity_error_count_link3_reg = 0x952C

abbrev pub dtc_serdes_rx_disparity_error_count_link4_reg : ℕ
dtc_serdes_rx_disparity_error_count_link4_reg = 0x9530

abbrev pub dtc_serdes_rx_disparity_error_count_link5_reg : ℕ
dtc_serdes_rx_disparity_error_count_link5_reg = 0x9534

abbrev pub dtc_serdes_rx_disparity_error_count_cfo_link_reg : ℕ
dtc_serdes_rx_disparity_error_count_cfo_link_reg = 0x9538

abbrev pub dtc_serdes_rx_prbs_error_count_link0_reg : ℕ
dtc_serdes_rx_prbs_error_count_link0_reg = 0x9540

abbrev pub dtc_serdes_rx_prbs_error_count_link1_reg : ℕ
dtc_serdes_rx_prbs_error_count_link1_reg = 0x9544

abbrev pub dtc_serdes_rx_prbs_error_count_link2_reg : ℕ
dtc_serdes_rx_prbs_error_count_link2_reg = 0x9548

abbrev pub dtc_serdes_rx_prbs_error_count_link3_reg : ℕ
dtc_serdes_rx_prbs_error_count_link3_reg = 0x954C

abbrev pub dtc_serdes_rx_prbs_error_count_link4_reg : ℕ
dtc_serdes_rx_prbs_error_count_link4_reg = 0x9550

abbrev pub dtc_serdes_rx_prbs_error_count_link5_reg : ℕ
dtc_serdes_rx_prbs_error_count_link5_reg = 0x9554

abbrev pub dtc_serdes_rx_prbs_error_count_cfo_link_reg : ℕ
dtc_serdes_rx_prbs_error_count_cfo_link_reg = 0x9558

abbrev pub dtc_serdes_rx_crc_error_count_link0_reg : ℕ
dtc_serdes_rx_crc_error_count_link0_reg = 0x9560

abbrev pub dtc_serdes_rx_crc_error_count_link1_reg : ℕ
dtc_serdes_rx_crc_error_count_link1_reg = 0x9564

abbrev pub dtc_serdes_rx_crc_error_count_link2_reg : ℕ
dtc_serdes_rx_crc_error_count_link2_reg = 0x9568

abbrev pub dtc_serdes_rx_crc_error_count_link3_reg : ℕ
dtc_serdes_rx_crc_error_count_link3_reg = 0x956C

abbrev pub dtc_serdes_rx_crc_error_count_link4_reg : ℕ
dtc_serdes_rx_crc_error_count_link4_reg = 0x9570

abbrev pub dtc_serdes_rx_crc_error_count_link5_reg : ℕ
dtc_serdes_rx_crc_error_count_link5_reg = 0x9574

abbrev pub dtc_serdes_rx_crc_error_count_cfo_link_reg : ℕ
dtc_serdes_rx_crc_error_count_cfo_link_reg = 0x9578

abbrev pub dtc_serdes_rx_crc_error_control_reg : ℕ
dtc_serdes_rx_crc_error_control_reg = 0x957C

abbrev pub dtc_ebvserdes_rx_packet_error_count_reg : ℕ
dtc_ebvserdes_rx_packet_error_count_reg = 0x9590

abbrev pub dtc_jitter_attenuator_serdes_rx_recovered_clock_los_count_reg : ℕ
dtc_jitter_attenuator_serdes_rx_recovered_clock_los_count_reg = 0x95A0

abbrev pub dtc_jitter_attenuator_serdes_rx_external_clock_los_count_reg : ℕ
dtc_jitter_attenuator_serdes_rx_external_clock_los_count_reg = 0x95A4

abbrev pub dtc_roc_emulator_interpacket_delay_link0_reg : ℕ
dtc_roc_emulator_interpacket_delay_link0_reg = 0x9610

abbrev pub dtc_roc_emulator_interpacket_delay_link1_reg : ℕ
dtc_roc_emulator_interpacket_delay_link1_reg = 0x9614

abbrev pub dtc_roc_emulator_interpacket_delay_link2_reg : ℕ
dtc_roc_emulator_interpacket_delay_link2_reg = 0x9618

abbrev pub dtc_roc_emulator_interpacket_delay_link3_reg : ℕ
dtc_roc_emulator_interpacket_delay_link3_reg = 0x961C

abbrev pub dtc_roc_emulator_interpacket_delay_link4_reg : ℕ
dtc_roc_emulator_interpacket_delay_link4_reg = 0x9620

abbrev pub dtc_roc_emulator_interpacket_delay_link5_reg : ℕ
dtc_roc_emulator_interpacket_delay_link5_reg = 0x9624

abbrev pub dtc_tx_data_request_packet_count_link0_reg : ℕ
dtc_tx_data_request_packet_count_link0_reg = 0x9630

abbrev pub dtc_tx_data_request_packet_count_link1_reg : ℕ
dtc_tx_data_request_packet_count_link1_reg = 0x9634

abbrev pub dtc_tx_data_request_packet_count_link2_reg : ℕ
dtc_tx_data_request_packet_count_link2_reg = 0x9638

abbrev pub dtc_tx_data_request_packet_count_link3_reg : ℕ
dtc_tx_data_request_packet_count_link3_reg = 0x963C

abbrev pub dtc_tx_data_request_packet_count_link4_reg : ℕ
dtc_tx_data_request_packet_count_link4_reg = 0x9640

abbrev pub dtc_tx_data_request_packet_count_link5_reg : ℕ
dtc_tx_data_request_packet_count_link5_reg = 0x9644

abbrev pub dtc_cfo_tx_clock_marker_count_link6_reg : ℕ
dtc_cfo_tx_clock_marker_count_link6_reg = 0x9648

abbrev pub dtc_rx_data_header_packet_count_link0_reg : ℕ
dtc_rx_data_header_packet_count_link0_reg = 0x9670

abbrev pub dtc_rx_data_header_packet_count_link1_reg : ℕ
dtc_rx_data_header_packet_count_link1_reg = 0x9674

abbrev pub dtc_rx_data_header_packet_count_link2_reg : ℕ
dtc_rx_data_header_packet_count_link2_reg = 0x9678

abbrev pub dtc_rx_data_header_packet_count_link3_reg : ℕ
dtc_rx_data_header_packet_count_link3_reg = 0x967C

abbrev pub dtc_rx_data_header_packet_count_link4_reg : ℕ
dtc_rx_data_header_packet_count_link4_reg = 0x9680

abbrev pub dtc_rx_data_header_packet_count_link5_reg : ℕ
dtc_rx_data_header_packet_count_link5_reg = 0x9684

abbrev pub dtc_rx_data_packet_count_link0_reg : ℕ
dtc_rx_data_packet_count_link0_reg = 0x9690
