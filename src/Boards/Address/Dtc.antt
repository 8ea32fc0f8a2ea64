-- ===== src/Boards/Address/Dtc.antt =====
-- Addresses of registers (dtcInterfaceLib/DTC_Registers.h).
use mu2e_pcie_utils.Prelude.{ℕ}

abbrev pub dtc_roc_emulation_enable_reg : ℕ
dtc_roc_emulation_enable_reg = 0x9110

abbrev pub dtc_serdes_rxcdr_lock_status_reg : ℕ
dtc_serdes_rxcdr_lock_status_reg = 0x9140

abbrev pub dtc_dma_timeout_preset_reg : ℕ
dtc_dma_timeout_preset_reg = 0x9144

abbrev pub dtc_roc_reply_timeout_reg : ℕ
dtc_roc_reply_timeout_reg = 0x9148

abbrev pub dtc_roc_reply_timeout_error_reg : ℕ
dtc_roc_reply_timeout_error_reg = 0x914C

abbrev pub dtc_evb_partition_id_reg : ℕ
dtc_evb_partition_id_reg = 0x9154

abbrev pub dtc_evb_configuration_reg : ℕ
dtc_evb_configuration_reg = 0x9158

abbrev pub dtc_serdes_clock_iic_bus_control_reg : ℕ
dtc_serdes_clock_iic_bus_control_reg = 0x9164

abbrev pub dtc_ddr_reference_clock_frequency_reg : ℕ
dtc_ddr_reference_clock_frequency_reg = 0x9170

abbrev pub dtc_ddr_clock_iic_bus_control_reg : ℕ
dtc_ddr_clock_iic_bus_control_reg = 0x9174

abbrev pub dtc_data_pending_timer_reg : ℕ
dtc_data_pending_timer_reg = 0x9188

abbrev pub dtc_receive_packet_error_reg : ℕ
dtc_receive_packet_error_reg = 0x919C

abbrev pub dtc_cfo_emulation_heartbeat_interval_reg : ℕ
dtc_cfo_emulation_heartbeat_interval_reg = 0x91A8

abbrev pub dtc_cfo_emulation_num_heartbeats_reg : ℕ
dtc_cfo_emulation_num_heartbeats_reg = 0x91AC

abbrev pub dtc_cfo_emulation_num_null_heartbeats_reg : ℕ
dtc_cfo_emulation_num_null_heartbeats_reg = 0x91BC

abbrev pub dtc_debug_packet_type_reg : ℕ
dtc_debug_packet_type_reg = 0x91C8

abbrev pub dtc_rx_packet_count_error_flags_reg : ℕ
dtc_rx_packet_count_error_flags_reg = 0x91CC

abbrev pub dtc_det_emulation_dma_count_reg : ℕ
dtc_det_emulation_dma_count_reg = 0x91D0

abbrev pub dtc_det_emulation_delay_count_reg : ℕ
dtc_det_emulation_delay_count_reg = 0x91D4

abbrev pub dtc_det_emulation_control0_reg : ℕ
dtc_det_emulation_control0_reg = 0x91D8

abbrev pub dtc_det_emulation_control1_reg : ℕ
dtc_det_emulation_control1_reg = 0x91DC

abbrev pub dtc_det_emulation_data_start_address_reg : ℕ
dtc_det_emulation_data_start_address_reg = 0x91E0

abbrev pub dtc_det_emulation_data_end_address_reg : ℕ
dtc_det_emulation_data_end_address_reg = 0x91E4

abbrev pub dtc_cfo_emulation_data_request_delay_reg : ℕ
dtc_cfo_emulation_data_request_delay_reg = 0x91E8

abbrev pub dtc_ethernet_frame_payload_size_reg : ℕ
dtc_ethernet_frame_payload_size_reg = 0x91EC

abbrev pub dtc_cfo_emulation40_mhz_clock_marker_interval_reg : ℕ
dtc_cfo_emulation40_mhz_clock_marker_interval_reg = 0x91F4

abbrev pub dtc_cfo_marker_enables_reg : ℕ
dtc_cfo_marker_enables_reg = 0x91F8

abbrev pub dtc_roc_finish_threshold_reg : ℕ
dtc_roc_finish_threshold_reg = 0x91FC

abbrev pub dtc_receive_byte_count_link0_reg : ℕ
dtc_receive_byte_count_link0_reg = 0x9200

abbrev pub dtc_receive_byte_count_link1_reg : ℕ
dtc_receive_byte_count_link1_reg = 0x9204

abbrev pub dtc_receive_byte_count_link2_reg : ℕ
dtc_receive_byte_count_link2_reg = 0x9208

abbrev pub dtc_receive_byte_count_link3_reg : ℕ
dtc_receive_byte_count_link3_reg = 0x920C

abbrev pub dtc_receive_byte_count_link4_reg : ℕ
dtc_receive_byte_count_link4_reg = 0x9210

abbrev pub dtc_receive_byte_count_link5_reg : ℕ
dtc_receive_byte_count_link5_reg = 0x9214

abbrev pub dtc_receive_byte_count_cfo_link_reg : ℕ
dtc_receive_byte_count_cfo_link_reg = 0x9218

abbrev pub dtc_receive_packet_count_link0_reg : ℕ
dtc_receive_packet_count_link0_reg = 0x9220

abbrev pub dtc_receive_packet_count_link1_reg : ℕ
dtc_receive_packet_count_link1_reg = 0x9224

abbrev pub dtc_receive_packet_count_link2_reg : ℕ
dtc_receive_packet_count_link2_reg = 0x9228

abbrev pub dtc_receive_packet_count_link3_reg : ℕ
dtc_receive_packet_count_link3_reg = 0x922C

abbrev pub dtc_receive_packet_count_link4_reg : ℕ
dtc_receive_packet_count_link4_reg = 0x9230

abbrev pub dtc_receive_packet_count_link5_reg : ℕ
dtc_receive_packet_count_link5_reg = 0x9234

abbrev pub dtc_receive_packet_count_cfo_link_reg : ℕ
dtc_receive_packet_count_cfo_link_reg = 0x9238

abbrev pub dtc_transmit_byte_count_link0_reg : ℕ
dtc_transmit_byte_count_link0_reg = 0x9240

abbrev pub dtc_transmit_byte_count_link1_reg : ℕ
dtc_transmit_byte_count_link1_reg = 0x9244

abbrev pub dtc_transmit_byte_count_link2_reg : ℕ
dtc_transmit_byte_count_link2_reg = 0x9248

abbrev pub dtc_transmit_byte_count_link3_reg : ℕ
dtc_transmit_byte_count_link3_reg = 0x924C

abbrev pub dtc_transmit_byte_count_link4_reg : ℕ
dtc_transmit_byte_count_link4_reg = 0x9250

abbrev pub dtc_transmit_byte_count_link5_reg : ℕ
dtc_transmit_byte_count_link5_reg = 0x9254

abbrev pub dtc_transmit_byte_count_cfo_link_reg : ℕ
dtc_transmit_byte_count_cfo_link_reg = 0x9258

abbrev pub dtc_transmit_packet_count_link0_reg : ℕ
dtc_transmit_packet_count_link0_reg = 0x9260

abbrev pub dtc_transmit_packet_count_link1_reg : ℕ
dtc_transmit_packet_count_link1_reg = 0x9264

abbrev pub dtc_transmit_packet_count_link2_reg : ℕ
dtc_transmit_packet_count_link2_reg = 0x9268

abbrev pub dtc_transmit_packet_count_link3_reg : ℕ
dtc_transmit_packet_count_link3_reg = 0x926C

abbrev pub dtc_transmit_packet_count_link4_reg : ℕ
dtc_transmit_packet_count_link4_reg = 0x9270

abbrev pub dtc_transmit_packet_count_link5_reg : ℕ
dtc_transmit_packet_count_link5_reg = 0x9274

abbrev pub dtc_transmit_packet_count_cfo_link_reg : ℕ
dtc_transmit_packet_count_cfo_link_reg = 0x9278

abbrev pub dtc_tx_prbs_control_reg : ℕ
dtc_tx_prbs_control_reg = 0x92B0

abbrev pub dtc_rx_prbs_control_reg : ℕ
dtc_rx_prbs_control_reg = 0x92B4

abbrev pub dtc_event_mode_lookup_table_control_reg : ℕ
dtc_event_mode_lookup_table_control_reg = 0x92C0

abbrev pub dtc_dd3_test_register_reg : ℕ
dtc_dd3_test_register_reg = 0x92F0
