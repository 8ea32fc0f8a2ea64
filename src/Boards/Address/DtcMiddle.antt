-- ===== src/Boards/Address/DtcMiddle.antt =====
-- Addresses of registers (dtcInterfaceLib/DTC_Registers.h).
use mu2e_pcie_utils.Prelude.{ℕ}

abbrev pub dtc_serdes_tx_rx_invert_enable_reg : ℕ
dtc_serdes_tx_rx_invert_enable_reg = 0x9300

abbrev pub dtc_sfp_iic_bus_control_reg : ℕ
dtc_sfp_iic_bus_control_reg = 0x9314

abbrev pub dtc_retransmit_request_count_link0_reg : ℕ
dtc_retransmit_request_count_link0_reg = 0x9320

abbrev pub dtc_retransmit_request_count_link1_reg : ℕ
dtc_retransmit_request_count_link1_reg = 0x9324

abbrev pub dtc_retransmit_request_count_link2_reg : ℕ
dtc_retransmit_request_count_link2_reg = 0x9328

abbrev pub dtc_retransmit_request_count_link3_reg : ℕ
dtc_retransmit_request_count_link3_reg = 0x932C

abbrev pub dtc_retransmit_request_count_link4_reg : ℕ
dtc_retransmit_request_count_link4_reg = 0x9330

abbrev pub dtc_retransmit_request_count_link5_reg : ℕ
dtc_retransmit_request_count_link5_reg = 0x9334

abbrev pub dtc_missed_cfo_packet_count_link0_reg : ℕ
dtc_missed_cfo_packet_count_link0_reg = 0x9340

abbrev pub dtc_missed_cfo_packet_count_link1_reg : ℕ
dtc_missed_cfo_packet_count_link1_reg = 0x9344

abbrev pub dtc_missed_cfo_packet_count_link2_reg : ℕ
dtc_missed_cfo_packet_count_link2_reg = 0x9348

abbrev pub dtc_missed_cfo_packet_count_link3_reg : ℕ
dtc_missed_cfo_packet_count_link3_reg = 0x934C

abbrev pub dtc_missed_cfo_packet_count_link4_reg : ℕ
dtc_missed_cfo_packet_count_link4_reg = 0x9350

abbrev pub dtc_missed_cfo_packet_count_link5_reg : ℕ
dtc_missed_cfo_packet_count_link5_reg = 0x9354

abbrev pub dtc_local_fragment_drop_count_reg : ℕ
dtc_local_fragment_drop_count_reg = 0x9360

abbrev pub dtc_evb_sub_event_receive_timer_preset_reg : ℕ
dtc_evb_sub_event_receive_timer_preset_reg = 0x9364

abbrev pub dtc_evb_serdes_prbs_control_status_reg : ℕ
dtc_evb_serdes_prbs_control_status_reg = 0x9368

abbrev pub dtc_event_builder_error_flags_reg : ℕ
dtc_event_builder_error_flags_reg = 0x9370

abbrev pub dtc_input_buffer_error_flags_reg : ℕ
dtc_input_buffer_error_flags_reg = 0x9374

abbrev pub dtc_output_buffer_error_flags_reg : ℕ
dtc_output_buffer_error_flags_reg = 0x9378

abbrev pub dtc_link0_error_flags_reg : ℕ
dtc_link0_error_flags_reg = 0x9380

abbrev pub dtc_link1_error_flags_reg : ℕ
dtc_link1_error_flags_reg = 0x9384

abbrev pub dtc_link2_error_flags_reg : ℕ
dtc_link2_error_flags_reg = 0x9388

abbrev pub dtc_link3_error_flags_reg : ℕ
dtc_link3_error_flags_reg = 0x938C

abbrev pub dtc_link4_error_flags_reg : ℕ
dtc_link4_error_flags_reg = 0x9390

abbrev pub dtc_link5_error_flags_reg : ℕ
dtc_link5_error_flags_reg = 0x9394

abbrev pub dtc_link_mux_error_flags_reg : ℕ
dtc_link_mux_error_flags_reg = 0x939C

abbrev pub dtc_sfp_control_status_reg : ℕ
dtc_sfp_control_status_reg = 0x93A4

abbrev pub dtc_rxcdr_unlock_count_link0_reg : ℕ
dtc_rxcdr_unlock_count_link0_reg = 0x93B0

abbrev pub dtc_rxcdr_unlock_count_link1_reg : ℕ
dtc_rxcdr_unlock_count_link1_reg = 0x93B4

abbrev pub dtc_rxcdr_unlock_count_link2_reg : ℕ
dtc_rxcdr_unlock_count_link2_reg = 0x93B8

abbrev pub dtc_rxcdr_unlock_count_link3_reg : ℕ
dtc_rxcdr_unlock_count_link3_reg = 0x93BC

abbrev pub dtc_rxcdr_unlock_count_link4_reg : ℕ
dtc_rxcdr_unlock_count_link4_reg = 0x93C0

abbrev pub dtc_rxcdr_unlock_count_link5_reg : ℕ
dtc_rxcdr_unlock_count_link5_reg = 0x93C4

abbrev pub dtc_rxcdr_unlock_count_cfo_link_reg : ℕ
dtc_rxcdr_unlock_count_cfo_link_reg = 0x93C8

abbrev pub dtc_jitter_attenuator_loss_of_lock_count_reg : ℕ
dtc_jitter_attenuator_loss_of_lock_count_reg = 0x93CC

abbrev pub dtc_cfo_link_event_start_error_count_reg : ℕ
dtc_cfo_link_event_start_error_count_reg = 0x93D0

abbrev pub dtc_cfo_link40_mhz_error_count_reg : ℕ
dtc_cfo_link40_mhz_error_count_reg = 0x93D4

abbrev pub dtc_input_buffer_drop_count_reg : ℕ
dtc_input_buffer_drop_count_reg = 0x93D8

abbrev pub dtc_output_buffer_drop_count_reg : ℕ
dtc_output_buffer_drop_count_reg = 0x93DC

abbrev pub dtc_fpga_prom_program_status_reg : ℕ
dtc_fpga_prom_program_status_reg = 0x9404

abbrev pub dtc_fpga_core_access_reg : ℕ
dtc_fpga_core_access_reg = 0x9408

abbrev pub dtc_slow_optical_links_diag_reg : ℕ
dtc_slow_optical_links_diag_reg = 0x9410

abbrev pub dtc_diag_serdes_error_enable_reg : ℕ
dtc_diag_serdes_error_enable_reg = 0x9414

abbrev pub dtc_diag_serdes_packet0_reg : ℕ
dtc_diag_serdes_packet0_reg = 0x9418

abbrev pub dtc_diag_serdes_packet1_reg : ℕ
dtc_diag_serdes_packet1_reg = 0x941C

abbrev pub dtc_diag_serdes_packet2_reg : ℕ
dtc_diag_serdes_packet2_reg = 0x9420

abbrev pub dtc_diag_serdes_packet3_reg : ℕ
dtc_diag_serdes_packet3_reg = 0x9424

abbrev pub dtc_diag_serdes_packet4_reg : ℕ
dtc_diag_serdes_packet4_reg = 0x9428

abbrev pub dtc_diag_serdes_packet5_reg : ℕ
dtc_diag_serdes_packet5_reg = 0x942C

abbrev pub dtc_data_pending_diag_timer_link0_reg : ℕ
dtc_data_pending_diag_timer_link0_reg = 0x9490

abbrev pub dtc_data_pending_diag_timer_link1_reg : ℕ
dtc_data_pending_diag_timer_link1_reg = 0x9494

abbrev pub dtc_data_pending_diag_timer_link2_reg : ℕ
dtc_data_pending_diag_timer_link2_reg = 0x9498

abbrev pub dtc_data_pending_diag_timer_link3_reg : ℕ
dtc_data_pending_diag_timer_link3_reg = 0x949C

abbrev pub dtc_data_pending_diag_timer_link4_reg : ℕ
dtc_data_pending_diag_timer_link4_reg = 0x94A0

abbrev pub dtc_data_pending_diag_timer_link5_reg : ℕ
dtc_data_pending_diag_timer_link5_reg = 0x94A4

abbrev pub dtc_roc_emulator_induce_timeout_error_link0_reg : ℕ
dtc_roc_emulator_induce_timeout_error_link0_reg = 0x94B0

abbrev pub dtc_roc_emulator_induce_timeout_error_link1_reg : ℕ
dtc_roc_emulator_induce_timeout_error_link1_reg = 0x94B4

abbrev pub dtc_roc_emulator_induce_timeout_error_link2_reg : ℕ
dtc_roc_emulator_induce_timeout_error_link2_reg = 0x94B8

abbrev pub dtc_roc_emulator_induce_timeout_error_link3_reg : ℕ
dtc_roc_emulator_induce_timeout_error_link3_reg = 0x94BC
