-- ===== src/Boards/Address/Cfo.antt =====
-- Addresses of registers (cfoInterfaceLib/CFO_Registers.h).
use mu2e_pcie_utils.Prelude.{ℕ}

abbrev pub cfo_sfp_serdes_status_reg : ℕ
cfo_sfp_serdes_status_reg = 0x9140

abbrev pub cfo_beam_on_timer_preset_reg : ℕ
cfo_beam_on_timer_preset_reg = 0x9144

abbrev pub cfo_enable_beam_on_mode_reg : ℕ
cfo_enable_beam_on_mode_reg = 0x9148

abbrev pub cfo_enable_beam_off_mode_reg : ℕ
cfo_enable_beam_off_mode_reg = 0x914C

abbrev pub cfo_clock_marker_interval_count_reg : ℕ
cfo_clock_marker_interval_count_reg = 0x9154

abbrev pub cfo_serdes_oscillator_frequency_reg : ℕ
cfo_serdes_oscillator_frequency_reg = 0x9160

abbrev pub cfo_serdes_clock_iic_bus_control_reg : ℕ
cfo_serdes_clock_iic_bus_control_reg = 0x9164

abbrev pub cfo_receive_packet_error_reg : ℕ
cfo_receive_packet_error_reg = 0x919C

abbrev pub cfo_event_window_holdoff_time_reg : ℕ
cfo_event_window_holdoff_time_reg = 0x91A4

abbrev pub cfo_event_window_timeout_error_reg : ℕ
cfo_event_window_timeout_error_reg = 0x91A8

abbrev pub cfo_event_window_timeout_value_reg : ℕ
cfo_event_window_timeout_value_reg = 0x91AC

abbrev pub cfo_receive_byte_count_data_link0_reg : ℕ
cfo_receive_byte_count_data_link0_reg = 0x9200

abbrev pub cfo_receive_byte_count_data_link1_reg : ℕ
cfo_receive_byte_count_data_link1_reg = 0x9204

abbrev pub cfo_receive_byte_count_data_link2_reg : ℕ
cfo_receive_byte_count_data_link2_reg = 0x9208

abbrev pub cfo_receive_byte_count_data_link3_reg : ℕ
cfo_receive_byte_count_data_link3_reg = 0x920C

abbrev pub cfo_receive_byte_count_data_link4_reg : ℕ
cfo_receive_byte_count_data_link4_reg = 0x9210

abbrev pub cfo_receive_byte_count_data_link5_reg : ℕ
cfo_receive_byte_count_data_link5_reg = 0x9214

abbrev pub cfo_receive_byte_count_data_link6_reg : ℕ
cfo_receive_byte_count_data_link6_reg = 0x9218

abbrev pub cfo_receive_byte_count_data_link7_reg : ℕ
cfo_receive_byte_count_data_link7_reg = 0x921C

abbrev pub cfo_receive_packet_count_data_link0_reg : ℕ
cfo_receive_packet_count_data_link0_reg = 0x9220

abbrev pub cfo_receive_packet_count_data_link1_reg : ℕ
cfo_receive_packet_count_data_link1_reg = 0x9224

abbrev pub cfo_receive_packet_count_data_link2_reg : ℕ
cfo_receive_packet_count_data_link2_reg = 0x9228

abbrev pub cfo_receive_packet_count_data_link3_reg : ℕ
cfo_receive_packet_count_data_link3_reg = 0x922C

abbrev pub cfo_receive_packet_count_data_link4_reg : ℕ
cfo_receive_packet_count_data_link4_reg = 0x9230

abbrev pub cfo_receive_packet_count_data_link5_reg : ℕ
cfo_receive_packet_count_data_link5_reg = 0x9234

abbrev pub cfo_receive_packet_count_data_link6_reg : ℕ
cfo_receive_packet_count_data_link6_reg = 0x9238

abbrev pub cfo_receive_packet_count_data_link7_reg : ℕ
cfo_receive_packet_count_data_link7_reg = 0x923C

abbrev pub cfo_transmit_byte_count_data_link0_reg : ℕ
cfo_transmit_byte_count_data_link0_reg = 0x9240

abbrev pub cfo_transmit_byte_count_data_link1_reg : ℕ
cfo_transmit_byte_count_data_link1_reg = 0x9244

abbrev pub cfo_transmit_byte_count_data_link2_reg : ℕ
cfo_transmit_byte_count_data_link2_reg = 0x9248

abbrev pub cfo_transmit_byte_count_data_link3_reg : ℕ
cfo_transmit_byte_count_data_link3_reg = 0x924C

abbrev pub cfo_transmit_byte_count_data_link4_reg : ℕ
cfo_transmit_byte_count_data_link4_reg = 0x9250

abbrev pub cfo_transmit_byte_count_data_link5_reg : ℕ
cfo_transmit_byte_count_data_link5_reg = 0x9254

abbrev pub cfo_transmit_byte_count_data_link6_reg : ℕ
cfo_transmit_byte_count_data_link6_reg = 0x9258

abbrev pub cfo_transmit_byte_count_data_link7_reg : ℕ
cfo_transmit_byte_count_data_link7_reg = 0x925C

abbrev pub cfo_transmit_packet_count_data_link0_reg : ℕ
cfo_transmit_packet_count_data_link0_reg = 0x9260

abbrev pub cfo_transmit_packet_count_data_link1_reg : ℕ
cfo_transmit_packet_count_data_link1_reg = 0x9264

abbrev pub cfo_transmit_packet_count_data_link2_reg : ℕ
cfo_transmit_packet_count_data_link2_reg = 0x9268

abbrev pub cfo_transmit_packet_count_data_link3_reg : ℕ
cfo_transmit_packet_count_data_link3_reg = 0x926C

abbrev pub cfo_transmit_packet_count_data_link4_reg : ℕ
cfo_transmit_packet_count_data_link4_reg = 0x9270

abbrev pub cfo_transmit_packet_count_data_link5_reg : ℕ
cfo_transmit_packet_count_data_link5_reg = 0x9274

abbrev pub cfo_transmit_packet_count_data_link6_reg : ℕ
cfo_transmit_packet_count_data_link6_reg = 0x9278

abbrev pub cfo_transmit_packet_count_data_link7_reg : ℕ
cfo_transmit_packet_count_data_link7_reg = 0x927C

abbrev pub cfo_ddr_memory_dma_write_start_address_reg : ℕ
cfo_ddr_memory_dma_write_start_address_reg = 0x9300

abbrev pub cfo_ddr_memory_dma_read_start_address_reg : ℕ
cfo_ddr_memory_dma_read_start_address_reg = 0x9304

abbrev pub cfo_ddr_memory_dma_read_byte_count_reg : ℕ
cfo_ddr_memory_dma_read_byte_count_reg = 0x9308

abbrev pub cfo_run_plan_beam_on_base_address_reg : ℕ
cfo_run_plan_beam_on_base_address_reg = 0x930C

abbrev pub cfo_run_plan_beam_off_base_address_reg : ℕ
cfo_run_plan_beam_off_base_address_reg = 0x9310

abbrev pub cfo_firefly_csr_register_reg : ℕ
cfo_firefly_csr_register_reg = 0x9320

abbrev pub cfo_serdes_prbs_control_link0_reg : ℕ
cfo_serdes_prbs_control_link0_reg = 0x9330

abbrev pub cfo_serdes_prbs_control_link1_reg : ℕ
cfo_serdes_prbs_control_link1_reg = 0x9334

abbrev pub cfo_serdes_prbs_control_link2_reg : ℕ
cfo_serdes_prbs_control_link2_reg = 0x9338

abbrev pub cfo_serdes_prbs_control_link3_reg : ℕ
cfo_serdes_prbs_control_link3_reg = 0x933C

abbrev pub cfo_serdes_prbs_control_link4_reg : ℕ
cfo_serdes_prbs_control_link4_reg = 0x9340

abbrev pub cfo_serdes_prbs_control_link5_reg : ℕ
cfo_serdes_prbs_control_link5_reg = 0x9344

abbrev pub cfo_serdes_prbs_control_link6_reg : ℕ
cfo_serdes_prbs_control_link6_reg = 0x9348

abbrev pub cfo_serdes_prbs_control_link7_reg : ℕ
cfo_serdes_prbs_control_link7_reg = 0x934C

abbrev pub cfo_cable_delay_control_status_reg : ℕ
cfo_cable_delay_control_status_reg = 0x9380

abbrev pub cfo_fpga_prom_program_status_reg : ℕ
cfo_fpga_prom_program_status_reg = 0x9404

abbrev pub cfo_fpga_core_access_reg : ℕ
cfo_fpga_core_access_reg = 0x9408
