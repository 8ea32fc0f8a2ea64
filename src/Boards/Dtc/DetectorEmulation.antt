-- ===== src/Boards/Dtc/DetectorEmulation.antt =====
-- Accessors of `DTC_Registers` (dtcInterfaceLib/DTC_Registers.cpp): the emulation of detector data and the marker intervals.
use Prim.Native.Nat.{bit_and}
use mu2e_pcie_utils.Prelude.{◌+◌, ◌%◌, ◌^◌, true, false, Bool, ℕ, Option, ok, ◌>>=◌}
use mu2e_pcie_utils.Registers.Bitset.{test_bit, assign_bit}
use mu2e_pcie_utils.Boards.Base.{Board, Action, Query, Link, read, write, value_or}
use mu2e_pcie_utils.Boards.Address.Dtc.{
  dtc_cfo_emulation40_mhz_clock_marker_interval_reg, dtc_cfo_emulation_data_request_delay_reg,
  dtc_cfo_marker_enables_reg, dtc_det_emulation_control0_reg, dtc_det_emulation_control1_reg,
  dtc_det_emulation_data_end_address_reg, dtc_det_emulation_data_start_address_reg,
  dtc_det_emulation_delay_count_reg, dtc_det_emulation_dma_count_reg,
  dtc_ethernet_frame_payload_size_reg, dtc_roc_finish_threshold_reg,
  dtc_rx_packet_count_error_flags_reg,
}

abbrev pub read_rx_packet_count_error_flags : (b : Board) → Link → Option ℕ → Query b Bool
read_rx_packet_count_error_flags b link val s = do
  (v₁, s₁) ← value_or b dtc_rx_packet_count_error_flags_reg val s
  ok (test_bit v₁ (b.index link), s₁)

abbrev pub clear_rx_packet_count_error_flags : (b : Board) → Action b
clear_rx_packet_count_error_flags b s = do
  (v₁, s₁) ← read b dtc_rx_packet_count_error_flags_reg s
  write b dtc_rx_packet_count_error_flags_reg v₁ s₁

abbrev pub set_detector_emulation_dma_count : (b : Board) → ℕ → Action b
set_detector_emulation_dma_count b count s = write b dtc_det_emulation_dma_count_reg count s

abbrev pub read_detector_emulation_dma_count : (b : Board) → Option ℕ → Query b ℕ
read_detector_emulation_dma_count b val s = do
  (v₁, s₁) ← value_or b dtc_det_emulation_dma_count_reg val s
  ok (v₁, s₁)

abbrev pub set_detector_emulation_dma_delay_count : (b : Board) → ℕ → Action b
set_detector_emulation_dma_delay_count b count s = write b dtc_det_emulation_delay_count_reg count s

abbrev pub read_detector_emulation_dma_delay_count : (b : Board) → Option ℕ → Query b ℕ
read_detector_emulation_dma_delay_count b val s = do
  (v₁, s₁) ← value_or b dtc_det_emulation_delay_count_reg val s
  ok (v₁, s₁)

abbrev pub enable_detector_emulator_mode : (b : Board) → Action b
enable_detector_emulator_mode b s = do
  (v₁, s₁) ← read b dtc_det_emulation_control0_reg s
  write b dtc_det_emulation_control0_reg (assign_bit v₁ 0 true) s₁

abbrev pub disable_detector_emulator_mode : (b : Board) → Action b
disable_detector_emulator_mode b s = do
  (v₁, s₁) ← read b dtc_det_emulation_control0_reg s
  write b dtc_det_emulation_control0_reg (assign_bit v₁ 0 false) s₁

abbrev pub read_detector_emulator_mode : (b : Board) → Option ℕ → Query b Bool
read_detector_emulator_mode b val s = do
  (v₁, s₁) ← value_or b dtc_det_emulation_control0_reg val s
  ok (test_bit v₁ 0, s₁)

abbrev pub enable_detector_emulator : (b : Board) → Action b
enable_detector_emulator b s = do
  (v₁, s₁) ← read b dtc_det_emulation_control0_reg s
  write b dtc_det_emulation_control0_reg (assign_bit v₁ 1 true) s₁

abbrev pub disable_detector_emulator : (b : Board) → Action b
disable_detector_emulator b s = do
  (v₁, s₁) ← read b dtc_det_emulation_control1_reg s
  write b dtc_det_emulation_control1_reg (assign_bit v₁ 1 true) s₁

abbrev pub read_detector_emulator_enable : (b : Board) → Option ℕ → Query b Bool
read_detector_emulator_enable b val s = do
  (v₁, s₁) ← value_or b dtc_det_emulation_control0_reg val s
  ok (test_bit v₁ 1, s₁)

abbrev pub read_detector_emulator_enable_clear : (b : Board) → Option ℕ → Query b Bool
read_detector_emulator_enable_clear b val s = do
  (v₁, s₁) ← value_or b dtc_det_emulation_control1_reg val s
  ok (test_bit v₁ 1, s₁)

abbrev pub set_ddr_data_local_start_address : (b : Board) → ℕ → Action b
set_ddr_data_local_start_address b address s =
    write b dtc_det_emulation_data_start_address_reg address s

abbrev pub read_ddr_data_local_start_address : (b : Board) → Option ℕ → Query b ℕ
read_ddr_data_local_start_address b val s = do
  (v₁, s₁) ← value_or b dtc_det_emulation_data_start_address_reg val s
  ok (v₁, s₁)

abbrev pub set_ddr_data_local_end_address : (b : Board) → ℕ → Action b
set_ddr_data_local_end_address b address s =
    write b dtc_det_emulation_data_end_address_reg address s

abbrev pub read_ddr_data_local_end_address : (b : Board) → Option ℕ → Query b ℕ
read_ddr_data_local_end_address b val s = do
  (v₁, s₁) ← value_or b dtc_det_emulation_data_end_address_reg val s
  ok (v₁, s₁)

abbrev pub read_cfo_emulator_interpacket_delay : (b : Board) → Option ℕ → Query b ℕ
read_cfo_emulator_interpacket_delay b val s = do
  (v₁, s₁) ← value_or b dtc_cfo_emulation_data_request_delay_reg val s
  ok (v₁, s₁)

abbrev pub read_ethernet_payload_size : (b : Board) → Option ℕ → Query b ℕ
read_ethernet_payload_size b val s = do
  (v₁, s₁) ← value_or b dtc_ethernet_frame_payload_size_reg val s
  ok (v₁, s₁)

abbrev pub read_cfo_emulation40_mhz_marker_interval : (b : Board) → Option ℕ → Query b ℕ
read_cfo_emulation40_mhz_marker_interval b val s = do
  (v₁, s₁) ← value_or b dtc_cfo_emulation40_mhz_clock_marker_interval_reg val s
  ok (v₁, s₁)

abbrev pub set_cfo_emulation40_mhz_marker_interval : (b : Board) → ℕ → Action b
set_cfo_emulation40_mhz_marker_interval b interval s =
    write b dtc_cfo_emulation40_mhz_clock_marker_interval_reg interval s

abbrev pub read_cfo40_mhz_clock_marker_enable : (b : Board) → Link → Option ℕ → Query b Bool
read_cfo40_mhz_clock_marker_enable b link val s = do
  (v₁, s₁) ← value_or b dtc_cfo_marker_enables_reg val s
  ok (test_bit v₁ (b.index link), s₁)

abbrev pub read_roc_comma_limit : (b : Board) → Option ℕ → Query b ℕ
read_roc_comma_limit b val s = do
  (v₁, s₁) ← value_or b dtc_roc_finish_threshold_reg val s
  ok ((v₁ % 2 ^ 8), s₁)

abbrev pub set_roc_comma_limit : (b : Board) → ℕ → Action b
set_roc_comma_limit b limit s = do
  (v₁, s₁) ← read b dtc_roc_finish_threshold_reg s
  write b dtc_roc_finish_threshold_reg (((bit_and v₁ 0xFFFFFF00) + limit) % 2 ^ 32) s₁
