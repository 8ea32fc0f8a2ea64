-- ===== src/Boards/Cfo/Timing.antt =====
-- Accessors of `CFO_Registers` (cfoInterfaceLib/CFO_Registers.cpp): beam modes, clocks, intervals and errors.
use mu2e_pcie_utils.Prelude.{◌+◌, ◌%◌, ◌^◌, true, false, Bool, ℕ, Option, ok, ◌>>=◌}
use mu2e_pcie_utils.Registers.Bitset.{test_bit, assign_bit}
use mu2e_pcie_utils.Boards.Base.{
  Board, Action, Query, Link, read, write, value_or, register_of, cfo_index,
}
use mu2e_pcie_utils.Boards.Address.Cfo.{
  cfo_clock_marker_interval_count_reg, cfo_enable_beam_off_mode_reg,
  cfo_event_window_holdoff_time_reg, cfo_event_window_timeout_error_reg,
  cfo_event_window_timeout_value_reg, cfo_receive_packet_error_reg,
  cfo_serdes_clock_iic_bus_control_reg, cfo_serdes_oscillator_frequency_reg,
}
use mu2e_pcie_utils.Boards.Cfo.Tables.{cfo_receive_byte_count_of}

abbrev pub enable_beam_off_mode : (b : Board) → Link → Action b
enable_beam_off_mode b link s = do
  (v₁, s₁) ← read b cfo_enable_beam_off_mode_reg s
  write b cfo_enable_beam_off_mode_reg (assign_bit v₁ 0 true) s₁

abbrev pub disable_beam_off_mode : (b : Board) → Link → Action b
disable_beam_off_mode b link s = do
  (v₁, s₁) ← read b cfo_enable_beam_off_mode_reg s
  write b cfo_enable_beam_off_mode_reg (assign_bit v₁ 0 false) s₁

abbrev pub read_beam_off_mode : (b : Board) → Link → Option ℕ → Query b Bool
read_beam_off_mode b link val s = do
  (v₁, s₁) ← value_or b cfo_enable_beam_off_mode_reg val s
  ok (test_bit v₁ 0, s₁)

abbrev pub set_clock_marker_interval_count : (b : Board) → ℕ → Action b
set_clock_marker_interval_count b value s = write b cfo_clock_marker_interval_count_reg value s

abbrev pub read_clock_marker_interval_count : (b : Board) → Option ℕ → Query b ℕ
read_clock_marker_interval_count b val s = do
  (v₁, s₁) ← value_or b cfo_clock_marker_interval_count_reg val s
  ok (v₁, s₁)

abbrev pub read_serdes_oscillator_frequency : (b : Board) → Option ℕ → Query b ℕ
read_serdes_oscillator_frequency b val s = do
  (v₁, s₁) ← value_or b cfo_serdes_oscillator_frequency_reg val s
  ok (v₁, s₁)

abbrev pub set_serdes_oscillator_frequency : (b : Board) → ℕ → Action b
set_serdes_oscillator_frequency b freq s = write b cfo_serdes_oscillator_frequency_reg freq s

abbrev pub read_serdes_oscillator_iic_interface_reset : (b : Board) → Option ℕ → Query b Bool
read_serdes_oscillator_iic_interface_reset b val s = do
  (v₁, s₁) ← value_or b cfo_serdes_clock_iic_bus_control_reg val s
  ok (test_bit v₁ 31, s₁)

abbrev pub clear_rx_elastic_buffer_underrun : (b : Board) → Link → Action b
clear_rx_elastic_buffer_underrun b link s = do
  (v₁, s₁) ← read b cfo_receive_packet_error_reg s
  write b cfo_receive_packet_error_reg (assign_bit v₁ (((cfo_index link) + 24) % 2 ^ 32) false) s₁

abbrev pub read_rx_elastic_buffer_underrun : (b : Board) → Link → Option ℕ → Query b Bool
read_rx_elastic_buffer_underrun b link val s = do
  (v₁, s₁) ← value_or b cfo_receive_packet_error_reg val s
  ok (test_bit v₁ (((cfo_index link) + 24) % 2 ^ 32), s₁)

abbrev pub clear_rx_elastic_buffer_overrun : (b : Board) → Link → Action b
clear_rx_elastic_buffer_overrun b link s = do
  (v₁, s₁) ← read b cfo_receive_packet_error_reg s
  write b cfo_receive_packet_error_reg (assign_bit v₁ (((cfo_index link) + 16) % 2 ^ 32) false) s₁

abbrev pub read_rx_elastic_buffer_overrun : (b : Board) → Link → Option ℕ → Query b Bool
read_rx_elastic_buffer_overrun b link val s = do
  (v₁, s₁) ← value_or b cfo_receive_packet_error_reg val s
  ok (test_bit v₁ (((cfo_index link) + 16) % 2 ^ 32), s₁)

abbrev pub clear_packet_error : (b : Board) → Link → Action b
clear_packet_error b link s = do
  (v₁, s₁) ← read b cfo_receive_packet_error_reg s
  write b cfo_receive_packet_error_reg (assign_bit v₁ (((cfo_index link) + 8) % 2 ^ 32) false) s₁

abbrev pub read_packet_error : (b : Board) → Link → Option ℕ → Query b Bool
read_packet_error b link val s = do
  (v₁, s₁) ← value_or b cfo_receive_packet_error_reg val s
  ok (test_bit v₁ (((cfo_index link) + 8) % 2 ^ 32), s₁)

abbrev pub clear_packet_crc_error : (b : Board) → Link → Action b
clear_packet_crc_error b link s = do
  (v₁, s₁) ← read b cfo_receive_packet_error_reg s
  write b cfo_receive_packet_error_reg (assign_bit v₁ (cfo_index link) false) s₁

abbrev pub read_packet_crc_error : (b : Board) → Link → Option ℕ → Query b Bool
read_packet_crc_error b link val s = do
  (v₁, s₁) ← value_or b cfo_receive_packet_error_reg val s
  ok (test_bit v₁ (cfo_index link), s₁)

abbrev pub set_event_window_holdoff_time : (b : Board) → ℕ → Action b
set_event_window_holdoff_time b value s = write b cfo_event_window_holdoff_time_reg value s

abbrev pub read_event_window_holdoff_time : (b : Board) → Option ℕ → Query b ℕ
read_event_window_holdoff_time b val s = do
  (v₁, s₁) ← value_or b cfo_event_window_holdoff_time_reg val s
  ok (v₁, s₁)

abbrev pub read_event_window_timeout_error : (b : Board) → Link → Option ℕ → Query b Bool
read_event_window_timeout_error b link val s = do
  (v₁, s₁) ← value_or b cfo_event_window_timeout_error_reg val s
  ok (test_bit v₁ (cfo_index link), s₁)

abbrev pub clear_event_window_timeout_error : (b : Board) → Link → Action b
clear_event_window_timeout_error b link s = do
  (v₁, s₁) ← read b cfo_event_window_timeout_error_reg s
  write b cfo_event_window_timeout_error_reg (assign_bit v₁ (cfo_index link) true) s₁

abbrev pub set_event_window_timeout_interval : (b : Board) → ℕ → Action b
set_event_window_timeout_interval b value s = write b cfo_event_window_timeout_value_reg value s

abbrev pub read_event_window_timeout_interval : (b : Board) → Option ℕ → Query b ℕ
read_event_window_timeout_interval b val s = do
  (v₁, s₁) ← value_or b cfo_event_window_timeout_value_reg val s
  ok (v₁, s₁)

abbrev pub clear_receive_byte_count : (b : Board) → Link → Action b
clear_receive_byte_count b link s = do
  reg ← register_of (cfo_receive_byte_count_of link)
  write b reg 0 s
