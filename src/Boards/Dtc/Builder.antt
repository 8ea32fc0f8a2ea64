-- ===== src/Boards/Dtc/Builder.antt =====
-- Accessors of `DTC_Registers` (dtcInterfaceLib/DTC_Registers.cpp): event builder tests and errors.
use Prim.Native.Nat.{bit_and}
use mu2e_pcie_utils.Prelude.{◌+◌, ◌*◌, ◌/◌, ◌%◌, ◌^◌, not, Bool, ℕ, Option, ok, ◌>>=◌}
use mu2e_pcie_utils.Registers.Bitset.{test_bit, assign_bit}
use mu2e_pcie_utils.Boards.Base.{Board, Action, Query, read, write, value_or}
use mu2e_pcie_utils.Boards.Address.DtcMiddle.{
  dtc_evb_serdes_prbs_control_status_reg, dtc_evb_sub_event_receive_timer_preset_reg,
  dtc_event_builder_error_flags_reg, dtc_input_buffer_error_flags_reg,
  dtc_output_buffer_error_flags_reg,
}

abbrev pub read_evb_sub_event_receive_timer : (b : Board) → Option ℕ → Query b ℕ
read_evb_sub_event_receive_timer b val s = do
  (v₁, s₁) ← value_or b dtc_evb_sub_event_receive_timer_preset_reg val s
  ok (v₁, s₁)

abbrev pub set_evb_sub_event_receive_timer : (b : Board) → ℕ → Action b
set_evb_sub_event_receive_timer b timer s =
    write b dtc_evb_sub_event_receive_timer_preset_reg timer s

abbrev pub read_evb_serdes_prbs_error_flag : (b : Board) → Option ℕ → Query b Bool
read_evb_serdes_prbs_error_flag b val s = do
  (v₁, s₁) ← value_or b dtc_evb_serdes_prbs_control_status_reg val s
  ok (test_bit v₁ 31, s₁)

abbrev pub read_evb_serdes_tx_prbs_sel : (b : Board) → Option ℕ → Query b ℕ
read_evb_serdes_tx_prbs_sel b val s = do
  (v₁, s₁) ← value_or b dtc_evb_serdes_prbs_control_status_reg val s
  ok (((((bit_and v₁ 0x7000) / 2 ^ 12) % 2 ^ 8) % 2 ^ 8) % 2 ^ 8, s₁)

abbrev pub set_evb_serdes_tx_prbs_sel : (b : Board) → ℕ → Action b
set_evb_serdes_tx_prbs_sel b byte s = do
  (v₁, s₁) ← read b dtc_evb_serdes_prbs_control_status_reg s
  write b dtc_evb_serdes_prbs_control_status_reg
      (((((bit_and v₁ 0xFFFF8FFF) % 2 ^ 8) + ((bit_and byte 0x7) * 2 ^ 12 % 2 ^ 32)) % 2 ^ 32)
        % 2 ^ 8)
      s₁

abbrev pub read_evb_serdes_rx_prbs_sel : (b : Board) → Option ℕ → Query b ℕ
read_evb_serdes_rx_prbs_sel b val s = do
  (v₁, s₁) ← value_or b dtc_evb_serdes_prbs_control_status_reg val s
  ok (((((bit_and v₁ 0x700) / 2 ^ 8) % 2 ^ 8) % 2 ^ 8) % 2 ^ 8, s₁)

abbrev pub set_evb_serdes_rx_prbs_sel : (b : Board) → ℕ → Action b
set_evb_serdes_rx_prbs_sel b byte s = do
  (v₁, s₁) ← read b dtc_evb_serdes_prbs_control_status_reg s
  write b dtc_evb_serdes_prbs_control_status_reg
      (((((bit_and v₁ 0xFFFFF8FF) % 2 ^ 8) + ((bit_and byte 0x7) * 2 ^ 8 % 2 ^ 32)) % 2 ^ 32)
        % 2 ^ 8)
      s₁

abbrev pub read_evb_serdes_prbs_force_error : (b : Board) → Option ℕ → Query b Bool
read_evb_serdes_prbs_force_error b val s = do
  (v₁, s₁) ← value_or b dtc_evb_serdes_prbs_control_status_reg val s
  ok (test_bit v₁ 1, s₁)

abbrev pub set_evb_serdes_prbs_force_error : (b : Board) → Bool → Action b
set_evb_serdes_prbs_force_error b flag s = do
  (v₁, s₁) ← read b dtc_evb_serdes_prbs_control_status_reg s
  write b dtc_evb_serdes_prbs_control_status_reg (assign_bit v₁ 1 flag) s₁

abbrev pub toggle_evb_serdes_prbs_force_error : (b : Board) → Action b
toggle_evb_serdes_prbs_force_error b s = do
  (v₁, s₁) ← read b dtc_evb_serdes_prbs_control_status_reg s
  write b dtc_evb_serdes_prbs_control_status_reg (assign_bit v₁ 0 (not (test_bit v₁ 0))) s₁

abbrev pub read_evb_serdes_prbs_reset : (b : Board) → Option ℕ → Query b Bool
read_evb_serdes_prbs_reset b val s = do
  (v₁, s₁) ← value_or b dtc_evb_serdes_prbs_control_status_reg val s
  ok (test_bit v₁ 0, s₁)

abbrev pub set_evb_serdes_prbs_reset : (b : Board) → Bool → Action b
set_evb_serdes_prbs_reset b flag s = do
  (v₁, s₁) ← read b dtc_evb_serdes_prbs_control_status_reg s
  write b dtc_evb_serdes_prbs_control_status_reg (assign_bit v₁ 0 flag) s₁

abbrev pub toggle_evb_serdes_prbs_reset : (b : Board) → Action b
toggle_evb_serdes_prbs_reset b s = do
  (v₁, s₁) ← read b dtc_evb_serdes_prbs_control_status_reg s
  write b dtc_evb_serdes_prbs_control_status_reg (assign_bit v₁ 0 (not (test_bit v₁ 0))) s₁

abbrev pub read_event_builder_sub_event_receiver_flags_buffer_error :
    (b : Board) → Option ℕ → Query b Bool
read_event_builder_sub_event_receiver_flags_buffer_error b val s = do
  (v₁, s₁) ← value_or b dtc_event_builder_error_flags_reg val s
  ok (test_bit v₁ 24, s₁)

abbrev pub read_event_builder_ethernet_input_fifo_full : (b : Board) → Option ℕ → Query b Bool
read_event_builder_ethernet_input_fifo_full b val s = do
  (v₁, s₁) ← value_or b dtc_event_builder_error_flags_reg val s
  ok (test_bit v₁ 16, s₁)

abbrev pub read_event_builder_link_error : (b : Board) → Option ℕ → Query b Bool
read_event_builder_link_error b val s = do
  (v₁, s₁) ← value_or b dtc_event_builder_error_flags_reg val s
  ok (test_bit v₁ 9, s₁)

abbrev pub read_event_builder_tx_packet_error : (b : Board) → Option ℕ → Query b Bool
read_event_builder_tx_packet_error b val s = do
  (v₁, s₁) ← value_or b dtc_event_builder_error_flags_reg val s
  ok (test_bit v₁ 8, s₁)

abbrev pub read_event_builder_local_data_pointer_fifo_queue_error :
    (b : Board) → Option ℕ → Query b Bool
read_event_builder_local_data_pointer_fifo_queue_error b val s = do
  (v₁, s₁) ← value_or b dtc_event_builder_error_flags_reg val s
  ok (test_bit v₁ 1, s₁)

abbrev pub read_event_builder_transmit_dma_byte_count_fifo_full :
    (b : Board) → Option ℕ → Query b Bool
read_event_builder_transmit_dma_byte_count_fifo_full b val s = do
  (v₁, s₁) ← value_or b dtc_event_builder_error_flags_reg val s
  ok (test_bit v₁ 0, s₁)

abbrev pub read_serdes_vfifo_egress_fifo_full : (b : Board) → Option ℕ → Query b Bool
read_serdes_vfifo_egress_fifo_full b val s = do
  (v₁, s₁) ← value_or b dtc_input_buffer_error_flags_reg val s
  ok (test_bit v₁ 10, s₁)

abbrev pub read_serdes_vfifo_ingress_fifo_full : (b : Board) → Option ℕ → Query b Bool
read_serdes_vfifo_ingress_fifo_full b val s = do
  (v₁, s₁) ← value_or b dtc_input_buffer_error_flags_reg val s
  ok (test_bit v₁ 9, s₁)

abbrev pub read_serdes_vfifo_event_byte_count_total_error : (b : Board) → Option ℕ → Query b Bool
read_serdes_vfifo_event_byte_count_total_error b val s = do
  (v₁, s₁) ← value_or b dtc_input_buffer_error_flags_reg val s
  ok (test_bit v₁ 8, s₁)

abbrev pub read_serdes_vfifo_last_word_written_timeout_error : (b : Board) → Option ℕ → Query b Bool
read_serdes_vfifo_last_word_written_timeout_error b val s = do
  (v₁, s₁) ← value_or b dtc_input_buffer_error_flags_reg val s
  ok (test_bit v₁ 2, s₁)

abbrev pub read_serdes_vfifo_fragment_count_error : (b : Board) → Option ℕ → Query b Bool
read_serdes_vfifo_fragment_count_error b val s = do
  (v₁, s₁) ← value_or b dtc_input_buffer_error_flags_reg val s
  ok (test_bit v₁ 1, s₁)

abbrev pub read_serdes_vfifo_ddr_full_error : (b : Board) → Option ℕ → Query b Bool
read_serdes_vfifo_ddr_full_error b val s = do
  (v₁, s₁) ← value_or b dtc_input_buffer_error_flags_reg val s
  ok (test_bit v₁ 0, s₁)

abbrev pub read_pciv_fifo_ddr_full : (b : Board) → Option ℕ → Query b Bool
read_pciv_fifo_ddr_full b val s = do
  (v₁, s₁) ← value_or b dtc_output_buffer_error_flags_reg val s
  ok (test_bit v₁ 12, s₁)
