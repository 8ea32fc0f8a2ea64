-- ===== src/Boards/Dtc/EventBuilding.antt =====
-- Accessors of `DTC_Registers` (dtcInterfaceLib/DTC_Registers.cpp): timeouts, event building and oscillators.
use Prim.Native.Nat.{bit_and, bit_or}
use mu2e_pcie_utils.Prelude.{◌+◌, ◌*◌, ◌/◌, ◌%◌, ◌^◌, true, Bool, ℕ, Option, ok, ◌>>=◌}
use mu2e_pcie_utils.Registers.Bitset.{test_bit, assign_bit}
use mu2e_pcie_utils.Boards.Base.{Board, Action, Query, Link, read, write, value_or, value_or_from}
use mu2e_pcie_utils.Boards.Address.Dtc.{
  dtc_data_pending_timer_reg, dtc_ddr_clock_iic_bus_control_reg,
  dtc_ddr_reference_clock_frequency_reg, dtc_evb_configuration_reg, dtc_evb_partition_id_reg,
  dtc_roc_reply_timeout_error_reg, dtc_serdes_clock_iic_bus_control_reg,
}

abbrev pub read_roc_timeout_error : (b : Board) → Link → Option ℕ → Query b Bool
read_roc_timeout_error b link val s = do
  (v₁, s₁) ← value_or b dtc_roc_reply_timeout_error_reg val s
  ok (test_bit v₁ (b.index link), s₁)

abbrev pub clear_roc_timeout_error : (b : Board) → Link → Action b
clear_roc_timeout_error b link s =
    write b dtc_roc_reply_timeout_error_reg (assign_bit 0x0 (b.index link) true) s

abbrev pub set_evb_info : (b : Board) → ℕ → ℕ → ℕ → ℕ → Action b
set_evb_info b dtcid mode partition_id mac_byte s =
    write b dtc_evb_partition_id_reg
      (bit_or
        (bit_or (bit_or (dtcid * 2 ^ 24 % 2 ^ 32) (mode * 2 ^ 16 % 2 ^ 32))
          ((bit_and partition_id 0x3) * 2 ^ 8 % 2 ^ 32))
        (bit_and mac_byte 0x3F))
      s

abbrev pub set_dtc_id : (b : Board) → ℕ → Action b
set_dtc_id b dtcid s = do
  (v₁, s₁) ← read b dtc_evb_partition_id_reg s
  write b dtc_evb_partition_id_reg (((bit_and v₁ 0x00FFFFFF) + (dtcid * 2 ^ 24 % 2 ^ 32)) % 2 ^ 32)
      s₁

abbrev pub read_dtc_id : (b : Board) → Option ℕ → Query b ℕ
read_dtc_id b val s = do
  (v₁, s₁) ← value_or_from b (λ x. bit_and x 0xFF000000) dtc_evb_partition_id_reg val s
  ok (((v₁ / 2 ^ 24) % 2 ^ 8), s₁)

abbrev pub set_evb_mode : (b : Board) → ℕ → Action b
set_evb_mode b mode s = do
  (v₁, s₁) ← read b dtc_evb_partition_id_reg s
  write b dtc_evb_partition_id_reg (((bit_and v₁ 0xFF00FFFF) + (mode * 2 ^ 16 % 2 ^ 32)) % 2 ^ 32)
      s₁

abbrev pub read_evb_mode : (b : Board) → Option ℕ → Query b ℕ
read_evb_mode b val s = do
  (v₁, s₁) ← value_or_from b (λ x. bit_and x 0xFF0000) dtc_evb_partition_id_reg val s
  ok (((v₁ / 2 ^ 16) % 2 ^ 8), s₁)

abbrev pub set_evb_local_parition_id : (b : Board) → ℕ → Action b
set_evb_local_parition_id b partition_id s = do
  (v₁, s₁) ← read b dtc_evb_partition_id_reg s
  write b dtc_evb_partition_id_reg
      (((bit_and v₁ 0xFFFFFCFF) + ((bit_and partition_id 0x3) * 2 ^ 8 % 2 ^ 32)) % 2 ^ 32) s₁

abbrev pub read_evb_local_parition_id : (b : Board) → Option ℕ → Query b ℕ
read_evb_local_parition_id b val s = do
  (v₁, s₁) ← value_or_from b (λ x. bit_and x 0xFF0000) dtc_evb_partition_id_reg val s
  ok (((bit_and (v₁ / 2 ^ 8) 0x3) % 2 ^ 8), s₁)

abbrev pub set_evb_local_mac_address : (b : Board) → ℕ → Action b
set_evb_local_mac_address b mac_byte s = do
  (v₁, s₁) ← read b dtc_evb_partition_id_reg s
  write b dtc_evb_partition_id_reg (((bit_and v₁ 0xFFFFFFC0) + (bit_and mac_byte 0x3F)) % 2 ^ 32) s₁

abbrev pub read_evb_local_mac_address : (b : Board) → Option ℕ → Query b ℕ
read_evb_local_mac_address b val s = do
  (v₁, s₁) ← value_or b dtc_evb_partition_id_reg val s
  ok ((bit_and v₁ 0x3F) % 2 ^ 8, s₁)

abbrev pub set_evb_buffer_info : (b : Board) → ℕ → ℕ → ℕ → Action b
set_evb_buffer_info b buffer_count start_node num_of_nodes s =
    write b dtc_evb_configuration_reg
      (bit_or
        (bit_or ((bit_and buffer_count 0xFF) * 2 ^ 16 % 2 ^ 32)
          ((bit_and start_node 0x3F) * 2 ^ 8 % 2 ^ 32))
        (bit_and num_of_nodes 0x3F))
      s

abbrev pub set_evb_number_input_buffers : (b : Board) → ℕ → Action b
set_evb_number_input_buffers b buffer_count s = do
  (v₁, s₁) ← read b dtc_evb_configuration_reg s
  write b dtc_evb_configuration_reg
      (((bit_and v₁ 0xFF00FFFF) + ((bit_and buffer_count 0xFF) * 2 ^ 16 % 2 ^ 32)) % 2 ^ 32) s₁

abbrev pub read_evb_number_input_buffers : (b : Board) → Option ℕ → Query b ℕ
read_evb_number_input_buffers b val s = do
  (v₁, s₁) ← value_or_from b (λ x. bit_and x 0xFF0000) dtc_evb_configuration_reg val s
  ok (((v₁ / 2 ^ 16) % 2 ^ 8), s₁)

abbrev pub set_evb_start_node : (b : Board) → ℕ → Action b
set_evb_start_node b start_node s = do
  (v₁, s₁) ← read b dtc_evb_configuration_reg s
  write b dtc_evb_configuration_reg
      (((bit_and v₁ 0xFFFFC0FF) + ((bit_and start_node 0x3F) * 2 ^ 8 % 2 ^ 32)) % 2 ^ 32) s₁

abbrev pub read_evb_start_node : (b : Board) → Option ℕ → Query b ℕ
read_evb_start_node b val s = do
  (v₁, s₁) ← value_or_from b (λ x. bit_and x 0x3F00) dtc_evb_configuration_reg val s
  ok (((v₁ / 2 ^ 8) % 2 ^ 8), s₁)

abbrev pub set_evb_number_of_destination_nodes : (b : Board) → ℕ → Action b
set_evb_number_of_destination_nodes b num_of_nodes s = do
  (v₁, s₁) ← read b dtc_evb_configuration_reg s
  write b dtc_evb_configuration_reg
      (((bit_and v₁ 0xFFFFFFC0) + (bit_and num_of_nodes 0x3F)) % 2 ^ 32) s₁

abbrev pub read_evb_number_of_destination_nodes : (b : Board) → Option ℕ → Query b ℕ
read_evb_number_of_destination_nodes b val s = do
  (v₁, s₁) ← value_or_from b (λ x. bit_and x 0x3F) dtc_evb_configuration_reg val s
  ok ((v₁ % 2 ^ 8), s₁)

abbrev pub read_serdes_oscillator_iic_interface_reset : (b : Board) → Option ℕ → Query b Bool
read_serdes_oscillator_iic_interface_reset b val s = do
  (v₁, s₁) ← value_or b dtc_serdes_clock_iic_bus_control_reg val s
  ok (test_bit v₁ 31, s₁)

abbrev pub read_ddr_oscillator_reference_frequency : (b : Board) → Option ℕ → Query b ℕ
read_ddr_oscillator_reference_frequency b val s = do
  (v₁, s₁) ← value_or b dtc_ddr_reference_clock_frequency_reg val s
  ok (v₁, s₁)

abbrev pub set_ddr_oscillator_reference_frequency : (b : Board) → ℕ → Action b
set_ddr_oscillator_reference_frequency b freq s =
    write b dtc_ddr_reference_clock_frequency_reg freq s

abbrev pub read_ddr_oscillator_iic_interface_reset : (b : Board) → Option ℕ → Query b Bool
read_ddr_oscillator_iic_interface_reset b val s = do
  (v₁, s₁) ← value_or b dtc_ddr_clock_iic_bus_control_reg val s
  ok (test_bit v₁ 31, s₁)

abbrev pub set_data_pending_timer : (b : Board) → ℕ → Action b
set_data_pending_timer b timer s = write b dtc_data_pending_timer_reg timer s

abbrev pub read_data_pending_timer : (b : Board) → Option ℕ → Query b ℕ
read_data_pending_timer b val s = do
  (v₁, s₁) ← value_or b dtc_data_pending_timer_reg val s
  ok (v₁, s₁)
