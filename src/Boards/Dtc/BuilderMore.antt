-- ===== src/Boards/Dtc/BuilderMore.antt =====
-- Accessors of `DTC_Registers` (dtcInterfaceLib/DTC_Registers.cpp): event builder tests and errors.
use mu2e_pcie_utils.Prelude.{Bool, ℕ, Option, ok, ◌>>=◌}
use mu2e_pcie_utils.Registers.Bitset.{test_bit}
use mu2e_pcie_utils.Boards.Base.{Board, Query, value_or}
use mu2e_pcie_utils.Boards.Address.DtcMiddle.{dtc_output_buffer_error_flags_reg}

abbrev pub read_pciv_fifo_memory_mapped_write_complete_fifo_full :
    (b : Board) → Option ℕ → Query b Bool
read_pciv_fifo_memory_mapped_write_complete_fifo_full b val s = do
  (v₁, s₁) ← value_or b dtc_output_buffer_error_flags_reg val s
  ok (test_bit v₁ 11, s₁)

abbrev pub read_pciv_fifo_pci_write_event_fifo_full : (b : Board) → Option ℕ → Query b Bool
read_pciv_fifo_pci_write_event_fifo_full b val s = do
  (v₁, s₁) ← value_or b dtc_output_buffer_error_flags_reg val s
  ok (test_bit v₁ 10, s₁)

abbrev pub read_pciv_fifo_local_data_pointer_fifo_full : (b : Board) → Option ℕ → Query b Bool
read_pciv_fifo_local_data_pointer_fifo_full b val s = do
  (v₁, s₁) ← value_or b dtc_output_buffer_error_flags_reg val s
  ok (test_bit v₁ 9, s₁)

abbrev pub read_pciv_fifo_egress_fifo_full : (b : Board) → Option ℕ → Query b Bool
read_pciv_fifo_egress_fifo_full b val s = do
  (v₁, s₁) ← value_or b dtc_output_buffer_error_flags_reg val s
  ok (test_bit v₁ 8, s₁)

abbrev pub read_pciv_fifo_rx_buffer_select_fifo_full : (b : Board) → Option ℕ → Query b Bool
read_pciv_fifo_rx_buffer_select_fifo_full b val s = do
  (v₁, s₁) ← value_or b dtc_output_buffer_error_flags_reg val s
  ok (test_bit v₁ 2, s₁)

abbrev pub read_pciv_fifo_ingress_fifo_full : (b : Board) → Option ℕ → Query b Bool
read_pciv_fifo_ingress_fifo_full b val s = do
  (v₁, s₁) ← value_or b dtc_output_buffer_error_flags_reg val s
  ok (test_bit v₁ 1, s₁)

abbrev pub read_pciv_fifo_event_byte_count_total_error : (b : Board) → Option ℕ → Query b Bool
read_pciv_fifo_event_byte_count_total_error b val s = do
  (v₁, s₁) ← value_or b dtc_output_buffer_error_flags_reg val s
  ok (test_bit v₁ 0, s₁)
