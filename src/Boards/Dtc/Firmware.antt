-- ===== src/Boards/Dtc/Firmware.antt =====
-- Accessors of `DTC_Registers` (dtcInterfaceLib/DTC_Registers.cpp): the firmware access and the slow optical links.
use mu2e_pcie_utils.Prelude.{true, false, Bool, ℕ, Option, ok, ◌>>=◌}
use mu2e_pcie_utils.Registers.Bitset.{test_bit, assign_bit}
use mu2e_pcie_utils.Boards.Base.{
  Board, Action, Query, Link, read, write, value_or, change_bit, register_of,
}
use mu2e_pcie_utils.Boards.Address.DtcMiddle.{
  dtc_diag_serdes_error_enable_reg, dtc_fpga_core_access_reg, dtc_fpga_prom_program_status_reg,
  dtc_slow_optical_links_diag_reg,
}
use mu2e_pcie_utils.Boards.Dtc.Tables.{dtc_diag_serdes_packet_of}

abbrev pub read_fpga_prom_program_fifo_full : (b : Board) → Option ℕ → Query b Bool
read_fpga_prom_program_fifo_full b val s = do
  (v₁, s₁) ← value_or b dtc_fpga_prom_program_status_reg val s
  ok (test_bit v₁ 1, s₁)

abbrev pub read_fpga_prom_ready : (b : Board) → Option ℕ → Query b Bool
read_fpga_prom_ready b val s = do
  (v₁, s₁) ← value_or b dtc_fpga_prom_program_status_reg val s
  ok (test_bit v₁ 0, s₁)

abbrev pub read_fpga_core_access_fifo_full : (b : Board) → Option ℕ → Query b Bool
read_fpga_core_access_fifo_full b val s = do
  (v₁, s₁) ← value_or b dtc_fpga_core_access_reg val s
  ok (test_bit v₁ 1, s₁)

abbrev pub read_fpga_core_access_fifo_empty : (b : Board) → Option ℕ → Query b Bool
read_fpga_core_access_fifo_empty b val s = do
  (v₁, s₁) ← value_or b dtc_fpga_core_access_reg val s
  ok (test_bit v₁ 0, s₁)

abbrev pub read_rxok_error_slow_optical_link3 : (b : Board) → Option ℕ → Query b Bool
read_rxok_error_slow_optical_link3 b val s = do
  (v₁, s₁) ← value_or b dtc_slow_optical_links_diag_reg val s
  ok (test_bit v₁ 9, s₁)

abbrev pub read_rxok_error_slow_optical_link2 : (b : Board) → Option ℕ → Query b Bool
read_rxok_error_slow_optical_link2 b val s = do
  (v₁, s₁) ← value_or b dtc_slow_optical_links_diag_reg val s
  ok (test_bit v₁ 8, s₁)

abbrev pub read_rxok_error_slow_optical_link1 : (b : Board) → Option ℕ → Query b Bool
read_rxok_error_slow_optical_link1 b val s = do
  (v₁, s₁) ← value_or b dtc_slow_optical_links_diag_reg val s
  ok (test_bit v₁ 7, s₁)

abbrev pub read_rxok_error_slow_optical_link0 : (b : Board) → Option ℕ → Query b Bool
read_rxok_error_slow_optical_link0 b val s = do
  (v₁, s₁) ← value_or b dtc_slow_optical_links_diag_reg val s
  ok (test_bit v₁ 6, s₁)

abbrev pub read_latched_spare_sma_input_ok_error : (b : Board) → Option ℕ → Query b Bool
read_latched_spare_sma_input_ok_error b val s = do
  (v₁, s₁) ← value_or b dtc_slow_optical_links_diag_reg val s
  ok (test_bit v₁ 5, s₁)

abbrev pub clear_latched_spare_sma_input_ok_error : (b : Board) → Action b
clear_latched_spare_sma_input_ok_error b s = do
  (v₁, s₁) ← read b dtc_slow_optical_links_diag_reg s
  write b dtc_slow_optical_links_diag_reg (assign_bit v₁ 5 true) s₁

abbrev pub read_latched_event_marker_sma_input_ok_error : (b : Board) → Option ℕ → Query b Bool
read_latched_event_marker_sma_input_ok_error b val s = do
  (v₁, s₁) ← value_or b dtc_slow_optical_links_diag_reg val s
  ok (test_bit v₁ 4, s₁)

abbrev pub clear_latched_event_marker_sma_sma_input_ok_error : (b : Board) → Action b
clear_latched_event_marker_sma_sma_input_ok_error b s = do
  (v₁, s₁) ← read b dtc_slow_optical_links_diag_reg s
  write b dtc_slow_optical_links_diag_reg (assign_bit v₁ 4 true) s₁

abbrev pub read_latched_rxok_error_slow_optical_link3 : (b : Board) → Option ℕ → Query b Bool
read_latched_rxok_error_slow_optical_link3 b val s = do
  (v₁, s₁) ← value_or b dtc_slow_optical_links_diag_reg val s
  ok (test_bit v₁ 3, s₁)

abbrev pub clear_latched_rxok_error_slow_optical_link3 : (b : Board) → Action b
clear_latched_rxok_error_slow_optical_link3 b s = do
  (v₁, s₁) ← read b dtc_slow_optical_links_diag_reg s
  write b dtc_slow_optical_links_diag_reg (assign_bit v₁ 3 true) s₁

abbrev pub read_latched_rxok_error_slow_optical_link2 : (b : Board) → Option ℕ → Query b Bool
read_latched_rxok_error_slow_optical_link2 b val s = do
  (v₁, s₁) ← value_or b dtc_slow_optical_links_diag_reg val s
  ok (test_bit v₁ 2, s₁)

abbrev pub clear_latched_rxok_error_slow_optical_link2 : (b : Board) → Action b
clear_latched_rxok_error_slow_optical_link2 b s = do
  (v₁, s₁) ← read b dtc_slow_optical_links_diag_reg s
  write b dtc_slow_optical_links_diag_reg (assign_bit v₁ 2 true) s₁

abbrev pub read_latched_rxok_error_slow_optical_link1 : (b : Board) → Option ℕ → Query b Bool
read_latched_rxok_error_slow_optical_link1 b val s = do
  (v₁, s₁) ← value_or b dtc_slow_optical_links_diag_reg val s
  ok (test_bit v₁ 1, s₁)

abbrev pub clear_latched_rxok_error_slow_optical_link1 : (b : Board) → Action b
clear_latched_rxok_error_slow_optical_link1 b s = do
  (v₁, s₁) ← read b dtc_slow_optical_links_diag_reg s
  write b dtc_slow_optical_links_diag_reg (assign_bit v₁ 1 true) s₁

abbrev pub read_latched_rxok_error_slow_optical_link0 : (b : Board) → Option ℕ → Query b Bool
read_latched_rxok_error_slow_optical_link0 b val s = do
  (v₁, s₁) ← value_or b dtc_slow_optical_links_diag_reg val s
  ok (test_bit v₁ 0, s₁)

abbrev pub clear_latched_rxok_error_slow_optical_link0 : (b : Board) → Action b
clear_latched_rxok_error_slow_optical_link0 b s = do
  (v₁, s₁) ← read b dtc_slow_optical_links_diag_reg s
  write b dtc_slow_optical_links_diag_reg (assign_bit v₁ 0 true) s₁

abbrev pub read_serdes_induce_error_enable : (b : Board) → Link → Option ℕ → Query b Bool
read_serdes_induce_error_enable b link val s = do
  (v₁, s₁) ← value_or b dtc_diag_serdes_error_enable_reg val s
  ok (test_bit v₁ (b.index link), s₁)

abbrev pub enable_serdes_induce_error : (b : Board) → Link → Action b
enable_serdes_induce_error b link s =
    change_bit b dtc_diag_serdes_error_enable_reg (b.index link) true s

abbrev pub disable_serdes_induce_error : (b : Board) → Link → Action b
disable_serdes_induce_error b link s = do
  (v₁, s₁) ← read b dtc_diag_serdes_error_enable_reg s
  write b dtc_diag_serdes_error_enable_reg (assign_bit v₁ (b.index link) false) s₁

abbrev pub read_serdes_induce_error_sequence_number : (b : Board) → Link → Option ℕ → Query b ℕ
read_serdes_induce_error_sequence_number b link val s = do
  reg ← register_of (dtc_diag_serdes_packet_of link)
  (v₁, s₁) ← value_or b reg val s
  ok (v₁, s₁)

abbrev pub set_serdes_induce_error_sequence_number : (b : Board) → Link → ℕ → Action b
set_serdes_induce_error_sequence_number b link sequence s = do
  reg ← register_of (dtc_diag_serdes_packet_of link)
  write b reg sequence s
