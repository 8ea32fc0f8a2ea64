-- ===== src/Boards/Cfo/Firmware.antt =====
-- Accessors of `CFO_Registers` (cfoInterfaceLib/CFO_Registers.cpp): cable delays and the firmware access.
use Prim.Native.Nat.{bit_and}
use mu2e_pcie_utils.Prelude.{◌/◌, ◌^◌, Bool, ℕ, Option, ok, ◌>>=◌}
use mu2e_pcie_utils.Registers.Bitset.{test_bit}
use mu2e_pcie_utils.Boards.Base.{Board, Action, Query, write, value_or}
use mu2e_pcie_utils.Boards.Address.Cfo.{
  cfo_cable_delay_control_status_reg, cfo_fpga_core_access_reg, cfo_fpga_prom_program_status_reg,
}
use mu2e_pcie_utils.Boards.Address.Common.{link_enable_reg}

abbrev pub read_cable_delay_measure_exponential_count : (b : Board) → Option ℕ → Query b ℕ
read_cable_delay_measure_exponential_count b val s = do
  (v₁, s₁) ← value_or b cfo_cable_delay_control_status_reg val s
  ok (bit_and (v₁ / 2 ^ 16) 0xF, s₁)

abbrev pub read_fpga_prom_program_fifo_full : (b : Board) → Option ℕ → Query b Bool
read_fpga_prom_program_fifo_full b val s = do
  (v₁, s₁) ← value_or b cfo_fpga_prom_program_status_reg val s
  ok (test_bit v₁ 1, s₁)

abbrev pub read_fpga_prom_ready : (b : Board) → Option ℕ → Query b Bool
read_fpga_prom_ready b val s = do
  (v₁, s₁) ← value_or b cfo_fpga_prom_program_status_reg val s
  ok (test_bit v₁ 0, s₁)

abbrev pub read_fpga_core_access_fifo_full : (b : Board) → Option ℕ → Query b Bool
read_fpga_core_access_fifo_full b val s = do
  (v₁, s₁) ← value_or b cfo_fpga_core_access_reg val s
  ok (test_bit v₁ 1, s₁)

abbrev pub read_fpga_core_access_fifo_empty : (b : Board) → Option ℕ → Query b Bool
read_fpga_core_access_fifo_empty b val s = do
  (v₁, s₁) ← value_or b cfo_fpga_core_access_reg val s
  ok (test_bit v₁ 0, s₁)

abbrev pub disable_links : (b : Board) → Action b
disable_links b s = write b link_enable_reg 0 s
