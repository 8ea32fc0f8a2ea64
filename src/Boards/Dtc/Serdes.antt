-- ===== src/Boards/Dtc/Serdes.antt =====
-- Accessors of `DTC_Registers` (dtcInterfaceLib/DTC_Registers.cpp): the serialisers: loopback, links and resets.
use mu2e_pcie_utils.Prelude.{◌+◌, ◌%◌, ◌^◌, true, false, Bool, ℕ, Option, ok, ◌>>=◌}
use mu2e_pcie_utils.Registers.Bitset.{test_bit, assign_bit}
use mu2e_pcie_utils.Boards.Base.{Board, Action, Query, Link, read, write, value_or}
use mu2e_pcie_utils.Boards.Address.Common.{
  clock_oscillator_status_reg, link_enable_reg, serdes_reset_reg,
}
use mu2e_pcie_utils.Boards.Address.Dtc.{dtc_roc_emulation_enable_reg}

abbrev pub read_serdes_oscillator_iic_error : (b : Board) → Option ℕ → Query b Bool
read_serdes_oscillator_iic_error b val s = do
  (v₁, s₁) ← value_or b clock_oscillator_status_reg val s
  ok (test_bit v₁ 2, s₁)

abbrev pub read_ddr_oscillator_iic_error : (b : Board) → Option ℕ → Query b Bool
read_ddr_oscillator_iic_error b val s = do
  (v₁, s₁) ← value_or b clock_oscillator_status_reg val s
  ok (test_bit v₁ 18, s₁)

abbrev pub set_roc_emulator_mask : (b : Board) → ℕ → Action b
set_roc_emulator_mask b roc_enable_mask s = write b dtc_roc_emulation_enable_reg roc_enable_mask s

abbrev pub read_roc_emulator_mask : (b : Board) → Option ℕ → Query b ℕ
read_roc_emulator_mask b val s = do
  (v₁, s₁) ← value_or b dtc_roc_emulation_enable_reg val s
  ok (v₁, s₁)

abbrev pub enable_receive_cfo_link : (b : Board) → Action b
enable_receive_cfo_link b s = do
  (v₁, s₁) ← read b link_enable_reg s
  write b link_enable_reg (assign_bit v₁ 14 true) s₁

abbrev pub disable_receive_cfo_link : (b : Board) → Action b
disable_receive_cfo_link b s = do
  (v₁, s₁) ← read b link_enable_reg s
  write b link_enable_reg (assign_bit v₁ 14 false) s₁

abbrev pub enable_transmit_cfo_link : (b : Board) → Action b
enable_transmit_cfo_link b s = do
  (v₁, s₁) ← read b link_enable_reg s
  write b link_enable_reg (assign_bit v₁ 6 true) s₁

abbrev pub disable_transmit_cfo_link : (b : Board) → Action b
disable_transmit_cfo_link b s = do
  (v₁, s₁) ← read b link_enable_reg s
  write b link_enable_reg (assign_bit v₁ 6 false) s₁

abbrev pub read_reset_serdes_tx : (b : Board) → Link → Option ℕ → Query b Bool
read_reset_serdes_tx b link val s = do
  (v₁, s₁) ← value_or b serdes_reset_reg val s
  ok (test_bit v₁ (((b.index link) + 24) % 2 ^ 32), s₁)

abbrev pub read_reset_serdes_rx : (b : Board) → Link → Option ℕ → Query b Bool
read_reset_serdes_rx b link val s = do
  (v₁, s₁) ← value_or b serdes_reset_reg val s
  ok (test_bit v₁ (((b.index link) + 16) % 2 ^ 32), s₁)
