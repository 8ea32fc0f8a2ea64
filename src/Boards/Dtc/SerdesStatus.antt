-- ===== src/Boards/Dtc/SerdesStatus.antt =====
-- Accessors of `DTC_Registers` (dtcInterfaceLib/DTC_Registers.cpp): the status of the serialisers.
use mu2e_pcie_utils.Prelude.{◌+◌, ◌%◌, ◌^◌, true, false, Bool, ℕ, Option, ok, ◌>>=◌}
use mu2e_pcie_utils.Registers.Bitset.{test_bit, assign_bit}
use mu2e_pcie_utils.Boards.Base.{Board, Action, Query, Link, read, write, value_or}
use mu2e_pcie_utils.Boards.Address.Common.{
  serdes_pll_locked_reg, serdes_pll_power_down_reg, serdes_reset_done_reg, serdes_reset_reg,
  serdes_unlock_error_reg,
}
use mu2e_pcie_utils.Boards.Address.Dtc.{
  dtc_dma_timeout_preset_reg, dtc_roc_reply_timeout_reg, dtc_serdes_rxcdr_lock_status_reg,
}

abbrev pub read_reset_serdes : (b : Board) → Link → Option ℕ → Query b Bool
read_reset_serdes b link val s = do
  (v₁, s₁) ← value_or b serdes_reset_reg val s
  ok (test_bit v₁ (b.index link), s₁)

abbrev pub read_serdes_cdr_unlock_error : (b : Board) → Link → Option ℕ → Query b Bool
read_serdes_cdr_unlock_error b link val s = do
  (v₁, s₁) ← value_or b serdes_unlock_error_reg val s
  ok (test_bit v₁ ((16 + (b.index link)) % 2 ^ 32), s₁)

abbrev pub read_serdes_pll_locked : (b : Board) → Link → Option ℕ → Query b Bool
read_serdes_pll_locked b link val s = do
  (v₁, s₁) ← value_or b serdes_pll_locked_reg val s
  ok (test_bit v₁ (b.index link), s₁)

abbrev pub enable_serdes_pll : (b : Board) → Link → Action b
enable_serdes_pll b link s = do
  (v₁, s₁) ← read b serdes_pll_power_down_reg s
  write b serdes_pll_power_down_reg (assign_bit v₁ (b.index link) false) s₁

abbrev pub disable_serdes_pll : (b : Board) → Link → Action b
disable_serdes_pll b link s = do
  (v₁, s₁) ← read b serdes_pll_power_down_reg s
  write b serdes_pll_power_down_reg (assign_bit v₁ (b.index link) true) s₁

abbrev pub read_serdes_pll_power_down : (b : Board) → Link → Option ℕ → Query b Bool
read_serdes_pll_power_down b link val s = do
  (v₁, s₁) ← value_or b serdes_pll_power_down_reg val s
  ok (test_bit v₁ (b.index link), s₁)

abbrev pub read_reset_rx_fsm_serdes_done : (b : Board) → Link → Option ℕ → Query b Bool
read_reset_rx_fsm_serdes_done b link val s = do
  (v₁, s₁) ← value_or b serdes_reset_done_reg val s
  ok (test_bit v₁ (((b.index link) + 24) % 2 ^ 32), s₁)

abbrev pub read_reset_rx_serdes_done : (b : Board) → Link → Option ℕ → Query b Bool
read_reset_rx_serdes_done b link val s = do
  (v₁, s₁) ← value_or b serdes_reset_done_reg val s
  ok (test_bit v₁ (((b.index link) + 16) % 2 ^ 32), s₁)

abbrev pub read_reset_tx_fsm_serdes_done : (b : Board) → Link → Option ℕ → Query b Bool
read_reset_tx_fsm_serdes_done b link val s = do
  (v₁, s₁) ← value_or b serdes_reset_done_reg val s
  ok (test_bit v₁ (((b.index link) + 8) % 2 ^ 32), s₁)

abbrev pub read_reset_tx_serdes_done : (b : Board) → Link → Option ℕ → Query b Bool
read_reset_tx_serdes_done b link val s = do
  (v₁, s₁) ← value_or b serdes_reset_done_reg val s
  ok (test_bit v₁ (b.index link), s₁)

abbrev pub read_serdes_rxcdr_lock : (b : Board) → Link → Option ℕ → Query b Bool
read_serdes_rxcdr_lock b link val s = do
  (v₁, s₁) ← value_or b dtc_serdes_rxcdr_lock_status_reg val s
  ok (test_bit v₁ (b.index link), s₁)

abbrev pub set_dma_timeout_preset : (b : Board) → ℕ → Action b
set_dma_timeout_preset b preset s = write b dtc_dma_timeout_preset_reg preset s

abbrev pub read_dma_timeout_preset : (b : Board) → Option ℕ → Query b ℕ
read_dma_timeout_preset b val s = do
  (v₁, s₁) ← value_or b dtc_dma_timeout_preset_reg val s
  ok (v₁, s₁)

abbrev pub read_roc_timeout_preset : (b : Board) → Option ℕ → Query b ℕ
read_roc_timeout_preset b val s = do
  (v₁, s₁) ← value_or b dtc_roc_reply_timeout_reg val s
  ok (v₁, s₁)

abbrev pub set_roc_timeout_preset : (b : Board) → ℕ → Action b
set_roc_timeout_preset b preset s = write b dtc_roc_reply_timeout_reg preset s
