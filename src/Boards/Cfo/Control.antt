-- ===== src/Boards/Cfo/Control.antt =====
-- Accessors of `CFO_Registers` (cfoInterfaceLib/CFO_Registers.cpp): control bits, links and the serialisers.
use Prim.Native.Nat.{bit_and}
use mu2e_pcie_utils.Prelude.{◌+◌, ◌*◌, ◌%◌, ◌^◌, true, false, Bool, ℕ, Option, ok, ◌>>=◌}
use mu2e_pcie_utils.Registers.Bitset.{test_bit, assign_bit}
use mu2e_pcie_utils.Boards.Base.{Board, Action, Query, Link, read, write, value_or, cfo_index}
use mu2e_pcie_utils.Boards.Address.Cfo.{
  cfo_beam_on_timer_preset_reg, cfo_enable_beam_on_mode_reg, cfo_sfp_serdes_status_reg,
}
use mu2e_pcie_utils.Boards.Address.Common.{
  clock_oscillator_status_reg, control_reg, design_status_reg, dma_transfer_length_reg,
  serdes_pll_locked_reg, serdes_reset_done_reg, serdes_reset_reg, serdes_unlock_error_reg,
}

abbrev pub read_ddr_fifo_empty : (b : Board) → Option ℕ → Query b Bool
read_ddr_fifo_empty b val s = do
  (v₁, s₁) ← value_or b design_status_reg val s
  ok (test_bit v₁ 2, s₁)

abbrev pub read_ddr_clock_calibration_done : (b : Board) → Option ℕ → Query b Bool
read_ddr_clock_calibration_done b val s = do
  (v₁, s₁) ← value_or b design_status_reg val s
  ok (test_bit v₁ 0, s₁)

abbrev pub enable_led7 : (b : Board) → Action b
enable_led7 b s = do (v₁, s₁) ← read b control_reg s; write b control_reg (assign_bit v₁ 23 true) s₁

abbrev pub disable_read_led7 : (b : Board) → Action b
disable_read_led7 b s = do
  (v₁, s₁) ← read b control_reg s
  write b control_reg (assign_bit v₁ 23 false) s₁

abbrev pub read_led7_state : (b : Board) → Option ℕ → Query b Bool
read_led7_state b val s = do (v₁, s₁) ← value_or b control_reg val s; ok (test_bit v₁ 23, s₁)

abbrev pub enable_accelerator_rf0 : (b : Board) → Action b
enable_accelerator_rf0 b s = do
  (v₁, s₁) ← read b control_reg s
  write b control_reg (assign_bit v₁ 2 true) s₁

abbrev pub disable_accelerator_rf0 : (b : Board) → Action b
disable_accelerator_rf0 b s = do
  (v₁, s₁) ← read b control_reg s
  write b control_reg (assign_bit v₁ 2 false) s₁

abbrev pub read_accelerator_rf0_enable : (b : Board) → Option ℕ → Query b Bool
read_accelerator_rf0_enable b val s = do
  (v₁, s₁) ← value_or b control_reg val s
  ok (test_bit v₁ 2, s₁)

abbrev pub enable_embedded_clock_marker : (b : Board) → Action b
enable_embedded_clock_marker b s = do
  (v₁, s₁) ← read b control_reg s
  write b control_reg (assign_bit v₁ 1 true) s₁

abbrev pub disable_embedded_clock_marker : (b : Board) → Action b
disable_embedded_clock_marker b s = do
  (v₁, s₁) ← read b control_reg s
  write b control_reg (assign_bit v₁ 1 false) s₁

abbrev pub read_embedded_clock_marker_enable : (b : Board) → Option ℕ → Query b Bool
read_embedded_clock_marker_enable b val s = do
  (v₁, s₁) ← value_or b control_reg val s
  ok (test_bit v₁ 1, s₁)

abbrev pub set_trigger_dma_transfer_length : (b : Board) → ℕ → Action b
set_trigger_dma_transfer_length b length s = do
  (v₁, s₁) ← read b dma_transfer_length_reg s
  write b dma_transfer_length_reg (((bit_and v₁ 0x0000FFFF) + (length * 2 ^ 16 % 2 ^ 32)) % 2 ^ 32)
      s₁

abbrev pub set_min_dma_transfer_length : (b : Board) → ℕ → Action b
set_min_dma_transfer_length b length s = do
  (v₁, s₁) ← read b dma_transfer_length_reg s
  write b dma_transfer_length_reg (((bit_and v₁ 0xFFFF0000) + length) % 2 ^ 32) s₁

abbrev pub read_serdes_oscillator_iic_error : (b : Board) → Option ℕ → Query b Bool
read_serdes_oscillator_iic_error b val s = do
  (v₁, s₁) ← value_or b clock_oscillator_status_reg val s
  ok (test_bit v₁ 2, s₁)

abbrev pub read_serdes_oscillator_initialization_complete : (b : Board) → Option ℕ → Query b Bool
read_serdes_oscillator_initialization_complete b val s = do
  (v₁, s₁) ← value_or b clock_oscillator_status_reg val s
  ok (test_bit v₁ 1, s₁)

abbrev pub read_timing_clock_pll_locked : (b : Board) → Option ℕ → Query b Bool
read_timing_clock_pll_locked b val s = do
  (v₁, s₁) ← value_or b clock_oscillator_status_reg val s
  ok (test_bit v₁ 0, s₁)

abbrev pub read_reset_serdes : (b : Board) → Link → Option ℕ → Query b Bool
read_reset_serdes b link val s = do
  (v₁, s₁) ← value_or b serdes_reset_reg val s
  ok (test_bit v₁ (cfo_index link), s₁)

abbrev pub read_serdes_unlock_error : (b : Board) → Link → Option ℕ → Query b Bool
read_serdes_unlock_error b link val s = do
  (v₁, s₁) ← value_or b serdes_unlock_error_reg val s
  ok (test_bit v₁ (cfo_index link), s₁)

abbrev pub read_serdes_pll_locked : (b : Board) → Link → Option ℕ → Query b Bool
read_serdes_pll_locked b link val s = do
  (v₁, s₁) ← value_or b serdes_pll_locked_reg val s
  ok (test_bit v₁ (cfo_index link), s₁)

abbrev pub read_reset_serdes_done : (b : Board) → Link → Option ℕ → Query b Bool
read_reset_serdes_done b link val s = do
  (v₁, s₁) ← value_or b serdes_reset_done_reg val s
  ok (test_bit v₁ (cfo_index link), s₁)

abbrev pub read_serdes_rxcdr_lock : (b : Board) → Link → Option ℕ → Query b Bool
read_serdes_rxcdr_lock b link val s = do
  (v₁, s₁) ← value_or b cfo_sfp_serdes_status_reg val s
  ok (test_bit v₁ (cfo_index link), s₁)

abbrev pub set_beam_on_timer_preset : (b : Board) → ℕ → Action b
set_beam_on_timer_preset b preset s = write b cfo_beam_on_timer_preset_reg preset s

abbrev pub read_beam_on_timer_preset : (b : Board) → Option ℕ → Query b ℕ
read_beam_on_timer_preset b val s = do
  (v₁, s₁) ← value_or b cfo_beam_on_timer_preset_reg val s
  ok (v₁, s₁)

abbrev pub enable_beam_on_mode : (b : Board) → Link → Action b
enable_beam_on_mode b link s = do
  (v₁, s₁) ← read b cfo_enable_beam_on_mode_reg s
  write b cfo_enable_beam_on_mode_reg (assign_bit v₁ 0 true) s₁

abbrev pub disable_beam_on_mode : (b : Board) → Link → Action b
disable_beam_on_mode b link s = do
  (v₁, s₁) ← read b cfo_enable_beam_on_mode_reg s
  write b cfo_enable_beam_on_mode_reg (assign_bit v₁ 0 false) s₁
