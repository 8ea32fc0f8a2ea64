-- ===== src/Boards/Dtc/ControlRest.antt =====
-- Accessors of `DTC_Registers` (dtcInterfaceLib/DTC_Registers.cpp): clock, reset, LED and control bits.
use Prim.Native.Nat.{bit_and}
use mu2e_pcie_utils.Prelude.{◌+◌, ◌*◌, ◌%◌, ◌^◌, true, false, Bool, ℕ, Option, ok, ◌>>=◌}
use mu2e_pcie_utils.Registers.Bitset.{test_bit, assign_bit}
use mu2e_pcie_utils.Boards.Base.{Board, Action, Query, read, write, value_or, sleep}
use mu2e_pcie_utils.Boards.Address.Common.{control_reg, dma_transfer_length_reg}

abbrev pub roc_interface_soft_reset : (b : Board) → Action b
roc_interface_soft_reset b s = do
  (v₁, s₁) ← read b control_reg s
  s₂ ← write b control_reg (assign_bit v₁ 12 true) s₁
  let s₃ = sleep b 100000 s₂
  write b control_reg (assign_bit (assign_bit v₁ 12 true) 12 false) s₃

abbrev pub read_roc_interface_soft_reset : (b : Board) → Option ℕ → Query b Bool
read_roc_interface_soft_reset b val s = do
  (v₁, s₁) ← value_or b control_reg val s
  ok (test_bit v₁ 11, s₁)

abbrev pub enable_drop_data_to_emulate_event_building : (b : Board) → Action b
enable_drop_data_to_emulate_event_building b s = do
  (v₁, s₁) ← read b control_reg s
  write b control_reg (assign_bit v₁ 10 true) s₁

abbrev pub disable_drop_data_to_emulate_event_building : (b : Board) → Action b
disable_drop_data_to_emulate_event_building b s = do
  (v₁, s₁) ← read b control_reg s
  write b control_reg (assign_bit v₁ 10 false) s₁

abbrev pub read_drop_data_to_emulate_event_building : (b : Board) → Option ℕ → Query b Bool
read_drop_data_to_emulate_event_building b val s = do
  (v₁, s₁) ← value_or b control_reg val s
  ok (test_bit v₁ 10, s₁)

abbrev pub set_punch_enable : (b : Board) → Action b
set_punch_enable b s = do
  (v₁, s₁) ← read b control_reg s
  write b control_reg (assign_bit v₁ 9 true) s₁

abbrev pub clear_punch_enable : (b : Board) → Action b
clear_punch_enable b s = do
  (v₁, s₁) ← read b control_reg s
  write b control_reg (assign_bit v₁ 9 false) s₁

abbrev pub read_punch_enable : (b : Board) → Option ℕ → Query b Bool
read_punch_enable b val s = do (v₁, s₁) ← value_or b control_reg val s; ok (test_bit v₁ 9, s₁)

abbrev pub set_external_fanout_clock_input : (b : Board) → Action b
set_external_fanout_clock_input b s = do
  (v₁, s₁) ← read b control_reg s
  write b control_reg (assign_bit v₁ 4 true) s₁

abbrev pub set_internal_fanout_clock_input : (b : Board) → Action b
set_internal_fanout_clock_input b s = do
  (v₁, s₁) ← read b control_reg s
  write b control_reg (assign_bit v₁ 4 false) s₁

abbrev pub read_fanout_clock_input : (b : Board) → Option ℕ → Query b Bool
read_fanout_clock_input b val s = do (v₁, s₁) ← value_or b control_reg val s; ok (test_bit v₁ 4, s₁)

abbrev pub enable_dcs_reception : (b : Board) → Action b
enable_dcs_reception b s = do
  (v₁, s₁) ← read b control_reg s
  write b control_reg (assign_bit v₁ 2 true) s₁

abbrev pub disable_dcs_reception : (b : Board) → Action b
disable_dcs_reception b s = do
  (v₁, s₁) ← read b control_reg s
  write b control_reg (assign_bit v₁ 2 false) s₁

abbrev pub read_dcs_reception : (b : Board) → Option ℕ → Query b Bool
read_dcs_reception b val s = do (v₁, s₁) ← value_or b control_reg val s; ok (test_bit v₁ 2, s₁)

abbrev pub set_trigger_dma_transfer_length : (b : Board) → ℕ → Action b
set_trigger_dma_transfer_length b length s = do
  (v₁, s₁) ← read b dma_transfer_length_reg s
  write b dma_transfer_length_reg (((bit_and v₁ 0x0000FFFF) + (length * 2 ^ 16 % 2 ^ 32)) % 2 ^ 32)
      s₁

abbrev pub set_min_dma_transfer_length : (b : Board) → ℕ → Action b
set_min_dma_transfer_length b length s = do
  (v₁, s₁) ← read b dma_transfer_length_reg s
  write b dma_transfer_length_reg (((bit_and v₁ 0xFFFF0000) + length) % 2 ^ 32) s₁
