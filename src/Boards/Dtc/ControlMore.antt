-- ===== src/Boards/Dtc/ControlMore.antt =====
-- Accessors of `DTC_Registers` (dtcInterfaceLib/DTC_Registers.cpp): clock, reset, LED and control bits.
use mu2e_pcie_utils.Prelude.{true, false, Bool, ℕ, Option, ok, ◌>>=◌}
use mu2e_pcie_utils.Registers.Bitset.{test_bit, assign_bit}
use mu2e_pcie_utils.Boards.Base.{Board, Action, Query, read, write, value_or}
use mu2e_pcie_utils.Boards.Address.Common.{control_reg}

abbrev pub read_reset_pcie : (b : Board) → Option ℕ → Query b Bool
read_reset_pcie b val s = do (v₁, s₁) ← value_or b control_reg val s; ok (test_bit v₁ 21, s₁)

abbrev pub enable_led_s : (b : Board) → Action b
enable_led_s b s = do
  (v₁, s₁) ← read b control_reg s
  write b control_reg
      (assign_bit
        (assign_bit (assign_bit (assign_bit (assign_bit v₁ 16 true) 17 true) 18 true) 19 true) 20
        true)
      s₁

abbrev pub disable_led_s : (b : Board) → Action b
disable_led_s b s = do
  (v₁, s₁) ← read b control_reg s
  write b control_reg
      (assign_bit
        (assign_bit (assign_bit (assign_bit (assign_bit v₁ 16 false) 17 false) 18 false) 19 false)
        20 false)
      s₁

abbrev pub enable_down_led0 : (b : Board) → Action b
enable_down_led0 b s = do
  (v₁, s₁) ← read b control_reg s
  write b control_reg (assign_bit v₁ 19 true) s₁

abbrev pub disable_down_led0 : (b : Board) → Action b
disable_down_led0 b s = do
  (v₁, s₁) ← read b control_reg s
  write b control_reg (assign_bit v₁ 19 false) s₁

abbrev pub read_down_led0_state : (b : Board) → Option ℕ → Query b Bool
read_down_led0_state b val s = do (v₁, s₁) ← value_or b control_reg val s; ok (test_bit v₁ 19, s₁)

abbrev pub enable_up_led1 : (b : Board) → Action b
enable_up_led1 b s = do
  (v₁, s₁) ← read b control_reg s
  write b control_reg (assign_bit v₁ 18 true) s₁

abbrev pub disable_up_led1 : (b : Board) → Action b
disable_up_led1 b s = do
  (v₁, s₁) ← read b control_reg s
  write b control_reg (assign_bit v₁ 18 false) s₁

abbrev pub read_up_led1_state : (b : Board) → Option ℕ → Query b Bool
read_up_led1_state b val s = do (v₁, s₁) ← value_or b control_reg val s; ok (test_bit v₁ 18, s₁)

abbrev pub enable_up_led0 : (b : Board) → Action b
enable_up_led0 b s = do
  (v₁, s₁) ← read b control_reg s
  write b control_reg (assign_bit v₁ 17 true) s₁

abbrev pub disable_up_led0 : (b : Board) → Action b
disable_up_led0 b s = do
  (v₁, s₁) ← read b control_reg s
  write b control_reg (assign_bit v₁ 17 false) s₁

abbrev pub read_up_led0_state : (b : Board) → Option ℕ → Query b Bool
read_up_led0_state b val s = do (v₁, s₁) ← value_or b control_reg val s; ok (test_bit v₁ 17, s₁)

abbrev pub enable_led6 : (b : Board) → Action b
enable_led6 b s = do (v₁, s₁) ← read b control_reg s; write b control_reg (assign_bit v₁ 16 true) s₁

abbrev pub disable_led6 : (b : Board) → Action b
disable_led6 b s = do
  (v₁, s₁) ← read b control_reg s
  write b control_reg (assign_bit v₁ 16 false) s₁

abbrev pub read_led6_state : (b : Board) → Option ℕ → Query b Bool
read_led6_state b val s = do (v₁, s₁) ← value_or b control_reg val s; ok (test_bit v₁ 16, s₁)

abbrev pub set_cfo_emulation_mode : (b : Board) → Action b
set_cfo_emulation_mode b s = do
  (v₁, s₁) ← read b control_reg s
  write b control_reg (assign_bit v₁ 15 true) s₁

abbrev pub clear_cfo_emulation_mode : (b : Board) → Action b
clear_cfo_emulation_mode b s = do
  (v₁, s₁) ← read b control_reg s
  write b control_reg (assign_bit v₁ 15 false) s₁

abbrev pub read_cfo_emulation_mode : (b : Board) → Option ℕ → Query b Bool
read_cfo_emulation_mode b val s = do
  (v₁, s₁) ← value_or b control_reg val s
  ok (test_bit v₁ 15, s₁)

abbrev pub set_data_filter_enable : (b : Board) → Action b
set_data_filter_enable b s = do
  (v₁, s₁) ← read b control_reg s
  write b control_reg (assign_bit v₁ 13 true) s₁

abbrev pub clear_data_filter_enable : (b : Board) → Action b
clear_data_filter_enable b s = do
  (v₁, s₁) ← read b control_reg s
  write b control_reg (assign_bit v₁ 13 false) s₁

abbrev pub read_data_filter_enable : (b : Board) → Option ℕ → Query b Bool
read_data_filter_enable b val s = do
  (v₁, s₁) ← value_or b control_reg val s
  ok (test_bit v₁ 13, s₁)

abbrev pub set_drp_prefetch_enable : (b : Board) → Action b
set_drp_prefetch_enable b s = do
  (v₁, s₁) ← read b control_reg s
  write b control_reg (assign_bit v₁ 12 true) s₁

abbrev pub clear_drp_prefetch_enable : (b : Board) → Action b
clear_drp_prefetch_enable b s = do
  (v₁, s₁) ← read b control_reg s
  write b control_reg (assign_bit v₁ 12 false) s₁

abbrev pub read_drp_prefetch_enable : (b : Board) → Option ℕ → Query b Bool
read_drp_prefetch_enable b val s = do
  (v₁, s₁) ← value_or b control_reg val s
  ok (test_bit v₁ 12, s₁)
