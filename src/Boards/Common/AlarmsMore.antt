-- ===== src/Boards/Common/AlarmsMore.antt =====
-- Accessors of `CFOandDTC_Registers` (dtcInterfaceLib/CFOandDTC_Registers.cpp): alarms and optical modules.
use mu2e_pcie_utils.Prelude.{true, false, Bool, ℕ, Option, ok, ◌>>=◌}
use mu2e_pcie_utils.Registers.Bitset.{test_bit, assign_bit}
use mu2e_pcie_utils.Boards.Base.{Board, Action, Query, read, write, value_or, sleep}
use mu2e_pcie_utils.Boards.Address.Common.{fire_fly_control_status_reg}

abbrev pub reset_tx_rx_firefly : (b : Board) → Action b
reset_tx_rx_firefly b s = do
  (v₁, s₁) ← read b fire_fly_control_status_reg s
  s₂ ← write b fire_fly_control_status_reg (assign_bit v₁ 2 true) s₁
  let s₃ = sleep b 1000 s₂
  write b fire_fly_control_status_reg (assign_bit (assign_bit v₁ 2 true) 2 false) s₃

abbrev pub read_reset_tx_firefly : (b : Board) → Option ℕ → Query b Bool
read_reset_tx_firefly b val s = do
  (v₁, s₁) ← value_or b fire_fly_control_status_reg val s
  ok (test_bit v₁ 1, s₁)

abbrev pub reset_tx_firefly : (b : Board) → Action b
reset_tx_firefly b s = do
  (v₁, s₁) ← read b fire_fly_control_status_reg s
  s₂ ← write b fire_fly_control_status_reg (assign_bit v₁ 1 true) s₁
  let s₃ = sleep b 1000 s₂
  write b fire_fly_control_status_reg (assign_bit (assign_bit v₁ 1 true) 1 false) s₃

abbrev pub read_reset_rx_firefly : (b : Board) → Option ℕ → Query b Bool
read_reset_rx_firefly b val s = do
  (v₁, s₁) ← value_or b fire_fly_control_status_reg val s
  ok (test_bit v₁ 0, s₁)

abbrev pub reset_rx_firefly : (b : Board) → Action b
reset_rx_firefly b s = do
  (v₁, s₁) ← read b fire_fly_control_status_reg s
  s₂ ← write b fire_fly_control_status_reg (assign_bit v₁ 0 true) s₁
  let s₃ = sleep b 1000 s₂
  write b fire_fly_control_status_reg (assign_bit (assign_bit v₁ 0 true) 0 false) s₃
