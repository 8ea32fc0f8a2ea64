-- ===== src/Boards/Common/Design.antt =====
-- Accessors of `CFOandDTC_Registers` (dtcInterfaceLib/CFOandDTC_Registers.cpp): the design and its monitors.
use Prim.Native.Nat.{bit_and}
use mu2e_pcie_utils.Prelude.{◌/◌, ◌^◌, ◌==◌, true, false, Bool, ℕ, Option, ok, ◌>>=◌}
use mu2e_pcie_utils.Registers.Bitset.{test_bit, assign_bit}
use mu2e_pcie_utils.Boards.Base.{Board, Action, Query, read, write, value_or, sleep}
use mu2e_pcie_utils.Boards.Address.Common.{control_reg, design_date_reg, fpga_monitor_alarm_reg}

abbrev pub is_crvdtc_design_flavour : (b : Board) → Option ℕ → Query b Bool
is_crvdtc_design_flavour b val s = do
  (v₁, s₁) ← value_or b design_date_reg val s
  ok ((bit_and (v₁ / 2 ^ 28) 0xF) == 0xe, s₁)

abbrev pub is_non_crvdtc_design_flavour : (b : Board) → Option ℕ → Query b Bool
is_non_crvdtc_design_flavour b val s = do
  (v₁, s₁) ← value_or b design_date_reg val s
  ok ((bit_and (v₁ / 2 ^ 28) 0xF) == 0xd, s₁)

abbrev pub is_cfo_design_flavour : (b : Board) → Option ℕ → Query b Bool
is_cfo_design_flavour b val s = do
  (v₁, s₁) ← value_or b design_date_reg val s
  ok ((bit_and (v₁ / 2 ^ 28) 0xF) == 0xc, s₁)

abbrev pub soft_reset : (b : Board) → Action b
soft_reset b s = do
  (v₁, s₁) ← read b control_reg s
  s₂ ← write b control_reg (assign_bit v₁ 31 true) s₁
  (v₃, s₃) ← read b control_reg s₂
  write b control_reg (assign_bit v₃ 31 false) s₃

abbrev pub read_soft_reset : (b : Board) → Option ℕ → Query b Bool
read_soft_reset b val s = do (v₁, s₁) ← value_or b control_reg val s; ok (test_bit v₁ 31, s₁)

abbrev pub reset_serdes : (b : Board) → Action b
reset_serdes b s = do
  (v₁, s₁) ← read b control_reg s
  s₂ ← write b control_reg (assign_bit v₁ 8 true) s₁
  let s₃ = sleep b 1000 s₂
  write b control_reg (assign_bit (assign_bit v₁ 8 true) 8 false) s₃

abbrev pub read_reset_serdes : (b : Board) → Option ℕ → Query b Bool
read_reset_serdes b val s = do (v₁, s₁) ← value_or b control_reg val s; ok (test_bit v₁ 8, s₁)

abbrev pub run_cable_delay_loopback_test : (b : Board) → Action b
run_cable_delay_loopback_test b s = do
  (v₁, s₁) ← read b control_reg s
  s₂ ← write b control_reg (assign_bit v₁ 3 false) s₁
  write b control_reg (assign_bit (assign_bit v₁ 3 false) 3 true) s₂

abbrev pub hard_reset : (b : Board) → Action b
hard_reset b s = do (v₁, s₁) ← read b control_reg s; write b control_reg (assign_bit v₁ 0 true) s₁

abbrev pub read_hard_reset : (b : Board) → Option ℕ → Query b Bool
read_hard_reset b val s = do (v₁, s₁) ← value_or b control_reg val s; ok (test_bit v₁ 0, s₁)

abbrev pub clear_control_register : (b : Board) → Action b
clear_control_register b s = write b control_reg 0 s

abbrev pub read_fpga_die_temperature_alarm : (b : Board) → Option ℕ → Query b Bool
read_fpga_die_temperature_alarm b val s = do
  (v₁, s₁) ← value_or b fpga_monitor_alarm_reg val s
  ok (test_bit v₁ 8, s₁)

abbrev pub reset_fpga_die_temperature_alarm : (b : Board) → Option ℕ → Action b
reset_fpga_die_temperature_alarm b val s = do
  (v₁, s₁) ← value_or b fpga_monitor_alarm_reg val s
  write b fpga_monitor_alarm_reg (assign_bit v₁ 8 true) s₁
