-- ===== src/Boards/Common/Alarms.antt =====
-- Accessors of `CFOandDTC_Registers` (dtcInterfaceLib/CFOandDTC_Registers.cpp): alarms and optical modules.
use mu2e_pcie_utils.Prelude.{◌*◌, ◌%◌, ◌^◌, true, Bool, ℕ, Option, ok, ◌>>=◌}
use mu2e_pcie_utils.Registers.Bitset.{test_bit, assign_bit, bit_of}
use mu2e_pcie_utils.Boards.Base.{Board, Action, Query, read, write, value_or}
use mu2e_pcie_utils.Boards.Address.Common.{
  fire_fly_control_status_reg, firefly_rx_iic_bus_control_reg, firefly_tx_iic_bus_control_reg,
  firefly_tx_rx_iic_bus_control_reg, fpga_monitor_alarm_reg,
}

abbrev pub read_fpga_alarms : (b : Board) → Option ℕ → Query b Bool
read_fpga_alarms b val s = do
  (v₁, s₁) ← value_or b fpga_monitor_alarm_reg val s
  ok (test_bit v₁ 7, s₁)

abbrev pub reset_fpga_alarms : (b : Board) → Option ℕ → Action b
reset_fpga_alarms b val s = do
  (v₁, s₁) ← value_or b fpga_monitor_alarm_reg val s
  write b fpga_monitor_alarm_reg (assign_bit v₁ 7 true) s₁

abbrev pub read_vcc_bram_alarm : (b : Board) → Option ℕ → Query b Bool
read_vcc_bram_alarm b val s = do
  (v₁, s₁) ← value_or b fpga_monitor_alarm_reg val s
  ok (test_bit v₁ 3, s₁)

abbrev pub reset_vcc_bram_alarm : (b : Board) → Option ℕ → Action b
reset_vcc_bram_alarm b val s = do
  (v₁, s₁) ← value_or b fpga_monitor_alarm_reg val s
  write b fpga_monitor_alarm_reg (assign_bit v₁ 3 true) s₁

abbrev pub read_vcc_aux_alarm : (b : Board) → Option ℕ → Query b Bool
read_vcc_aux_alarm b val s = do
  (v₁, s₁) ← value_or b fpga_monitor_alarm_reg val s
  ok (test_bit v₁ 2, s₁)

abbrev pub reset_vcc_aux_alarm : (b : Board) → Option ℕ → Action b
reset_vcc_aux_alarm b val s = do
  (v₁, s₁) ← value_or b fpga_monitor_alarm_reg val s
  write b fpga_monitor_alarm_reg (assign_bit v₁ 2 true) s₁

abbrev pub read_vcc_int_alarm : (b : Board) → Option ℕ → Query b Bool
read_vcc_int_alarm b val s = do
  (v₁, s₁) ← value_or b fpga_monitor_alarm_reg val s
  ok (test_bit v₁ 1, s₁)

abbrev pub reset_vcc_int_alarm : (b : Board) → Option ℕ → Action b
reset_vcc_int_alarm b val s = do
  (v₁, s₁) ← value_or b fpga_monitor_alarm_reg val s
  write b fpga_monitor_alarm_reg (assign_bit v₁ 1 true) s₁

abbrev pub read_fpga_user_temperature_alarm : (b : Board) → Option ℕ → Query b Bool
read_fpga_user_temperature_alarm b val s = do
  (v₁, s₁) ← value_or b fpga_monitor_alarm_reg val s
  ok (test_bit v₁ 0, s₁)

abbrev pub reset_fpga_user_temperature_alarm : (b : Board) → Option ℕ → Action b
reset_fpga_user_temperature_alarm b val s = do
  (v₁, s₁) ← value_or b fpga_monitor_alarm_reg val s
  write b fpga_monitor_alarm_reg (assign_bit v₁ 0 true) s₁

abbrev pub read_firefly_tx_iic_interface_reset : (b : Board) → Option ℕ → Query b Bool
read_firefly_tx_iic_interface_reset b val s = do
  (v₁, s₁) ← value_or b firefly_tx_iic_bus_control_reg val s
  ok (test_bit v₁ 31, s₁)

abbrev pub read_firefly_rx_iic_interface_reset : (b : Board) → Option ℕ → Query b Bool
read_firefly_rx_iic_interface_reset b val s = do
  (v₁, s₁) ← value_or b firefly_rx_iic_bus_control_reg val s
  ok (test_bit v₁ 31, s₁)

abbrev pub read_firefly_tx_rx_iic_interface_reset : (b : Board) → Option ℕ → Query b Bool
read_firefly_tx_rx_iic_interface_reset b val s = do
  (v₁, s₁) ← value_or b firefly_tx_rx_iic_bus_control_reg val s
  ok (test_bit v₁ 31, s₁)

abbrev pub read_tx_rx_firefly_present : (b : Board) → Option ℕ → Query b Bool
read_tx_rx_firefly_present b val s = do
  (v₁, s₁) ← value_or b fire_fly_control_status_reg val s
  ok (test_bit v₁ 26, s₁)

abbrev pub read_rx_firefly_present : (b : Board) → Option ℕ → Query b Bool
read_rx_firefly_present b val s = do
  (v₁, s₁) ← value_or b fire_fly_control_status_reg val s
  ok (test_bit v₁ 25, s₁)

abbrev pub read_tx_firefly_present : (b : Board) → Option ℕ → Query b Bool
read_tx_firefly_present b val s = do
  (v₁, s₁) ← value_or b fire_fly_control_status_reg val s
  ok (test_bit v₁ 24, s₁)

abbrev pub read_tx_rx_firefly_interrupt : (b : Board) → Option ℕ → Query b Bool
read_tx_rx_firefly_interrupt b val s = do
  (v₁, s₁) ← value_or b fire_fly_control_status_reg val s
  ok (test_bit v₁ 18, s₁)

abbrev pub read_rx_firefly_interrupt : (b : Board) → Option ℕ → Query b Bool
read_rx_firefly_interrupt b val s = do
  (v₁, s₁) ← value_or b fire_fly_control_status_reg val s
  ok (test_bit v₁ 17, s₁)

abbrev pub read_tx_firefly_interrupt : (b : Board) → Option ℕ → Query b Bool
read_tx_firefly_interrupt b val s = do
  (v₁, s₁) ← value_or b fire_fly_control_status_reg val s
  ok (test_bit v₁ 16, s₁)

abbrev pub read_tx_rx_firefly_select : (b : Board) → Option ℕ → Query b Bool
read_tx_rx_firefly_select b val s = do
  (v₁, s₁) ← value_or b fire_fly_control_status_reg val s
  ok (test_bit v₁ 10, s₁)

abbrev pub set_tx_rx_firefly_select : (b : Board) → Bool → Action b
set_tx_rx_firefly_select b select s =
    write b fire_fly_control_status_reg (bit_of select * 2 ^ 9 % 2 ^ 32) s

abbrev pub read_tx_firefly_select : (b : Board) → Option ℕ → Query b Bool
read_tx_firefly_select b val s = do
  (v₁, s₁) ← value_or b fire_fly_control_status_reg val s
  ok (test_bit v₁ 9, s₁)

abbrev pub set_tx_firefly_select : (b : Board) → Bool → Action b
set_tx_firefly_select b select s = do
  (v₁, s₁) ← read b fire_fly_control_status_reg s
  write b fire_fly_control_status_reg (assign_bit v₁ 9 select) s₁

abbrev pub read_rx_firefly_select : (b : Board) → Option ℕ → Query b Bool
read_rx_firefly_select b val s = do
  (v₁, s₁) ← value_or b fire_fly_control_status_reg val s
  ok (test_bit v₁ 8, s₁)

abbrev pub set_rx_firefly_select : (b : Board) → Bool → Action b
set_rx_firefly_select b select s = do
  (v₁, s₁) ← read b fire_fly_control_status_reg s
  write b fire_fly_control_status_reg (assign_bit v₁ 8 select) s₁

abbrev pub read_reset_tx_rx_firefly : (b : Board) → Option ℕ → Query b Bool
read_reset_tx_rx_firefly b val s = do
  (v₁, s₁) ← value_or b fire_fly_control_status_reg val s
  ok (test_bit v₁ 2, s₁)
