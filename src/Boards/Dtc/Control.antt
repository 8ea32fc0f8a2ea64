-- ===== src/Boards/Dtc/Control.antt =====
-- Accessors of `DTC_Registers` (dtcInterfaceLib/DTC_Registers.cpp): clock, reset, LED and control bits.
use mu2e_pcie_utils.Prelude.{not, true, false, Bool, ℕ, Option, ok, ◌>>=◌}
use mu2e_pcie_utils.Registers.Bitset.{test_bit, assign_bit}
use mu2e_pcie_utils.Boards.Base.{Board, Action, Query, read, write, value_or, sleep}
use mu2e_pcie_utils.Boards.Address.Common.{control_reg, design_status_reg}

abbrev pub set_ddr_interface_reset : (b : Board) → Bool → Action b
set_ddr_interface_reset b reset s = do
  (v₁, s₁) ← read b design_status_reg s
  write b design_status_reg (assign_bit v₁ 1 (not reset)) s₁

abbrev pub read_ddr_auto_calibration_done : (b : Board) → Option ℕ → Query b Bool
read_ddr_auto_calibration_done b val s = do
  (v₁, s₁) ← value_or b design_status_reg val s
  ok (test_bit v₁ 0, s₁)

abbrev pub enable_cfo_emulation : (b : Board) → Action b
enable_cfo_emulation b s = do
  (v₁, s₁) ← read b control_reg s
  write b control_reg (assign_bit v₁ 30 true) s₁

abbrev pub disable_cfo_emulation : (b : Board) → Action b
disable_cfo_emulation b s = do
  (v₁, s₁) ← read b control_reg s
  write b control_reg (assign_bit v₁ 30 false) s₁

abbrev pub read_cfo_emulation_enabled : (b : Board) → Option ℕ → Query b Bool
read_cfo_emulation_enabled b val s = do
  (v₁, s₁) ← value_or b control_reg val s
  ok (test_bit v₁ 30, s₁)

abbrev pub enable_cfo_loopback : (b : Board) → Action b
enable_cfo_loopback b s = do
  (v₁, s₁) ← read b control_reg s
  write b control_reg (assign_bit v₁ 28 false) s₁

abbrev pub disable_cfo_loopback : (b : Board) → Action b
disable_cfo_loopback b s = do
  (v₁, s₁) ← read b control_reg s
  write b control_reg (assign_bit v₁ 28 true) s₁

abbrev pub read_cfo_loopback : (b : Board) → Option ℕ → Query b Bool
read_cfo_loopback b val s = do (v₁, s₁) ← value_or b control_reg val s; ok (test_bit v₁ 28, s₁)

abbrev pub reset_ddr_write_address : (b : Board) → Action b
reset_ddr_write_address b s = do
  (v₁, s₁) ← read b control_reg s
  s₂ ← write b control_reg (assign_bit v₁ 27 true) s₁
  let s₃ = sleep b 1000 s₂
  (v₄, s₄) ← read b control_reg s₃
  write b control_reg (assign_bit v₄ 27 false) s₄

abbrev pub read_reset_ddr_write_address : (b : Board) → Option ℕ → Query b Bool
read_reset_ddr_write_address b val s = do
  (v₁, s₁) ← value_or b control_reg val s
  ok (test_bit v₁ 27, s₁)

abbrev pub reset_ddr_read_address : (b : Board) → Action b
reset_ddr_read_address b s = do
  (v₁, s₁) ← read b control_reg s
  s₂ ← write b control_reg (assign_bit v₁ 26 true) s₁
  let s₃ = sleep b 1000 s₂
  (v₄, s₄) ← read b control_reg s₃
  write b control_reg (assign_bit v₄ 26 false) s₄

abbrev pub read_reset_ddr_read_address : (b : Board) → Option ℕ → Query b Bool
read_reset_ddr_read_address b val s = do
  (v₁, s₁) ← value_or b control_reg val s
  ok (test_bit v₁ 26, s₁)

abbrev pub reset_ddr : (b : Board) → Action b
reset_ddr b s = do
  (v₁, s₁) ← read b control_reg s
  s₂ ← write b control_reg (assign_bit v₁ 25 true) s₁
  let s₃ = sleep b 1000 s₂
  (v₄, s₄) ← read b control_reg s₃
  write b control_reg (assign_bit v₄ 25 false) s₄

abbrev pub read_reset_ddr : (b : Board) → Option ℕ → Query b Bool
read_reset_ddr b val s = do (v₁, s₁) ← value_or b control_reg val s; ok (test_bit v₁ 25, s₁)

abbrev pub enable_cfo_emulator_drp : (b : Board) → Action b
enable_cfo_emulator_drp b s = do
  (v₁, s₁) ← read b control_reg s
  write b control_reg (assign_bit v₁ 24 true) s₁

abbrev pub disable_cfo_emulator_drp : (b : Board) → Action b
disable_cfo_emulator_drp b s = do
  (v₁, s₁) ← read b control_reg s
  write b control_reg (assign_bit v₁ 24 false) s₁

abbrev pub read_cfo_emulator_drp : (b : Board) → Option ℕ → Query b Bool
read_cfo_emulator_drp b val s = do (v₁, s₁) ← value_or b control_reg val s; ok (test_bit v₁ 24, s₁)

abbrev pub enable_autogen_drp : (b : Board) → Action b
enable_autogen_drp b s = do
  (v₁, s₁) ← read b control_reg s
  write b control_reg (assign_bit v₁ 23 true) s₁

abbrev pub disable_autogen_drp : (b : Board) → Action b
disable_autogen_drp b s = do
  (v₁, s₁) ← read b control_reg s
  write b control_reg (assign_bit v₁ 23 false) s₁

abbrev pub read_autogen_drp : (b : Board) → Option ℕ → Query b Bool
read_autogen_drp b val s = do (v₁, s₁) ← value_or b control_reg val s; ok (test_bit v₁ 23, s₁)

abbrev pub enable_software_drp : (b : Board) → Action b
enable_software_drp b s = disable_autogen_drp b s

abbrev pub read_software_drp : (b : Board) → Option ℕ → Query b Bool
read_software_drp b val s = do (v₁, s₁) ← value_or b control_reg val s; ok (test_bit v₁ 22, s₁)

abbrev pub reset_pcie : (b : Board) → Action b
reset_pcie b s = do
  (v₁, s₁) ← read b control_reg s
  s₂ ←
      write b control_reg
        (assign_bit (assign_bit (assign_bit (assign_bit v₁ 21 true) 20 true) 11 true) 7 true) s₁
  let s₃ = sleep b 1000 s₂
  (v₄, s₄) ← read b control_reg s₃
  write b control_reg
      (assign_bit (assign_bit (assign_bit (assign_bit v₄ 21 false) 20 false) 11 false) 7 false) s₄
