-- ===== src/Boards/Dtc/Timers.antt =====
-- Accessors of `DTC_Registers` (dtcInterfaceLib/DTC_Registers.cpp): timers and buffer flags.
use mu2e_pcie_utils.Prelude.{ℕ, Option, ok, ◌>>=◌}
use mu2e_pcie_utils.Boards.Base.{Board, Action, Query, Link, write, value_or, register_of}
use mu2e_pcie_utils.Boards.Dtc.TablesMore.{dtc_data_pending_diag_timer_of}

abbrev pub read_data_pending_diagnostic_timer : (b : Board) → Link → Option ℕ → Query b ℕ
read_data_pending_diagnostic_timer b link val s = do
  reg ← register_of (dtc_data_pending_diag_timer_of link)
  (v₁, s₁) ← value_or b reg val s
  ok (v₁, s₁)

abbrev pub reset_data_pending_diagnostic_timer_fifo : (b : Board) → Link → Action b
reset_data_pending_diagnostic_timer_fifo b link s = do
  reg ← register_of (dtc_data_pending_diag_timer_of link)
  write b reg 0 s
