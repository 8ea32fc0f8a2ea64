-- ===== src/Boards/Cfo/Prbs.antt =====
-- Accessors of `CFO_Registers` (cfoInterfaceLib/CFO_Registers.cpp): pseudo random tests.
use Prim.Native.Nat.{bit_and}
use mu2e_pcie_utils.Prelude.{◌/◌, ◌%◌, ◌^◌, not, Bool, ℕ, Option, ok, ◌>>=◌}
use mu2e_pcie_utils.Registers.Bitset.{test_bit, assign_bit}
use mu2e_pcie_utils.Boards.Base.{Board, Action, Query, Link, read, write, value_or, register_of}
use mu2e_pcie_utils.Boards.Cfo.Tables.{cfo_serdes_prbs_control_of}

abbrev pub read_serdes_prbs_error_flag : (b : Board) → Link → Option ℕ → Query b Bool
read_serdes_prbs_error_flag b link val s = do
  reg ← register_of (cfo_serdes_prbs_control_of link)
  (v₁, s₁) ← value_or b reg val s
  ok (test_bit v₁ 31, s₁)

abbrev pub read_serdes_tx_prbs_sel : (b : Board) → Link → Option ℕ → Query b ℕ
read_serdes_tx_prbs_sel b link val s = do
  reg ← register_of (cfo_serdes_prbs_control_of link)
  (v₁, s₁) ← value_or b reg val s
  ok ((bit_and (v₁ / 2 ^ 12) 0xF) % 2 ^ 8, s₁)

abbrev pub set_serdes_tx_prbs_sel : (b : Board) → Link → ℕ → Action b
set_serdes_tx_prbs_sel b link byte s = do
  reg ← register_of (cfo_serdes_prbs_control_of link)
  write b reg byte s

abbrev pub read_serdes_rx_prbs_sel : (b : Board) → Link → Option ℕ → Query b ℕ
read_serdes_rx_prbs_sel b link val s = do
  reg ← register_of (cfo_serdes_prbs_control_of link)
  (v₁, s₁) ← value_or b reg val s
  ok ((bit_and (v₁ / 2 ^ 8) 0xF) % 2 ^ 8, s₁)

abbrev pub set_serdes_rx_prbs_sel : (b : Board) → Link → ℕ → Action b
set_serdes_rx_prbs_sel b link byte s = do
  reg ← register_of (cfo_serdes_prbs_control_of link)
  write b reg byte s

abbrev pub read_serdes_tx_prbs_force_error : (b : Board) → Link → Option ℕ → Query b Bool
read_serdes_tx_prbs_force_error b link val s = do
  reg ← register_of (cfo_serdes_prbs_control_of link)
  (v₁, s₁) ← value_or b reg val s
  ok (test_bit v₁ 1, s₁)

abbrev pub set_serdes_tx_prbs_force_error : (b : Board) → Link → Bool → Action b
set_serdes_tx_prbs_force_error b link flag s = do
  reg ← register_of (cfo_serdes_prbs_control_of link)
  (v₁, s₁) ← read b reg s
  write b reg (assign_bit v₁ 1 flag) s₁

abbrev pub toggle_serdes_tx_prbs_force_error : (b : Board) → Link → Action b
toggle_serdes_tx_prbs_force_error b link s = do
  reg ← register_of (cfo_serdes_prbs_control_of link)
  (v₁, s₁) ← read b reg s
  write b reg (assign_bit v₁ 1 (not (test_bit v₁ 1))) s₁

abbrev pub read_serdes_rx_prbs_count_reset : (b : Board) → Link → Option ℕ → Query b Bool
read_serdes_rx_prbs_count_reset b link val s = do
  reg ← register_of (cfo_serdes_prbs_control_of link)
  (v₁, s₁) ← value_or b reg val s
  ok (test_bit v₁ 0, s₁)
