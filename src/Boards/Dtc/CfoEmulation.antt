-- ===== src/Boards/Dtc/CfoEmulation.antt =====
-- Accessors of `DTC_Registers` (dtcInterfaceLib/DTC_Registers.cpp): the emulation of a CFO.
use mu2e_pcie_utils.Prelude.{true, false, Bool, ℕ, Option, ok, ◌>>=◌}
use mu2e_pcie_utils.Registers.Bitset.{test_bit, assign_bit}
use mu2e_pcie_utils.Boards.Base.{Board, Action, Query, read, write, value_or}
use mu2e_pcie_utils.Boards.Address.Dtc.{
  dtc_cfo_emulation_heartbeat_interval_reg, dtc_cfo_emulation_num_heartbeats_reg,
  dtc_cfo_emulation_num_null_heartbeats_reg, dtc_debug_packet_type_reg,
}

abbrev pub set_cfo_emulation_event_window_interval : (b : Board) → ℕ → Action b
set_cfo_emulation_event_window_interval b interval s =
    write b dtc_cfo_emulation_heartbeat_interval_reg interval s

abbrev pub read_cfo_emulation_event_window_interval : (b : Board) → Option ℕ → Query b ℕ
read_cfo_emulation_event_window_interval b val s = do
  (v₁, s₁) ← value_or b dtc_cfo_emulation_heartbeat_interval_reg val s
  ok (v₁, s₁)

abbrev pub set_cfo_emulation_num_heartbeats : (b : Board) → ℕ → Action b
set_cfo_emulation_num_heartbeats b num_heartbeats s =
    write b dtc_cfo_emulation_num_heartbeats_reg num_heartbeats s

abbrev pub read_cfo_emulation_num_heartbeats : (b : Board) → Option ℕ → Query b ℕ
read_cfo_emulation_num_heartbeats b val s = do
  (v₁, s₁) ← value_or b dtc_cfo_emulation_num_heartbeats_reg val s
  ok (v₁, s₁)

abbrev pub set_cfo_emulation_num_null_heartbeats : (b : Board) → ℕ → Action b
set_cfo_emulation_num_null_heartbeats b count s =
    write b dtc_cfo_emulation_num_null_heartbeats_reg count s

abbrev pub read_cfo_emulation_num_null_heartbeats : (b : Board) → Option ℕ → Query b ℕ
read_cfo_emulation_num_null_heartbeats b val s = do
  (v₁, s₁) ← value_or b dtc_cfo_emulation_num_null_heartbeats_reg val s
  ok (v₁, s₁)

abbrev pub enable_debug_packet_mode : (b : Board) → Action b
enable_debug_packet_mode b s = do
  (v₁, s₁) ← read b dtc_debug_packet_type_reg s
  write b dtc_debug_packet_type_reg (assign_bit v₁ 16 true) s₁

abbrev pub disable_debug_packet_mode : (b : Board) → Action b
disable_debug_packet_mode b s = do
  (v₁, s₁) ← read b dtc_debug_packet_type_reg s
  write b dtc_debug_packet_type_reg (assign_bit v₁ 16 false) s₁

abbrev pub read_debug_packet_mode : (b : Board) → Option ℕ → Query b Bool
read_debug_packet_mode b val s = do
  (v₁, s₁) ← value_or b dtc_debug_packet_type_reg val s
  ok (test_bit v₁ 16, s₁)
