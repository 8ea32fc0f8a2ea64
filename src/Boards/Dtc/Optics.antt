-- ===== src/Boards/Dtc/Optics.antt =====
-- Accessors of `DTC_Registers` (dtcInterfaceLib/DTC_Registers.cpp): the optical module and its counters.
use mu2e_pcie_utils.Prelude.{true, false, Bool, ℕ, Option, ok, ◌>>=◌}
use mu2e_pcie_utils.Registers.Bitset.{test_bit, assign_bit}
use mu2e_pcie_utils.Boards.Base.{Board, Action, Query, Link, read, write, value_or, register_of}
use mu2e_pcie_utils.Boards.Address.DtcMiddle.{
  dtc_cfo_link40_mhz_error_count_reg, dtc_cfo_link_event_start_error_count_reg,
  dtc_input_buffer_drop_count_reg, dtc_jitter_attenuator_loss_of_lock_count_reg,
  dtc_output_buffer_drop_count_reg, dtc_sfp_control_status_reg,
}
use mu2e_pcie_utils.Boards.Dtc.Tables.{dtc_rxcdr_unlock_count_of}

abbrev pub read_sfp_present : (b : Board) → Option ℕ → Query b Bool
read_sfp_present b val s = do
  (v₁, s₁) ← value_or b dtc_sfp_control_status_reg val s
  ok (test_bit v₁ 31, s₁)

abbrev pub read_sfp_los : (b : Board) → Option ℕ → Query b Bool
read_sfp_los b val s = do
  (v₁, s₁) ← value_or b dtc_sfp_control_status_reg val s
  ok (test_bit v₁ 17, s₁)

abbrev pub read_sfp_tx_fault : (b : Board) → Option ℕ → Query b Bool
read_sfp_tx_fault b val s = do
  (v₁, s₁) ← value_or b dtc_sfp_control_status_reg val s
  ok (test_bit v₁ 16, s₁)

abbrev pub enable_sfp_rate_select : (b : Board) → Action b
enable_sfp_rate_select b s = do
  (v₁, s₁) ← read b dtc_sfp_control_status_reg s
  write b dtc_sfp_control_status_reg (assign_bit v₁ 1 true) s₁

abbrev pub disable_sfp_rate_select : (b : Board) → Action b
disable_sfp_rate_select b s = do
  (v₁, s₁) ← read b dtc_sfp_control_status_reg s
  write b dtc_sfp_control_status_reg (assign_bit v₁ 1 false) s₁

abbrev pub read_sfp_rate_select : (b : Board) → Option ℕ → Query b Bool
read_sfp_rate_select b val s = do
  (v₁, s₁) ← value_or b dtc_sfp_control_status_reg val s
  ok (test_bit v₁ 1, s₁)

abbrev pub disable_sfp_tx : (b : Board) → Action b
disable_sfp_tx b s = do
  (v₁, s₁) ← read b dtc_sfp_control_status_reg s
  write b dtc_sfp_control_status_reg (assign_bit v₁ 0 true) s₁

abbrev pub enable_sfp_tx : (b : Board) → Action b
enable_sfp_tx b s = do
  (v₁, s₁) ← read b dtc_sfp_control_status_reg s
  write b dtc_sfp_control_status_reg (assign_bit v₁ 0 false) s₁

abbrev pub read_sfp_tx_disable : (b : Board) → Option ℕ → Query b Bool
read_sfp_tx_disable b val s = do
  (v₁, s₁) ← value_or b dtc_sfp_control_status_reg val s
  ok (test_bit v₁ 0, s₁)

abbrev pub read_rxcdr_unlock_count : (b : Board) → Link → Option ℕ → Query b ℕ
read_rxcdr_unlock_count b link val s = do
  reg ← register_of (dtc_rxcdr_unlock_count_of link)
  (v₁, s₁) ← value_or b reg val s
  ok (v₁, s₁)

abbrev pub clear_rxcdr_unlock_count : (b : Board) → Link → Action b
clear_rxcdr_unlock_count b link s = do
  reg ← register_of (dtc_rxcdr_unlock_count_of link)
  write b reg 0 s

abbrev pub read_jitter_attenuator_unlock_count : (b : Board) → Option ℕ → Query b ℕ
read_jitter_attenuator_unlock_count b val s = do
  (v₁, s₁) ← value_or b dtc_jitter_attenuator_loss_of_lock_count_reg val s
  ok (v₁, s₁)

abbrev pub clear_jitter_attenuator_unlock_count : (b : Board) → Action b
clear_jitter_attenuator_unlock_count b s = write b dtc_jitter_attenuator_loss_of_lock_count_reg 1 s

abbrev pub read_rx_cfo_link_event_start_character_error_count : (b : Board) → Option ℕ → Query b ℕ
read_rx_cfo_link_event_start_character_error_count b val s = do
  (v₁, s₁) ← value_or b dtc_cfo_link_event_start_error_count_reg val s
  ok (v₁, s₁)

abbrev pub clear_rx_cfo_link_event_start_character_error_count : (b : Board) → Action b
clear_rx_cfo_link_event_start_character_error_count b s =
    write b dtc_cfo_link_event_start_error_count_reg 0 s

abbrev pub read_rx_cfo_link40_mhz_character_error_count : (b : Board) → Option ℕ → Query b ℕ
read_rx_cfo_link40_mhz_character_error_count b val s = do
  (v₁, s₁) ← value_or b dtc_cfo_link40_mhz_error_count_reg val s
  ok (v₁, s₁)

abbrev pub clear_rx_cfo_link40_mhz_character_error_count : (b : Board) → Action b
clear_rx_cfo_link40_mhz_character_error_count b s = write b dtc_cfo_link40_mhz_error_count_reg 0 s

abbrev pub read_input_buffer_fragment_dump_count : (b : Board) → Option ℕ → Query b ℕ
read_input_buffer_fragment_dump_count b val s = do
  (v₁, s₁) ← value_or b dtc_input_buffer_drop_count_reg val s
  ok (v₁, s₁)

abbrev pub clear_input_buffer_fragment_dump_count : (b : Board) → Action b
clear_input_buffer_fragment_dump_count b s = write b dtc_input_buffer_drop_count_reg 0 s

abbrev pub read_output_buffer_fragment_dump_count : (b : Board) → Option ℕ → Query b ℕ
read_output_buffer_fragment_dump_count b val s = do
  (v₁, s₁) ← value_or b dtc_output_buffer_drop_count_reg val s
  ok (v₁, s₁)

abbrev pub clear_output_buffer_fragment_dump_count : (b : Board) → Action b
clear_output_buffer_fragment_dump_count b s = write b dtc_output_buffer_drop_count_reg 0 s
