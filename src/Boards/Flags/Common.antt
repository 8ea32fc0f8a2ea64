-- ===== src/Boards/Flags/Common.antt =====
-- The flags of both boards (dtcInterfaceLib/CFOandDTC_Registers.cpp).
use mu2e_pcie_utils.Prelude.{true, false, List, [], ◌∷◌}
use mu2e_pcie_utils.Boards.Flags.Defs.{Flag}
use mu2e_pcie_utils.Boards.Common.Alarms.{
  read_rx_firefly_select, read_tx_firefly_select, set_rx_firefly_select, set_tx_firefly_select,
}
use mu2e_pcie_utils.Boards.Address.Common.{fire_fly_control_status_reg}

abbrev tx_firefly_select_flag : Flag
tx_firefly_select_flag = record {
  reg = fire_fly_control_status_reg;
  position = 9;
  enable = λ b. set_tx_firefly_select b true;
  disable = λ b. set_tx_firefly_select b false;
  read = read_tx_firefly_select;
}

abbrev rx_firefly_select_flag : Flag
rx_firefly_select_flag = record {
  reg = fire_fly_control_status_reg;
  position = 8;
  enable = λ b. set_rx_firefly_select b true;
  disable = λ b. set_rx_firefly_select b false;
  read = read_rx_firefly_select;
}

abbrev pub common_flags : List Flag
common_flags = tx_firefly_select_flag ∷ rx_firefly_select_flag ∷ []
