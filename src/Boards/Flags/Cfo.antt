-- ===== src/Boards/Flags/Cfo.antt =====
-- The flags of the CFO (cfoInterfaceLib/CFO_Registers.cpp).
use mu2e_pcie_utils.Prelude.{true, false, List, [], ◌∷◌}
use mu2e_pcie_utils.Boards.Flags.Defs.{Flag}
use mu2e_pcie_utils.Boards.Cfo.Control.{
  disable_accelerator_rf0, disable_embedded_clock_marker, disable_read_led7, enable_accelerator_rf0,
  enable_embedded_clock_marker, enable_led7, read_accelerator_rf0_enable,
  read_embedded_clock_marker_enable, read_led7_state,
}
use mu2e_pcie_utils.Boards.Cfo.Memory.{
  read_firefly_rx_reset, read_firefly_rx_select, read_firefly_tx_reset, read_firefly_tx_rx_reset,
  read_firefly_tx_rx_select, read_firefly_tx_select, set_firefly_rx_reset, set_firefly_rx_select,
  set_firefly_tx_reset, set_firefly_tx_rx_reset, set_firefly_tx_rx_select, set_firefly_tx_select,
}
use mu2e_pcie_utils.Boards.Address.Cfo.{cfo_firefly_csr_register_reg}
use mu2e_pcie_utils.Boards.Address.Common.{control_reg}

abbrev led7_flag : Flag
led7_flag = record {
  reg = control_reg;
  position = 23;
  enable = enable_led7;
  disable = disable_read_led7;
  read = read_led7_state;
}

abbrev accelerator_rf0_flag : Flag
accelerator_rf0_flag = record {
  reg = control_reg;
  position = 2;
  enable = enable_accelerator_rf0;
  disable = disable_accelerator_rf0;
  read = read_accelerator_rf0_enable;
}

abbrev embedded_clock_marker_flag : Flag
embedded_clock_marker_flag = record {
  reg = control_reg;
  position = 1;
  enable = enable_embedded_clock_marker;
  disable = disable_embedded_clock_marker;
  read = read_embedded_clock_marker_enable;
}

abbrev firefly_tx_rx_select_flag : Flag
firefly_tx_rx_select_flag = record {
  reg = cfo_firefly_csr_register_reg;
  position = 10;
  enable = λ b. set_firefly_tx_rx_select b true;
  disable = λ b. set_firefly_tx_rx_select b false;
  read = read_firefly_tx_rx_select;
}

abbrev firefly_rx_select_flag : Flag
firefly_rx_select_flag = record {
  reg = cfo_firefly_csr_register_reg;
  position = 9;
  enable = λ b. set_firefly_rx_select b true;
  disable = λ b. set_firefly_rx_select b false;
  read = read_firefly_rx_select;
}

abbrev firefly_tx_select_flag : Flag
firefly_tx_select_flag = record {
  reg = cfo_firefly_csr_register_reg;
  position = 8;
  enable = λ b. set_firefly_tx_select b true;
  disable = λ b. set_firefly_tx_select b false;
  read = read_firefly_tx_select;
}

abbrev firefly_tx_rx_reset_flag : Flag
firefly_tx_rx_reset_flag = record {
  reg = cfo_firefly_csr_register_reg;
  position = 2;
  enable = λ b. set_firefly_tx_rx_reset b true;
  disable = λ b. set_firefly_tx_rx_reset b false;
  read = read_firefly_tx_rx_reset;
}

abbrev firefly_rx_reset_flag : Flag
firefly_rx_reset_flag = record {
  reg = cfo_firefly_csr_register_reg;
  position = 1;
  enable = λ b. set_firefly_rx_reset b true;
  disable = λ b. set_firefly_rx_reset b false;
  read = read_firefly_rx_reset;
}

abbrev firefly_tx_reset_flag : Flag
firefly_tx_reset_flag = record {
  reg = cfo_firefly_csr_register_reg;
  position = 0;
  enable = λ b. set_firefly_tx_reset b true;
  disable = λ b. set_firefly_tx_reset b false;
  read = read_firefly_tx_reset;
}

abbrev pub cfo_flags : List Flag
cfo_flags =
    led7_flag ∷ accelerator_rf0_flag ∷ embedded_clock_marker_flag ∷ firefly_tx_rx_select_flag
    ∷ firefly_rx_select_flag ∷ firefly_tx_select_flag ∷ firefly_tx_rx_reset_flag
    ∷ firefly_rx_reset_flag ∷ firefly_tx_reset_flag ∷ []
