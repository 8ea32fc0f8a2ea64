-- ===== src/Boards/Flags/Dtc.antt =====
-- The flags of the DTC (dtcInterfaceLib/DTC_Registers.cpp).
use mu2e_pcie_utils.Prelude.{true, false, List, [], ◌∷◌}
use mu2e_pcie_utils.Boards.Flags.Defs.{Flag}
use mu2e_pcie_utils.Boards.Dtc.Builder.{
  read_evb_serdes_prbs_force_error, read_evb_serdes_prbs_reset, set_evb_serdes_prbs_force_error,
  set_evb_serdes_prbs_reset,
}
use mu2e_pcie_utils.Boards.Dtc.CfoEmulation.{
  disable_debug_packet_mode, enable_debug_packet_mode, read_debug_packet_mode,
}
use mu2e_pcie_utils.Boards.Dtc.Control.{
  disable_autogen_drp, disable_cfo_emulation, disable_cfo_emulator_drp, disable_cfo_loopback,
  enable_autogen_drp, enable_cfo_emulation, enable_cfo_emulator_drp, enable_cfo_loopback,
  read_autogen_drp, read_cfo_emulation_enabled, read_cfo_emulator_drp, read_cfo_loopback,
}
use mu2e_pcie_utils.Boards.Dtc.ControlMore.{
  clear_cfo_emulation_mode, clear_data_filter_enable, clear_drp_prefetch_enable, disable_down_led0,
  disable_led6, disable_up_led0, disable_up_led1, enable_down_led0, enable_led6, enable_up_led0,
  enable_up_led1, read_cfo_emulation_mode, read_data_filter_enable, read_down_led0_state,
  read_drp_prefetch_enable, read_led6_state, read_up_led0_state, read_up_led1_state,
  set_cfo_emulation_mode, set_data_filter_enable, set_drp_prefetch_enable,
}
use mu2e_pcie_utils.Boards.Dtc.ControlRest.{
  clear_punch_enable, disable_dcs_reception, disable_drop_data_to_emulate_event_building,
  enable_dcs_reception, enable_drop_data_to_emulate_event_building, read_dcs_reception,
  read_drop_data_to_emulate_event_building, read_fanout_clock_input, read_punch_enable,
  set_external_fanout_clock_input, set_internal_fanout_clock_input, set_punch_enable,
}
use mu2e_pcie_utils.Boards.Dtc.DetectorEmulation.{
  disable_detector_emulator_mode, enable_detector_emulator_mode, read_detector_emulator_mode,
}
use mu2e_pcie_utils.Boards.Dtc.Links.{
  clear_event_mode_table_enable, read_event_mode_table_enable, set_event_mode_table_enable,
}
use mu2e_pcie_utils.Boards.Dtc.Optics.{
  disable_sfp_rate_select, disable_sfp_tx, enable_sfp_rate_select, enable_sfp_tx,
  read_sfp_rate_select, read_sfp_tx_disable,
}
use mu2e_pcie_utils.Boards.Address.DtcMiddle.{
  dtc_evb_serdes_prbs_control_status_reg, dtc_sfp_control_status_reg,
}
use mu2e_pcie_utils.Boards.Address.Common.{control_reg}
use mu2e_pcie_utils.Boards.Address.Dtc.{
  dtc_debug_packet_type_reg, dtc_det_emulation_control0_reg,
  dtc_event_mode_lookup_table_control_reg,
}

abbrev cfo_emulation_flag : Flag
cfo_emulation_flag = record {
  reg = control_reg;
  position = 30;
  enable = enable_cfo_emulation;
  disable = disable_cfo_emulation;
  read = read_cfo_emulation_enabled;
}

abbrev cfo_loopback_flag : Flag
cfo_loopback_flag = record {
  reg = control_reg;
  position = 28;
  enable = disable_cfo_loopback;
  disable = enable_cfo_loopback;
  read = read_cfo_loopback;
}

abbrev cfo_emulator_drp_flag : Flag
cfo_emulator_drp_flag = record {
  reg = control_reg;
  position = 24;
  enable = enable_cfo_emulator_drp;
  disable = disable_cfo_emulator_drp;
  read = read_cfo_emulator_drp;
}

abbrev autogen_drp_flag : Flag
autogen_drp_flag = record {
  reg = control_reg;
  position = 23;
  enable = enable_autogen_drp;
  disable = disable_autogen_drp;
  read = read_autogen_drp;
}

abbrev down_led0_flag : Flag
down_led0_flag = record {
  reg = control_reg;
  position = 19;
  enable = enable_down_led0;
  disable = disable_down_led0;
  read = read_down_led0_state;
}

abbrev up_led1_flag : Flag
up_led1_flag = record {
  reg = control_reg;
  position = 18;
  enable = enable_up_led1;
  disable = disable_up_led1;
  read = read_up_led1_state;
}

abbrev up_led0_flag : Flag
up_led0_flag = record {
  reg = control_reg;
  position = 17;
  enable = enable_up_led0;
  disable = disable_up_led0;
  read = read_up_led0_state;
}

abbrev led6_flag : Flag
led6_flag = record {
  reg = control_reg;
  position = 16;
  enable = enable_led6;
  disable = disable_led6;
  read = read_led6_state;
}

abbrev cfo_emulation_mode_flag : Flag
cfo_emulation_mode_flag = record {
  reg = control_reg;
  position = 15;
  enable = set_cfo_emulation_mode;
  disable = clear_cfo_emulation_mode;
  read = read_cfo_emulation_mode;
}

abbrev data_filter_flag : Flag
data_filter_flag = record {
  reg = control_reg;
  position = 13;
  enable = set_data_filter_enable;
  disable = clear_data_filter_enable;
  read = read_data_filter_enable;
}

abbrev drp_prefetch_flag : Flag
drp_prefetch_flag = record {
  reg = control_reg;
  position = 12;
  enable = set_drp_prefetch_enable;
  disable = clear_drp_prefetch_enable;
  read = read_drp_prefetch_enable;
}

abbrev drop_data_to_emulate_event_building_flag : Flag
drop_data_to_emulate_event_building_flag = record {
  reg = control_reg;
  position = 10;
  enable = enable_drop_data_to_emulate_event_building;
  disable = disable_drop_data_to_emulate_event_building;
  read = read_drop_data_to_emulate_event_building;
}

abbrev punch_flag : Flag
punch_flag = record {
  reg = control_reg;
  position = 9;
  enable = set_punch_enable;
  disable = clear_punch_enable;
  read = read_punch_enable;
}

abbrev fanout_clock_input_flag : Flag
fanout_clock_input_flag = record {
  reg = control_reg;
  position = 4;
  enable = set_external_fanout_clock_input;
  disable = set_internal_fanout_clock_input;
  read = read_fanout_clock_input;
}

abbrev dcs_reception_flag : Flag
dcs_reception_flag = record {
  reg = control_reg;
  position = 2;
  enable = enable_dcs_reception;
  disable = disable_dcs_reception;
  read = read_dcs_reception;
}

abbrev debug_packet_mode_flag : Flag
debug_packet_mode_flag = record {
  reg = dtc_debug_packet_type_reg;
  position = 16;
  enable = enable_debug_packet_mode;
  disable = disable_debug_packet_mode;
  read = read_debug_packet_mode;
}

abbrev detector_emulator_mode_flag : Flag
detector_emulator_mode_flag = record {
  reg = dtc_det_emulation_control0_reg;
  position = 0;
  enable = enable_detector_emulator_mode;
  disable = disable_detector_emulator_mode;
  read = read_detector_emulator_mode;
}

abbrev event_mode_table_flag : Flag
event_mode_table_flag = record {
  reg = dtc_event_mode_lookup_table_control_reg;
  position = 16;
  enable = set_event_mode_table_enable;
  disable = clear_event_mode_table_enable;
  read = read_event_mode_table_enable;
}

abbrev evb_serdes_prbs_force_error_flag : Flag
evb_serdes_prbs_force_error_flag = record {
  reg = dtc_evb_serdes_prbs_control_status_reg;
  position = 1;
  enable = λ b. set_evb_serdes_prbs_force_error b true;
  disable = λ b. set_evb_serdes_prbs_force_error b false;
  read = read_evb_serdes_prbs_force_error;
}

abbrev evb_serdes_prbs_reset_flag : Flag
evb_serdes_prbs_reset_flag = record {
  reg = dtc_evb_serdes_prbs_control_status_reg;
  position = 0;
  enable = λ b. set_evb_serdes_prbs_reset b true;
  disable = λ b. set_evb_serdes_prbs_reset b false;
  read = read_evb_serdes_prbs_reset;
}

abbrev sfp_rate_select_flag : Flag
sfp_rate_select_flag = record {
  reg = dtc_sfp_control_status_reg;
  position = 1;
  enable = enable_sfp_rate_select;
  disable = disable_sfp_rate_select;
  read = read_sfp_rate_select;
}

abbrev sfp_tx_disable_flag : Flag
sfp_tx_disable_flag = record {
  reg = dtc_sfp_control_status_reg;
  position = 0;
  enable = disable_sfp_tx;
  disable = enable_sfp_tx;
  read = read_sfp_tx_disable;
}

abbrev pub dtc_flags : List Flag
dtc_flags =
    cfo_emulation_flag ∷ cfo_loopback_flag ∷ cfo_emulator_drp_flag ∷ autogen_drp_flag
    ∷ down_led0_flag ∷ up_led1_flag ∷ up_led0_flag ∷ led6_flag ∷ cfo_emulation_mode_flag
    ∷ data_filter_flag ∷ drp_prefetch_flag ∷ drop_data_to_emulate_event_building_flag ∷ punch_flag
    ∷ fanout_clock_input_flag ∷ dcs_reception_flag ∷ debug_packet_mode_flag
    ∷ detector_emulator_mode_flag ∷ event_mode_table_flag ∷ evb_serdes_prbs_force_error_flag
    ∷ evb_serdes_prbs_reset_flag ∷ sfp_rate_select_flag ∷ sfp_tx_disable_flag ∷ []
