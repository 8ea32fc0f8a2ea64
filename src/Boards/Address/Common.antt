-- ===== src/Boards/Address/Common.antt =====
-- Addresses of registers (dtcInterfaceLib/CFOandDTC_Registers.h).
use mu2e_pcie_utils.Prelude.{ℕ}

abbrev pub design_date_reg : ℕ
design_date_reg = 0x9004

abbrev pub design_status_reg : ℕ
design_status_reg = 0x9008

abbrev pub fpga_monitor_alarm_reg : ℕ
fpga_monitor_alarm_reg = 0x9020

abbrev pub control_reg : ℕ
control_reg = 0x9100

abbrev pub dma_transfer_length_reg : ℕ
dma_transfer_length_reg = 0x9104

abbrev pub clock_oscillator_status_reg : ℕ
clock_oscillator_status_reg = 0x910C

abbrev pub link_enable_reg : ℕ
link_enable_reg = 0x9114

abbrev pub serdes_reset_reg : ℕ
serdes_reset_reg = 0x9118

abbrev pub serdes_unlock_error_reg : ℕ
serdes_unlock_error_reg = 0x9124

abbrev pub serdes_pll_locked_reg : ℕ
serdes_pll_locked_reg = 0x9128

abbrev pub serdes_pll_power_down_reg : ℕ
serdes_pll_power_down_reg = 0x912C

abbrev pub serdes_reset_done_reg : ℕ
serdes_reset_done_reg = 0x9138

abbrev pub firefly_tx_iic_bus_control_reg : ℕ
firefly_tx_iic_bus_control_reg = 0x9284

abbrev pub firefly_rx_iic_bus_control_reg : ℕ
firefly_rx_iic_bus_control_reg = 0x9294

abbrev pub firefly_tx_rx_iic_bus_control_reg : ℕ
firefly_tx_rx_iic_bus_control_reg = 0x92A4

abbrev pub fire_fly_control_status_reg : ℕ
fire_fly_control_status_reg = 0x93A0
