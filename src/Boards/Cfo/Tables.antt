-- ===== src/Boards/Cfo/Tables.antt =====
-- The registers that each accessor with a link chooses by it (cfoInterfaceLib/CFO_Registers.cpp).
use mu2e_pcie_utils.Prelude.{ℕ, Option, none, some}
use mu2e_pcie_utils.Boards.Base.{
  Link, link_0, link_1, link_2, link_3, link_4, link_5, link_6, link_7,
}
use mu2e_pcie_utils.Boards.Address.Cfo.{
  cfo_receive_byte_count_data_link0_reg, cfo_receive_byte_count_data_link1_reg,
  cfo_receive_byte_count_data_link2_reg, cfo_receive_byte_count_data_link3_reg,
  cfo_receive_byte_count_data_link4_reg, cfo_receive_byte_count_data_link5_reg,
  cfo_receive_byte_count_data_link6_reg, cfo_receive_byte_count_data_link7_reg,
  cfo_receive_packet_count_data_link0_reg, cfo_receive_packet_count_data_link1_reg,
  cfo_receive_packet_count_data_link2_reg, cfo_receive_packet_count_data_link3_reg,
  cfo_receive_packet_count_data_link4_reg, cfo_receive_packet_count_data_link5_reg,
  cfo_receive_packet_count_data_link6_reg, cfo_receive_packet_count_data_link7_reg,
  cfo_serdes_prbs_control_link0_reg, cfo_serdes_prbs_control_link1_reg,
  cfo_serdes_prbs_control_link2_reg, cfo_serdes_prbs_control_link3_reg,
  cfo_serdes_prbs_control_link4_reg, cfo_serdes_prbs_control_link5_reg,
  cfo_serdes_prbs_control_link6_reg, cfo_serdes_prbs_control_link7_reg,
  cfo_transmit_byte_count_data_link0_reg, cfo_transmit_byte_count_data_link1_reg,
  cfo_transmit_byte_count_data_link2_reg, cfo_transmit_byte_count_data_link3_reg,
  cfo_transmit_byte_count_data_link4_reg, cfo_transmit_byte_count_data_link5_reg,
  cfo_transmit_byte_count_data_link6_reg, cfo_transmit_byte_count_data_link7_reg,
  cfo_transmit_packet_count_data_link0_reg, cfo_transmit_packet_count_data_link1_reg,
  cfo_transmit_packet_count_data_link2_reg, cfo_transmit_packet_count_data_link3_reg,
  cfo_transmit_packet_count_data_link4_reg, cfo_transmit_packet_count_data_link5_reg,
  cfo_transmit_packet_count_data_link6_reg, cfo_transmit_packet_count_data_link7_reg,
}

abbrev pub cfo_receive_byte_count_of : Link → Option ℕ
cfo_receive_byte_count_of link_0 = some cfo_receive_byte_count_data_link0_reg
cfo_receive_byte_count_of link_1 = some cfo_receive_byte_count_data_link1_reg
cfo_receive_byte_count_of link_2 = some cfo_receive_byte_count_data_link2_reg
cfo_receive_byte_count_of link_3 = some cfo_receive_byte_count_data_link3_reg
cfo_receive_byte_count_of link_4 = some cfo_receive_byte_count_data_link4_reg
cfo_receive_byte_count_of link_5 = some cfo_receive_byte_count_data_link5_reg
cfo_receive_byte_count_of link_6 = some cfo_receive_byte_count_data_link6_reg
cfo_receive_byte_count_of link_7 = some cfo_receive_byte_count_data_link7_reg
cfo_receive_byte_count_of _ = none

abbrev pub cfo_receive_packet_count_of : Link → Option ℕ
cfo_receive_packet_count_of link_0 = some cfo_receive_packet_count_data_link0_reg
cfo_receive_packet_count_of link_1 = some cfo_receive_packet_count_data_link1_reg
cfo_receive_packet_count_of link_2 = some cfo_receive_packet_count_data_link2_reg
cfo_receive_packet_count_of link_3 = some cfo_receive_packet_count_data_link3_reg
cfo_receive_packet_count_of link_4 = some cfo_receive_packet_count_data_link4_reg
cfo_receive_packet_count_of link_5 = some cfo_receive_packet_count_data_link5_reg
cfo_receive_packet_count_of link_6 = some cfo_receive_packet_count_data_link6_reg
cfo_receive_packet_count_of link_7 = some cfo_receive_packet_count_data_link7_reg
cfo_receive_packet_count_of _ = none

abbrev pub cfo_transmit_byte_count_of : Link → Option ℕ
cfo_transmit_byte_count_of link_0 = some cfo_transmit_byte_count_data_link0_reg
cfo_transmit_byte_count_of link_1 = some cfo_transmit_byte_count_data_link1_reg
cfo_transmit_byte_count_of link_2 = some cfo_transmit_byte_count_data_link2_reg
cfo_transmit_byte_count_of link_3 = some cfo_transmit_byte_count_data_link3_reg
cfo_transmit_byte_count_of link_4 = some cfo_transmit_byte_count_data_link4_reg
cfo_transmit_byte_count_of link_5 = some cfo_transmit_byte_count_data_link5_reg
cfo_transmit_byte_count_of link_6 = some cfo_transmit_byte_count_data_link6_reg
cfo_transmit_byte_count_of link_7 = some cfo_transmit_byte_count_data_link7_reg
cfo_transmit_byte_count_of _ = none

abbrev pub cfo_transmit_packet_count_of : Link → Option ℕ
cfo_transmit_packet_count_of link_0 = some cfo_transmit_packet_count_data_link0_reg
cfo_transmit_packet_count_of link_1 = some cfo_transmit_packet_count_data_link1_reg
cfo_transmit_packet_count_of link_2 = some cfo_transmit_packet_count_data_link2_reg
cfo_transmit_packet_count_of link_3 = some cfo_transmit_packet_count_data_link3_reg
cfo_transmit_packet_count_of link_4 = some cfo_transmit_packet_count_data_link4_reg
cfo_transmit_packet_count_of link_5 = some cfo_transmit_packet_count_data_link5_reg
cfo_transmit_packet_count_of link_6 = some cfo_transmit_packet_count_data_link6_reg
cfo_transmit_packet_count_of link_7 = some cfo_transmit_packet_count_data_link7_reg
cfo_transmit_packet_count_of _ = none

abbrev pub cfo_serdes_prbs_control_of : Link → Option ℕ
cfo_serdes_prbs_control_of link_0 = some cfo_serdes_prbs_control_link0_reg
cfo_serdes_prbs_control_of link_1 = some cfo_serdes_prbs_control_link1_reg
cfo_serdes_prbs_control_of link_2 = some cfo_serdes_prbs_control_link2_reg
cfo_serdes_prbs_control_of link_3 = some cfo_serdes_prbs_control_link3_reg
cfo_serdes_prbs_control_of link_4 = some cfo_serdes_prbs_control_link4_reg
cfo_serdes_prbs_control_of link_5 = some cfo_serdes_prbs_control_link5_reg
cfo_serdes_prbs_control_of link_6 = some cfo_serdes_prbs_control_link6_reg
cfo_serdes_prbs_control_of link_7 = some cfo_serdes_prbs_control_link7_reg
cfo_serdes_prbs_control_of _ = none
