-- ===== src/Boards/Dtc/Counters.antt =====
-- Accessors of `DTC_Registers` (dtcInterfaceLib/DTC_Registers.cpp): byte and packet counters.
use mu2e_pcie_utils.Prelude.{ℕ, Option, ok, ◌>>=◌}
use mu2e_pcie_utils.Boards.Base.{Board, Action, Query, Link, write, value_or, register_of}
use mu2e_pcie_utils.Boards.Dtc.Tables.{
  dtc_receive_byte_count_of, dtc_receive_packet_count_of, dtc_transmit_byte_count_of,
  dtc_transmit_packet_count_of,
}

abbrev pub clear_receive_byte_count : (b : Board) → Link → Action b
clear_receive_byte_count b link s = do
  reg ← register_of (dtc_receive_byte_count_of link)
  write b reg 0 s

abbrev pub read_receive_byte_count : (b : Board) → Link → Option ℕ → Query b ℕ
read_receive_byte_count b link val s = do
  reg ← register_of (dtc_receive_byte_count_of link)
  (v₁, s₁) ← value_or b reg val s
  ok (v₁, s₁)

abbrev pub clear_receive_packet_count : (b : Board) → Link → Action b
clear_receive_packet_count b link s = do
  reg ← register_of (dtc_receive_packet_count_of link)
  write b reg 0 s

abbrev pub read_receive_packet_count : (b : Board) → Link → Option ℕ → Query b ℕ
read_receive_packet_count b link val s = do
  reg ← register_of (dtc_receive_packet_count_of link)
  (v₁, s₁) ← value_or b reg val s
  ok (v₁, s₁)

abbrev pub clear_transmit_byte_count : (b : Board) → Link → Action b
clear_transmit_byte_count b link s = do
  reg ← register_of (dtc_transmit_byte_count_of link)
  write b reg 0 s

abbrev pub read_transmit_byte_count : (b : Board) → Link → Option ℕ → Query b ℕ
read_transmit_byte_count b link val s = do
  reg ← register_of (dtc_transmit_byte_count_of link)
  (v₁, s₁) ← value_or b reg val s
  ok (v₁, s₁)

abbrev pub clear_transmit_packet_count : (b : Board) → Link → Action b
clear_transmit_packet_count b link s = do
  reg ← register_of (dtc_transmit_packet_count_of link)
  write b reg 0 s

abbrev pub read_transmit_packet_count : (b : Board) → Link → Option ℕ → Query b ℕ
read_transmit_packet_count b link val s = do
  reg ← register_of (dtc_transmit_packet_count_of link)
  (v₁, s₁) ← value_or b reg val s
  ok (v₁, s₁)
