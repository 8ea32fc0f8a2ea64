-- ===== src/Boards/Cfo/Counters.antt =====
-- Accessors of `CFO_Registers` (cfoInterfaceLib/CFO_Registers.cpp): byte and packet counters.
use mu2e_pcie_utils.Prelude.{ℕ, Option, ok, ◌>>=◌}
use mu2e_pcie_utils.Boards.Base.{Board, Action, Query, Link, write, value_or, register_of}
use mu2e_pcie_utils.Boards.Address.Cfo.{cfo_ddr_memory_dma_write_start_address_reg}
use mu2e_pcie_utils.Boards.Cfo.Tables.{
  cfo_receive_byte_count_of, cfo_receive_packet_count_of, cfo_transmit_byte_count_of,
  cfo_transmit_packet_count_of,
}

abbrev pub read_receive_byte_count : (b : Board) → Link → Option ℕ → Query b ℕ
read_receive_byte_count b link val s = do
  reg ← register_of (cfo_receive_byte_count_of link)
  (v₁, s₁) ← value_or b reg val s
  ok (v₁, s₁)

abbrev pub clear_receive_packet_count : (b : Board) → Link → Action b
clear_receive_packet_count b link s = do
  reg ← register_of (cfo_receive_packet_count_of link)
  write b reg 0 s

abbrev pub read_receive_packet_count : (b : Board) → Link → Option ℕ → Query b ℕ
read_receive_packet_count b link val s = do
  reg ← register_of (cfo_receive_packet_count_of link)
  (v₁, s₁) ← value_or b reg val s
  ok (v₁, s₁)

abbrev pub clear_transmit_byte_count : (b : Board) → Link → Action b
clear_transmit_byte_count b link s = do
  reg ← register_of (cfo_transmit_byte_count_of link)
  write b reg 0 s

abbrev pub read_transmit_byte_count : (b : Board) → Link → Option ℕ → Query b ℕ
read_transmit_byte_count b link val s = do
  reg ← register_of (cfo_transmit_byte_count_of link)
  (v₁, s₁) ← value_or b reg val s
  ok (v₁, s₁)

abbrev pub clear_transmit_packet_count : (b : Board) → Link → Action b
clear_transmit_packet_count b link s = do
  reg ← register_of (cfo_transmit_packet_count_of link)
  write b reg 0 s

abbrev pub read_transmit_packet_count : (b : Board) → Link → Option ℕ → Query b ℕ
read_transmit_packet_count b link val s = do
  reg ← register_of (cfo_transmit_packet_count_of link)
  (v₁, s₁) ← value_or b reg val s
  ok (v₁, s₁)

abbrev pub set_dma_write_start_address : (b : Board) → ℕ → Action b
set_dma_write_start_address b address s =
    write b cfo_ddr_memory_dma_write_start_address_reg address s

abbrev pub read_dma_write_start_address : (b : Board) → Option ℕ → Query b ℕ
read_dma_write_start_address b val s = do
  (v₁, s₁) ← value_or b cfo_ddr_memory_dma_write_start_address_reg val s
  ok (v₁, s₁)
