-- ===== src/Boards/Cfo/Memory.antt =====
-- Accessors of `CFO_Registers` (cfoInterfaceLib/CFO_Registers.cpp): the memory of run plans and the optical modules.
use mu2e_pcie_utils.Prelude.{Bool, ℕ, Option, ok, ◌>>=◌}
use mu2e_pcie_utils.Registers.Bitset.{test_bit, assign_bit}
use mu2e_pcie_utils.Boards.Base.{Board, Action, Query, read, write, value_or}
use mu2e_pcie_utils.Boards.Address.Cfo.{
  cfo_ddr_memory_dma_read_byte_count_reg, cfo_ddr_memory_dma_read_start_address_reg,
  cfo_firefly_csr_register_reg, cfo_run_plan_beam_off_base_address_reg,
  cfo_run_plan_beam_on_base_address_reg,
}

abbrev pub set_dma_read_start_address : (b : Board) → ℕ → Action b
set_dma_read_start_address b address s = write b cfo_ddr_memory_dma_read_start_address_reg address s

abbrev pub read_dma_read_start_address : (b : Board) → Option ℕ → Query b ℕ
read_dma_read_start_address b val s = do
  (v₁, s₁) ← value_or b cfo_ddr_memory_dma_read_start_address_reg val s
  ok (v₁, s₁)

abbrev pub set_dma_read_byte_count : (b : Board) → ℕ → Action b
set_dma_read_byte_count b bytes s = write b cfo_ddr_memory_dma_read_byte_count_reg bytes s

abbrev pub read_dma_read_byte_count : (b : Board) → Option ℕ → Query b ℕ
read_dma_read_byte_count b val s = do
  (v₁, s₁) ← value_or b cfo_ddr_memory_dma_read_byte_count_reg val s
  ok (v₁, s₁)

abbrev pub set_run_plan_beam_on_base_address : (b : Board) → ℕ → Action b
set_run_plan_beam_on_base_address b address s =
    write b cfo_run_plan_beam_on_base_address_reg address s

abbrev pub read_run_plan_beam_on_base_address : (b : Board) → Option ℕ → Query b ℕ
read_run_plan_beam_on_base_address b val s = do
  (v₁, s₁) ← value_or b cfo_run_plan_beam_on_base_address_reg val s
  ok (v₁, s₁)

abbrev pub set_run_plan_beam_off_base_address : (b : Board) → ℕ → Action b
set_run_plan_beam_off_base_address b address s =
    write b cfo_run_plan_beam_off_base_address_reg address s

abbrev pub read_run_plan_beam_off_base_address : (b : Board) → Option ℕ → Query b ℕ
read_run_plan_beam_off_base_address b val s = do
  (v₁, s₁) ← value_or b cfo_run_plan_beam_off_base_address_reg val s
  ok (v₁, s₁)

abbrev pub read_firefly_tx_rx_present : (b : Board) → Option ℕ → Query b Bool
read_firefly_tx_rx_present b val s = do
  (v₁, s₁) ← value_or b cfo_firefly_csr_register_reg val s
  ok (test_bit v₁ 26, s₁)

abbrev pub read_firefly_rx_present : (b : Board) → Option ℕ → Query b Bool
read_firefly_rx_present b val s = do
  (v₁, s₁) ← value_or b cfo_firefly_csr_register_reg val s
  ok (test_bit v₁ 25, s₁)

abbrev pub read_firefly_tx_present : (b : Board) → Option ℕ → Query b Bool
read_firefly_tx_present b val s = do
  (v₁, s₁) ← value_or b cfo_firefly_csr_register_reg val s
  ok (test_bit v₁ 24, s₁)

abbrev pub read_firefly_tx_rx_interrupt : (b : Board) → Option ℕ → Query b Bool
read_firefly_tx_rx_interrupt b val s = do
  (v₁, s₁) ← value_or b cfo_firefly_csr_register_reg val s
  ok (test_bit v₁ 18, s₁)

abbrev pub read_firefly_rx_interrupt : (b : Board) → Option ℕ → Query b Bool
read_firefly_rx_interrupt b val s = do
  (v₁, s₁) ← value_or b cfo_firefly_csr_register_reg val s
  ok (test_bit v₁ 17, s₁)

abbrev pub read_firefly_tx_interrupt : (b : Board) → Option ℕ → Query b Bool
read_firefly_tx_interrupt b val s = do
  (v₁, s₁) ← value_or b cfo_firefly_csr_register_reg val s
  ok (test_bit v₁ 16, s₁)

abbrev pub set_firefly_tx_rx_select : (b : Board) → Bool → Action b
set_firefly_tx_rx_select b select s = do
  (v₁, s₁) ← read b cfo_firefly_csr_register_reg s
  write b cfo_firefly_csr_register_reg (assign_bit v₁ 10 select) s₁

abbrev pub set_firefly_rx_select : (b : Board) → Bool → Action b
set_firefly_rx_select b select s = do
  (v₁, s₁) ← read b cfo_firefly_csr_register_reg s
  write b cfo_firefly_csr_register_reg (assign_bit v₁ 9 select) s₁

abbrev pub set_firefly_tx_select : (b : Board) → Bool → Action b
set_firefly_tx_select b select s = do
  (v₁, s₁) ← read b cfo_firefly_csr_register_reg s
  write b cfo_firefly_csr_register_reg (assign_bit v₁ 8 select) s₁

abbrev pub read_firefly_tx_rx_select : (b : Board) → Option ℕ → Query b Bool
read_firefly_tx_rx_select b val s = do
  (v₁, s₁) ← value_or b cfo_firefly_csr_register_reg val s
  ok (test_bit v₁ 10, s₁)

abbrev pub read_firefly_rx_select : (b : Board) → Option ℕ → Query b Bool
read_firefly_rx_select b val s = do
  (v₁, s₁) ← value_or b cfo_firefly_csr_register_reg val s
  ok (test_bit v₁ 9, s₁)

abbrev pub read_firefly_tx_select : (b : Board) → Option ℕ → Query b Bool
read_firefly_tx_select b val s = do
  (v₁, s₁) ← value_or b cfo_firefly_csr_register_reg val s
  ok (test_bit v₁ 8, s₁)

abbrev pub set_firefly_tx_rx_reset : (b : Board) → Bool → Action b
set_firefly_tx_rx_reset b reset s = do
  (v₁, s₁) ← read b cfo_firefly_csr_register_reg s
  write b cfo_firefly_csr_register_reg (assign_bit v₁ 2 reset) s₁

abbrev pub set_firefly_rx_reset : (b : Board) → Bool → Action b
set_firefly_rx_reset b reset s = do
  (v₁, s₁) ← read b cfo_firefly_csr_register_reg s
  write b cfo_firefly_csr_register_reg (assign_bit v₁ 1 reset) s₁

abbrev pub set_firefly_tx_reset : (b : Board) → Bool → Action b
set_firefly_tx_reset b reset s = do
  (v₁, s₁) ← read b cfo_firefly_csr_register_reg s
  write b cfo_firefly_csr_register_reg (assign_bit v₁ 0 reset) s₁

abbrev pub read_firefly_tx_rx_reset : (b : Board) → Option ℕ → Query b Bool
read_firefly_tx_rx_reset b val s = do
  (v₁, s₁) ← value_or b cfo_firefly_csr_register_reg val s
  ok (test_bit v₁ 2, s₁)

abbrev pub read_firefly_rx_reset : (b : Board) → Option ℕ → Query b Bool
read_firefly_rx_reset b val s = do
  (v₁, s₁) ← value_or b cfo_firefly_csr_register_reg val s
  ok (test_bit v₁ 1, s₁)

abbrev pub read_firefly_tx_reset : (b : Board) → Option ℕ → Query b Bool
read_firefly_tx_reset b val s = do
  (v₁, s₁) ← value_or b cfo_firefly_csr_register_reg val s
  ok (test_bit v₁ 0, s₁)
