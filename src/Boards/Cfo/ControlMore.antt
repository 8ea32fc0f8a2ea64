-- ===== src/Boards/Cfo/ControlMore.antt =====
-- Accessors of `CFO_Registers` (cfoInterfaceLib/CFO_Registers.cpp): control bits, links and the serialisers.
use mu2e_pcie_utils.Prelude.{Bool, ℕ, Option, ok, ◌>>=◌}
use mu2e_pcie_utils.Registers.Bitset.{test_bit}
use mu2e_pcie_utils.Boards.Base.{Board, Query, Link, value_or}
use mu2e_pcie_utils.Boards.Address.Cfo.{cfo_enable_beam_on_mode_reg}

abbrev pub read_beam_on_mode : (b : Board) → Link → Option ℕ → Query b Bool
read_beam_on_mode b link val s = do
  (v₁, s₁) ← value_or b cfo_enable_beam_on_mode_reg val s
  ok (test_bit v₁ 0, s₁)
