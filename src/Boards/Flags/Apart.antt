-- ===== src/Boards/Flags/Apart.antt =====
-- The flags listed do not disturb one another (dtcInterfaceLib/DTC_Registers.cpp,
-- cfoInterfaceLib/CFO_Registers.cpp).
use mu2e_pcie_utils.Prelude.{Bool, not}
use mu2e_pcie_utils.Boards.Base.{Board}
use mu2e_pcie_utils.Boards.Bank.{IsBank}
use mu2e_pcie_utils.Boards.Flags.Defs.{Flag, is_same}
use mu2e_pcie_utils.Boards.Flags.Laws.{IsLive, Apart}

abbrev is_apart : Flag → Flag → Bool
is_apart f g = not (is_same f g)

module _ (b : Board) (bank : IsBank b.port) (s : b.port.State) (live : IsLive b bank s) where
  abbrev pub BothApart : Flag → Flag → Type 0
  BothApart f g = Apart b bank s f g × Apart b bank s g f
