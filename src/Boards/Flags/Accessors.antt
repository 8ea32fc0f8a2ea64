-- ===== src/Boards/Flags/Accessors.antt =====
-- The accessors of single bits are `SetBit_` and `GetBit_` (dtcInterfaceLib/CFOandDTC_Registers.cpp).
use mu2e_pcie_utils.Prelude.{ok, some, ℕ, ◌++◌, All-append, List, true, false, none, ◌≡◌, refl, All}
use mu2e_pcie_utils.Registers.Access.{get_bit, set_bit}
use mu2e_pcie_utils.Registers.Bitset.{test_bit}
use mu2e_pcie_utils.Boards.Base.{Board, change_bit}
use mu2e_pcie_utils.Boards.Flags.Defs.{Flag}
use mu2e_pcie_utils.Boards.Flags.Common.{common_flags}
use mu2e_pcie_utils.Boards.Flags.Dtc.{dtc_flags}
use mu2e_pcie_utils.Boards.Flags.Cfo.{cfo_flags}

abbrev pub flags : List Flag
flags = common_flags ++ (dtc_flags ++ cfo_flags)

-- In the state `s`, the accessors do what `SetBit_` and `GetBit_` of their bit do, errors included.
abbrev pub IsAccessor : (b : Board) → b.port.State → Flag → Type 0
IsAccessor b s f =
    (f.enable b s ≡ change_bit b f.reg f.position true s)
    × (f.disable b s ≡ change_bit b f.reg f.position false s)
    × (f.read b none s ≡ get_bit b.port f.reg f.position s)
    × ((x : ℕ) → f.read b (some x) s ≡ ok (test_bit x f.position, s))

infixr 5 ◌&◌
◌&◌ : {X Y : Type 0} → X → Y → X × Y
h & hs = (h, hs)

module _ (b : Board) (s : b.port.State) where
  common_flags-IsAccessor : All (IsAccessor b s) common_flags
  unfolding set_bit get_bit
  common_flags-IsAccessor = (refl, refl, refl, λ x. refl) & (refl, refl, refl, λ x. refl) & tt {0}

  dtc_flags-IsAccessor : All (IsAccessor b s) dtc_flags
  unfolding set_bit get_bit
  dtc_flags-IsAccessor =
      (refl, refl, refl, λ x. refl)
      & (refl, refl, refl, λ x. refl)
      & (refl, refl, refl, λ x. refl)
      & (refl, refl, refl, λ x. refl)
      & (refl, refl, refl, λ x. refl)
      & (refl, refl, refl, λ x. refl)
      & (refl, refl, refl, λ x. refl)
      & (refl, refl, refl, λ x. refl)
      & (refl, refl, refl, λ x. refl)
      & (refl, refl, refl, λ x. refl)
      & (refl, refl, refl, λ x. refl)
      & (refl, refl, refl, λ x. refl)
      & (refl, refl, refl, λ x. refl)
      & (refl, refl, refl, λ x. refl)
      & (refl, refl, refl, λ x. refl)
      & (refl, refl, refl, λ x. refl)
      & (refl, refl, refl, λ x. refl)
      & (refl, refl, refl, λ x. refl)
      & (refl, refl, refl, λ x. refl)
      & (refl, refl, refl, λ x. refl)
      & (refl, refl, refl, λ x. refl)
      & (refl, refl, refl, λ x. refl)
      & tt {0}

  cfo_flags-IsAccessor : All (IsAccessor b s) cfo_flags
  unfolding set_bit get_bit
  cfo_flags-IsAccessor =
      (refl, refl, refl, λ x. refl)
      & (refl, refl, refl, λ x. refl)
      & (refl, refl, refl, λ x. refl)
      & (refl, refl, refl, λ x. refl)
      & (refl, refl, refl, λ x. refl)
      & (refl, refl, refl, λ x. refl)
      & (refl, refl, refl, λ x. refl)
      & (refl, refl, refl, λ x. refl)
      & (refl, refl, refl, λ x. refl)
      & tt {0}

  pub dtc_board-IsAccessor : All (IsAccessor b s) (common_flags ++ dtc_flags)
  dtc_board-IsAccessor =
      All-append (IsAccessor b s) common_flags dtc_flags common_flags-IsAccessor
        dtc_flags-IsAccessor

  pub cfo_board-IsAccessor : All (IsAccessor b s) (common_flags ++ cfo_flags)
  cfo_board-IsAccessor =
      All-append (IsAccessor b s) common_flags cfo_flags common_flags-IsAccessor
        cfo_flags-IsAccessor

  -- For each of the 33 flags listed, the accessor that sets its bit and the one that clears it do what
  -- `SetBit_` of that bit does, and the one that reads it does what `GetBit_` does, on every device
  -- and in every state, failures included; given a value, it reads that bit of the value.
  pub flags-IsAccessor : All (IsAccessor b s) flags
  flags-IsAccessor =
      All-append (IsAccessor b s) common_flags (dtc_flags ++ cfo_flags) common_flags-IsAccessor
        (All-append (IsAccessor b s) dtc_flags cfo_flags dtc_flags-IsAccessor cfo_flags-IsAccessor)
