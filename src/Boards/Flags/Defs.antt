-- ===== src/Boards/Flags/Defs.antt =====
-- A bit of a register with its three accessors.
use mu2e_pcie_utils.Prelude.{ℕ, Bool, Option, not, ◌&&◌, ◌==◌, ltb}
use mu2e_pcie_utils.Registers.Access.{control, serdes_clock_iic_high}
use mu2e_pcie_utils.Boards.Base.{Board, Action, Query}

pub record Flag : Type 1 where
  pub reg : ℕ
  pub position : ℕ
  pub enable : (b : Board) → Action b
  pub disable : (b : Board) → Action b
  pub read : (b : Board) → Option ℕ → Query b Bool

-- A bit within the width, of a register that is not the one of the I2C transfer, and not the bit of
-- the control register that asks for a reset.
abbrev pub is_plain : Flag → Bool
is_plain f =
    not (f.reg == serdes_clock_iic_high)
    && (not (ltb 31 f.position) && not (f.reg == control && f.position == 0))

abbrev pub is_same : Flag → Flag → Bool
is_same f g = f.reg == g.reg && f.position == g.position
