-- ===== src/Boards/Reset.antt =====
-- `ResetSERDES` of dtcInterfaceLib/DTC_Registers.cpp. Its loop has 99 rounds at most.
pub mod Seen
pub mod Returns
use Prim.Native.Nat.{bit_and}
use mu2e_pcie_utils.Prelude.{
  ℕ, zero, suc, ◌/◌, ◌^◌, Bool, true, false, ◌==◌, if◌then◌else◌, Outcome, ok, err, ◌>>=◌, none,
}
use mu2e_pcie_utils.Registers.Port.{RegisterError, reset_timeout}
use mu2e_pcie_utils.Registers.Bitset.{assign_bit}
use mu2e_pcie_utils.Boards.Base.{Board, Action, Query, Link, link_all, read, write, sleep}
use mu2e_pcie_utils.Boards.Dtc.SerdesStatus.{read_reset_rx_serdes_done, read_reset_tx_serdes_done}
use mu2e_pcie_utils.Boards.Address.Common.{serdes_reset_reg, serdes_reset_done_reg}

-- `link == DTC_Link_ALL`.
abbrev pub is_all : Link → Bool
is_all link_all = true
is_all _ = false

-- The bits 0 to 7 of the reset register, or the one of the link.
abbrev pub assign_all : ℕ → ℕ → Bool → ℕ
assign_all zero x v = x
assign_all (suc i) x v = assign_bit (assign_all i x v) i v

abbrev pub mark_reset : Board → Link → ℕ → Bool → ℕ
mark_reset b link x v = if is_all link then assign_all 8 x v else assign_bit x (b.index link) v

-- Whether both sides of the six links of ROCs have been reset. The second reading is made only when
-- the first is good.
abbrev pub all_reset_done : (b : Board) → Query b Bool
all_reset_done b s = do
  (v, s₁) ← read b serdes_reset_done_reg s
  if bit_and v 0x3F == 0x3F
      then (do
        (w, s₂) ← read b serdes_reset_done_reg s₁
        ok (bit_and (w / 2 ^ 16) 0x3F == 0x3F, s₂))
      else ok (false, s₁)

-- The same of one link.
abbrev pub link_reset_done : (b : Board) → Link → Query b Bool
link_reset_done b link s = do
  (rx, s₁) ← read_reset_rx_serdes_done b link none s
  if rx then read_reset_tx_serdes_done b link none s₁ else ok (false, s₁)

abbrev pub reset_done : (b : Board) → Link → Query b Bool
reset_done b link s = if is_all link then all_reset_done b s else link_reset_done b link s

-- The loop, with the rounds left.
unfoldable pub poll_reset : (b : Board) → ℕ → Link → ℕ → Action b
poll_reset b zero link interval s = err reset_timeout
poll_reset b (suc rounds) link interval s = do
  (done, s₁) ← reset_done b link (sleep b interval s)
  let again = poll_reset b rounds link interval s₁ in if done then ok s₁ else again

unfoldable pub reset_serdes : (b : Board) → Link → ℕ → Action b
unfolding poll_reset
reset_serdes b link interval s = do
  (v₁, s₁) ← read b serdes_reset_reg s
  s₂ ← write b serdes_reset_reg (mark_reset b link v₁ true) s₁
  (v₃, s₃) ← read b serdes_reset_reg s₂
  s₄ ← write b serdes_reset_reg (mark_reset b link v₃ false) s₃
  poll_reset b 99 link interval s₄
