-- ===== src/Boards/Reset/Returns.antt =====
-- That `ResetSERDES` (dtcInterfaceLib/DTC_Registers.cpp) returns when the reset is done in time.
use Prim.Native.Nat.{bit_and}
use mu2e_pcie_utils.Prelude.{
  ℕ, zero, suc, ◌+◌, ◌/◌, ◌%◌, ◌^◌, ◌<◌, ◌≡◌, refl, Bool, true, false, ◌&&◌, ◌==◌, if◌then◌else◌,
  ok, Bool-cases, inl, inr, arith,
}
use mu2e_pcie_utils.Registers.Bitset.{test_bit}
use mu2e_pcie_utils.Boards.Base.{Board, Link, sleep}
use mu2e_pcie_utils.Boards.Framed.{IsFramed, IsAccepted, read-framed, write-framed}
use mu2e_pcie_utils.Boards.Address.Common.{serdes_reset_done_reg, serdes_reset_reg}
use mu2e_pcie_utils.Boards.Reset.{is_all, reset_done, mark_reset, poll_reset, reset_serdes}

module _ (b : Board) (framed : IsFramed b.port) (link : Link) (interval : ℕ) where
  open b.port use {State}
  open framed use {contents, stored}

  -- What the value of the register of finished resets says of the link, or of the six links of ROCs.
  abbrev pub shows_done : ℕ → Bool
  shows_done x =
      if is_all link
      then bit_and x 0x3F == 0x3F && bit_and (x / 2 ^ 16) 0x3F == 0x3F
      else test_bit x ((b.index link + 16) % 2 ^ 32) && test_bit x (b.index link)

  -- The state at the poll `k`, counted from 0.
  abbrev pub polled : ℕ → State → State
  polled zero s = sleep b interval s
  polled (suc k) s = polled k (sleep b interval s)

  done-shows :
      (s : State) → reset_done b link s ≡ ok (shows_done (contents s serdes_reset_done_reg), s)
  done-shows s =
      let x = contents s serdes_reset_done_reg in
      let reading = read-framed b framed serdes_reset_done_reg s refl in
      elim (Bool-cases (is_all link)) [
        | inl all ↦ elim (Bool-cases (bit_and x 0x3F == 0x3F)) [
          | inl low ↦ rw (all, reading, low, reading) refl
          | inr low ↦ rw (all, reading, low) refl
        ]
        | inr one ↦ elim (Bool-cases (test_bit x ((b.index link + 16) % 2 ^ 32))) [
          | inl rx ↦ rw (one, reading, rx, reading) refl
          | inr rx ↦ rw (one, reading, rx) refl
        ]
      ]

  poll-returns :
      (rounds k : ℕ) (s : State)
      → k < rounds
      → shows_done (contents (polled k s) serdes_reset_done_reg) ≡ true
      → (t : State) × (poll_reset b rounds link interval s ≡ ok t)
  unfolding poll_reset
  poll-returns zero k s h done = absurd (omega arith)
  poll-returns (suc rounds) zero s h done =
      (sleep b interval s, rw (done-shows (sleep b interval s), done) refl)
  poll-returns (suc rounds) (suc k) s h done =
      let here = shows_done (contents (sleep b interval s) serdes_reset_done_reg) in
      elim (Bool-cases here) [
        | inl now ↦ (sleep b interval s, rw (done-shows (sleep b interval s), now) refl)
        | inr later ↦
            let rest = poll-returns rounds k (sleep b interval s) (omega (arith, h)) done in
            (rest.0, rw (done-shows (sleep b interval s), later) rest.1)
      ]

  -- The state after the pulse on the reset bits.
  abbrev pub pulsed : State → State
  pulsed s =
      let s₂ = stored serdes_reset_reg (mark_reset b link (contents s serdes_reset_reg) true) s in
      stored serdes_reset_reg (mark_reset b link (contents s₂ serdes_reset_reg) false) s₂

  -- The state after its first half.
  abbrev pub raised : State → State
  raised s = stored serdes_reset_reg (mark_reset b link (contents s serdes_reset_reg) true) s

  pub reset_serdes-returns :
      (k : ℕ) (s : State)
      → IsAccepted b framed serdes_reset_reg
          (mark_reset b link (contents s serdes_reset_reg) true)
          s
      → IsAccepted b framed serdes_reset_reg
          (mark_reset b link (contents (raised s) serdes_reset_reg) false)
          (raised s)
      → k < 99
      → shows_done (contents (polled k (pulsed s)) serdes_reset_done_reg) ≡ true
      → (t : State) × (reset_serdes b link interval s ≡ ok t)
  unfolding reset_serdes
  reset_serdes-returns k s up down h done =
      let s₂ = raised s in
      let rest = poll-returns 99 k (pulsed s) h done in
      (
        rest.0,
        rw
            (
              read-framed b framed serdes_reset_reg s refl,
              write-framed b framed serdes_reset_reg
                  (mark_reset b link (contents s serdes_reset_reg) true) s refl up,
              read-framed b framed serdes_reset_reg s₂ refl,
              write-framed b framed serdes_reset_reg
                  (mark_reset b link (contents s₂ serdes_reset_reg) false) s₂ refl down,
            )
            rest.1,
      )
