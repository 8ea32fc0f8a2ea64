-- ===== src/Boards/Flags/Misplaced.antt =====
-- Three accessors that write another bit than the one they are named for
-- (dtcInterfaceLib/CFOandDTC_Registers.cpp, dtcInterfaceLib/DTC_Registers.cpp).
use mu2e_pcie_utils.Prelude.{
  ◌-◌, ℕ, ◌^◌, ◌*◌, ◌%◌, ◌<◌, ◌≡◌, refl, ap, ◌∙◌, Bool, true, false, not, ◌&&◌, ◌==◌, ok, none,
  arith, ne→==,
}
use mu2e_pcie_utils.Registers.Access.{control}
use mu2e_pcie_utils.Registers.Bitset.{bit, bit_of, test_bit, assign_bit}
use mu2e_pcie_utils.Registers.Bitset.Assign.{bit-assign_same, bit-assign_other, assign_lt}
use mu2e_pcie_utils.Boards.Address.Common.{fire_fly_control_status_reg, control_reg}
use mu2e_pcie_utils.Boards.Address.DtcMiddle.{dtc_evb_serdes_prbs_control_status_reg}
use mu2e_pcie_utils.Boards.Base.{Board, read, sleep}
use mu2e_pcie_utils.Boards.Bank.{IsBank, read-contents, write-written}
use mu2e_pcie_utils.Boards.Common.Alarms.{
  set_tx_rx_firefly_select, read_tx_rx_firefly_select, read_tx_firefly_select,
}
use mu2e_pcie_utils.Boards.Dtc.Builder.{
  toggle_evb_serdes_prbs_force_error, read_evb_serdes_prbs_force_error, read_evb_serdes_prbs_reset,
}
use mu2e_pcie_utils.Boards.Dtc.ControlMore.{read_drp_prefetch_enable}
use mu2e_pcie_utils.Boards.Dtc.ControlRest.{roc_interface_soft_reset}
use mu2e_pcie_utils.Boards.Flags.Laws.{IsLive, live-reads}

test-bit_of_shifted : (v : Bool) → test_bit (bit_of v * 2 ^ 9 % 2 ^ 32) 9 ≡ v
test-bit_of_shifted true = refl
test-bit_of_shifted false = refl

test-bit_of_above : (v : Bool) → test_bit (bit_of v * 2 ^ 9 % 2 ^ 32) 10 ≡ false
test-bit_of_above true = refl
test-bit_of_above false = refl

bit_of-test : (v : Bool) → (bit_of v == 1) ≡ v
bit_of-test true = refl
bit_of-test false = refl

module _ (b : Board) (bank : IsBank b.port) where
  open b.port use {State}
  open bank.memory use {contents, contents_lt, written, contents-written}

  -- A register reads as what was written last.
  read-written :
      (a x : ℕ) (s : State)
      → x < 2 ^ 32
      → (a == control && x == 2 ^ 32 - 1) ≡ false
      → read b a (written a x s) ≡ ok (x, written a x s)
  read-written a x s fits live =
      let kept = contents-written a x s fits in
      read-contents b bank a (written a x s) (rw kept live)
      ∙ ap (λ (c : ℕ). ok (c, written a x s)) kept

  -- The bit that `SetTXRXFireflySelect` writes is read as the select of the transmitter alone.
  abbrev pub SelectMisplaced : Bool → State → Type 0
  SelectMisplaced v s =
      (t : State) × (set_tx_rx_firefly_select b v s ≡ ok t)
      × (read_tx_firefly_select b none t ≡ ok (v, t))
      × (read_tx_rx_firefly_select b none t ≡ ok (false, t))

  -- `ToggleEVBSERDESPRBSForceError` leaves the bit that forces errors, and flips that of the reset.
  abbrev pub ToggleMisplaced : State → Type 0
  ToggleMisplaced s =
      (t : State) × (toggle_evb_serdes_prbs_force_error b s ≡ ok t)
      × (read_evb_serdes_prbs_force_error b none t
          ≡ ok (test_bit (contents s dtc_evb_serdes_prbs_control_status_reg) 1, t))
      × (read_evb_serdes_prbs_reset b none t
          ≡ ok (not (test_bit (contents s dtc_evb_serdes_prbs_control_status_reg) 0), t))

  -- `ROCInterfaceSoftReset` leaves the prefetch of the DRP disabled.
  abbrev pub ResetMisplaced : State → Type 0
  ResetMisplaced s =
      (t : State) × (roc_interface_soft_reset b s ≡ ok t)
      × (read_drp_prefetch_enable b none t ≡ ok (false, t))

  select-Misplaced : (v : Bool) (s : State) → SelectMisplaced v s
  select-Misplaced v s =
      let a = fire_fly_control_status_reg in
      let x = bit_of v * 2 ^ 9 % 2 ^ 32 in
      let t = written a x s in
      let back = read-written a x s (omega arith) refl in
      (
        t,
        write-written b bank a x s refl,
        rw back (ap (λ (c : Bool). ok (c, t)) (test-bit_of_shifted v)),
        rw back (ap (λ (c : Bool). ok (c, t)) (test-bit_of_above v)),
      )

  toggle-Misplaced : (s : State) → ToggleMisplaced s
  toggle-Misplaced s =
      let a = dtc_evb_serdes_prbs_control_status_reg in
      let old = contents s a in
      let flipped = not (test_bit old 0) in
      let x = assign_bit old 0 flipped in
      let t = written a x s in
      let fits = assign_lt old 0 flipped (omega arith) (contents_lt s a) in
      let back = read-written a x s fits refl in
      let kept =
        ap (λ (d : ℕ). d == 1) (bit-assign_other old 0 1 flipped (λ e. omega (arith, e))) in
      let moved = ap (λ (d : ℕ). d == 1) (bit-assign_same old 0 flipped) ∙ bit_of-test flipped in
      (
        t,
        rw (read-contents b bank a s refl) (write-written b bank a x s refl),
        rw back (ap (λ (c : Bool). ok (c, t)) kept),
        rw back (ap (λ (c : Bool). ok (c, t)) moved),
      )

  reset-Misplaced : (s : State) → IsLive b bank s → ResetMisplaced s
  reset-Misplaced s live =
      let old = contents s control_reg in
      let on = assign_bit old 12 true in
      let x = assign_bit on 12 false in
      let waiting = sleep b 100000 (written control_reg on s) in
      let t = written control_reg x waiting in
      let fits =
        assign_lt on 12 false (omega arith)
          (assign_lt old 12 true (omega arith) (contents_lt s control_reg)) in
      let off : bit x 12 ≡ 0 = bit-assign_same on 12 false in
      let odd : (x == 2 ^ 32 - 1) ≡ false = ne→== x (2 ^ 32 - 1) (λ e. omega (arith, off, e)) in
      let back = read-written control_reg x waiting fits odd in
      (
        t,
        rw
            (
              read-contents b bank control_reg s (live-reads b bank control_reg s live),
              write-written b bank control_reg on s refl,
            )
            (write-written b bank control_reg x waiting refl),
        rw back (ap (λ (d : ℕ). ok (d == 1, t)) off),
      )

  -- On a board whose registers keep what is written, and whose control register shows no reset, three
  -- accessors reach another bit than the one they are named for: after `SetTXRXFireflySelect` its
  -- value is read by `ReadTXFireflySelect`, and `ReadTXRXFireflySelect` returns false;
  -- `ToggleEVBSERDESPRBSForceError` leaves what `ReadEVBSERDESPRBSForceError` returns and inverts what
  -- `ReadEVBSERDESPRBSReset` returns; after `ROCInterfaceSoftReset` the prefetch of the DRP reads as
  -- disabled.
  pub misplaced_lem :
      (v : Bool) (s : State)
      → IsLive b bank s
      → SelectMisplaced v s × ToggleMisplaced s × ResetMisplaced s
  misplaced_lem v s live = (select-Misplaced v s, toggle-Misplaced s, reset-Misplaced s live)
