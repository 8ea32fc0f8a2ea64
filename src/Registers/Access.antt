-- ===== src/Registers/Access.antt =====
-- `WriteRegister_`, `CFOandDTCVerifyRegisterWrite_`, `ReadRegister_`, `GetBit_` and `SetBit_` of
-- dtcInterfaceLib/CFOandDTC_Registers.cpp. Text for messages and traces is left out.
pub mod Verified
pub mod SetBit
pub mod Retry
use Prim.Native.Nat.{bit_and}
use mu2e_pcie_utils.Prelude.{
  ℕ, zero, suc, ◌-◌, ◌%◌, ◌^◌, Bool, true, false, not, ◌&&◌, ◌||◌, ◌==◌, ltb, if◌then◌else◌,
  Outcome, ok, err, ◌>>=◌, ◌>>◌, require, ℤ, is_zero,
}
use mu2e_pcie_utils.Registers.Port.{
  Port, RegisterError, write_error, read_error, uninitialized, write_mismatch, bit_out_of_range,
  i2c_busy,
}
use mu2e_pcie_utils.Registers.Bitset.{test_bit, assign_bit}

abbrev pub control : ℕ
control = 0x9100

abbrev pub serdes_clock_iic_low : ℕ
serdes_clock_iic_low = 0x9168

abbrev pub serdes_clock_iic_high : ℕ
serdes_clock_iic_high = 0x916C

abbrev pub firefly_rx_iic_low : ℕ
firefly_rx_iic_low = 0x9298

abbrev pub firefly_control_status : ℕ
firefly_control_status = 0x93A0

-- The bits that the check compares, for the registers that are masked in both values.
abbrev pub care_mask : ℕ → ℕ
care_mask address =
    if address == serdes_clock_iic_low || address == firefly_rx_iic_low
    then 0xffff_0000
    else if address == serdes_clock_iic_high
    then 0xffff_fffe
    else if address == firefly_control_status
    then 0x707
    else 0x7fff_ffff

-- The `case`s of the switch.
abbrev pub is_core : ℕ → Bool
is_core address =
    address == serdes_clock_iic_low
    || address == firefly_rx_iic_low
    || address == serdes_clock_iic_high
    || address == firefly_control_status
    || address == control

module _ (p : Port) where
  open p use {State, read, write, write_checked, usleep, needs_verify, verify}

  -- The loop of three tries; `tries` more are left after this one.
  unfoldable pub read_tries : ℕ → ℕ → State → ℤ × ℕ × State
  read_tries zero address s = read address s
  read_tries (suc tries) address s =
      let answer = read address s in
      let rest = read_tries tries address answer.2 in if is_zero answer.0 then answer else rest

  unfoldable pub read_register : ℕ → State → Outcome RegisterError (ℕ × State)
  unfolding read_tries
  read_register address s =
      let answer = read_tries 2 address s in
      require (is_zero answer.0) (read_error address)
      >> require (not (address == control && answer.1 == 2 ^ 32 - 1)) (uninitialized address)
      >> ok (answer.1, answer.2)

  -- The loop that waits for bit 0 to clear, with the value read last. It has no bound in the source.
  unfoldable pub wait_i2c : ℕ → ℕ → ℕ → ℕ → State → Outcome RegisterError (ℕ × State)
  wait_i2c zero address value readback s = err i2c_busy
  wait_i2c (suc fuel) address value readback s =
      let again =
        read_register address s >>= λ r. wait_i2c fuel address value r.0 (usleep 100 r.1) in
      if test_bit value 0 && test_bit readback 0 then again else ok (readback, s)

  -- The comparison of the bits that matter.
  unfoldable pub compare_masked : ℕ → ℕ → ℕ → State → Outcome RegisterError (Bool × State)
  compare_masked address readback value s =
      require (bit_and readback (care_mask address) == bit_and value (care_mask address))
        (write_mismatch address)
      >> ok (true, s)

  -- Whether the register is one of those both boards have. `fuel` is for `wait_i2c`.
  unfoldable pub core_verify : ℕ → ℕ → ℕ → ℕ → State → Outcome RegisterError (Bool × State)
  unfolding wait_i2c compare_masked
  core_verify fuel address readback value s =
      let waited =
        wait_i2c fuel address value readback s >>= λ r. compare_masked address r.0 value r.1 in
      if not (is_core address)
      then ok (false, s)
      else if address == serdes_clock_iic_high
      then waited
      else if address == control && test_bit value 0
      then ok (true, s)
      else compare_masked address readback value s

  -- One try to write, with the value read back.
  abbrev pub write_once : ℕ → ℕ → State → ℤ × ℕ × State
  write_once address value s =
      let checked = write_checked address value s in
      let plain = write address value s in
      if needs_verify address then checked else (plain.0, value, plain.1)

  -- The loop of three tries to write; the value read back is the last one.
  unfoldable pub write_tries : ℕ → ℕ → ℕ → State → ℤ × ℕ × State
  write_tries zero address value s = write_once address value s
  write_tries (suc tries) address value s =
      let answer = write_once address value s in
      let rest = write_tries tries address value answer.2 in
      if is_zero answer.0 then answer else rest

  -- The check of what is read back, first by the common part, then by that of the board.
  unfoldable pub verify_write : ℕ → ℕ → ℕ → ℕ → State → Outcome RegisterError (ℕ × State)
  unfolding core_verify
  verify_write fuel address readback value s = do
    core ← core_verify fuel address readback value s
    if core.0
        then ok (readback, core.1)
        else (verify address readback value core.1 >>= λ s'. ok (readback, s'))

  unfoldable pub write_register : ℕ → ℕ → ℕ → State → Outcome RegisterError (ℕ × State)
  unfolding write_tries verify_write
  write_register fuel value address s =
      let answer = write_tries 2 address value s in
      require (is_zero answer.0) (write_error address)
      >> (if needs_verify address
          then verify_write fuel address answer.1 value answer.2
          else ok (answer.1, answer.2))

  unfoldable pub get_bit : ℕ → ℕ → State → Outcome RegisterError (Bool × State)
  unfolding read_register
  get_bit address k s = do
    require (not (ltb 31 k)) (bit_out_of_range k)
    r ← read_register address s
    ok (test_bit r.0 k, r.1)

  unfoldable pub set_bit : ℕ → ℕ → ℕ → Bool → State → Outcome RegisterError State
  unfolding read_register write_register
  set_bit fuel address k value s = do
    require (not (ltb 31 k)) (bit_out_of_range k)
    r ← read_register address s
    w ← write_register fuel (assign_bit r.0 k value) address r.1
    ok w.1
