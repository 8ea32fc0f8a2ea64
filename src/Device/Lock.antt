-- ===== src/Device/Lock.antt =====
-- `begin_dcs_transaction` and `end_dcs_transaction` of dtcInterfaceLib/mu2edev.cpp: the lock of the
-- slow control channel, first among the threads of the library, then in the driver. The threads
-- move while this one sleeps.
pub mod Holds
use mu2e_pcie_utils.Prelude.{
  ℕ, zero, suc, ◌-◌, ◌/◌, Bool, true, false, not, ◌&&◌, ◌||◌, ltb, leb, if◌then◌else◌, Option, none,
  some, Outcome, ok, err, ◌>>=◌, ◌>>◌, require, ℤ, pos, negsuc, is_zero,
}
use mu2e_pcie_utils.Device.Backend.{Backend}
use mu2e_pcie_utils.Device.State.{
  Device, DeviceError, library_lock_timeout, driver_lock_timeout, out_of_fuel, holds_lock,
}

-- Rounds of a loop that sleeps for 100 microseconds, within a second.
abbrev pub lock_rounds : ℕ
lock_rounds = 10000

abbrev pub is_free : Option ℕ → Bool
is_free none = true
is_free (some owner) = false

-- `retsts == -1`.
abbrev pub is_minus_one : ℤ → Bool
is_minus_one (pos n) = false
is_minus_one (negsuc zero) = true
is_minus_one (negsuc (suc n)) = false

module _ (b : Backend) where
  open b use {World, now, usleep, dcs_lock, dcs_release, is_again, others}

  -- `duration_cast<milliseconds>(now() - start).count() < tmo_ms`.
  abbrev pub within_timeout : ℕ → Device World → Bool
  within_timeout start s = ltb ((now s.world - start) / 1_000_000) 1000

  -- The loop that waits for the other threads. One more step of fuel is for its last test.
  unfoldable pub wait_for_threads : ℕ → ℕ → ℕ → Device World → Outcome DeviceError (Device World)
  wait_for_threads zero me start s = err out_of_fuel
  wait_for_threads (suc fuel) me start s =
      let rest =
        wait_for_threads fuel me start (record s {
          world = usleep 100 s.world;
          dcs_lock_held = others s.world s.dcs_lock_held;
        }) in
      if not (is_free s.dcs_lock_held)
        && not (holds_lock me s.dcs_lock_held)
        && within_timeout start s
      then rest
      else ok s

  abbrev pub take_lock : ℕ → Device World → Device World
  take_lock me s = record s { dcs_lock_held = some me }

  -- `end_dcs_transaction`.
  unfoldable pub end_dcs_transaction : ℕ → Bool → Device World → Device World
  end_dcs_transaction me force s =
      let released = if s.simulated then s.world else (dcs_release s.world).1 in
      if force || holds_lock me s.dcs_lock_held
      then record s { world = released; dcs_lock_held = none }
      else s

  -- The loop over M_IOC_DCS_LOCK, entered with `retsts`, and the failure behind it: the state after
  -- the forced release, and whether this thread has the lock.
  unfoldable pub lock_driver :
      ℕ → ℕ → ℕ → ℤ → Device World → Outcome DeviceError (Bool × Device World)
  unfolding end_dcs_transaction
  lock_driver zero me start retsts s = err out_of_fuel
  lock_driver (suc fuel) me start retsts s =
      let answer = dcs_lock s.world in
      let rest = lock_driver fuel me start answer.0 (record s {
        world = usleep 100 answer.1;
        dcs_lock_held = others answer.1 s.dcs_lock_held;
      }) in
      if not (is_minus_one retsts && within_timeout start s)
      then ok (false, end_dcs_transaction me true s)
      else if is_again answer.0 answer.1
      then rest
      else ok (true, take_lock me (record s { world = answer.1 }))

  -- From the end of the first loop on.
  unfoldable pub lock_waited : ℕ → ℕ → Device World → Outcome DeviceError (Bool × Device World)
  unfolding lock_driver
  lock_waited me start s =
      if not (within_timeout start s)
      then err library_lock_timeout
      else if s.simulated
      then ok (true, take_lock me s)
      else lock_driver (suc lock_rounds) me start (negsuc 0) s

  -- `true` is a return, `false` an exception after the forced release.
  unfoldable pub begin_dcs_transaction :
      ℕ → Device World → Outcome DeviceError (Bool × Device World)
  unfolding wait_for_threads lock_waited
  begin_dcs_transaction me s =
      if holds_lock me s.dcs_lock_held
      then ok (true, s)
      else (wait_for_threads (suc lock_rounds) me (now s.world) s >>= lock_waited me (now s.world))
