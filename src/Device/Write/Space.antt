-- ===== src/Device/Write/Space.antt =====
-- What `write_data` (dtcInterfaceLib/mu2edev.cpp) waits for, that it stops waiting, and what it does
-- to the ring of buffers to send.
use mu2e_pcie_utils.Prelude.{
  >>=-eq-err, ℕ, zero, suc, ◌+◌, ◌-◌, ◌*◌, ◌/◌, ◌≤◌, ◌≡◌, ◌≢◌, false, not, ◌&&◌, List, leb,
  if◌then◌else◌, if-cases, Outcome, ok, err, ℤ, is_zero, arith, Bool-cases, inl, inr,
}
use mu2e_pcie_utils.Device.Ring.{ChannelInfo, Engine, s2c}
use mu2e_pcie_utils.Device.Backend.{Backend}
use mu2e_pcie_utils.Device.State.{
  set_info, Device, DeviceError, delta_of, out_of_fuel, may_use, dcs_lock_not_held,
}
use mu2e_pcie_utils.Device.Init.{asked}
use mu2e_pcie_utils.Device.Write.{wait_for_space, wait_rounds, in_time, write_device, write_data}

-- Time passes while a thread sleeps, and never runs back.
pub record IsClock (b : Backend) : Type 0 where
  pub now-usleep : (us : ℕ) (w : b.World) → b.now w + us * 1000 ≤ b.now (b.usleep us w)
  pub now-get_info : (info : ChannelInfo) (w : b.World) → b.now w ≤ b.now (b.get_info info w).2

module _ (b : Backend) (clock : IsClock b) where
  open b use {World, now}

  -- The state after a round of the loop.
  abbrev round : Engine → Device World → Device World
  round chn s =
      let answer = b.get_info (asked chn s2c) s.world in
      record (set_info chn s2c answer.1 s) { world = b.usleep 1000 answer.2 }

  -- Each round takes a millisecond at least, so the fuel lasts.
  wait-ends :
      (fuel start : ℕ) (chn : Engine) (s : Device World)
      → start ≤ now s.world
      → 1000 ≤ fuel + (now s.world - start) / 1_000_000
      → wait_for_space b (suc fuel) start chn s ≢ err out_of_fuel
  unfolding wait_for_space
  wait-ends zero start chn s k h e =
      elim (Bool-cases (leb (delta_of chn s2c s) 1 && in_time b start s.world)) [
        | inl on ↦
            let late : in_time b start s.world ≡ false = ground arith in absurd (ground arith)
        | inr off ↦ let r = rw off at e in cc
      ]
  wait-ends (suc fuel) start chn s k h e =
      elim (Bool-cases (leb (delta_of chn s2c s) 1 && in_time b start s.world)) [
        | inl on ↦
            let answer = b.get_info (asked chn s2c) s.world in
            elim (Bool-cases (is_zero answer.0)) [
              | inl good ↦
                  let later : now s.world + 1_000_000 ≤ now (b.usleep 1000 answer.2) = omega (
                    arith,
                    clock.now-usleep 1000 answer.2,
                    clock.now-get_info (asked chn s2c) s.world,
                  ) in
                  wait-ends fuel start chn (round chn s) (omega (arith, k, later))
                    (omega (arith, h, k, later)) (rw (on, good) at e)
              | inr bad ↦ let r = rw (on, bad) at e in cc
            ]
        | inr off ↦ let r = rw off at e in cc
      ]

  write_device-ends :
      (chn : Engine) (buffer : List ℕ) (s : Device World)
      → write_device b chn buffer s ≢ err out_of_fuel
  unfolding write_device
  write_device-ends chn buffer s e =
      elim (>>=-eq-err (wait_for_space b (suc wait_rounds) (now s.world) chn s) _ e) [
        | inl waits ↦ wait-ends wait_rounds (now s.world) chn s (omega arith) (omega arith) waits
        | inr done ↦ elim (Bool-cases (not (leb (delta_of chn s2c done.0) 1))) [
          | inl space ↦ let r = rw space at done.2 in cc
          | inr full ↦ let r = rw full at done.2 in cc
        ]
      ]

  -- The wait for the hardware ends within its rounds, whatever the driver answers: `write_data`
  -- returns a status or throws.
  pub write_data-ends :
      (me : ℕ) (chn : Engine) (buffer : List ℕ) (s : Device World)
      → write_data b me chn buffer s ≢ err out_of_fuel
  unfolding write_data
  write_data-ends me chn buffer s e =
      let answer = b.sim_write_data chn buffer s.world in
      let called : Outcome DeviceError (ℤ × Device World) =
        if s.simulated
        then ok (answer.0, record s { world = answer.1 })
        else write_device b chn buffer s in
      elim (if-cases (not (may_use me chn s)) (err dcs_lock_not_held) _ e) [
        | inl barred ↦ let r = barred.1 in cc
        | inr allowed ↦ elim (>>=-eq-err called _ allowed.1) [
          | inr done ↦ let r = done.2 in cc
          | inl thrown ↦ elim (if-cases s.simulated _ _ thrown) [
            | inl sim ↦ let r = sim.1 in cc
            | inr real ↦ write_device-ends chn buffer s real.1
          ]
        ]
      ]
