-- ===== src/Device/Lock/Holds.antt =====
-- What holds of the lock of the slow control channel after `begin_dcs_transaction` and
-- `end_dcs_transaction` (dtcInterfaceLib/mu2edev.cpp).
use mu2e_pcie_utils.Prelude.{
  ℕ, zero, suc, ◌+◌, ◌-◌, ◌/◌, ◌≤◌, ◌≡◌, ◌≢◌, Bool, true, false, not, ◌&&◌, if-cases, inl, inr,
  none, ok, err, >>=-eq-err, ok-injective, ℤ, negsuc, ◌*◌, arith, ltb, le→ltb, ◌⊎◌,
}
use mu2e_pcie_utils.Device.State.{
  DeviceError, library_lock_timeout, out_of_fuel, Device, holds_lock,
}
use mathlib.Core.Path.{subst}
use mu2e_pcie_utils.Device.Backend.{Backend}
use mu2e_pcie_utils.Device.Lock.{
  is_free, is_minus_one, within_timeout, lock_rounds, lock_driver, lock_waited, wait_for_threads,
  begin_dcs_transaction,
}

-- After a return the thread holds the lock, and after a failure nobody does.
abbrev pub Settled : {W : Type 0} → ℕ → Bool × Device W → Type 0
Settled me (true, s) = holds_lock me s.dcs_lock_held ≡ true
Settled me (false, s) = s.dcs_lock_held ≡ none

-- Time passes while a thread sleeps, and never runs back.
pub record IsLockClock (b : Backend) : Type 0 where
  pub now-usleep : (us : ℕ) (w : b.World) → b.now w + us * 1000 ≤ b.now (b.usleep us w)
  pub now-dcs_lock : (w : b.World) → b.now w ≤ b.now (b.dcs_lock w).1

timed_out :
    (minus_one : Bool) (elapsed : ℕ)
    → not (minus_one && ltb (elapsed / 1_000_000) 1000) ≡ false
    → 1_000_000_000 ≤ elapsed
    → ⊥
timed_out true elapsed e h =
    let late : ltb (elapsed / 1_000_000) 1000 ≡ false = le→ltb _ _ (omega arith) in ground arith
timed_out false elapsed e h = cc

still_on :
    (a c : Bool) (elapsed : ℕ)
    → (not a && not c && ltb (elapsed / 1_000_000) 1000) ≡ true
    → 1_000_000_000 ≤ elapsed
    → ⊥
still_on true c elapsed e h = cc
still_on false true elapsed e h = cc
still_on false false elapsed e h =
    let late : ltb (elapsed / 1_000_000) 1000 ≡ false = le→ltb _ _ (omega arith) in ground arith

module _ (b : Backend) where
  open b use {World, now}

  -- What can be thrown without a return of the lock: the one timeout, or the fuel.
  abbrev IsTimeout : DeviceError → Type 0
  IsTimeout e = (e ≡ library_lock_timeout) ⊎ (e ≡ out_of_fuel)

  module _ (clock : IsLockClock b) where
    driver-ends :
        (fuel me start : ℕ) (retsts : ℤ) (s : Device World)
        → start ≤ now s.world
        → 1_000_000_000 ≤ fuel * 100_000 + (now s.world - start)
        → lock_driver b (suc fuel) me start retsts s ≢ err out_of_fuel
    unfolding lock_driver
    driver-ends zero me start retsts s k h e =
        elim (if-cases (not (is_minus_one retsts && within_timeout b start s)) _ _ e) [
          | inl late ↦ let no = late.1 in cc
          | inr tried ↦
              absurd
                (timed_out (is_minus_one retsts) (now s.world - start) tried.0 (omega (arith, h)))
        ]
    driver-ends (suc fuel) me start retsts s k h e =
        let answer = b.dcs_lock s.world in
        let later : now s.world + 100_000 ≤ now (b.usleep 100 answer.1) =
          omega (arith, clock.now-usleep 100 answer.1, clock.now-dcs_lock s.world) in
        elim (if-cases (not (is_minus_one retsts && within_timeout b start s)) _ _ e) [
          | inl late ↦ let no = late.1 in cc
          | inr tried ↦ elim (if-cases (b.is_again answer.0 answer.1) _ _ tried.1) [
            | inl again ↦
                driver-ends fuel me start answer.0
                  (record s {
                    world = b.usleep 100 answer.1;
                    dcs_lock_held = b.others answer.1 s.dcs_lock_held;
                  })
                  (omega (arith, k, later)) (omega (arith, h, k, later)) again.1
            | inr done ↦ let no = done.1 in cc
          ]
        ]

    threads-ends :
        (fuel me start : ℕ) (s : Device World)
        → start ≤ now s.world
        → 1_000_000_000 ≤ fuel * 100_000 + (now s.world - start)
        → (wait_for_threads b (suc fuel) me start s ≢ err out_of_fuel)
    unfolding wait_for_threads
    threads-ends zero me start s k h e =
        elim (if-cases
          (not (is_free s.dcs_lock_held)
            && not (holds_lock me s.dcs_lock_held)
            && within_timeout b start s)
          _ _ e) [
            | inl waits ↦ absurd (
                still_on (is_free s.dcs_lock_held) (holds_lock me s.dcs_lock_held)
                  (now s.world - start) waits.0 (omega (arith, h)))
            | inr done ↦ let no = done.1 in cc
          ]
    threads-ends (suc fuel) me start s k h e =
        let later : now s.world + 100_000 ≤ now (b.usleep 100 s.world) =
          omega (arith, clock.now-usleep 100 s.world) in
        elim (if-cases
          (not (is_free s.dcs_lock_held)
            && not (holds_lock me s.dcs_lock_held)
            && within_timeout b start s)
          _ _ e) [
            | inr done ↦ let no = done.1 in cc
            | inl waits ↦
                threads-ends fuel me start
                  (record s {
                    world = b.usleep 100 s.world;
                    dcs_lock_held = b.others s.world s.dcs_lock_held;
                  })
                  (omega (arith, k, later)) (omega (arith, h, k, later)) waits.1
          ]

    waited-ends :
        (me start : ℕ) (s : Device World)
        → start ≤ now s.world
        → lock_waited b me start s ≢ err out_of_fuel
    unfolding lock_waited
    waited-ends me start s k e =
        elim (if-cases (not (within_timeout b start s)) (err library_lock_timeout) _ e) [
          | inl late ↦ let no = late.1 in cc
          | inr early ↦ elim (if-cases s.simulated _ _ early.1) [
            | inl sim ↦ let no = sim.1 in cc
            | inr real ↦ driver-ends lock_rounds me start (negsuc 0) s k (omega arith) real.1
          ]
        ]

    threads-later :
        (fuel me start : ℕ) (s : Device World) {t : Device World}
        → wait_for_threads b fuel me start s ≡ ok t
        → now s.world ≤ now t.world
    unfolding wait_for_threads
    threads-later zero me start s e = cc
    threads-later (suc fuel) me start s e =
        elim (if-cases
          (not (is_free s.dcs_lock_held)
            && not (holds_lock me s.dcs_lock_held)
            && within_timeout b start s)
          _ _ e) [
            | inr done ↦ subst (λ u. now s.world ≤ now u.world) (ok-injective done.1) (omega arith)
            | inl waits ↦
                let rest = threads-later fuel me start _ waits.1 in
                omega (arith, rest, clock.now-usleep 100 s.world)
          ]

    -- Both waits of `begin_dcs_transaction` end within their rounds, whatever the other threads and
    -- the driver do: it returns or throws.
    pub begin_dcs_transaction-ends :
        (me : ℕ) (s : Device World) → begin_dcs_transaction b me s ≢ err out_of_fuel
    unfolding begin_dcs_transaction
    begin_dcs_transaction-ends me s e = elim (if-cases (holds_lock me s.dcs_lock_held) _ _ e) [
      | inl held ↦ let no = held.1 in cc
      | inr other ↦
          elim (>>=-eq-err (wait_for_threads b (suc lock_rounds) me (now s.world) s) _ other.1) [
            | inl waits ↦
                threads-ends lock_rounds me (now s.world) s (omega arith) (omega arith) waits
            | inr done ↦
                waited-ends me (now s.world) done.0
                  (threads-later (suc lock_rounds) me (now s.world) s done.1) done.2
          ]
    ]
