-- ===== src/Device/Register.antt =====
-- `read_register`, `write_register` and `write_register_checked` of dtcInterfaceLib/mu2edev.cpp.
use mu2e_pcie_utils.Prelude.{ℕ, zero, suc, if◌then◌else◌, ℤ, is_negative}
use mu2e_pcie_utils.Device.Backend.{Backend, RegAccess}
use mu2e_pcie_utils.Device.State.{Device}

module _ (b : Backend) where
  open b use {World, usleep, reg_access, sim_read_register, sim_write_register}

  -- The loop that repeats a failed access. `tries` more are left after this one.
  unfoldable pub retry_access : ℕ → RegAccess → World → ℤ × RegAccess × World
  retry_access zero reg w =
      let answer = reg_access reg w in
      if is_negative answer.0 then (answer.0, answer.1, usleep 10000 answer.2) else answer
  retry_access (suc tries) reg w =
      let answer = reg_access reg w in
      let rest = retry_access tries answer.1 (usleep 10000 answer.2) in
      if is_negative answer.0 then rest else answer

  -- The result is the status, `*output` and the new state; `val` starts out as it is on the stack.
  unfoldable pub read_register : ℕ → ℕ → ℤ → Device World → ℤ × ℕ × Device World
  unfolding retry_access
  read_register garbage address tmo_ms s =
      let simulated = sim_read_register address tmo_ms s.world in
      let reg : RegAccess = record { reg_offset = address; access_type = 0; val = garbage } in
      let answer = retry_access 4 reg s.world in
      if s.simulated
      then (simulated.0, simulated.1, record s { world = simulated.2 })
      else (answer.0, answer.1.val, record s { world = answer.2 })

  -- One access that writes, with or without reading back.
  unfoldable pub write_access : ℕ → ℕ → ℤ → ℕ → Device World → ℤ × ℕ × Device World
  write_access kind address tmo_ms value s =
      let simulated = sim_write_register address tmo_ms value s.world in
      let reg : RegAccess = record { reg_offset = address; access_type = kind; val = value } in
      let answer = reg_access reg s.world in
      if s.simulated
      then (simulated.0, value, record s { world = simulated.1 })
      else (answer.0, answer.1.val, record s { world = answer.2 })

  unfoldable pub write_register : ℕ → ℤ → ℕ → Device World → ℤ × Device World
  unfolding write_access
  write_register address tmo_ms value s =
      let r = write_access 1 address tmo_ms value s in (r.0, r.2)

  unfoldable pub write_register_checked : ℕ → ℤ → ℕ → Device World → ℤ × ℕ × Device World
  unfolding write_access
  write_register_checked address tmo_ms value s = write_access 2 address tmo_ms value s
