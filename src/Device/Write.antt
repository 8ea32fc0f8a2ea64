-- ===== src/Device/Write.antt =====
-- `write_data` of dtcInterfaceLib/mu2edev.cpp.
pub mod Space
pub mod Sent
use Prim.Native.Nat.{bit_and, bit_or}
use mu2e_pcie_utils.Prelude.{
  ℕ, zero, suc, ◌+◌, ◌-◌, ◌*◌, ◌/◌, ◌%◌, ◌^◌, Bool, true, false, not, ◌&&◌, List, length, ltb, leb,
  if◌then◌else◌, Outcome, ok, err, ◌>>=◌, ◌>>◌, require, ℤ, pos, is_zero, is_negative,
}
use mu2e_pcie_utils.Device.Ring.{Engine, s2c, ChannelInfo, idx_add}
use mu2e_pcie_utils.Device.Backend.{Backend}
use mu2e_pcie_utils.Device.State.{
  Device, DeviceError, get_info_failed, not_reading_buffers, dcs_lock_not_held, out_of_fuel,
  set_info, delta_of, may_use, engine_code,
}
use mu2e_pcie_utils.Device.Init.{asked}

-- `(chn << 24) | (bytes & 0xffffff)`.
abbrev pub xmit_argument : Engine → ℕ → ℕ
xmit_argument chn bytes = bit_or (engine_code chn * 2 ^ 24) (bit_and bytes 0xffffff)

-- Rounds of the waiting loop that fit its second: each sleeps for a millisecond.
abbrev pub wait_rounds : ℕ
wait_rounds = 1000

module _ (b : Backend) where
  open b use {World, now, usleep, get_info, buf_xmit, copy_in, sim_write_data}

  -- `duration_cast<milliseconds>(now() - start).count() < 1000`.
  abbrev pub in_time : ℕ → World → Bool
  in_time start w = ltb ((now w - start) / 1_000_000) 1000

  -- The loop that waits for the hardware, as the state at its end. One more step of fuel than there
  -- are rounds is for the last test.
  unfoldable pub wait_for_space : ℕ → ℕ → Engine → Device World → Outcome DeviceError (Device World)
  wait_for_space zero start chn s = err out_of_fuel
  wait_for_space (suc fuel) start chn s =
      let answer = get_info (asked chn s2c) s.world in
      let s' = record (set_info chn s2c answer.1 s) { world = usleep 1000 answer.2 } in
      let rest = wait_for_space fuel start chn s' in
      if leb (delta_of chn s2c s) 1 && in_time start s.world
      then (if is_zero answer.0 then rest else err get_info_failed)
      else ok s

  -- The loop that repeats M_IOC_BUF_XMIT, `retry` times at most.
  unfoldable pub transmit : ℕ → ℕ → World → ℤ × World
  transmit zero arg w =
      let answer = buf_xmit arg w in
      if is_zero answer.0 then answer else (answer.0, usleep 50000 answer.1)
  transmit (suc retry) arg w =
      let answer = buf_xmit arg w in
      let rest = transmit retry arg (usleep 50000 answer.1) in
      if is_zero answer.0 then answer else rest

  -- After the wait: the copy, the transmission, and the index of the software.
  unfoldable pub send : Engine → List ℕ → Device World → ℤ × Device World
  unfolding transmit
  send chn buffer s =
      let info = s.channel_info chn s2c in
      let copied = copy_in chn info.sw_idx buffer s.world in
      let answer = transmit 14 (xmit_argument chn (length buffer)) copied in
      let s₁ = record s { world = answer.1 } in
      (
        answer.0,
        if is_zero answer.0
            then set_info chn s2c (record info { sw_idx = idx_add info.sw_idx 1 info.num_buffs }) s₁
            else s₁,
      )

  unfoldable pub write_device :
      Engine → List ℕ → Device World → Outcome DeviceError (ℤ × Device World)
  unfolding wait_for_space send
  write_device chn buffer s = do
    s' ← wait_for_space (suc wait_rounds) (now s.world) chn s
    require (not (leb (delta_of chn s2c s') 1)) not_reading_buffers
    ok (send chn buffer s')

  abbrev pub count_written : ℤ → ℕ → Device World → Device World
  count_written retsts bytes s = record s {
    write_size = if is_negative retsts then s.write_size else (s.write_size + bytes) % 2 ^ 64;
  }

  unfoldable pub write_data :
      ℕ → Engine → List ℕ → Device World → Outcome DeviceError (ℤ × Device World)
  unfolding write_device
  write_data me chn buffer s =
      let answer = sim_write_data chn buffer s.world in
      if not (may_use me chn s)
      then err dcs_lock_not_held
      else ((if s.simulated
            then ok (answer.0, record s { world = answer.1 })
            else write_device chn buffer s)
          >>= λ r. ok (r.0, count_written r.0 (length buffer) r.1))
