-- ===== src/Device/Read.antt =====
-- `read_data` and `read_release` of dtcInterfaceLib/mu2edev.cpp.
pub mod Order
pub mod Release
use Prim.Native.Nat.{bit_and, bit_or}
use mu2e_pcie_utils.Prelude.{
  ℕ, ◌+◌, ◌-◌, ◌*◌, ◌%◌, ◌^◌, Bool, not, ◌&&◌, ltb, leb, if◌then◌else◌, Outcome, ok, err, ◌>>=◌, ℤ,
  pos, negsuc, is_zero,
}
use mu2e_pcie_utils.Device.Ring.{Engine, daq, c2s, idx_add}
use mu2e_pcie_utils.Device.Backend.{Backend}
use mu2e_pcie_utils.Device.State.{
  Device, DeviceError, get_info_failed, Buffer, unset, slot, simulated_at, set_info, delta_of,
  may_use, count_read, engine_code, same_engine,
}
use mu2e_pcie_utils.Device.Init.{init_default}

-- `(chn << 24) | (C2S << 16) | (num & 0xffff)`.
abbrev pub give_argument : Engine → ℕ → ℕ
give_argument chn num = bit_or (engine_code chn * 2 ^ 24) (bit_and num 0xffff)

module _ (b : Backend) where
  open b use {World, get_info, buf_give, byte_count, sim_read_data, sim_read_release, disabled}

  abbrev pub next_slot : Engine → Device World → ℕ
  next_slot chn s =
      let info = s.channel_info chn c2s in
      idx_add info.sw_idx ((s.buffers_held + 1) % 2 ^ 32) info.num_buffs

  -- The branch that has data.
  unfoldable pub take_slot : Engine → Device World → ℤ × Buffer × Device World
  take_slot chn s = (
    byte_count chn (next_slot chn s) s.world,
    slot chn (next_slot chn s),
    record s {
      buffers_held = if same_engine chn daq then (s.buffers_held + 1) % 2 ^ 32 else s.buffers_held;
    },
  )

  -- After the call of M_IOC_GET_INFO, with its status.
  unfoldable pub after_info :
      Engine → ℤ → Device World → Outcome DeviceError (ℤ × Buffer × Device World)
  unfolding take_slot
  after_info chn sts s =
      if is_zero sts && ltb s.buffers_held (delta_of chn c2s s)
      then ok (take_slot chn s)
      else if not (is_zero sts)
      then err get_info_failed
      else ok (sts, unset, s)

  unfoldable pub read_ring :
      Engine → ℤ → Device World → Outcome DeviceError (ℤ × Buffer × Device World)
  unfolding take_slot after_info
  read_ring chn tmo_ms s =
      let cached = s.channel_info chn c2s in
      let s₁ = set_info chn c2s (record cached { tmo_ms = tmo_ms }) s in
      let answer = get_info (record cached { tmo_ms = tmo_ms }) s.world in
      if ltb s.buffers_held (delta_of chn c2s s)
      then ok (take_slot chn s₁)
      else after_info chn answer.0 (record (set_info chn c2s answer.1 s₁) { world = answer.2 })

  -- The branch without simulator.
  unfoldable pub read_device :
      Engine → ℤ → Device World → Outcome DeviceError (ℤ × Buffer × Device World)
  unfolding read_ring init_default
  read_device chn tmo_ms s =
      if s.mapped
      then read_ring chn tmo_ms s
      else (init_default b s >>= λ s'.
          if is_zero disabled then read_ring chn tmo_ms s' else ok (disabled, unset, s'))

  abbrev pub read_simulator : Engine → ℤ → Device World → ℤ × Buffer × Device World
  read_simulator chn tmo_ms s =
      let answer = sim_read_data chn tmo_ms s.world in
      (answer.0, simulated_at answer.1, record s { world = answer.2 })

  -- `me` is the calling thread. The result is `retsts`, `*buffer` and the new state.
  unfoldable pub read_data :
      ℕ → Engine → ℤ → Device World → Outcome DeviceError (ℤ × Buffer × Device World)
  unfolding read_device
  read_data me chn tmo_ms s =
      if not (may_use me chn s)
      then ok (negsuc 1, unset, s)
      else ((if s.simulated then ok (read_simulator chn tmo_ms s) else read_device chn tmo_ms s)
          >>= λ r. ok (r.0, r.1, count_read r.0 r.2))

  -- The branch without simulator. A failure of the `ioctl` is only reported.
  unfoldable pub release_ring : Engine → ℕ → Device World → ℤ × Device World
  release_ring chn num s =
      let info = s.channel_info chn c2s in
      let answer = buf_give (give_argument chn num) s.world in
      if leb num (delta_of chn c2s s)
      then (
        answer.0,
        record (set_info chn c2s (record info { sw_idx = idx_add info.sw_idx num info.num_buffs })
            s) {
              world = answer.1;
              buffers_held = if leb num s.buffers_held then s.buffers_held - num else 0;
            },
      )
      else (pos 0, s)

  unfoldable pub read_release : ℕ → Engine → ℕ → Device World → ℤ × Device World
  unfolding release_ring
  read_release me chn num s =
      let answer = sim_read_release chn num s.world in
      if not (may_use me chn s)
      then (negsuc 1, s)
      else if s.simulated
      then (answer.0, record s { world = answer.1 })
      else release_ring chn num s
