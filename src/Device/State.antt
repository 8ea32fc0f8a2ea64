-- ===== src/Device/State.antt =====
-- The fields of `mu2edev` (dtcInterfaceLib/mu2edev.h). Of the arrays with an entry per device only
-- that of the active device is kept, which is all the operations use; the fields that only measure
-- time are left out.
use mu2e_pcie_utils.Prelude.{
  ℕ, ◌+◌, ◌%◌, ◌^◌, Bool, true, false, not, ◌&&◌, ◌==◌, if◌then◌else◌, Option, none, some, ℤ,
  to_nat,
}
use mu2e_pcie_utils.Device.Ring.{Engine, daq, dcs, Direction, c2s, s2c, ChannelInfo, delta}

pub data DeviceError : Type 0 where
  device_not_found get_info_failed map_failed not_reading_buffers dcs_lock_not_held : DeviceError
  library_lock_timeout driver_lock_timeout out_of_fuel : DeviceError

-- What `*buffer` points to: a slot of the ring, or memory of the simulator.
pub data Buffer : Type 0 where
  unset : Buffer
  slot : Engine → ℕ → Buffer
  simulated_at : ℕ → Buffer

-- `dcs_lock_held` is the thread that holds the lock, if one does.
pub record Device (W : Type 0) : Type 0 where
  pub world : W
  pub channel_info : Engine → Direction → ChannelInfo
  pub buffers_held : ℕ
  pub simulated : Bool
  pub active_index : ℕ
  pub mapped : Bool
  pub dcs_lock_held : Option ℕ
  pub read_size : ℕ
  pub write_size : ℕ

abbrev pub same_engine : Engine → Engine → Bool
same_engine daq daq = true
same_engine daq dcs = false
same_engine dcs daq = false
same_engine dcs dcs = true

abbrev pub same_direction : Direction → Direction → Bool
same_direction c2s c2s = true
same_direction c2s s2c = false
same_direction s2c c2s = false
same_direction s2c s2c = true

-- `dcs_lock_held_.load() == std::this_thread::get_id()`.
abbrev pub holds_lock : ℕ → Option ℕ → Bool
holds_lock me none = false
holds_lock me (some owner) = owner == me

-- The channel number in an `ioctl` argument.
abbrev pub engine_code : Engine → ℕ
engine_code daq = 0
engine_code dcs = 1

module _ {W : Type 0} where
  abbrev pub set_info : Engine → Direction → ChannelInfo → Device W → Device W
  set_info chn dir info s = record s {
    channel_info =
        λ c d. if same_engine c chn && same_direction d dir then info else s.channel_info c d;
  }

  abbrev pub delta_of : Engine → Direction → Device W → ℕ
  delta_of chn dir s = delta dir (s.channel_info chn dir)

  -- The check at the start of each operation on the data channels.
  abbrev pub may_use : ℕ → Engine → Device W → Bool
  may_use me chn s = not (same_engine chn dcs && not (holds_lock me s.dcs_lock_held))

  -- `if (retsts > 0) readSize_ += retsts`.
  abbrev pub count_read : ℤ → Device W → Device W
  count_read retsts s = record s { read_size = (s.read_size + to_nat retsts) % 2 ^ 64 }
