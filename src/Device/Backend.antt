-- ===== src/Device/Backend.antt =====
-- What `mu2edev` calls: the operating system (the `ioctl`s of the driver, `open`, `mmap`, the memory
-- that the driver shares, the clock) and the simulator that stands in for a device.
use mu2e_pcie_utils.Prelude.{ℕ, Bool, List, Option, ℤ}
use mu2e_pcie_utils.Device.Ring.{Engine, Direction, ChannelInfo}

-- `m_ioc_reg_access_t`.
pub record RegAccess : Type 0 where
  pub reg_offset : ℕ
  pub access_type : ℕ
  pub val : ℕ

pub record Backend : Type 1 where
  -- All that lies outside of the library's own fields.
  pub World : Type 0
  -- `steady_clock::now()`, in nanoseconds.
  pub now : World → ℕ
  pub usleep : ℕ → World → World
  -- `open` of the file of a device.
  pub open_device : ℕ → World → Bool × World
  -- `mmap` of the buffers or the byte counts of a ring, and whether it succeeds.
  pub map_memory : Engine → Direction → ℕ → World → Bool × World
  -- The `ioctl`s, with their status.
  pub get_info : ChannelInfo → World → ℤ × ChannelInfo × World
  pub buf_give : ℕ → World → ℤ × World
  pub buf_xmit : ℕ → World → ℤ × World
  pub reg_access : RegAccess → World → ℤ × RegAccess × World
  pub dcs_lock : World → ℤ × World
  pub dcs_release : World → ℤ × World
  -- Whether the status of the last call, or `errno` after it, says EAGAIN.
  pub is_again : ℤ → World → Bool
  -- The other threads, while this one sleeps: what they make of the lock of the library.
  pub others : World → Option ℕ → Option ℕ
  -- The shared memory: a byte count of a received buffer, and the bytes of one to send.
  pub byte_count : Engine → ℕ → World → ℤ
  pub copy_in : Engine → ℕ → List ℕ → World → World
  -- The simulator.
  pub sim_read_data : Engine → ℤ → World → ℤ × ℕ × World
  pub sim_read_release : Engine → ℕ → World → ℤ × World
  pub sim_read_register : ℕ → ℤ → World → ℤ × ℕ × World
  pub sim_write_register : ℕ → ℤ → ℕ → World → ℤ × World
  pub sim_write_data : Engine → List ℕ → World → ℤ × World
  -- The value of `DTC_SimMode_Disabled`.
  pub disabled : ℤ
