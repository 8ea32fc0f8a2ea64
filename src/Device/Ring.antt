-- ===== src/Device/Ring.antt =====
-- What the library knows of a ring of buffers, and its index arithmetic on 32-bit unsigned integers
-- (`m_ioc_get_info_t`, `idx_add` and `mu2e_chn_info_delta_` of mu2e_driver/mu2e_mmap_ioctl.h).
pub mod Index
use mu2e_pcie_utils.Prelude.{ℕ, ◌+◌, ◌-◌, ◌%◌, ◌^◌, ltb, leb, if◌then◌else◌, ℤ}

pub data Engine : Type 0 where
  daq dcs : Engine

pub data Direction : Type 0 where
  c2s s2c : Direction

pub record ChannelInfo : Type 0 where
  pub chn : Engine
  pub dir : Direction
  pub tmo_ms : ℤ
  pub buff_size : ℕ
  pub num_buffs : ℕ
  pub hw_idx : ℕ
  pub sw_idx : ℕ

-- `add` is an `int`, here its 32 bits.
unfoldable pub idx_add : ℕ → ℕ → ℕ → ℕ
idx_add idx add num_buffs =
    let minus = 2 ^ 32 - add in
    if leb (2 ^ 31) add
    then (if ltb idx minus
        then (num_buffs + 2 ^ 32 - (minus - idx)) % 2 ^ 32 % num_buffs
        else (idx - minus) % num_buffs)
    else (idx + add) % 2 ^ 32 % num_buffs

-- The number of received buffers that the software has not released, or of buffers to send that
-- the hardware has done with.
unfoldable pub delta : Direction → ChannelInfo → ℕ
delta c2s info =
    if leb info.sw_idx info.hw_idx
    then info.hw_idx - info.sw_idx
    else (info.num_buffs + info.hw_idx + 2 ^ 32 - info.sw_idx) % 2 ^ 32
delta s2c info =
    if leb info.hw_idx info.sw_idx
    then (info.num_buffs + 2 ^ 32 - (info.sw_idx - info.hw_idx)) % 2 ^ 32
    else info.hw_idx - info.sw_idx
