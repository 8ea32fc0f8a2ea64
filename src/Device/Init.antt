-- ===== src/Device/Init.antt =====
-- `initDMAEngine` of dtcInterfaceLib/mu2edev.cpp: for each ring, the information of the driver, and
-- the two maps.
use mu2e_pcie_utils.Prelude.{
  true, false, if◌then◌else◌, Outcome, ok, ◌>>=◌, ◌>>◌, require, pos, is_zero,
}
use mu2e_pcie_utils.Device.Ring.{Engine, daq, dcs, Direction, c2s, s2c, ChannelInfo}
use mu2e_pcie_utils.Device.Backend.{Backend}
use mu2e_pcie_utils.Device.State.{
  Device, DeviceError, device_not_found, get_info_failed, map_failed, set_info,
}

-- What the call asks for; the other fields are not set.
abbrev pub asked : Engine → Direction → ChannelInfo
asked chn dir = record {
  chn = chn;
  dir = dir;
  tmo_ms = pos 1000;
  buff_size = 0;
  num_buffs = 0;
  hw_idx = 0;
  sw_idx = 0;
}

module _ (b : Backend) where
  open b use {World, open_device, map_memory, get_info}

  unfoldable pub map_ring : Engine → Direction → Device World → Outcome DeviceError (Device World)
  map_ring chn dir s =
      let buffers = map_memory chn dir 0 s.world in
      let counts = map_memory chn dir 1 buffers.1 in
      require buffers.0 map_failed
      >> require counts.0 map_failed
      >> ok (record s { world = counts.1; mapped = true })

  unfoldable pub init_ring : Engine → Direction → Device World → Outcome DeviceError (Device World)
  unfolding map_ring
  init_ring chn dir s =
      let answer = get_info (asked chn dir) s.world in
      require (is_zero answer.0) get_info_failed
      >> map_ring chn dir (record (set_info chn dir answer.1 s) { world = answer.2 })

  unfoldable pub init_dma_engine : Device World → Outcome DeviceError (Device World)
  unfolding init_ring
  init_dma_engine s =
      let opened = open_device s.active_index s.world in
      if s.simulated
      then ok s
      else (require opened.0 device_not_found
          >> init_ring daq c2s (record s { world = opened.1 })
          >>= init_ring daq s2c
          >>= init_ring dcs c2s
          >>= init_ring dcs s2c)

  -- `init(DTC_SimMode_Disabled, 0)`, less the file for debugging.
  unfoldable pub init_default : Device World → Outcome DeviceError (Device World)
  unfolding init_dma_engine
  init_default s = init_dma_engine (record s { simulated = false; active_index = 0 })
