-- ===== src/Device/Write/Sent.antt =====
-- What `write_data` (dtcInterfaceLib/mu2edev.cpp) does to the ring of buffers to send.
use mu2e_pcie_utils.Prelude.{
  ℕ, zero, suc, ◌+◌, ◌-◌, ◌%◌, ◌≤◌, ◌≡◌, true, false, List, length, ℤ, is_zero, ◌⊎◌,
}
use mu2e_pcie_utils.Device.Ring.{ChannelInfo, Engine, s2c, delta}
use mu2e_pcie_utils.Device.Ring.Index.{IsRing}
use mu2e_pcie_utils.Device.Backend.{Backend}
use mu2e_pcie_utils.Device.State.{Device, set_info, delta_of}
use mu2e_pcie_utils.Device.Init.{asked}
use mu2e_pcie_utils.Device.Write.{transmit, xmit_argument}

abbrev ring_of : {W : Type 0} → Engine → Device W → ChannelInfo
ring_of chn s = s.channel_info chn s2c

module _ (b : Backend) (reports : (i : ChannelInfo) (w : b.World) → IsRing (b.get_info i w).1) where
  open b use {World, copy_in}

  -- The state after `k` rounds of the wait, each with the ring that the driver reports.
  abbrev pub round : Engine → Device World → Device World
  round chn s =
      let answer = b.get_info (asked chn s2c) s.world in
      record (set_info chn s2c answer.1 s) { world = b.usleep 1000 answer.2 }

  abbrev pub waited : ℕ → Engine → Device World → Device World
  waited zero chn s = s
  waited (suc k) chn s = waited k chn (round chn s)

  -- At most one buffer is free before each of the first `k` rounds.
  abbrev pub IsFull : ℕ → Engine → Device World → Type 0
  IsFull zero chn s = Unit
  IsFull (suc k) chn s = (delta_of chn s2c s ≤ 1) × IsFull k chn (round chn s)

  -- What is sent from the state `u`, and the ring after it.
  abbrev pub Sent : Engine → List ℕ → Device World → ℤ → Device World → Type 0
  Sent chn buffer u r t =
      let info = ring_of chn u in
      let sent =
        transmit b 14 (xmit_argument chn (length buffer))
          (copy_in chn info.sw_idx buffer u.world) in
      IsRing info
      × (2 ≤ delta s2c info)
      × (r ≡ sent.0)
      × (t.world ≡ sent.1)
      × IsRing (ring_of chn t)
      × ((is_zero r ≡ true)
            × ((ring_of chn t).sw_idx ≡ (info.sw_idx + 1) % info.num_buffs)
            × (delta s2c (ring_of chn t) ≡ delta s2c info - 1)
          ⊎ (is_zero r ≡ false) × (ring_of chn t ≡ info))
