-- ===== src/Device/Tests.antt =====
-- Runs of the device on a backend of fixed answers.
use mu2e_pcie_utils.Prelude.{
  ℕ, ◌+◌, ◌*◌, ◌≤◌, ◌<◌, ◌≡◌, ◌≢◌, refl, true, false, [], ◌∷◌, none, ok, err, pos, arith, ◌⊎◌, ◌-◌,
  some,
}
use mu2e_pcie_utils.Device.Lock.{begin_dcs_transaction}
use mu2e_pcie_utils.Device.Lock.Holds.{IsLockClock, begin_dcs_transaction-ends}
use mu2e_pcie_utils.Device.Ring.{Engine, daq, Direction, c2s, ChannelInfo, delta, s2c}
use mu2e_pcie_utils.Device.Backend.{Backend}
use mu2e_pcie_utils.Device.State.{Device, out_of_fuel, delta_of, set_info}
use mu2e_pcie_utils.Device.Read.{read_release}
use mu2e_pcie_utils.Device.Read.Order.{IsReady, slots, read_many, read_many_lem}
use mu2e_pcie_utils.Device.Read.Release.{read_release_lem}
use mu2e_pcie_utils.Device.Write.{write_data}
use mu2e_pcie_utils.Device.Write.Sent.{Sent}
use mu2e_pcie_utils.Device.Write.Space.{IsClock, write_data-ends}

-- A backend whose world is a clock, with a driver that changes nothing.
abbrev still : Backend
still = record {
  World = ℕ;
  now = λ w. w;
  usleep = λ us w. w + us * 1000;
  open_device = λ i w. (true, w);
  map_memory = λ chn dir k w. (true, w);
  get_info = λ info w. (pos 0, info, w);
  buf_give = λ k w. (pos 0, w);
  buf_xmit = λ k w. (pos 0, w);
  reg_access = λ reg w. (pos 0, reg, w);
  dcs_lock = λ w. (pos 0, w);
  dcs_release = λ w. (pos 0, w);
  is_again = λ r w. false;
  others = λ w held. none;
  byte_count = λ chn i w. pos (100 + i);
  copy_in = λ chn i bytes w. w;
  sim_read_data = λ chn tmo w. (pos 0, 0, w);
  sim_read_release = λ chn num w. (pos 0, w);
  sim_read_register = λ a tmo w. (pos 0, 0, w);
  sim_write_register = λ a tmo v w. (pos 0, w);
  sim_write_data = λ chn bytes w. (pos 0, w);
  disabled = pos 0;
}

still-IsClock : IsClock still
still-IsClock = record { now-usleep = λ us w. omega arith; now-get_info = λ info w. omega arith }

-- Three buffers received, around the end of a ring of eight, and one of them held.
abbrev ring_info : Engine → Direction → ChannelInfo
ring_info chn dir = record {
  chn = chn;
  dir = dir;
  tmo_ms = pos 0;
  buff_size = 65536;
  num_buffs = 8;
  hw_idx = 1;
  sw_idx = 6;
}

abbrev receiving : Device ℕ
receiving = record {
  world = 0;
  channel_info = ring_info;
  buffers_held = 1;
  simulated = false;
  active_index = 0;
  mapped = true;
  dcs_lock_held = none;
  read_size = 0;
  write_size = 0;
}

receiving-IsReady : IsReady receiving
unfolding delta
receiving-IsReady = record {
  mapped = refl;
  simulated = refl;
  ring = record { small = omega arith; hw_lt = omega arith; sw_lt = omega arith };
  held = omega arith;
}

two_left : 1 + 2 ≤ delta_of daq c2s receiving
unfolding delta
two_left = omega arith

read_many_lem_example :
    (t : Device ℕ) × (read_many still 7 (pos 0) 2 receiving ≡ ok (slots 8 8 2, t))
    × IsReady t
    × (t.buffers_held ≡ 3)
    × (delta_of daq c2s t ≡ delta_of daq c2s receiving)
    × (t.world ≡ 0)
read_many_lem_example = read_many_lem still 7 (pos 0) 2 receiving receiving-IsReady two_left

read_release_lem_example :
    (2 ≤ delta_of daq c2s receiving)
      × (delta_of daq c2s (read_release still 7 daq 2 receiving).1 ≡ delta_of daq c2s receiving - 2)
      × ((read_release still 7 daq 2 receiving).1.buffers_held ≡ 0)
      × (((read_release still 7 daq 2 receiving).1.channel_info daq c2s).sw_idx ≡ 0)
      × IsReady (read_release still 7 daq 2 receiving).1
      × ((read_release still 7 daq 2 receiving).0 ≡ pos 0)
      × ((read_release still 7 daq 2 receiving).1.world ≡ 0)
    ⊎ (delta_of daq c2s receiving < 2) × (read_release still 7 daq 2 receiving ≡ (pos 0, receiving))
read_release_lem_example = read_release_lem still 7 2 receiving receiving-IsReady

write_data-ends_example : write_data still 7 daq (1 ∷ 2 ∷ []) receiving ≢ err out_of_fuel
write_data-ends_example = write_data-ends still still-IsClock 7 daq (1 ∷ 2 ∷ []) receiving

still-IsLockClock : IsLockClock still
still-IsLockClock = record { now-usleep = λ us w. omega arith; now-dcs_lock = λ w. omega arith }

abbrev locked : Device ℕ
locked = record receiving { dcs_lock_held = some 7 }

begin_dcs_transaction-ends_example : begin_dcs_transaction still 7 receiving ≢ err out_of_fuel
begin_dcs_transaction-ends_example = begin_dcs_transaction-ends still still-IsLockClock 7 receiving

-- A driver that reports its rings in order, and takes what is sent.
abbrev sending : Backend
sending = record still { get_info = λ info w. (pos 0, ring_info info.chn info.dir, w) }

abbrev sent : Device ℕ
sent = record (set_info daq s2c (record (ring_info daq s2c) { sw_idx = 7 }) receiving) {
  write_size = 2;
}
