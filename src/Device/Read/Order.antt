-- ===== src/Device/Read/Order.antt =====
-- The order in which `read_data` and `read_release` (dtcInterfaceLib/mu2edev.cpp) hand out and give
-- back the buffers of the data channel.
use native.Mathlib.Nat.{mod-eq_of_lt}
use mu2e_pcie_utils.Prelude.{
  ℕ, zero, suc, ◌+◌, ◌%◌, ◌^◌, ◌<◌, ◌≤◌, ◌≡◌, refl, ap, ◌∙◌, true, false, List, [], ◌∷◌, lt→ltb,
  Outcome, ok, ◌>>=◌, ℤ, arith,
}
use mu2e_pcie_utils.Device.Ring.{idx_add, daq, c2s, delta}
use mu2e_pcie_utils.Device.Ring.Index.{IsRing, delta_c2s, idx_add_lem}
use mu2e_pcie_utils.Device.Backend.{Backend}
use mu2e_pcie_utils.Device.State.{set_info, count_read, Device, DeviceError, Buffer, slot, delta_of}
use mu2e_pcie_utils.Device.Read.{read_data, read_device, read_ring, take_slot}

-- A device that is mapped, whose data channel receives through a ring, and the bookkeeping of the
-- buffers read and not released.
pub record IsReady {W : Type 0} (s : Device W) : Type 0 where
  pub mapped : s.mapped ≡ true
  pub simulated : s.simulated ≡ false
  pub ring : IsRing (s.channel_info daq c2s)
  pub held : s.buffers_held ≤ delta_of daq c2s s

-- `k` slots from position `i` on, around a ring of `n`.
unfoldable pub slots : ℕ → ℕ → ℕ → List Buffer
slots n i zero = []
slots n i (suc k) = slot daq (i % n) ∷ slots n (i + 1) k

module _ (b : Backend) where
  open b use {World}

  -- The buffers of `k` calls of `read_data`, one after another.
  unfoldable pub read_many :
      ℕ → ℤ → ℕ → Device World → Outcome DeviceError (List Buffer × Device World)
  read_many me tmo_ms zero s = ok ([], s)
  read_many me tmo_ms (suc k) s = do
    first ← read_data b me daq tmo_ms s
    rest ← read_many me tmo_ms k first.2
    ok (first.1 ∷ rest.0, rest.1)

  -- The state after a read that finds data in the cached information.
  abbrev after_read : ℤ → Device World → Device World
  after_read tmo_ms s =
      let info = s.channel_info daq c2s in
      let n = b.byte_count daq (((info.sw_idx + s.buffers_held + 1)) % info.num_buffs) s.world in
      count_read n (record (set_info daq c2s (record info { tmo_ms = tmo_ms }) s) {
        buffers_held = s.buffers_held + 1;
      })

  read_step :
      (me : ℕ) (tmo_ms : ℤ) (s : Device World)
      → IsReady s
      → s.buffers_held < delta_of daq c2s s
      → read_data b me daq tmo_ms s
        ≡ ok (
          b.byte_count daq
              (((s.channel_info daq c2s).sw_idx + s.buffers_held + 1)
                % (s.channel_info daq c2s).num_buffs)
              s.world,
          slot daq (
              ((s.channel_info daq c2s).sw_idx + s.buffers_held + 1)
              % (s.channel_info daq c2s).num_buffs),
          after_read tmo_ms s,
        )
  unfolding read_data read_device read_ring take_slot
  read_step me tmo_ms s r h =
      let info = s.channel_info daq c2s in
      let bound = (delta_c2s info r.ring).0 in
      let wrap : (s.buffers_held + 1) % 2 ^ 32 ≡ s.buffers_held + 1 =
        mod-eq_of_lt (omega (arith, h, bound, r.ring.small)) in
      let index : idx_add info.sw_idx (s.buffers_held + 1) info.num_buffs
          ≡ (info.sw_idx + s.buffers_held + 1) % info.num_buffs =
        idx_add_lem info.sw_idx (s.buffers_held + 1) info.num_buffs r.ring.sw_lt
          (omega (arith, h, bound, r.ring.small)) r.ring.small
        ∙ ap (λ (t : ℕ). t % info.num_buffs) (omega arith) in
      rw (r.simulated, r.mapped, lt→ltb s.buffers_held (delta_of daq c2s s) h)
        (rw (wrap, index) refl)

  after_read-IsReady :
      (tmo_ms : ℤ) (s : Device World)
      → IsReady s
      → s.buffers_held < delta_of daq c2s s
      → IsReady (after_read tmo_ms s)
  unfolding delta
  after_read-IsReady tmo_ms s r h = record {
    mapped = r.mapped;
    simulated = r.simulated;
    ring = record { small = r.ring.small; hw_lt = r.ring.hw_lt; sw_lt = r.ring.sw_lt };
    held = omega (arith, h);
  }

  same_delta :
      (tmo_ms : ℤ) (s : Device World) → delta_of daq c2s (after_read tmo_ms s) ≡ delta_of daq c2s s
  unfolding delta
  same_delta tmo_ms s = refl

  -- While buffers are received that are not handed out yet, `k` reads of the data channel hand out
  -- the next `k` slots of the ring in its order, none skipped and none twice; the count of the
  -- buffers held grows by `k`, and nothing outside of the library changes: the driver is not asked.
  pub read_many_lem :
      (me : ℕ) (tmo_ms : ℤ) (k : ℕ) (s : Device World)
      → IsReady s
      → s.buffers_held + k ≤ delta_of daq c2s s
      → (t : Device World) × (read_many me tmo_ms k s
          ≡ ok (
            slots
                (s.channel_info daq c2s).num_buffs
                ((s.channel_info daq c2s).sw_idx + s.buffers_held + 1)
                k,
            t,
          ))
        × IsReady t
        × (t.buffers_held ≡ s.buffers_held + k)
        × (delta_of daq c2s t ≡ delta_of daq c2s s)
        × (t.world ≡ s.world)
  unfolding read_many slots
  read_many_lem me tmo_ms zero s r h = (s, refl, r, omega arith, refl, refl)
  read_many_lem me tmo_ms (suc k) s r h =
      let step = read_step me tmo_ms s r (omega (arith, h)) in
      let next = after_read tmo_ms s in
      let r' = after_read-IsReady tmo_ms s r (omega (arith, h)) in
      let rec = read_many_lem me tmo_ms k next r' (omega (arith, h, same_delta tmo_ms s)) in
      let info = s.channel_info daq c2s in
      let shift : info.sw_idx + (s.buffers_held + 1) + 1 ≡ info.sw_idx + s.buffers_held + 1 + 1 =
        omega arith in
      (
        rec.0,
        rw (step, read_many, rec.1, shift) refl,
        rec.2,
        omega (arith, rec.3),
        rec.4 ∙ same_delta tmo_ms s,
        rec.5,
      )
