-- ===== src/Device/Read/Release.antt =====
-- What `read_release` (dtcInterfaceLib/mu2edev.cpp) gives back.
use Prim.Native.Nat.{bit_and}
use mu2e_pcie_utils.Bits.{none_bit_or}
use mu2e_pcie_utils.Prelude.{
  ap, ◌∙◌, ℕ, ◌+◌, ◌-◌, ◌%◌, ◌<◌, ◌≤◌, ◌≡◌, refl, true, false, leb, if◌then◌else◌, pos, arith,
  Bool-cases, inl, inr, ◌⊎◌,
}
use mu2e_pcie_utils.Device.Ring.{daq, c2s}
use mu2e_pcie_utils.Device.Ring.Index.{
  stepped, stepped-IsRing, stepped_index, stepped-delta_c2s, delta_c2s,
}
use mu2e_pcie_utils.Device.Backend.{Backend}
use mu2e_pcie_utils.Device.State.{set_info, Device, delta_of}
use mu2e_pcie_utils.Device.Read.{read_release, release_ring, give_argument}
use mu2e_pcie_utils.Device.Read.Order.{IsReady}

le→leb : (a b : ℕ) → a ≤ b → leb a b ≡ true
le→leb a b h = ground arith

lt→leb : (a b : ℕ) → b < a → leb a b ≡ false
lt→leb a b h = ground arith

module _ (b : Backend) where
  open b use {World}

  -- The state after a release that the ring allows.
  abbrev released : ℕ → Device World → Device World
  released num s = record (set_info daq c2s (stepped (s.channel_info daq c2s) num) s) {
    world = (b.buf_give (give_argument daq num) s.world).1;
    buffers_held = s.buffers_held - num;
  }

  release_step :
      (me num : ℕ) (s : Device World)
      → IsReady s
      → num ≤ delta_of daq c2s s
      → read_release b me daq num s
        ≡ ((b.buf_give (give_argument daq num) s.world).0, released num s)
  unfolding read_release release_ring
  release_step me num s r h =
      let held : (if leb num s.buffers_held then s.buffers_held - num else 0)
          ≡ s.buffers_held - num =
        elim (Bool-cases (leb num s.buffers_held)) [
          | inl e ↦ rw e refl
          | inr e ↦ rw e (ground arith)
        ] in
      rw (r.simulated, le→leb num (delta_of daq c2s s) h, held) refl

  -- Either `num` buffers at least are received on the data channel and not released: then the index
  -- of the software moves by `num` around the ring, the driver is told by `M_IOC_BUF_GIVE` (its status
  -- is the result), `num` less are there, `num` less are held (none, when more are released than were
  -- read), and the ring stays in order. Or fewer are there: then the release is refused with status 0,
  -- and nothing changes.
  pub read_release_lem :
      (me num : ℕ) (s : Device World)
      → IsReady s
      → (num ≤ delta_of daq c2s s)
          × (delta_of daq c2s (read_release b me daq num s).1 ≡ delta_of daq c2s s - num)
          × ((read_release b me daq num s).1.buffers_held ≡ s.buffers_held - num)
          × (((read_release b me daq num s).1.channel_info daq c2s).sw_idx
              ≡ ((s.channel_info daq c2s).sw_idx + num) % (s.channel_info daq c2s).num_buffs)
          × IsReady (read_release b me daq num s).1
          × ((read_release b me daq num s).0 ≡ (b.buf_give (bit_and num 0xffff) s.world).0)
          × ((read_release b me daq num s).1.world ≡ (b.buf_give (bit_and num 0xffff) s.world).1)
        ⊎ (delta_of daq c2s s < num) × (read_release b me daq num s ≡ (pos 0, s))
  unfolding read_release release_ring
  read_release_lem me num s r = elim (Bool-cases (leb num (delta_of daq c2s s))) [
    | inl e ↦
        let h : num ≤ delta_of daq c2s s = ground arith in
        let info = s.channel_info daq c2s in
        let whole = delta_c2s info r.ring in
        let le : num ≤ info.num_buffs = omega (arith, h, whole.0) in
        inl (
          h,
          rw (release_step me num s r h) (stepped-delta_c2s info num r.ring h),
          rw (release_step me num s r h) refl,
          rw (release_step me num s r h) (stepped_index info num r.ring le),
          rw (release_step me num s r h) (record {
            mapped = r.mapped;
            simulated = r.simulated;
            ring = stepped-IsRing info num r.ring le;
            held = omega (arith, r.held, h, stepped-delta_c2s info num r.ring h);
          }),
          ap (λ y. y.0) (release_step me num s r h)
              ∙ ap (λ (n : ℕ). (b.buf_give n s.world).0) (none_bit_or (bit_and num 0xffff)),
          ap (λ y. y.1.world) (release_step me num s r h)
              ∙ ap (λ (n : ℕ). (b.buf_give n s.world).1) (none_bit_or (bit_and num 0xffff)),
        )
    | inr e ↦
        let h : delta_of daq c2s s < num = ground arith in
        inr (h, rw (r.simulated, lt→leb num (delta_of daq c2s s) h) refl)
  ]
