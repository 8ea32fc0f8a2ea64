-- ===== src/Boards/Ports/Checks.antt =====
-- When a write to a register of one board only passes (`NeedToVerifyRegisterWrite_` and
-- `VerifyRegisterWrite_` of dtcInterfaceLib/DTC_Registers.cpp and cfoInterfaceLib/CFO_Registers.cpp).
use mu2e_pcie_utils.Prelude.{
  ℤ, if_both, is_zero, ==→ne, ==→eq, ◌≢◌, ◌⊎◌, eq→==, ℕ, ◌^◌, ◌<◌, ◌≡◌, refl, sym, Bool, true,
  false, not, ◌||◌, ◌==◌, ltb, inl, inr, if◌then◌else◌, ok, err, pos, Bool-cases, ◌∙◌, ap,
}
use mu2e_pcie_utils.Registers.Access.{
  write_once, is_core, core_verify, verify_write, write_register, write_tries,
}
use Prim.Native.Nat.{zero, suc, bit_and}
use mu2e_pcie_utils.Bits.{bit_and_none, bit_and_ones}
use mu2e_pcie_utils.Registers.Port.{Port, write_mismatch}
use mu2e_pcie_utils.Registers.Bitset.{bit, bit_of}
use mu2e_pcie_utils.Registers.Bitset.Masks.{all_below}
use mu2e_pcie_utils.Registers.Access.Verified.{Judged, masked-Judged}
use mu2e_pcie_utils.Boards.Address.Dtc.{dtc_cfo_marker_enables_reg, dtc_det_emulation_control1_reg}
use mu2e_pcie_utils.Boards.Address.DtcMiddle.{
  dtc_rxcdr_unlock_count_cfo_link_reg, dtc_jitter_attenuator_loss_of_lock_count_reg,
}
use mu2e_pcie_utils.Boards.Ports.{
  device_port, dtc_port, cfo_port, dtc_accepts, cfo_accepts, cfo_needs_verify,
  dtc_jitter_attenuator_csr_reg, dtc_emulation_event_mode2_reg, cfo_run_plan_data_reg,
  cfo_jitter_attenuator_csr_reg,
}
use mu2e_pcie_utils.Device.Backend.{Backend}
use mu2e_pcie_utils.Device.State.{Device}

-- The bits of a register of the DTC that are compared: bits 0 to 5 of the enables of the event
-- markers, bits 4 and 5 of the jitter attenuator's register, bits 0 to 15 of the second event mode,
-- none of two counters and of the detector emulation, and all of any other.
abbrev pub dtc_bits : ℕ → ℕ → Bool
dtc_bits address k =
    if address == dtc_cfo_marker_enables_reg
    then ltb k 6
    else if address == dtc_rxcdr_unlock_count_cfo_link_reg
        || address == dtc_jitter_attenuator_loss_of_lock_count_reg
    then false
    else if address == dtc_jitter_attenuator_csr_reg
    then k == 4 || k == 5
    else if address == dtc_emulation_event_mode2_reg
    then ltb k 16
    else not (address == dtc_det_emulation_control1_reg)

-- Of a register of the CFO: bits 4 and 5 of the jitter attenuator's register, all of any other.
abbrev pub cfo_bits : ℕ → ℕ → Bool
cfo_bits address k = if address == cfo_jitter_attenuator_csr_reg then k == 4 || k == 5 else true

-- The bits as a mask.
abbrev dtc_mask : ℕ → ℕ
dtc_mask address =
    if address == dtc_cfo_marker_enables_reg
    then 0x3f
    else if address == dtc_rxcdr_unlock_count_cfo_link_reg
        || address == dtc_jitter_attenuator_loss_of_lock_count_reg
    then 0
    else if address == dtc_jitter_attenuator_csr_reg
    then 0x30
    else if address == dtc_emulation_event_mode2_reg
    then 0xffff
    else if address == dtc_det_emulation_control1_reg
    then 0
    else 0xffffffff

abbrev cfo_mask : ℕ → ℕ
cfo_mask address = if address == cfo_jitter_attenuator_csr_reg then 0x30 else 0xffffffff

dtc-mask_bits : (a : ℕ) → all_below 32 (λ k. bit (dtc_mask a) k == bit_of (dtc_bits a k)) ≡ true
dtc-mask_bits a = elim (Bool-cases (a == dtc_cfo_marker_enables_reg)) [
  | inl one ↦ rw one refl
  | inr n1 ↦
      elim (Bool-cases (
        a == dtc_rxcdr_unlock_count_cfo_link_reg
        || a == dtc_jitter_attenuator_loss_of_lock_count_reg)) [
          | inl two ↦ rw (n1, two) refl
          | inr n2 ↦ elim (Bool-cases (a == dtc_jitter_attenuator_csr_reg)) [
            | inl three ↦ rw (n1, n2, three) refl
            | inr n3 ↦ elim (Bool-cases (a == dtc_emulation_event_mode2_reg)) [
              | inl four ↦ rw (n1, n2, n3, four) refl
              | inr n4 ↦ elim (Bool-cases (a == dtc_det_emulation_control1_reg)) [
                | inl five ↦ rw (n1, n2, n3, n4, five) refl
                | inr n5 ↦ rw (n1, n2, n3, n4, n5) refl
              ]
            ]
          ]
        ]
]

cfo-mask_bits : (a : ℕ) → all_below 32 (λ k. bit (cfo_mask a) k == bit_of (cfo_bits a k)) ≡ true
cfo-mask_bits a = elim (Bool-cases (a == cfo_jitter_attenuator_csr_reg)) [
  | inl one ↦ rw one refl
  | inr other ↦ rw other refl
]

module _ (x v : ℕ) (hx : x < 2 ^ 32) (hv : v < 2 ^ 32) where
  none_masked : true ≡ (bit_and x 0 == bit_and v 0)
  none_masked = sym (eq→== _ _ (bit_and_none x ∙ sym (bit_and_none v)))

  all_masked : (x == v) ≡ (bit_and x 0xffffffff == bit_and v 0xffffffff)
  all_masked = rw (bit_and_ones 32 x hx, bit_and_ones 32 v hv) refl

  dtc_accepts-masked :
      (a : ℕ) → dtc_accepts a x v ≡ (bit_and x (dtc_mask a) == bit_and v (dtc_mask a))
  dtc_accepts-masked a = elim (Bool-cases (a == dtc_cfo_marker_enables_reg)) [
    | inl one ↦ rw one refl
    | inr n1 ↦
        elim (Bool-cases (
          a == dtc_rxcdr_unlock_count_cfo_link_reg
          || a == dtc_jitter_attenuator_loss_of_lock_count_reg)) [
            | inl two ↦ rw (n1, two) none_masked
            | inr n2 ↦ elim (Bool-cases (a == dtc_jitter_attenuator_csr_reg)) [
              | inl three ↦ rw (n1, n2, three) refl
              | inr n3 ↦ elim (Bool-cases (a == dtc_emulation_event_mode2_reg)) [
                | inl four ↦ rw (n1, n2, n3, four) refl
                | inr n4 ↦ elim (Bool-cases (a == dtc_det_emulation_control1_reg)) [
                  | inl five ↦ rw (n1, n2, n3, n4, five) none_masked
                  | inr n5 ↦ rw (n1, n2, n3, n4, n5) all_masked
                ]
              ]
            ]
          ]
  ]

  cfo_accepts-masked :
      (a : ℕ) → cfo_accepts a x v ≡ (bit_and x (cfo_mask a) == bit_and v (cfo_mask a))
  cfo_accepts-masked a = elim (Bool-cases (a == cfo_jitter_attenuator_csr_reg)) [
    | inl one ↦ rw one refl
    | inr other ↦ rw other all_masked
  ]

-- Without a check the value read back is the one written.
plain_tries :
    (p : Port)
    → (a v : ℕ) → p.needs_verify a ≡ false
    → (tries : ℕ) → (s : p.State) → (write_tries p tries a v s).1 ≡ v
unfolding write_tries
plain_tries p a v plain zero s = rw plain refl
plain_tries p a v plain (suc tries) s =
    let once = write_once p a v s in
    if_both (λ (r : ℤ × ℕ × p.State). r.1 ≡ v) (is_zero once.0) (λ done. rw plain refl)
      (λ again. plain_tries p a v plain tries once.2)

module _ (b : Backend) (garbage fuel : ℕ) where
  module _ (needs : ℕ → Bool) (accepts : ℕ → ℕ → ℕ → Bool) (a v x : ℕ) (s t : Device b.World)
      (answer : write_tries (device_port b garbage needs accepts) 2 a v s ≡ (pos 0, x, t)) where
    plain-value : needs a ≡ false → x ≡ v
    plain-value plain =
        sym (ap (λ r. r.1) answer) ∙ plain_tries (device_port b garbage needs accepts) a v plain 2 s

    unverified :
        needs a ≡ false
        → write_register (device_port b garbage needs accepts) fuel v a s ≡ ok (v, t)
    unfolding write_register
    unverified plain =
        let returned : write_register (device_port b garbage needs accepts) fuel v a s ≡ ok (x, t) =
          rw (answer, plain) refl in
        returned ∙ ap (λ (c : ℕ). ok (c, t)) (plain-value plain)

    verified :
        needs a ≡ true
        → is_core a ≡ false
        → write_register (device_port b garbage needs accepts) fuel v a s
          ≡ (if accepts a x v then ok (x, t) else err (write_mismatch a))
    unfolding write_register verify_write core_verify
    verified checked own = elim (Bool-cases (accepts a x v)) [
      | inl passes ↦ rw (answer, checked, own, passes) refl
      | inr fails ↦ rw (answer, checked, own, fails) refl
    ]

  -- A write to a register of the DTC only, for which the device has answered `x` without an error,
  -- returns `x` when all bits of the register that are compared are those of the value, and is
  -- refused when one of them is not.
  pub write_dtc_lem :
      (a v x : ℕ) (s t : Device b.World)
      → write_tries (dtc_port b garbage) 2 a v s ≡ (pos 0, x, t)
      → is_core a ≡ false
      → x < 2 ^ 32
      → v < 2 ^ 32
      → Judged (dtc_bits a) a x v t (write_register (dtc_port b garbage) fuel v a s)
  write_dtc_lem a v x s t answer own hx hv =
      masked-Judged (dtc_mask a) (dtc_bits a) (dtc-mask_bits a) a x v t hx hv _ (
        verified (λ _. true) dtc_accepts a v x s t answer refl own
        ∙ ap (λ (c : Bool). if c then ok (x, t) else err (write_mismatch a))
            (dtc_accepts-masked x v hx hv a))

  -- A write to a register of the CFO only, for which the device has answered `x` without an error,
  -- returns the value written, unchecked, when the register is the data of the run plan; otherwise it
  -- returns `x` when all bits that are compared are those of the value, and is refused when one of
  -- them is not.
  pub write_cfo_lem :
      (a v x : ℕ) (s t : Device b.World)
      → write_tries (cfo_port b garbage) 2 a v s ≡ (pos 0, x, t)
      → is_core a ≡ false
      → x < 2 ^ 32
      → v < 2 ^ 32
      → (a ≡ 0x9318) × (write_register (cfo_port b garbage) fuel v a s ≡ ok (v, t))
        ⊎ (a ≢ 0x9318)
          × Judged (cfo_bits a) a x v t (write_register (cfo_port b garbage) fuel v a s)
  write_cfo_lem a v x s t answer own hx hv = elim (Bool-cases (a == cfo_run_plan_data_reg)) [
    | inl plan ↦ inl (
      ==→eq a cfo_run_plan_data_reg plan,
      unverified cfo_needs_verify cfo_accepts a v x s t answer (rw plan refl),
    )
    | inr other ↦ inr (
      ==→ne a cfo_run_plan_data_reg other,
      masked-Judged (cfo_mask a) (cfo_bits a) (cfo-mask_bits a) a x v t hx hv _ (
          verified cfo_needs_verify cfo_accepts a v x s t answer (rw other refl) own
          ∙ ap (λ (c : Bool). if c then ok (x, t) else err (write_mismatch a))
              (cfo_accepts-masked x v hx hv a)),
    )
  ]
