-- ===== src/Registers/Access/Verified.antt =====
-- When a verified write to a register passes (`WriteRegister_` and `CFOandDTCVerifyRegisterWrite_` of
-- dtcInterfaceLib/CFOandDTC_Registers.cpp).
use mu2e_pcie_utils.Prelude.{
  ℕ, ◌^◌, ◌<◌, ◌≡◌, refl, Bool, true, false, ◌&&◌, ◌||◌, ◌==◌, ==→eq, ==→ne, leb, ltb, inl, inr,
  ◌⊎◌, if◌then◌else◌, ok, err, Bool-cases, Outcome,
}
use Prim.Native.Nat.{bit_and}
use mu2e_pcie_utils.Registers.Port.{Port, RegisterError, write_mismatch}
use mu2e_pcie_utils.Registers.Bitset.{bit, bit_of}
use mu2e_pcie_utils.Registers.Bitset.Masks.{all_below, differ_at, masked-same, masked-other}
use mu2e_pcie_utils.Registers.Access.{
  serdes_clock_iic_low, firefly_rx_iic_low, firefly_control_status,
}

-- A verified write that had `x` read back for `v`: it returns when the two have the same bits where
-- they matter, and is refused when they differ at one of these.
abbrev pub Judged :
    {State : Type 0} → (ℕ → Bool) → ℕ → ℕ → ℕ → State → Outcome RegisterError (ℕ × State) → Type 0
Judged matters a x v t result =
    ((k : ℕ) → differ_at matters x v k ≡ false) × (result ≡ ok (x, t))
    ⊎ (k : ℕ) × (differ_at matters x v k ≡ true) × (result ≡ err (write_mismatch a))

-- A comparison under a mask judges the bits of the mask.
pub masked-Judged :
    {State : Type 0}
    → (m : ℕ) → (matters : ℕ → Bool)
    → (is_mask : all_below 32 (λ k. bit m k == bit_of (matters k)) ≡ true) → (a x v : ℕ)
    → (t : State) → x < 2 ^ 32
    → v < 2 ^ 32
    → (result : Outcome RegisterError (ℕ × State))
    → (result ≡ (if bit_and x m == bit_and v m then ok (x, t) else err (write_mismatch a)))
    → Judged matters a x v t result
masked-Judged m matters is_mask a x v t hx hv result e =
    elim (Bool-cases (bit_and x m == bit_and v m)) [
      | inl same ↦
          inl (λ k. masked-same m matters is_mask x v k (==→eq _ _ same), rw (e, same) refl)
      | inr other ↦
          let found = masked-other m matters is_mask x v hx hv (==→ne _ _ other) in
          inr (found.0, found.1, rw (e, other) refl)
    ]

-- The bits of the registers of both boards that are compared: the upper half of the two addresses
-- of a transfer, bits 0 to 2 and 8 to 10 of the Firefly register, all but bit 31 of the control
-- register.
abbrev pub core_bits : ℕ → ℕ → Bool
core_bits address k =
    if address == serdes_clock_iic_low || address == firefly_rx_iic_low
    then leb 16 k
    else if address == firefly_control_status
    then ltb k 3 || leb 8 k && ltb k 11
    else ltb k 31
