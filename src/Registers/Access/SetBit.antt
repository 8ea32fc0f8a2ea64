-- ===== src/Registers/Access/SetBit.antt =====
-- What `SetBit_` and `GetBit_` (dtcInterfaceLib/CFOandDTC_Registers.cpp) do on a device that keeps
-- what is written to it.
use mu2e_pcie_utils.Prelude.{
  ℕ, ◌≤◌, ◌≡◌, ◌≢◌, refl, Bool, true, false, ◌==◌, le→ltb, ok, arith, Bool-cases, inl, inr,
}
use mu2e_pcie_utils.Registers.Port.{Port, IsMemory}
use mu2e_pcie_utils.Registers.Bitset.{bit_of, test_bit, assign_bit}
use mu2e_pcie_utils.Registers.Bitset.Assign.{bit-assign_same, bit-assign_other, assign_lt}
use mu2e_pcie_utils.Registers.Access.{
  control, is_core, read_tries, read_register, write_tries, write_register, verify_write,
  core_verify, get_bit, set_bit,
}

test-bit_of : (v : Bool) → (bit_of v == 1) ≡ v
test-bit_of true = refl
test-bit_of false = refl

module _ (p : Port) (mem : IsMemory p)
    (agrees : (a v : ℕ) (s : p.State) → p.verify a v v s ≡ ok s) where
  open p use {State, needs_verify}

  not_control : (a : ℕ) → is_core a ≡ false → (a == control) ≡ false
  not_control a h = ground arith

  read-contents :
      (a : ℕ) (s : State) → is_core a ≡ false → read_register p a s ≡ ok (mem.contents s a, s)
  unfolding read_register read_tries
  read-contents a s other = rw (mem.read_lem a s, not_control a other) refl

  write-contents :
      (fuel v a : ℕ) (s : State)
      → is_core a ≡ false
      → write_register p fuel v a s ≡ ok (v, mem.written a v s)
  unfolding write_register write_tries verify_write core_verify
  write-contents fuel v a s other = elim (Bool-cases (needs_verify a)) [
    | inl needs ↦
        rw (needs, mem.write_checked_lem a v s, other, agrees a v (mem.written a v s)) refl
    | inr plain ↦ rw (plain, mem.write_lem a v s) refl
  ]

  -- On a device that answers each access and keeps what is written, of a board whose check passes a
  -- value read back as written, and for a register that is not one of the five that both boards check
  -- alike: `set_bit` of one of the 32 bits returns; then `get_bit` reads that bit as it was set, and
  -- each other bit of the register as it was before.
  pub set_bit-get_bit :
      (fuel a k j : ℕ) (v : Bool) (s : State)
      → is_core a ≡ false
      → k ≤ 31
      → j ≤ 31
      → k ≢ j
      → (t : State) × (set_bit p fuel a k v s ≡ ok t)
        × (get_bit p a k t ≡ ok (v, t))
        × (get_bit p a j t ≡ ok (test_bit (mem.contents s a) j, t))
  unfolding set_bit get_bit
  set_bit-get_bit fuel a k j v s other hk hj ne =
      let x = mem.contents s a in
      let y = assign_bit x k v in
      let t = mem.written a y s in
      let low = le→ltb 31 k hk in
      let kept : mem.contents t a ≡ y =
        mem.contents-written a y s (assign_lt x k v (omega arith) (mem.contents_lt s a)) in
      (
        t,
        rw (low, read-contents a s other) (rw (write-contents fuel y a s other) refl),
        rw (low, read-contents a t other, kept, bit-assign_same x k v, test-bit_of v) refl,
        rw (le→ltb 31 j hj, read-contents a t other, kept, bit-assign_other x k j v ne) refl,
      )
