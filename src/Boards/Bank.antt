-- ===== src/Boards/Bank.antt =====
-- Boards whose registers keep what is written to them, and what reading and writing do there
-- (`ReadRegister_` and `WriteRegister_` of dtcInterfaceLib/CFOandDTC_Registers.cpp).
use mu2e_pcie_utils.Prelude.{
  ◌>>◌, require, ap, ℕ, ◌-◌, ◌^◌, ◌≡◌, ◌≢◌, refl, Bool, true, false, ◌&&◌, ◌==◌, ok, Bool-cases,
  inl, inr, eq→==,
}
use mu2e_pcie_utils.Registers.Port.{write_mismatch, Port, IsMemory}
use mu2e_pcie_utils.Registers.Bitset.{test_bit}
use mu2e_pcie_utils.Registers.Access.{
  control, serdes_clock_iic_high, is_core, care_mask, read_tries, read_register, write_tries,
  write_register, verify_write, core_verify, compare_masked,
}
use mu2e_pcie_utils.Boards.Base.{Board, read, write}
use Prim.Native.Nat.{bit_and}

pub record IsBank (p : Port) : Type 0 where
  pub memory : IsMemory p
  -- The board's own check accepts a value that is read back as it was written.
  pub agrees : (a v : ℕ) (s : p.State) → p.verify a v v s ≡ ok s
  pub contents-written_other :
      (a c v : ℕ) (s : p.State)
      → a ≢ c
      → memory.contents (memory.written a v s) c ≡ memory.contents s c

module _ (b : Board) (bank : IsBank b.port) where
  open b.port use {State, needs_verify}
  open bank.memory use {contents, written, read_lem, write_lem, write_checked_lem}

  pub read-contents :
      (a : ℕ) (s : State)
      → (a == control && contents s a == 2 ^ 32 - 1) ≡ false
      → read b a s ≡ ok (contents s a, s)
  unfolding read_register read_tries
  read-contents a s live = rw (read_lem a s, live) refl

  compare-same : (a v : ℕ) (s : State) → compare_masked b.port a v v s ≡ ok (true, s)
  unfolding compare_masked
  compare-same a v s =
      let same = eq→== (bit_and v (care_mask a)) (bit_and v (care_mask a)) refl in
      ap (λ (t : Bool). require t (write_mismatch a) >> ok (true, s)) same

  -- The check of both boards' registers accepts equal values.
  core-accepts :
      (a v : ℕ) (s : State)
      → (a == serdes_clock_iic_high) ≡ false
      → core_verify b.port b.fuel a v v s ≡ ok (is_core a, s)
  unfolding core_verify compare_masked
  core-accepts a v s plain = elim (Bool-cases (is_core a)) [
    | inr other ↦ rw other refl
    | inl core ↦ elim (Bool-cases (a == control && test_bit v 0)) [
      | inl reset ↦ rw (core, plain, reset) refl
      | inr compared ↦
          let same = compare-same a v s in rw (core, plain, compared) (rw plain at same)
    ]
  ]

  pub write-written :
      (a v : ℕ) (s : State)
      → (a == serdes_clock_iic_high) ≡ false
      → write b a v s ≡ ok (written a v s)
  unfolding write_register write_tries verify_write
  write-written a v s plain = elim (Bool-cases (needs_verify a)) [
    | inr unchecked ↦ rw (unchecked, write_lem a v s) refl
    | inl needs ↦ elim (Bool-cases (is_core a)) [
      | inl core ↦
          rw (needs, write_checked_lem a v s, core-accepts a v (written a v s) plain, core) refl
      | inr other ↦
          rw
            (
              needs,
              write_checked_lem a v s,
              core-accepts a v (written a v s) plain,
              other,
              bank.agrees a v (written a v s),
            )
            refl
    ]
  ]
