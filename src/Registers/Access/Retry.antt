-- ===== src/Registers/Access/Retry.antt =====
-- Which of its three tries `ReadRegister_` (dtcInterfaceLib/CFOandDTC_Registers.cpp) returns, and when
-- it throws.
use mu2e_pcie_utils.Prelude.{
  ℕ, zero, suc, ◌-◌, ◌^◌, ◌≤◌, ◌≡◌, refl, true, false, ◌&&◌, ◌==◌, ok, err, ℤ, is_zero, ◌⊎◌, inl,
  inr, Bool-cases, arith,
}
use mu2e_pcie_utils.Registers.Port.{Port, read_error, uninitialized}
use mu2e_pcie_utils.Registers.Access.{control, read_tries, read_register}

module _ (p : Port) (a : ℕ) where
  open p use {State, read}

  -- The answer to the `k`-th access, counted from 0, when each goes on from the one before.
  abbrev pub attempt : ℕ → State → ℤ × ℕ × State
  attempt zero s = read a s
  attempt (suc k) s = attempt k (read a s).2

  -- The first `k` accesses fail.
  abbrev pub Fails : ℕ → State → Type 0
  Fails zero s = Unit
  Fails (suc k) s = (is_zero (read a s).0 ≡ false) × Fails k (read a s).2

  read_tries-cases :
      (n : ℕ) (s : State)
      → (Fails (suc n) s × (is_zero (read_tries p n a s).0 ≡ false))
        ⊎ ((k : ℕ) × (k ≤ n)
            × Fails k s
            × (is_zero (attempt k s).0 ≡ true)
            × (read_tries p n a s ≡ attempt k s))
  unfolding read_tries
  read_tries-cases zero s = elim (Bool-cases (is_zero (read a s).0)) [
    | inl good ↦ inr (0, omega arith, tt, good, refl)
    | inr bad ↦ inl ((bad, tt), bad)
  ]
  read_tries-cases (suc n) s = elim (Bool-cases (is_zero (read a s).0)) [
    | inl good ↦ inr (0, omega arith, tt, good, rw good refl)
    | inr bad ↦ elim (read_tries-cases n (read a s).2) [
      | inl all ↦ inl ((bad, all.0), rw bad all.1)
      | inr found ↦
          inr (suc found.0, omega (arith, found.1), (bad, found.2), found.3, rw bad found.4)
    ]
  ]

  -- `read_register` reads up to three times, until a reading succeeds. Either all three fail, and it
  -- throws; or the first that succeeds is of the control register and has all bits set, and it throws
  -- that the board is not initialised; or it returns the value of that reading and the state after it.
  pub read_register_lem :
      (s : State)
      → (Fails 3 s × (read_register p a s ≡ err (read_error a)))
        ⊎ ((k : ℕ) × (k ≤ 2)
            × Fails k s
            × (is_zero (attempt k s).0 ≡ true)
            × (((a == control && (attempt k s).1 == 2 ^ 32 - 1) ≡ true)
                  × (read_register p a s ≡ err (uninitialized a))
                ⊎ ((a == control && (attempt k s).1 == 2 ^ 32 - 1) ≡ false)
                  × (read_register p a s ≡ ok ((attempt k s).1, (attempt k s).2))))
  unfolding read_register
  read_register_lem s = elim (read_tries-cases 2 s) [
    | inl all ↦ inl (all.0, rw all.1 refl)
    | inr found ↦
        let answer = attempt found.0 s in
        inr (
          found.0,
          found.1,
          found.2,
          found.3,
          elim (Bool-cases (a == control && answer.1 == 2 ^ 32 - 1)) [
            | inl ones ↦ inl (ones, rw (found.4, found.3, ones) refl)
            | inr value ↦ inr (value, rw (found.4, found.3, value) refl)
          ],
        )
  ]
