-- ===== src/Boards/Framed.antt =====
-- Boards on which a write to a register changes what that register holds, in a way that is left
-- open, and no other (`ReadRegister_` and `WriteRegister_` of dtcInterfaceLib/CFOandDTC_Registers.cpp).
use mu2e_pcie_utils.Prelude.{ℕ, ◌≡◌, ◌≢◌, refl, false, ◌==◌, pos, ok, Bool-cases, inl, inr}
use mu2e_pcie_utils.Registers.Port.{Port}
use mu2e_pcie_utils.Registers.Access.{
  control, is_core, read_tries, read_register, write_tries, write_register, verify_write,
  core_verify,
}
use mu2e_pcie_utils.Boards.Base.{Board, read, write}

pub record IsFramed (p : Port) : Type 0 where
  pub contents : p.State → ℕ → ℕ
  pub stored : ℕ → ℕ → p.State → p.State
  -- What a checked write reads back.
  pub answered : ℕ → ℕ → p.State → ℕ
  pub read_lem : (a : ℕ) (s : p.State) → p.read a s ≡ (pos 0, contents s a, s)
  pub write_lem : (a v : ℕ) (s : p.State) → p.write a v s ≡ (pos 0, stored a v s)
  pub write_checked_lem :
      (a v : ℕ) (s : p.State) → p.write_checked a v s ≡ (pos 0, answered a v s, stored a v s)
  pub contents-stored_other :
      (a c v : ℕ) (s : p.State) → a ≢ c → contents (stored a v s) c ≡ contents s c

module _ (b : Board) (framed : IsFramed b.port) where
  open b.port use {State, needs_verify, verify}
  open framed use {contents, stored, answered, read_lem, write_lem, write_checked_lem}

  -- The board's own check passes what is read back.
  abbrev pub IsAccepted : ℕ → ℕ → State → Type 0
  IsAccepted a v s = verify a (answered a v s) v (stored a v s) ≡ ok (stored a v s)

  pub read-framed : (a : ℕ) (s : State) → (a == control) ≡ false → read b a s ≡ ok (contents s a, s)
  unfolding read_register read_tries
  read-framed a s plain = rw (read_lem a s, plain) refl

  pub write-framed :
      (a v : ℕ) (s : State)
      → is_core a ≡ false
      → IsAccepted a v s
      → write b a v s ≡ ok (stored a v s)
  unfolding write_register write_tries verify_write core_verify
  write-framed a v s own accepted = elim (Bool-cases (needs_verify a)) [
    | inr unchecked ↦ rw (unchecked, write_lem a v s) refl
    | inl needs ↦ rw (needs, write_checked_lem a v s, own, accepted) refl
  ]
