-- ===== src/Bits/Step.antt =====
-- The lowest digit of `&` and `|`, from the recursion on digits that the native operations stand for.
use Prim.Native.Nat.{bit_and, bit_or, max, digits, bit_and-bitwise, bit_or-bitwise}
use native.Mathlib.Nat.{zero-add}
use mu2e_pcie_utils.Prelude.{
  ℕ, zero, suc, ◌+◌, ◌*◌, ◌/◌, ◌%◌, ◌-◌, ap, ◌∙◌, ◌≤◌, min, ◌≡◌, refl, arith,
}

-- One more unit of fuel than the first number changes nothing, hence any surplus.
module _ (rest : ℕ → ℕ) (low : ℕ → ℕ → ℕ) where
  spare : (fuel x y : ℕ) → x ≤ fuel → digits rest low (suc fuel) x y ≡ digits rest low fuel x y
  spare zero zero y h = refl
  spare zero (suc x) y h = absurd (omega arith)
  spare (suc fuel) zero y h = refl
  spare (suc fuel) (suc x) y h = omega (arith, spare fuel (suc x / 2) (y / 2) (omega arith))

  surplus :
      (extra fuel x y : ℕ)
      → x ≤ fuel
      → digits rest low (extra + fuel) x y ≡ digits rest low fuel x y
  surplus zero fuel x y h = rw zero-add
  surplus (suc extra) fuel x y h =
      let e : suc extra + fuel ≡ suc (extra + fuel) = omega arith in
      rw e (spare (extra + fuel) x y (omega arith) ∙ surplus extra fuel x y h)

  halved : (x y : ℕ) → digits rest low x (suc x / 2) y ≡ digits rest low (suc x / 2) (suc x / 2) y
  halved x y =
      let e : x ≡ (x - suc x / 2) + suc x / 2 = omega arith in
      ap (λ fuel. digits rest low fuel (suc x / 2) y) e
      ∙ surplus (x - suc x / 2) (suc x / 2) (suc x / 2) y (omega arith)

pub bit_and_step : (a b : ℕ) → bit_and a b ≡ bit_and (a / 2) (b / 2) * 2 + min (a % 2) (b % 2)
bit_and_step zero b = omega (arith, bit_and-bitwise 0 b, bit_and-bitwise 0 (b / 2))
bit_and_step (suc a) b = omega (
  arith,
  bit_and-bitwise (suc a) b,
  bit_and-bitwise (suc a / 2) (b / 2),
  halved (λ _. zero) min a (b / 2),
)

pub bit_or_step : (a b : ℕ) → bit_or a b ≡ bit_or (a / 2) (b / 2) * 2 + max (a % 2) (b % 2)
bit_or_step zero b = omega (arith, bit_or-bitwise 0 b, bit_or-bitwise 0 (b / 2))
bit_or_step (suc a) b = omega (
  arith,
  bit_or-bitwise (suc a) b,
  bit_or-bitwise (suc a / 2) (b / 2),
  halved (λ y. y) max a (b / 2),
)
