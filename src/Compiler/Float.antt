-- ===== src/Compiler/Float.antt =====
-- The arithmetic of `double` that the WAIT operation uses, which the hardware and the C library
-- supply, and what IEEE 754 says of whole numbers that fit 53 bits.
use mu2e_pcie_utils.Prelude.{ℕ, ◌*◌, ◌^◌, ◌<◌, ◌≡◌, Bool, false, true, Text}
use mu2e_pcie_utils.Compiler.Number.{every, is_digit, digits_value}

pub record Floating : Type 1 where
  pub Double : Type 0
  -- `strtod(s, 0)`.
  pub strtod : Text → Double
  -- The conversions from and to `uint64_t`.
  pub of_u64 : ℕ → Double
  pub to_u64 : Double → ℕ
  pub less : Double → Double → Bool
  pub times : Double → Double → Double
  pub divided : Double → Double → Double

-- Whole numbers below 2^53 are doubles, and an operation whose exact result is such a number
-- returns it.
pub record IsExact (f : Floating) : Type 0 where
  pub strtod_digits :
      (s : Text)
      → every is_digit s ≡ true
      → digits_value 10 0 s < 2 ^ 53
      → f.strtod s ≡ f.of_u64 (digits_value 10 0 s)
  pub less_irrefl : (n : ℕ) → n < 2 ^ 53 → f.less (f.of_u64 n) (f.of_u64 n) ≡ false
  pub times_exact :
      (a b : ℕ) → a * b < 2 ^ 53 → f.times (f.of_u64 a) (f.of_u64 b) ≡ f.of_u64 (a * b)
  pub divided_exact :
      (a b : ℕ) → 0 < b → a * b < 2 ^ 53 → f.divided (f.of_u64 (a * b)) (f.of_u64 b) ≡ f.of_u64 a
  pub to_u64-of_u64 : (n : ℕ) → n < 2 ^ 53 → f.to_u64 (f.of_u64 n) ≡ n
