-- ===== src/Compiler/Tests/Rational.antt =====
-- Fractions of natural numbers in place of `double`: exact, hence a value of `Floating` for tests.
-- A negative reading of `strtod` is zero here, which the compiler raises to the integer reading.
use mu2e_pcie_utils.Prelude.{ℕ, ◌+◌, ◌-◌, ◌*◌, ◌/◌, [], ◌∷◌, Text, ltb, ◌==◌, if◌then◌else◌}
use mu2e_pcie_utils.Compiler.Number.{is_digit}
use mu2e_pcie_utils.Compiler.Float.{Floating}

abbrev Fraction : Type 0
Fraction = ℕ × ℕ

-- The digits behind the point, up to the first other character.
abbrev decimals : Fraction → Text → Fraction
decimals x [] = x
decimals (n, d) (c ∷ cs) = if is_digit c then decimals (n * 10 + (c - b'0'), d * 10) cs else (n, d)

abbrev reading : ℕ → Text → Fraction
reading acc [] = (acc, 1)
reading acc (c ∷ cs) =
    let point = decimals (acc, 1) cs in
    if is_digit c then reading (acc * 10 + (c - b'0')) cs else if c == b'.' then point else (acc, 1)

abbrev pub rational : Floating
rational = record {
  Double = ℕ × ℕ;
  strtod = reading 0;
  of_u64 = λ n. (n, 1);
  to_u64 = λ x. x.0 / x.1;
  less = λ x y. ltb (x.0 * y.1) (y.0 * x.1);
  times = λ x y. (x.0 * y.0, x.1 * y.1);
  divided = λ x y. (x.0 * y.1, x.1 * y.0);
}
