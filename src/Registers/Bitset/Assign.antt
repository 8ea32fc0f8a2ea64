-- ===== src/Registers/Bitset/Assign.antt =====
-- The bits of a number after one of them is assigned.
use native.Mathlib.Nat.{
  pow-suc, mod-lt, div-add-mod', add-mul-div_right, div-lt_iff_lt-mul, div-div-eq-div-mul,
}
use mu2e_pcie_utils.Prelude.{
  ℕ, suc, ◌+◌, ◌-◌, ◌*◌, ◌/◌, ◌%◌, ◌^◌, ◌<◌, ◌≤◌, ◌≡◌, ◌≢◌, sym, ap, ◌∙◌, Bool, true, false, arith,
  ltb, ltb→lt, ltb→le, Bool-cases, inl, inr,
}
use mu2e_pcie_utils.Bits.{two_pow_pos}
use mu2e_pcie_utils.Bits.Fields.{pow_add, parts, parts_lt}
use mathlib.Core.Path.{subst}
use mu2e_pcie_utils.Registers.Bitset.{bit, bit_of, assign_bit}

bit_of_lt : (v : Bool) → bit_of v < 2
bit_of_lt true = omega arith
bit_of_lt false = omega arith

quotient : (a l n : ℕ) → l < n → (a * n + l) / n ≡ a
quotient a l n h = grind arith

remainder : (a l n : ℕ) → l < n → (a * n + l) % n ≡ l
remainder a l n h = grind arith

module _ (x k : ℕ) (v : Bool) where
  low_lt : x % 2 ^ k < 2 ^ k
  low_lt = mod-lt x (two_pow_pos k)

  -- The number in two parts, before and after.
  before : x ≡ (x / 2 ^ k / 2 * 2 + bit x k) * 2 ^ k + x % 2 ^ k
  before =
      let e : x / 2 ^ k / 2 * 2 + x / 2 ^ k % 2 ≡ x / 2 ^ k = omega arith in
      sym (ap (λ (t : ℕ). t * 2 ^ k + x % 2 ^ k) e ∙ div-add-mod' x (2 ^ k))

  after : assign_bit x k v ≡ (x / 2 ^ k / 2 * 2 + bit_of v) * 2 ^ k + x % 2 ^ k
  unfolding assign_bit
  after = let two : 2 ^ (k + 1) ≡ 2 * 2 ^ k = pow_add k 1 ∙ omega arith in rw two (grind arith)

  pub bit-assign_same : bit (assign_bit x k v) k ≡ bit_of v
  bit-assign_same =
      ap (λ (t : ℕ). t / 2 ^ k % 2) after
      ∙ ap (λ (t : ℕ). t % 2) (quotient (x / 2 ^ k / 2 * 2 + bit_of v) (x % 2 ^ k) (2 ^ k) low_lt)
      ∙ omega (arith, bit_of_lt v)

-- A bit below the cut comes from the lower part.
bit_low : (a l k d : ℕ) → bit (a * 2 ^ (k + suc d) + l) k ≡ bit l k
bit_low a l k d =
    let split : a * 2 ^ (k + suc d) + l ≡ l + a * 2 ^ suc d * 2 ^ k =
      ap (λ (t : ℕ). a * t + l) (pow_add k (suc d)) ∙ grind arith in
    ap (λ (t : ℕ). t / 2 ^ k % 2) split
    ∙ ap (λ (t : ℕ). t % 2) (add-mul-div_right l (a * 2 ^ suc d) (two_pow_pos k))
    ∙ ap (λ (t : ℕ). (l / 2 ^ k + a * t) % 2) (pow-suc 2 d)
    ∙ grind arith

-- A bit above it from the upper part.
bit_high : (a l k d : ℕ) → l < 2 ^ k → bit (a * 2 ^ k + l) (k + d) ≡ bit a d
bit_high a l k d h =
    ap (λ (t : ℕ). (a * 2 ^ k + l) / t % 2) (pow_add k d)
    ∙ ap (λ (t : ℕ). t % 2) (sym (div-div-eq-div-mul (a * 2 ^ k + l) (2 ^ k) (2 ^ d)))
    ∙ ap (λ (t : ℕ). t / 2 ^ d % 2) (quotient a l (2 ^ k) h)

-- The other bits stay.
pub bit-assign_other : (x k j : ℕ) (v : Bool) → k ≢ j → bit (assign_bit x k v) j ≡ bit x j
bit-assign_other x k j v ne = elim (Bool-cases (ltb j k)) [
  | inl lower ↦
      let lt : j < k = ltb→lt j k lower in
      let at : j + suc (k - j - 1) ≡ k = omega arith in
      let down = λ (a : ℕ).
        ap (λ (t : ℕ). bit (a * 2 ^ t + x % 2 ^ k) j) (sym at)
        ∙ bit_low a (x % 2 ^ k) j (k - j - 1) in
      ap (λ (t : ℕ). bit t j) (after x k v)
      ∙ down (x / 2 ^ k / 2 * 2 + bit_of v)
      ∙ sym (down (x / 2 ^ k / 2 * 2 + bit x k))
      ∙ ap (λ (t : ℕ). bit t j) (sym (before x k v))
  | inr higher ↦
      let le : k ≤ j = ltb→le j k higher in
      let at : k + (1 + (j - k - 1)) ≡ j = omega arith in
      let up = λ (digit : ℕ) (small : digit < 2).
        ap (λ (t : ℕ). bit ((x / 2 ^ k / 2 * 2 + digit) * 2 ^ k + x % 2 ^ k) t) (sym at)
        ∙ bit_high (x / 2 ^ k / 2 * 2 + digit) (x % 2 ^ k) k (1 + (j - k - 1)) (low_lt x k v)
        ∙ bit_high (x / 2 ^ k / 2) digit 1 (j - k - 1) small in
      ap (λ (t : ℕ). bit t j) (after x k v)
      ∙ up (bit_of v) (bit_of_lt v)
      ∙ sym (up (bit x k) (mod-lt (x / 2 ^ k) (omega arith)))
      ∙ ap (λ (t : ℕ). bit t j) (sym (before x k v))
]

pub assign_lt : (x k : ℕ) (v : Bool) → k < 32 → x < 2 ^ 32 → assign_bit x k v < 2 ^ 32
assign_lt x k v small fits =
    let widths : k + 1 + (31 - k) ≡ 32 = omega arith in
    let whole : 2 ^ k * 2 * 2 ^ (31 - k) ≡ 2 ^ 32 =
      ap (λ (t : ℕ). t * 2 ^ (31 - k)) (sym (pow_add k 1))
      ∙ sym (pow_add (k + 1) (31 - k))
      ∙ ap (λ (t : ℕ). 2 ^ t) widths in
    let high : x / 2 ^ k / 2 < 2 ^ (31 - k) =
      (div-lt_iff_lt-mul {k = 2} (omega arith)).1
        ((div-lt_iff_lt-mul {k = 2 ^ k} (two_pow_pos k)).1 (omega (arith, fits, whole))) in
    rw (after x k v) (
      subst (λ (t : ℕ). parts k 1 (x / 2 ^ k / 2) (bit_of v) (x % 2 ^ k) < 2 ^ t) widths
        (parts_lt k 1 (31 - k) (x / 2 ^ k / 2) (bit_of v) (x % 2 ^ k) high (bit_of_lt v)
          (low_lt x k v)))
