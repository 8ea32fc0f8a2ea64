-- ===== src/Bits.antt =====
-- `&` and `|` on natural numbers, at every width: how they act on the two parts of a number that is
-- cut at a bit, and the masks.
pub mod Step
pub mod Fields
pub mod Words
use mathlib.Core.Path.{ap₂}
use Step.{bit_and_step, bit_or_step}
use Prim.Native.Nat.{bit_and, bit_or, max}
use native.Mathlib.Nat.{pow-suc, one-le-pow}
use mu2e_pcie_utils.Prelude.{
  ℕ, zero, suc, ◌+◌, ◌-◌, ◌*◌, ◌/◌, ◌%◌, ◌^◌, ◌≤◌, ◌<◌, min, ◌≡◌, refl, sym, ap, ◌∙◌, arith,
}

pub two_pow_pos : (k : ℕ) → 1 ≤ 2 ^ k
two_pow_pos k = one-le-pow k 2 (omega arith)

mul_pow_suc : (q k : ℕ) → q * 2 ^ suc k ≡ 2 * (q * 2 ^ k)
mul_pow_suc q k = omega (arith, ap (λ (t : ℕ). q * t) (pow-suc 2 k))

-- An operation that works digit by digit works on both sides of any bit.
module _ (op low : ℕ → ℕ → ℕ)
    (step : (a b : ℕ) → op a b ≡ op (a / 2) (b / 2) * 2 + low (a % 2) (b % 2))
    (base : op 0 0 ≡ 0) where
  cut :
      (k a b r t : ℕ)
      → r < 2 ^ k
      → t < 2 ^ k
      → op (a * 2 ^ k + r) (b * 2 ^ k + t) ≡ op a b * 2 ^ k + op r t
  cut zero a b r t hr ht =
      let er : r ≡ 0 = omega arith in
      let et : t ≡ 0 = omega arith in
      let ea : a * 2 ^ 0 + 0 ≡ a = omega arith in
      let eb : b * 2 ^ 0 + 0 ≡ b = omega arith in rw (er, et, ea, eb) (omega (arith, base))
  cut (suc k) a b r t hr ht =
      let ea : (a * 2 ^ suc k + r) / 2 ≡ a * 2 ^ k + r / 2 = omega (arith, mul_pow_suc a k) in
      let eb : (b * 2 ^ suc k + t) / 2 ≡ b * 2 ^ k + t / 2 = omega (arith, mul_pow_suc b k) in
      let da : (a * 2 ^ suc k + r) % 2 ≡ r % 2 = omega (arith, mul_pow_suc a k) in
      let db : (b * 2 ^ suc k + t) % 2 ≡ t % 2 = omega (arith, mul_pow_suc b k) in
      let below : 2 ^ suc k ≡ 2 * 2 ^ k = omega (arith, pow-suc 2 k) in
      let rec = cut k a b (r / 2) (t / 2) (omega arith) (omega arith) in
      rw (step (a * 2 ^ suc k + r) (b * 2 ^ suc k + t), ea, eb, da, db, rec)
        (omega (arith, step r t, mul_pow_suc (op a b) k))

pub bit_and_cut :
    (k a b r t : ℕ)
    → r < 2 ^ k
    → t < 2 ^ k
    → bit_and (a * 2 ^ k + r) (b * 2 ^ k + t) ≡ bit_and a b * 2 ^ k + bit_and r t
bit_and_cut = cut bit_and min bit_and_step refl

pub bit_or_cut :
    (k a b r t : ℕ)
    → r < 2 ^ k
    → t < 2 ^ k
    → bit_or (a * 2 ^ k + r) (b * 2 ^ k + t) ≡ bit_or a b * 2 ^ k + bit_or r t
bit_or_cut = cut bit_or max bit_or_step refl

-- The mask of `k` ones keeps a number below `2 ^ k`, and fills it up.
pub bit_and_ones : (k x : ℕ) → x < 2 ^ k → bit_and x (2 ^ k - 1) ≡ x
bit_and_ones zero x h = let e : x ≡ 0 = omega arith in rw e refl
bit_and_ones (suc k) x h =
    let p : 2 ^ suc k ≡ 2 * 2 ^ k = omega (arith, pow-suc 2 k) in
    let one : 1 ≤ 2 ^ k = two_pow_pos k in
    let half : (2 ^ suc k - 1) / 2 ≡ 2 ^ k - 1 = omega arith in
    let digit : (2 ^ suc k - 1) % 2 ≡ 1 = omega arith in
    rw (bit_and_step x (2 ^ suc k - 1), half, digit, bit_and_ones k (x / 2) (omega arith))
      (omega arith)

pub bit_or_ones : (k x : ℕ) → x < 2 ^ k → bit_or x (2 ^ k - 1) ≡ 2 ^ k - 1
bit_or_ones zero x h = let e : x ≡ 0 = omega arith in rw e refl
bit_or_ones (suc k) x h =
    let p : 2 ^ suc k ≡ 2 * 2 ^ k = omega (arith, pow-suc 2 k) in
    let one : 1 ≤ 2 ^ k = two_pow_pos k in
    let half : (2 ^ suc k - 1) / 2 ≡ 2 ^ k - 1 = omega arith in
    let digit : (2 ^ suc k - 1) % 2 ≡ 1 = omega arith in
    rw (bit_or_step x (2 ^ suc k - 1), half, digit, bit_or_ones k (x / 2) (omega arith))
      (omega arith)

-- No mask: over the bits of `x`, counted by a bound.
and_zero_below : (k x : ℕ) → x < 2 ^ k → bit_and x 0 ≡ 0
and_zero_below zero x h = let e : x ≡ 0 = omega arith in rw e refl
and_zero_below (suc k) x h =
    omega
      (arith, pow-suc 2 k, bit_and_step x 0, and_zero_below k (x / 2) (omega (arith, pow-suc 2 k)))

or_zero_below : (k x : ℕ) → x < 2 ^ k → bit_or x 0 ≡ x
or_zero_below zero x h = let e : x ≡ 0 = omega arith in rw e refl
or_zero_below (suc k) x h =
    omega
      (arith, pow-suc 2 k, bit_or_step x 0, or_zero_below k (x / 2) (omega (arith, pow-suc 2 k)))

below_pow : (x : ℕ) → x < 2 ^ x
below_pow zero = omega arith
below_pow (suc x) = omega (arith, pow-suc 2 x, below_pow x)

pub bit_and_none : (x : ℕ) → bit_and x 0 ≡ 0
bit_and_none x = and_zero_below x x (below_pow x)

pub bit_or_none : (x : ℕ) → bit_or x 0 ≡ x
bit_or_none x = or_zero_below x x (below_pow x)

pub none_bit_or : (x : ℕ) → bit_or 0 x ≡ x
none_bit_or x = below_rule x x (below_pow x)
  where
    below_rule : (k y : ℕ) → y < 2 ^ k → bit_or 0 y ≡ y
    below_rule zero y h = let e : y ≡ 0 = omega arith in rw e refl
    below_rule (suc k) y h =
        omega
          (arith, pow-suc 2 k, bit_or_step 0 y, below_rule k (y / 2) (omega (arith, pow-suc 2 k)))

-- `x & (2^k - 1)` is the remainder, for every `x`.
pub bit_and_mask : (k x : ℕ) → bit_and x (2 ^ k - 1) ≡ x % 2 ^ k
bit_and_mask k x =
    let one : 1 ≤ 2 ^ k = two_pow_pos k in
    let below : x % 2 ^ k < 2 ^ k = grind arith in
    let parts : x ≡ x / 2 ^ k * 2 ^ k + x % 2 ^ k = grind arith in
    let cuts = bit_and_cut k (x / 2 ^ k) 0 (x % 2 ^ k) (2 ^ k - 1) below (omega arith) in
    let left : bit_and (x / 2 ^ k * 2 ^ k + x % 2 ^ k) (0 * 2 ^ k + (2 ^ k - 1))
        ≡ bit_and x (2 ^ k - 1) =
      ap₂ bit_and (sym parts) (omega arith) in
    sym left ∙ cuts ∙ rw (bit_and_none (x / 2 ^ k), bit_and_ones k (x % 2 ^ k) below) (omega arith)
