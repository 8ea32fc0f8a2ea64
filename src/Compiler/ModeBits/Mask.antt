-- ===== src/Compiler/ModeBits/Mask.antt =====
-- The mask that the loop of the source builds, in numbers.
use Prim.Native.Nat.{bit_or}
use native.Mathlib.Nat.{pow-suc, mod-eq_of_lt, pow-le-pow_right}
use mu2e_pcie_utils.Prelude.{ℕ, zero, suc, ◌+◌, ◌*◌, ◌-◌, ◌^◌, ◌<◌, ◌≤◌, ◌≡◌, arith}
use mu2e_pcie_utils.Bits.{bit_or_cut, bit_or_none, two_pow_pos}
use mu2e_pcie_utils.Bits.Fields.{pow_add}
use mu2e_pcie_utils.Compiler.ModeBits.{mask_loop, bit_mask, shift_left}

-- `c` ones from bit `s` on.
abbrev pub ones_from : ℕ → ℕ → ℕ
ones_from s c = (2 ^ c - 1) * 2 ^ s

shift_one : (i : ℕ) → i < 64 → shift_left 1 i ≡ 2 ^ i
shift_one i h =
    let e : 1 * 2 ^ i ≡ 2 ^ i = omega arith in
    let p : 2 ^ suc i ≤ 2 ^ 64 = pow-le-pow_right (omega arith) h in
    rw e (mod-eq_of_lt (omega (arith, p, pow-suc 2 i, two_pow_pos i)))

doubled : (S J : ℕ) → 1 ≤ J → 1 * (S * J) + (J - 1) * S ≡ (J * 2 - 1) * S
doubled S zero h = absurd (omega arith)
doubled S (suc J) h =
    let one : suc J - 1 ≡ J = omega arith in
    let two : suc J * 2 - 1 ≡ J * 2 + 1 = omega arith in rw (one, two) (omega arith)

sum : (s j : ℕ) → bit_or 0 1 * 2 ^ (s + j) + ones_from s j ≡ ones_from s (suc j)
sum s j = rw (pow_add s j, pow-suc 2 j) (doubled (2 ^ s) (2 ^ j) (two_pow_pos j))

or_next : (s j : ℕ) → bit_or (ones_from s j) (2 ^ (s + j)) ≡ ones_from s (suc j)
or_next s j =
    let below : ones_from s j < 2 ^ (s + j) =
      rw (pow_add s j) (grind (arith, two_pow_pos j, two_pow_pos s)) in
    let top : 1 * 2 ^ (s + j) + 0 ≡ 2 ^ (s + j) = omega arith in
    let bottom : 0 * 2 ^ (s + j) + ones_from s j ≡ ones_from s j = omega arith in
    let joined = bit_or_cut (s + j) 0 1 (ones_from s j) 0 below (two_pow_pos (s + j)) in
    rw (bottom, top, bit_or_none (ones_from s j), sum s j) at joined

mask_loop_lem :
    (left s j : ℕ)
    → s + j + left ≤ 64
    → mask_loop left (s + j) (ones_from s j) ≡ ones_from s (j + left)
unfolding mask_loop
mask_loop_lem zero s j h = let e : j + 0 ≡ j = omega arith in rw e
mask_loop_lem (suc left) s j h =
    let next : s + j + 1 ≡ s + suc j = omega arith in
    let total : j + suc left ≡ suc j + left = omega arith in
    rw (shift_one (s + j) (omega arith), or_next s j, next, total)
      (mask_loop_lem left s (suc j) (omega arith))

pub bit_mask_lem : (s c : ℕ) → s + c ≤ 64 → bit_mask s c ≡ ones_from s c
unfolding bit_mask
bit_mask_lem s c h =
    let start : s + 0 ≡ s = omega arith in
    let none : (2 ^ 0 - 1) * 2 ^ s ≡ 0 = omega arith in
    let total : 0 + c ≡ c = omega arith in
    let run = mask_loop_lem c s 0 (omega arith) in rw (start, none, total) at run
