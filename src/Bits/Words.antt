-- ===== src/Bits/Words.antt =====
-- A 32-bit word in four bytes, and `&` and `|` of such words.
use Prim.Native.Nat.{bit_and, bit_or}
use mu2e_pcie_utils.Prelude.{ℕ, ◌+◌, ◌*◌, ◌/◌, ◌%◌, ◌^◌, ◌<◌, ◌≡◌, ap, ◌∙◌, arith}
use mu2e_pcie_utils.Bits.{bit_and_cut, bit_or_cut, bit_and_ones, bit_and_none}

abbrev pub word : ℕ → ℕ → ℕ → ℕ → ℕ
word a b c d = ((a * 2 ^ 8 + b) * 2 ^ 8 + c) * 2 ^ 8 + d

module _ (a b c d x y z w : ℕ) (b8 : b < 2 ^ 8) (c8 : c < 2 ^ 8) (d8 : d < 2 ^ 8) (y8 : y < 2 ^ 8)
    (z8 : z < 2 ^ 8) (w8 : w < 2 ^ 8) where
  pub word_and :
      bit_and (word a b c d) (word x y z w)
      ≡ word (bit_and a x) (bit_and b y) (bit_and c z) (bit_and d w)
  word_and =
      bit_and_cut 8 ((a * 2 ^ 8 + b) * 2 ^ 8 + c) ((x * 2 ^ 8 + y) * 2 ^ 8 + z) d w d8 w8
      ∙ ap (λ (t : ℕ). t * 2 ^ 8 + bit_and d w)
          (bit_and_cut 8 (a * 2 ^ 8 + b) (x * 2 ^ 8 + y) c z c8 z8
            ∙ ap (λ (t : ℕ). t * 2 ^ 8 + bit_and c z) (bit_and_cut 8 a x b y b8 y8))

  pub word_or :
      bit_or (word a b c d) (word x y z w)
      ≡ word (bit_or a x) (bit_or b y) (bit_or c z) (bit_or d w)
  word_or =
      bit_or_cut 8 ((a * 2 ^ 8 + b) * 2 ^ 8 + c) ((x * 2 ^ 8 + y) * 2 ^ 8 + z) d w d8 w8
      ∙ ap (λ (t : ℕ). t * 2 ^ 8 + bit_or d w)
          (bit_or_cut 8 (a * 2 ^ 8 + b) (x * 2 ^ 8 + y) c z c8 z8
            ∙ ap (λ (t : ℕ). t * 2 ^ 8 + bit_or c z) (bit_or_cut 8 a x b y b8 y8))

-- The upper two bits of a byte, and the upper six.
pub upper_two : (k : ℕ) → k < 2 ^ 8 → bit_and k 0xC0 ≡ k / 2 ^ 6 * 2 ^ 6
upper_two k small =
    let split : k ≡ k / 2 ^ 6 * 2 ^ 6 + k % 2 ^ 6 = omega arith in
    ap (λ (t : ℕ). bit_and t 0xC0) split
    ∙ bit_and_cut 6 (k / 2 ^ 6) 3 (k % 2 ^ 6) 0 (omega arith) (omega arith)
    ∙ rw (bit_and_ones 2 (k / 2 ^ 6) (omega arith), bit_and_none (k % 2 ^ 6)) (omega arith)

pub upper_six : (k : ℕ) → k < 2 ^ 8 → bit_and k 0xFC ≡ k / 2 ^ 2 * 2 ^ 2
upper_six k small =
    let split : k ≡ k / 2 ^ 2 * 2 ^ 2 + k % 2 ^ 2 = omega arith in
    ap (λ (t : ℕ). bit_and t 0xFC) split
    ∙ bit_and_cut 2 (k / 2 ^ 2) 63 (k % 2 ^ 2) 0 (omega arith) (omega arith)
    ∙ rw (bit_and_ones 6 (k / 2 ^ 2) (omega arith), bit_and_none (k % 2 ^ 2)) (omega arith)
