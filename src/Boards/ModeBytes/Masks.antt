-- ===== src/Boards/ModeBytes/Masks.antt =====
-- What the masks of `SetCFOEmulationModeByte` and `ReadCFOEmulationModeByte`
-- (dtcInterfaceLib/DTC_Registers.cpp) leave of a word.
use Prim.Native.Nat.{bit_and}
use mu2e_pcie_utils.Prelude.{ℕ, ◌^◌, ◌<◌, ◌≡◌, refl, ◌∙◌, arith}
use mu2e_pcie_utils.Bits.{bit_and_ones, bit_and_none}
use mu2e_pcie_utils.Bits.Words.{word, word_and}

-- A byte, with the bytes that `&` with all ones or none leaves.
keep : (x : ℕ) → x < 2 ^ 8 → bit_and x 255 ≡ x
keep x h = bit_and_ones 8 x h

module _ (a b c d : ℕ) (a8 : a < 2 ^ 8) (b8 : b < 2 ^ 8) (c8 : c < 2 ^ 8) (d8 : d < 2 ^ 8) where
  masked :
      (x y z w : ℕ)
      → y < 2 ^ 8
      → z < 2 ^ 8
      → w < 2 ^ 8
      → bit_and (word a b c d) (word x y z w)
        ≡ word (bit_and a x) (bit_and b y) (bit_and c z) (bit_and d w)
  masked x y z w y8 z8 w8 = word_and a b c d x y z w b8 c8 d8 y8 z8 w8

  -- The masks of the source.
  pub only_d : bit_and (word a b c d) 0xFF ≡ word 0 0 0 d
  only_d =
      masked 0 0 0 255 (omega arith) (omega arith) (omega arith)
      ∙ rw (bit_and_none a, bit_and_none b, bit_and_none c, keep d d8) refl

  pub only_c : bit_and (word a b c d) 0xFF00 ≡ word 0 0 c 0
  only_c =
      masked 0 0 255 0 (omega arith) (omega arith) (omega arith)
      ∙ rw (bit_and_none a, bit_and_none b, keep c c8, bit_and_none d) refl

  pub only_b : bit_and (word a b c d) 0xFF0000 ≡ word 0 b 0 0
  only_b =
      masked 0 255 0 0 (omega arith) (omega arith) (omega arith)
      ∙ rw (bit_and_none a, keep b b8, bit_and_none c, bit_and_none d) refl

  pub only_a : bit_and (word a b c d) 0xFF000000 ≡ word a 0 0 0
  only_a =
      masked 255 0 0 0 (omega arith) (omega arith) (omega arith)
      ∙ rw (keep a a8, bit_and_none b, bit_and_none c, bit_and_none d) refl

  pub but_d : bit_and (word a b c d) 0xFFFFFF00 ≡ word a b c 0
  but_d =
      masked 255 255 255 0 (omega arith) (omega arith) (omega arith)
      ∙ rw (keep a a8, keep b b8, keep c c8, bit_and_none d) refl

  pub but_c : bit_and (word a b c d) 0xFFFF00FF ≡ word a b 0 d
  but_c =
      masked 255 255 0 255 (omega arith) (omega arith) (omega arith)
      ∙ rw (keep a a8, keep b b8, bit_and_none c, keep d d8) refl

  pub but_b : bit_and (word a b c d) 0xFF00FFFF ≡ word a 0 c d
  but_b =
      masked 255 0 255 255 (omega arith) (omega arith) (omega arith)
      ∙ rw (keep a a8, bit_and_none b, keep c c8, keep d d8) refl

  pub but_a : bit_and (word a b c d) 0xFFFFFF ≡ word 0 b c d
  but_a =
      masked 0 255 255 255 (omega arith) (omega arith) (omega arith)
      ∙ rw (bit_and_none a, keep b b8, keep c c8, keep d d8) refl
