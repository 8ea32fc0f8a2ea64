-- ===== src/Compiler/ModeBits/Meaning.antt =====
-- What the operations on mode bits do to the event mode, read as `mode & param` and `mode | param`.
use Prim.Native.Nat.{bit_and, bit_or}
use native.Mathlib.Nat.{mod-eq_of_lt, mod-lt, add-mul-mod_self_right}
use mathlib.Core.Path.{ap₂, subst}
use mu2e_pcie_utils.Prelude.{
  ℕ, zero, suc, ◌+◌, ◌*◌, ◌-◌, ◌/◌, ◌%◌, ◌^◌, ◌<◌, ◌≤◌, ◌≡◌, refl, sym, ap, ◌∙◌, arith,
}
use mu2e_pcie_utils.Bits.{bit_and_ones, bit_and_none, bit_or_none, two_pow_pos}
use mu2e_pcie_utils.Bits.Fields.{parts, parts_and, parts_or, parts_lt, pow_add}
use mu2e_pcie_utils.Compiler.ModeBits.{shift_left, complement}
use mu2e_pcie_utils.Compiler.ModeBits.Mask.{ones_from}

-- Firmware's two operations, with the 48-bit parameter of a word.
abbrev pub and_mode : ℕ → ℕ → ℕ
and_mode param mode = bit_and mode (param % 2 ^ 48)

abbrev pub or_mode : ℕ → ℕ → ℕ
or_mode param mode = bit_or mode (param % 2 ^ 48)

pred_mul : (a b : ℕ) → 1 ≤ a → (a - 1) * b + b ≡ a * b
pred_mul zero b h = absurd (omega arith)
pred_mul (suc a) b h = let e : suc a - 1 ≡ a = omega arith in rw e (omega arith)

outside_num :
    (S C D : ℕ)
    → 1 ≤ S
    → 1 ≤ C
    → 1 ≤ D
    → S * C * D ≡ 2 ^ 48
    → (2 ^ 64 - 1 - (C - 1) * S) % 2 ^ 48 ≡ ((D - 1) * C + 0) * S + (S - 1)
outside_num S C D hs hc hd whole =
    let x = pred_mul C S hc in
    let y : (D - 1) * C * S + C * S ≡ D * C * S =
      omega (arith, ap (λ (t : ℕ). t * S) (pred_mul D C hd)) in
    omega (arith, x, y, whole)

fits : (S C E q r : ℕ) → 1 ≤ S → q < E → r < C → (q * C + r) * S < E * C * S
fits S C E q r hs hq hr = let inner : q * C + r < E * C = grind arith in grind arith

inside_num :
    (S C E p q r : ℕ)
    → 1 ≤ S
    → q < E
    → r < C
    → S * C * E ≡ 2 ^ 64
    → ((p * E + q) * C + r) * S % 2 ^ 64 ≡ (q * C + r) * S
inside_num S C E p q r hs hq hr whole =
    let full : E * C * S ≡ 2 ^ 64 = omega (arith, whole) in
    let low : (q * C + r) * S < 2 ^ 64 = rw (← full) (fits S C E q r hs hq hr) in
    let split : ((p * E + q) * C + r) * S ≡ (q * C + r) * S + p * (E * C * S) = omega arith in
    ap (λ (t : ℕ). t % 2 ^ 64) (split ∙ ap (λ (t : ℕ). (q * C + r) * S + p * t) full)
    ∙ add-mul-mod_self_right ((q * C + r) * S) p (2 ^ 64)
    ∙ mod-eq_of_lt low

-- Division with remainder, by both numbers in turn.
twice_divided : (C E value : ℕ) → (value / C / E * E + value / C % E) * C + value % C ≡ value
twice_divided C E value =
    let outer : value / C / E * E + value / C % E ≡ value / C = grind arith in
    rw outer (grind arith)

module _ (s c d : ℕ) (widths : s + c + d ≡ 48) where
  whole : 2 ^ s * 2 ^ c * 2 ^ d ≡ 2 ^ 48
  whole =
      ap (λ (t : ℕ). t * 2 ^ d) (sym (pow_add s c))
      ∙ sym (pow_add (s + c) d)
      ∙ ap (λ (t : ℕ). 2 ^ t) widths

  -- The complement on 64 bits, cut to 48: ones around the field.
  outside : complement (ones_from s c) % 2 ^ 48 ≡ parts s c (2 ^ d - 1) 0 (2 ^ s - 1)
  outside =
      outside_num (2 ^ s) (2 ^ c) (2 ^ d) (two_pow_pos s) (two_pow_pos c) (two_pow_pos d) whole

  mask_parts : ones_from s c ≡ parts s c 0 (2 ^ c - 1) 0
  mask_parts = omega arith

  -- The shifted value, masked: the low bits of the value, in the field.
  inside :
      (value : ℕ) → bit_and (shift_left value s) (ones_from s c) ≡ parts s c 0 (value % 2 ^ c) 0
  inside value =
      let wide : s + c + (64 - s - c) ≡ 64 = omega arith in
      let E = 2 ^ (64 - s - c) in
      let q = value / 2 ^ c % E in
      let full : 2 ^ s * 2 ^ c * E ≡ 2 ^ 64 =
        ap (λ (t : ℕ). t * E) (sym (pow_add s c))
        ∙ sym (pow_add (s + c) (64 - s - c))
        ∙ ap (λ (t : ℕ). 2 ^ t) wide in
      let below : value % 2 ^ c < 2 ^ c = mod-lt value (two_pow_pos c) in
      let cut =
        inside_num (2 ^ s) (2 ^ c) E (value / 2 ^ c / E) q (value % 2 ^ c) (two_pow_pos s)
          (mod-lt (value / 2 ^ c) (two_pow_pos (64 - s - c))) below full in
      let shifted : shift_left value s ≡ parts s c q (value % 2 ^ c) 0 =
        ap (λ (t : ℕ). t * 2 ^ s % 2 ^ 64) (sym (twice_divided (2 ^ c) E value))
        ∙ cut
        ∙ omega arith in
      ap₂ bit_and shifted mask_parts
      ∙ parts_and s c q (value % 2 ^ c) 0 0 (2 ^ c - 1) 0 below (omega (arith, two_pow_pos c))
          (two_pow_pos s) (two_pow_pos s)
      ∙ rw (bit_and_none q, bit_and_ones c (value % 2 ^ c) below) refl

  module _ (high field low : ℕ) (hd : high < 2 ^ d) (fc : field < 2 ^ c) (ls : low < 2 ^ s) where
    abbrev mode : ℕ
    mode = parts s c high field low

    below48 : (v : ℕ) → v < 2 ^ c → parts s c 0 v 0 % 2 ^ 48 ≡ parts s c 0 v 0
    below48 v h = mod-eq_of_lt (
        subst (λ (t : ℕ). parts s c 0 v 0 < 2 ^ t) widths
          (parts_lt s c d 0 v 0 (two_pow_pos d) h (two_pow_pos s)))

    -- Clearing leaves zeros in the field.
    pub cleared : and_mode (complement (ones_from s c)) mode ≡ parts s c high 0 low
    cleared =
        ap (bit_and mode) outside
        ∙ parts_and s c high field low (2 ^ d - 1) 0 (2 ^ s - 1) fc (two_pow_pos c) ls
            (omega (arith, two_pow_pos s))
        ∙ rw (bit_and_ones d high hd, bit_and_none field, bit_and_ones s low ls) refl

    -- Or-ing in the low bits of the value.
    pub joined :
        (value : ℕ)
        → or_mode (bit_and (shift_left value s) (ones_from s c)) mode
          ≡ parts s c high (bit_or field (value % 2 ^ c)) low
    joined value =
        let below : value % 2 ^ c < 2 ^ c = mod-lt value (two_pow_pos c) in
        ap (λ (t : ℕ). bit_or mode (t % 2 ^ 48)) (inside value)
        ∙ ap (bit_or mode) (below48 (value % 2 ^ c) below)
        ∙ parts_or s c high field low 0 (value % 2 ^ c) 0 fc below ls (two_pow_pos s)
        ∙ rw (bit_or_none high, bit_or_none low) refl
