-- ===== src/Compiler/ModeBits/Field.antt =====
-- What SET_MODE_BITS and OR_MODE_BITS (`calculateParameterAndErrorCheck` of
-- cfoInterfaceLib/CFO_Compiler.cpp) make of an event mode.
use Prim.Native.Nat.{bit_and, bit_or}
use mathlib.Core.Path.{subst, ap₂}
use mu2e_pcie_utils.Prelude.{
  ℕ, ◌+◌, ◌-◌, ◌%◌, ◌^◌, ◌<◌, ◌≤◌, ◌≡◌, sym, ap, ◌∙◌, true, not, ◌&&◌, ◌||◌, ◌==◌, ltb, leb, get_or,
  codes, ok, >>=-eq-ok, require-eq-ok, ok-injective, arith,
}
use mu2e_pcie_utils.Bits.{none_bit_or, two_pow_pos}
use mu2e_pcie_utils.Bits.Fields.{parts}
use mu2e_pcie_utils.Compiler.Instr.{Instr, set_mode_bits, or_mode_bits}
use mu2e_pcie_utils.Compiler.State.{count_is, argument_is, argument, State, number_argument}
use mu2e_pcie_utils.Compiler.ModeBits.{
  bit_mask, bit_range, mode_bits, mode_bits_value, complement, shift_left,
}
use mu2e_pcie_utils.Compiler.ModeBits.Mask.{ones_from, bit_mask_lem}
use mu2e_pcie_utils.Compiler.ModeBits.Meaning.{and_mode, or_mode, cleared, joined}

small : (n c : ℕ) → not (ltb 48 n || c == 0) ≡ true → n ≤ 48
small n c h = ground arith

-- The range that `bit_range` lets through.
range_lem :
    (s : State) {start_bit bit_count : ℕ}
    → bit_range s ≡ ok (start_bit, bit_count)
    → start_bit + bit_count + (48 - start_bit - bit_count) ≡ 48
unfolding bit_range
range_lem s {start_bit} {bit_count} e =
    let first = >>=-eq-ok (number_argument 16 s 2) _ e in
    let checked = require-eq-ok (not (ltb 47 first.0)) _ _ first.2 in
    let second = >>=-eq-ok (number_argument 16 s 4) _ checked.1 in
    let fits = require-eq-ok (not (ltb 48 (first.0 + second.0) || second.0 == 0)) _ _ second.2 in
    let same = ok-injective fits.1 in
    let sum : first.0 + second.0 ≤ 48 = small (first.0 + second.0) second.0 fits.0 in
    let start : first.0 ≡ start_bit = ap (λ x. x.0) same in
    let count : second.0 ≡ bit_count = ap (λ x. x.1) same in omega (arith, sum, start, count)

-- What a successful operation has computed.
mode_bits-value :
    (instr : Instr) (s : State) {start_bit bit_count value : ℕ} {r : ℕ × State}
    → bit_range s ≡ ok (start_bit, bit_count)
    → number_argument 64 s 6 ≡ ok value
    → mode_bits instr s ≡ ok r
    → mode_bits_value instr start_bit (bit_mask start_bit bit_count) value s ≡ ok r
unfolding mode_bits
mode_bits-value instr s {start_bit} {bit_count} {value} {r} range number e =
    let asked =
      require-eq-ok
        (count_is s 7
          && argument_is s 1 (codes "start_bit")
          && argument_is s 3 (codes "bit_count")
          && argument_is s 5 (codes "value"))
        _ _ e in
    let ranged = >>=-eq-ok (bit_range s) _ asked.1 in
    let same = ok-injective (sym ranged.1 ∙ range) in
    let start : ranged.0.0 ≡ start_bit = ap (λ x. x.0) same in
    let count : ranged.0.1 ≡ bit_count = ap (λ x. x.1) same in
    let valued = >>=-eq-ok (number_argument 64 s 6) _ ranged.2 in
    let read : valued.0 ≡ value = ok-injective (sym valued.1 ∙ number) in
    let fits =
      require-eq-ok
        (not (leb (shift_left 1 ranged.0.1) valued.0 && not (get_or (argument s 6) 0 0 == b'~'))) _
        _ valued.2 in
    subst (λ v. mode_bits_value instr start_bit (bit_mask start_bit bit_count) v s ≡ ok r) read
      (subst (λ c. mode_bits_value instr start_bit (bit_mask start_bit c) valued.0 s ≡ ok r) count
        (subst (λ b. mode_bits_value instr b (bit_mask b ranged.0.1) valued.0 s ≡ ok r) start
          fits.1))

-- When SET_MODE_BITS returns a mask and a parameter, they write the low bits of its value into the
-- field of the event mode that `start_bit` and `bit_count` name, first by `&` with the mask, then by
-- `|` with the parameter; the bits on both sides of the field stay. The mode is 48 bits: `high` above
-- the field, `field` and `low`.
pub set_mode_bits-writes :
    (s t : State) (start_bit bit_count value param : ℕ)
    → bit_range s ≡ ok (start_bit, bit_count)
    → number_argument 64 s 6 ≡ ok value
    → mode_bits set_mode_bits s ≡ ok (param, t)
    → (high field low : ℕ) → high < 2 ^ (48 - start_bit - bit_count)
    → field < 2 ^ bit_count
    → low < 2 ^ start_bit
    → or_mode param (and_mode t.mode_clear_mask (parts start_bit bit_count high field low))
      ≡ parts start_bit bit_count high (value % 2 ^ bit_count) low
unfolding mode_bits_value
set_mode_bits-writes s t start_bit bit_count value param range number e high field low hd fc ls =
    let widths = range_lem s range in
    let r = ok-injective (mode_bits-value set_mode_bits s range number e) in
    let mask = bit_mask_lem start_bit bit_count (omega (arith, widths)) in
    let d = 48 - start_bit - bit_count in
    let bits = ones_from start_bit bit_count in
    let mode = parts start_bit bit_count high field low in
    ap₂ (λ (p m : ℕ). or_mode p (and_mode m mode)) (sym (ap (λ x. x.0) r))
      (sym (ap (λ x. x.1.mode_clear_mask) r))
    ∙ ap
        (λ (k : ℕ). or_mode (bit_and (shift_left value start_bit) k) (and_mode (complement k) mode))
        mask
    ∙ ap (or_mode (bit_and (shift_left value start_bit) bits))
        (cleared start_bit bit_count d widths high field low hd fc ls)
    ∙ joined start_bit bit_count d widths high 0 low hd (two_pow_pos bit_count) ls value
    ∙ ap (λ (f : ℕ). parts start_bit bit_count high f low) (none_bit_or (value % 2 ^ bit_count))

-- When OR_MODE_BITS returns a parameter, `|` with it joins the low bits of the value with the field,
-- and the bits on both sides stay.
pub or_mode_bits-joins :
    (s t : State) (start_bit bit_count value param : ℕ)
    → bit_range s ≡ ok (start_bit, bit_count)
    → number_argument 64 s 6 ≡ ok value
    → mode_bits or_mode_bits s ≡ ok (param, t)
    → (high field low : ℕ) → high < 2 ^ (48 - start_bit - bit_count)
    → field < 2 ^ bit_count
    → low < 2 ^ start_bit
    → or_mode param (parts start_bit bit_count high field low)
      ≡ parts start_bit bit_count high (bit_or field (value % 2 ^ bit_count)) low
unfolding mode_bits_value
or_mode_bits-joins s t start_bit bit_count value param range number e high field low hd fc ls =
    let widths = range_lem s range in
    let r = ok-injective (mode_bits-value or_mode_bits s range number e) in
    let mask = bit_mask_lem start_bit bit_count (omega (arith, widths)) in
    let d = 48 - start_bit - bit_count in
    ap (λ (p : ℕ). or_mode p (parts start_bit bit_count high field low)) (sym (ap (λ x. x.0) r))
    ∙ ap
        (λ (k : ℕ).
          or_mode (bit_and (shift_left value start_bit) k)
            (parts start_bit bit_count high field low))
        mask
    ∙ joined start_bit bit_count d widths high field low hd fc ls value
