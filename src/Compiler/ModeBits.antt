-- ===== src/Compiler/ModeBits.antt =====
-- The cases of `calculateParameterAndErrorCheck` for the operations on mode bits
-- (cfoInterfaceLib/CFO_Compiler.cpp).
pub mod Mask
pub mod Meaning
pub mod Field
use Prim.Native.Nat.{bit_and, bit_or}
use mu2e_pcie_utils.Prelude.{
  ℕ, zero, suc, ◌+◌, ◌-◌, ◌*◌, ◌^◌, ◌%◌, not, ◌&&◌, ◌||◌, codes, ltb, leb, ◌==◌, get_or, Outcome,
  ok, err, ◌>>=◌, ◌>>◌, require,
}
use mu2e_pcie_utils.Compiler.Error.{
  Error, invalid_arguments, invalid_instruction, start_bit_range, bit_count_range, value_range,
}
use mu2e_pcie_utils.Compiler.Instr.{Instr, set_mode_bits, and_mode_bits, or_mode_bits}
use mu2e_pcie_utils.Compiler.State.{
  State, argument, count_is, argument_is, number_argument, all_ones,
}

-- `x << k` and `~x` on `uint64_t`.
abbrev pub shift_left : ℕ → ℕ → ℕ
shift_left x k = x * 2 ^ k % 2 ^ 64

abbrev pub complement : ℕ → ℕ
complement x = all_ones - x

-- The loop over the bits from `i` on, with the number of rounds left.
unfoldable pub mask_loop : ℕ → ℕ → ℕ → ℕ
mask_loop zero i bitmask = bitmask
mask_loop (suc left) i bitmask = mask_loop left (i + 1) (bit_or bitmask (shift_left 1 i))

unfoldable pub bit_mask : ℕ → ℕ → ℕ
unfolding mask_loop
bit_mask start_bit bit_count = mask_loop bit_count start_bit 0

-- `start_bit` and `bit_count`, both of type uint16_t, with their range checks.
unfoldable pub bit_range : State → Outcome Error (ℕ × ℕ)
bit_range s = do
  start_bit ← number_argument 16 s 2
  require (not (ltb 47 start_bit)) (start_bit_range s.txt_line_number)
  bit_count ← number_argument 16 s 4
  require (not (ltb 48 (start_bit + bit_count) || bit_count == 0))
      (bit_count_range s.txt_line_number)
  ok (start_bit, bit_count)

-- The inner switch: the parameter and the new `modeClearMask_`.
unfoldable pub mode_bits_value : Instr → ℕ → ℕ → ℕ → State → Outcome Error (ℕ × State)
mode_bits_value set_mode_bits start_bit bitmask value s = ok (
  bit_and (shift_left value start_bit) bitmask,
  record s { mode_clear_mask = complement bitmask },
)
mode_bits_value and_mode_bits start_bit bitmask value s =
    ok (bit_or (shift_left value start_bit) (complement bitmask), s)
mode_bits_value or_mode_bits start_bit bitmask value s =
    ok (bit_and (shift_left value start_bit) bitmask, s)
mode_bits_value _ start_bit bitmask value s = err (invalid_instruction s.txt_line_number)

-- SET_MODE_BITS, AND_MODE_BITS and OR_MODE_BITS.
unfoldable pub mode_bits : Instr → State → Outcome Error (ℕ × State)
unfolding bit_mask bit_range mode_bits_value
mode_bits instr s = do
  require
      (count_is s 7
        && argument_is s 1 (codes "start_bit")
        && argument_is s 3 (codes "bit_count")
        && argument_is s 5 (codes "value"))
      (invalid_arguments s.txt_line_number)
  (start_bit, bit_count) ← bit_range s
  value ← number_argument 64 s 6
  require (not (leb (shift_left 1 bit_count) value && not (get_or (argument s 6) 0 0 == b'~')))
      (value_range s.txt_line_number)
  mode_bits_value instr start_bit (bit_mask start_bit bit_count) value s

unfoldable pub clear_bits : State → Outcome Error (ℕ × State)
unfolding bit_mask bit_range
clear_bits s = do
  require
      (count_is s 5 && argument_is s 1 (codes "start_bit") && argument_is s 3 (codes "bit_count"))
      (invalid_arguments s.txt_line_number)
  (start_bit, bit_count) ← bit_range s
  ok (complement (bit_mask start_bit bit_count), s)

unfoldable pub mode_value : State → Outcome Error (ℕ × State)
mode_value s = do
  require (count_is s 2) (invalid_arguments s.txt_line_number)
  value ← number_argument 64 s 1
  ok (value, record s { mode_clear_mask = 0 })
