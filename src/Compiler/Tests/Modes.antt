-- ===== src/Compiler/Tests/Modes.antt =====
-- Operations on mode bits, run by evaluation.
use Prim.Native.Nat.{bit_or}
use mu2e_pcie_utils.Prelude.{◌%◌, ◌^◌, ◌≡◌, refl, [], ◌∷◌, codes, text_eq, one_of, ok, arith}
use mu2e_pcie_utils.Bits.Fields.{parts}
use mu2e_pcie_utils.Compiler.Instr.{set_mode_bits, or_mode_bits}
use mu2e_pcie_utils.Compiler.Number.{get_number}
use mu2e_pcie_utils.Compiler.State.{State, number_argument}
use mu2e_pcie_utils.Compiler.ModeBits.{bit_range, mode_bits, bit_mask, mode_bits_value}
use mu2e_pcie_utils.Compiler.ModeBits.Meaning.{and_mode, or_mode}
use mu2e_pcie_utils.Compiler.ModeBits.Field.{set_mode_bits-writes, or_mode_bits-joins}
use mu2e_pcie_utils.Compiler.Tests.Plans.{fresh}

abbrev with_arguments : State
with_arguments = record fresh {
  op_arguments =
      codes "SET_MODE_BITS"
      ∷ codes "start_bit"
      ∷ codes "4"
      ∷ codes "bit_count"
      ∷ codes "8"
      ∷ codes "value"
      ∷ codes "0xAB"
      ∷ [];
}

abbrev after_set : State
after_set = record with_arguments { mode_clear_mask = 0xFFFF_FFFF_FFFF_F00F }

range_runs : bit_range with_arguments ≡ ok (4, 8)
unfolding bit_range number_argument get_number one_of
range_runs = refl

value_runs : number_argument 64 with_arguments 6 ≡ ok 0xAB
unfolding number_argument get_number one_of
value_runs = refl

set_runs : mode_bits set_mode_bits with_arguments ≡ ok (0xAB0, after_set)
unfolding mode_bits bit_range number_argument get_number one_of bit_mask mode_bits_value text_eq
set_runs = refl

or_runs : mode_bits or_mode_bits with_arguments ≡ ok (0xAB0, with_arguments)
unfolding mode_bits bit_range number_argument get_number one_of bit_mask mode_bits_value text_eq
or_runs = refl

set_mode_bits-writes_example :
    or_mode 0xAB0 (and_mode after_set.mode_clear_mask (parts 4 8 0x77 0x5C 0x3))
    ≡ parts 4 8 0x77 (0xAB % 2 ^ 8) 0x3
set_mode_bits-writes_example =
    set_mode_bits-writes with_arguments after_set 4 8 0xAB 0xAB0 range_runs value_runs set_runs 0x77
      0x5C 0x3 (omega arith) (omega arith) (omega arith)

or_mode_bits-joins_example :
    or_mode 0xAB0 (parts 4 8 0x77 0x5C 0x3) ≡ parts 4 8 0x77 (bit_or 0x5C (0xAB % 2 ^ 8)) 0x3
or_mode_bits-joins_example =
    or_mode_bits-joins with_arguments with_arguments 4 8 0xAB 0xAB0 range_runs value_runs or_runs
      0x77 0x5C 0x3 (omega arith) (omega arith) (omega arith)
