-- ===== src/Compiler/Error.antt =====
-- What `CFO_Compiler` throws (cfoInterfaceLib/CFO_Compiler.cpp): one constructor for each kind of
-- message, with the number of the source line that the message names. `out_of_range` and
-- `zero_divisor` stand for undefined behaviour, which the source does not report.
use Prim.Native.Nat.{ℕ}

pub data Error : Type 0 where
  source_not_open output_not_open missing_plan_end : Error
  single_slash invalid_instruction invalid_arguments not_a_number extraneous_arguments : ℕ → Error
  not_multiple_of_clock too_many_do_loops too_few_do_loops missing_label second_label : ℕ → Error
  start_bit_range bit_count_range value_range : ℕ → Error
  delimiter_mismatch unrecognized_operation no_translation : Error
  out_of_range zero_divisor : Error
