-- ===== src/Compiler/Params.antt =====
-- `calculateParameterAndErrorCheck` of cfoInterfaceLib/CFO_Compiler.cpp, one function for each case
-- of its switch but those of `ModeBits`. Each returns the parameter and the new state.
use mu2e_pcie_utils.Prelude.{
  ℕ, ◌+◌, ◌-◌, ◌%◌, ◌/◌, ◌^◌, Bool, not, ◌&&◌, ◌||◌, List, [], ◌∷◌, ◌++◌, Text, codes, ◌==◌,
  is_empty, set, Option, if◌then◌else◌, none, some, Outcome, ok, err, ◌>>=◌, ◌>>◌, require,
}
use mu2e_pcie_utils.Compiler.Error.{
  Error, invalid_arguments, invalid_instruction, extraneous_arguments, not_multiple_of_clock,
  too_many_do_loops, too_few_do_loops, missing_label, second_label,
}
use mu2e_pcie_utils.Compiler.Instr.{
  Instr, noop, heartbeat, marker, data_request, set_tag, inc_tag, wait, loop, do_loop, repeat, end,
  goto, label, clear_mode_bits, set_mode_bits, and_mode_bits, or_mode_bits, set_mode, invalid,
}
use mu2e_pcie_utils.Compiler.State.{
  State, argument, count_is, argument_is, number_argument, all_ones, main_goto_label, find_label,
}
use mu2e_pcie_utils.Compiler.Float.{Floating}
use mu2e_pcie_utils.Compiler.ModeBits.{mode_bits, clear_bits, mode_value}

-- `FPGAClock_`: the period of the 40 MHz clock in ns, 1e9 / 40e6.
abbrev pub fpga_clock : ℕ
fpga_clock = 25

-- The parameter is a number, and the state stays.
abbrev pub number_result : State → ℕ → Outcome Error (ℕ × State)
number_result s k = number_argument 64 s k >>= λ value. ok (value, s)

-- HEARTBEAT and DATA_REQUEST: a name, and a number or a word that stands for all ones.
unfoldable pub named_or_word : Text → Text → State → Outcome Error (ℕ × State)
named_or_word name word s = do
  require (count_is s 3 && argument_is s 1 name) (invalid_arguments s.txt_line_number)
  if argument_is s 2 word then ok (all_ones, s) else number_result s 2

unfoldable pub heartbeat_parameter : State → Outcome Error (ℕ × State)
unfolding named_or_word
heartbeat_parameter = named_or_word (codes "event_mode") (codes "registered")

unfoldable pub data_request_parameter : State → Outcome Error (ℕ × State)
unfolding named_or_word
data_request_parameter = named_or_word (codes "request_tag") (codes "current")

unfoldable pub marker_parameter : State → Outcome Error (ℕ × State)
marker_parameter s = do require (count_is s 1) (extraneous_arguments s.txt_line_number); ok (0, s)

unfoldable pub set_tag_parameter : State → Outcome Error (ℕ × State)
set_tag_parameter s = do
  require (count_is s 2) (invalid_arguments s.txt_line_number)
  number_result s 1

unfoldable pub inc_tag_parameter : State → Outcome Error (ℕ × State)
inc_tag_parameter s = if count_is s 1 then ok (1, s) else (do
  require (count_is s 3 && argument_is s 1 (codes "add_value"))
      (invalid_arguments s.txt_line_number)
  number_result s 2)

abbrev pub is_wait_unit : State → Bool
is_wait_unit s =
    argument_is s 2 (codes "clocks")
    || argument_is s 2 (codes "ns")
    || argument_is s 2 (codes "s")
    || argument_is s 2 (codes "ms")
    || argument_is s 2 (codes "us")
    || argument_is s 2 (codes "RF0")

module _ (f : Floating) where
  open f use {Double, strtod, of_u64, to_u64, less, times, divided}

  -- `timeValue * scale / FPGAClock_`, as an uint64_t.
  unfoldable pub clocks_of : Double → ℕ → ℕ
  clocks_of time_value scale =
      to_u64 (divided (times time_value (of_u64 scale)) (of_u64 fpga_clock))

  -- `timeValue`: the floating point reading, unless the integer one is larger.
  unfoldable pub time_value_of : Text → ℕ → Double
  time_value_of word value =
      let time_value = strtod word in
      if less time_value (of_u64 value) then of_u64 value else time_value

  unfoldable pub wait_clocks : ℕ → State → Outcome Error ℕ
  unfolding clocks_of time_value_of
  wait_clocks value s =
      let time_value = time_value_of (argument s 1) value in
      if argument_is s 2 (codes "s")
      then ok (clocks_of time_value 1_000_000_000)
      else if argument_is s 2 (codes "ms")
      then ok (clocks_of time_value 1_000_000)
      else if argument_is s 2 (codes "us")
      then ok (clocks_of time_value 1_000)
      else if argument_is s 2 (codes "ns")
      then (if value % fpga_clock == 0
          then ok (value / fpga_clock)
          else err (not_multiple_of_clock s.txt_line_number))
      else if argument_is s 2 (codes "clocks")
      then ok value
      else err (invalid_arguments s.txt_line_number)

  unfoldable pub wait_parameter : State → Outcome Error (ℕ × State)
  unfolding wait_clocks
  wait_parameter s = do
    require
        (not (
          not (count_is s 3)
          || not (is_wait_unit s)
          || (not (argument_is s 1 (codes "NEXT")) && argument_is s 2 (codes "RF0"))))
        (invalid_arguments s.txt_line_number)
    if argument_is s 1 (codes "NEXT")
        then ok (all_ones, s)
        else (do value ← number_argument 64 s 1; clocks ← wait_clocks value s; ok (clocks, s))

unfoldable pub loop_parameter : State → Outcome Error (ℕ × State)
loop_parameter s = do
  require (count_is s 2) (invalid_arguments s.txt_line_number)
  value ← number_argument 64 s 1
  ok (value, record s { loop_stack = s.bin_line_number ∷ s.loop_stack })

-- The branch on the stack; `binLineNumber_ - loopLine` is on uint64_t.
unfoldable pub pop_loop : List ℕ → State → Outcome Error (ℕ × State)
pop_loop [] s = err (too_many_do_loops s.txt_line_number)
pop_loop (loop_line ∷ rest) s =
    ok ((s.bin_line_number + 2 ^ 64 - loop_line) % 2 ^ 64, record s { loop_stack = rest })

unfoldable pub do_loop_parameter : State → Outcome Error (ℕ × State)
do_loop_parameter s = do
  require (count_is s 1) (extraneous_arguments s.txt_line_number)
  pop_loop s.loop_stack s

-- REPEAT and END.
unfoldable pub plan_end_parameter : State → Outcome Error (ℕ × State)
plan_end_parameter s = do
  require (count_is s 1) (extraneous_arguments s.txt_line_number)
  require (is_empty s.loop_stack) (too_few_do_loops s.txt_line_number)
  ok (0, s)

-- `push_back(MAIN_GOTO_LABEL)`, then `opArguments_[1] = MAIN_GOTO_LABEL`.
abbrev pub with_main_label : State → State
with_main_label s = record s {
  op_arguments = set (s.op_arguments ++ (main_goto_label ∷ [])) 1 main_goto_label;
}

-- The branches on what `labelMap_.find` returns.
unfoldable pub goto_found : Option ℕ → State → Outcome Error (ℕ × State)
goto_found none s = err (missing_label s.txt_line_number)
goto_found (some line) s = ok (line, s)

unfoldable pub goto_parameter : State → Outcome Error (ℕ × State)
goto_parameter s = do
  require (count_is s 1) (extraneous_arguments s.txt_line_number)
  require (is_empty s.loop_stack) (too_few_do_loops s.txt_line_number)
  let s' = with_main_label s
  goto_found (find_label (argument s' 1) s.label_map) s'

unfoldable pub label_found : Option ℕ → State → Outcome Error (ℕ × State)
label_found (some line) s = err (second_label s.txt_line_number)
label_found none s =
    ok (1, record s { label_map = (argument s 1, s.bin_line_number) ∷ s.label_map })

unfoldable pub label_parameter : State → Outcome Error (ℕ × State)
label_parameter s = do
  require (count_is s 1) (extraneous_arguments s.txt_line_number)
  require (is_empty s.loop_stack) (too_few_do_loops s.txt_line_number)
  let s' = with_main_label s
  label_found (find_label (argument s' 1) s.label_map) s'

module _ (f : Floating) where
  -- The switch; `invalid` and `noop` have no case.
  unfoldable pub parameter_of : Instr → State → Outcome Error (ℕ × State)
  parameter_of heartbeat s = heartbeat_parameter s
  parameter_of marker s = marker_parameter s
  parameter_of data_request s = data_request_parameter s
  parameter_of set_tag s = set_tag_parameter s
  parameter_of inc_tag s = inc_tag_parameter s
  parameter_of wait s = wait_parameter f s
  parameter_of loop s = loop_parameter s
  parameter_of do_loop s = do_loop_parameter s
  parameter_of repeat s = plan_end_parameter s
  parameter_of end s = plan_end_parameter s
  parameter_of goto s = goto_parameter s
  parameter_of label s = label_parameter s
  parameter_of set_mode_bits s = mode_bits set_mode_bits s
  parameter_of and_mode_bits s = mode_bits and_mode_bits s
  parameter_of or_mode_bits s = mode_bits or_mode_bits s
  parameter_of clear_mode_bits s = clear_bits s
  parameter_of set_mode s = mode_value s
  parameter_of noop s = err (invalid_instruction s.txt_line_number)
  parameter_of invalid s = err (invalid_instruction s.txt_line_number)

  unfoldable pub calculate_parameter : Instr → State → Outcome Error (ℕ × State)
  unfolding parameter_of
  calculate_parameter instr s = parameter_of instr (record s { mode_clear_mask = 0 })
