-- ===== src/Compiler/Tests/Plans.antt =====
-- Run plans compiled by evaluation.
use mu2e_pcie_utils.Prelude.{
  err, ℕ, ◌≡◌, refl, true, false, List, [], ◌∷◌, ◌++◌, Text, codes, one_of, Option, some, Outcome,
  ok,
}
use mu2e_pcie_utils.Compiler.File.{
  Row, process_line, process_text, process_arguments, list_rows, process_file,
}
use mu2e_pcie_utils.Compiler.Error.{Error}
use mu2e_pcie_utils.Compiler.Number.{get_number}
use mu2e_pcie_utils.Compiler.Instr.{parse_instruction, translate_op_code}
use mu2e_pcie_utils.Compiler.Source.{read_line, is_comment, clean_arguments}
use mu2e_pcie_utils.Compiler.Plan.{Word, encode, IsPlan, has_end}
use mu2e_pcie_utils.Compiler.Plan.Steps.{process_file-IsPlan}
use mu2e_pcie_utils.Compiler.State.{State, number_argument}
use mu2e_pcie_utils.Compiler.Params.{
  loop_parameter, wait_parameter, pop_loop, do_loop_parameter, plan_end_parameter,
  calculate_parameter,
}
use mu2e_pcie_utils.Compiler.Op.{out_word, process_op}
use mu2e_pcie_utils.Compiler.Tests.Rational.{rational}

abbrev pub fresh : State
fresh = record {
  loop_stack = [];
  label_map = [];
  mode_clear_mask = 0;
  has_required_plan_end_op = false;
  op_arguments = [];
  txt_line_number = 0;
  bin_line_number = 0;
  output = [];
}

number : Text → Outcome Error (Option ℕ)
unfolding get_number one_of
number = get_number 64

sums : number (codes "2*0x10-b11") ≡ ok (some 29)
unfolding number
sums = refl

-- A run of the compiler from a new object, with all that it calls unfolded.
compile : Text → Outcome Error (List Row × State)
unfolding process_file get_number one_of read_line process_line process_text process_arguments
    is_comment clean_arguments process_op out_word parse_instruction calculate_parameter
    loop_parameter number_argument wait_parameter pop_loop do_loop_parameter plan_end_parameter
    list_rows translate_op_code
compile source = process_file rational (some source) true fresh

abbrev pub loop_plan : Text
loop_plan =
    codes "LOOP 100 //32-bits"
    ++ (10
        ∷ (codes "WAIT 1.7 us " ++ (10 ∷ (codes "DO_LOOP" ++ (10 ∷ (codes "END" ++ (10 ∷ [])))))))

abbrev pub loop_words : List ℕ
loop_words =
    (100 ∷ 0 ∷ 0 ∷ 0 ∷ 0 ∷ 0 ∷ 0 ∷ 6 ∷ [])
    ++ ((68 ∷ 0 ∷ 0 ∷ 0 ∷ 0 ∷ 0 ∷ 0 ∷ 5 ∷ [])
        ++ ((2 ∷ 0 ∷ 0 ∷ 0 ∷ 0 ∷ 0 ∷ 0 ∷ 7 ∷ []) ++ (0 ∷ 0 ∷ 0 ∷ 0 ∷ 0 ∷ 0 ∷ 0 ∷ 9 ∷ [])))

-- What a successful run returns.
abbrev pub final : Outcome Error (List Row × State) → List Row × State
final (ok r) = r
final (err e) = ([], fresh)

loop_plan-output : (final (compile loop_plan)).1.output ≡ loop_words
unfolding compile
loop_plan-output = refl

loop_plan-compiles :
    process_file rational (some loop_plan) true fresh ≡ ok (final (compile loop_plan))
unfolding compile
loop_plan-compiles = refl

process_file-IsPlan_example :
    (ws : List Word) × ((final (compile loop_plan)).1.output ≡ encode ws)
    × IsPlan ws
    × (has_end ws ≡ true)
process_file-IsPlan_example =
    process_file-IsPlan rational loop_plan true fresh (final (compile loop_plan)).1
      loop_plan-compiles
