-- ===== src/Compiler/State.antt =====
-- The fields of `CFO_Compiler` (cfoInterfaceLib/CFO_Compiler.hh), and what the cases of
-- `calculateParameterAndErrorCheck` share.
use mu2e_pcie_utils.Prelude.{
  ℕ, ◌-◌, ◌^◌, Bool, List, [], ◌∷◌, Text, codes, text_eq, length, get_or, ◌==◌, if◌then◌else◌,
  Option, none, some, Outcome, ok, err, ◌>>=◌,
}
use mu2e_pcie_utils.Compiler.Error.{Error, not_a_number}
use mu2e_pcie_utils.Compiler.Number.{get_number}

-- The back of `loopStack_` stands first.
pub record State : Type 0 where
  pub loop_stack : List ℕ
  pub label_map : List (Text × ℕ)
  pub mode_clear_mask : ℕ
  pub has_required_plan_end_op : Bool
  pub op_arguments : List Text
  pub txt_line_number : ℕ
  pub bin_line_number : ℕ
  pub output : List ℕ

abbrev pub main_goto_label : Text
main_goto_label = codes "MAIN"

-- `uint64_t(-1)`.
abbrev pub all_ones : ℕ
all_ones = 2 ^ 64 - 1

-- `opArguments_[k]` and `opArguments_.size()`.
abbrev pub argument : State → ℕ → Text
argument s k = get_or s.op_arguments k []

abbrev pub count_is : State → ℕ → Bool
count_is s n = length s.op_arguments == n

abbrev pub argument_is : State → ℕ → Text → Bool
argument_is s k word = text_eq (argument s k) word

-- `if(!getNumber(opArguments_[k], value)) throw`, at the width of `value`.
unfoldable pub number_argument : ℕ → State → ℕ → Outcome Error ℕ
number_argument w s k = get_number w (argument s k) >>= λ r. elim r [
  | none ↦ err (not_a_number s.txt_line_number)
  | some value ↦ ok value
]

-- `labelMap_.find`.
unfoldable pub find_label : Text → List (Text × ℕ) → Option ℕ
find_label name [] = none
find_label name ((other, line) ∷ rest) =
    if text_eq other name then some line else find_label name rest
