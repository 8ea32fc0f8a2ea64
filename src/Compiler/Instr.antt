-- ===== src/Compiler/Instr.antt =====
-- `enum class CFO_INSTR` of cfoInterfaceLib/CFO_Compiler.hh, with the two tables between names and
-- operation codes and the lookups in them (cfoInterfaceLib/CFO_Compiler.cpp).
use mu2e_pcie_utils.Prelude.{
  ℕ, List, [], ◌∷◌, Text, codes, text_eq, ◌==◌, if◌then◌else◌, Outcome, ok, err,
}
use mu2e_pcie_utils.Compiler.Error.{Error, no_translation}

pub data Instr : Type 0 where
  noop heartbeat marker data_request set_tag inc_tag wait loop do_loop repeat end goto label : Instr
  clear_mode_bits set_mode_bits and_mode_bits or_mode_bits set_mode invalid : Instr

-- `static_cast<char>(instr)`, as an unsigned byte.
unfoldable pub code : Instr → ℕ
code noop = 0
code heartbeat = 1
code marker = 10
code data_request = 2
code set_tag = 3
code inc_tag = 4
code wait = 5
code loop = 6
code do_loop = 7
code repeat = 8
code end = 9
code goto = 11
code label = 12
code clear_mode_bits = 100
code set_mode_bits = 101
code and_mode_bits = 102
code or_mode_bits = 103
code set_mode = 200
code invalid = 0xff

abbrev pub op_to_code : List (Text × Instr)
op_to_code =
    (codes "HEARTBEAT", heartbeat)
    ∷ (codes "MARKER", marker)
    ∷ (codes "DATA_REQUEST", data_request)
    ∷ (codes "SET_TAG", set_tag)
    ∷ (codes "INC_TAG", inc_tag)
    ∷ (codes "LOOP", loop)
    ∷ (codes "DO_LOOP", do_loop)
    ∷ (codes "REPEAT", repeat)
    ∷ (codes "WAIT", wait)
    ∷ (codes "END", end)
    ∷ (codes "GOTO_LABEL", goto)
    ∷ (codes "LABEL", label)
    ∷ (codes "CLEAR_MODE_BITS", clear_mode_bits)
    ∷ (codes "SET_MODE_BITS", set_mode_bits)
    ∷ (codes "AND_MODE_BITS", and_mode_bits)
    ∷ (codes "OR_MODE_BITS", or_mode_bits)
    ∷ (codes "SET_MODE", set_mode)
    ∷ []

find_instr : Text → List (Text × Instr) → Instr
find_instr op [] = invalid
find_instr op ((name, instr) ∷ table) = if text_eq name op then instr else find_instr op table

unfoldable pub parse_instruction : Text → Instr
unfolding find_instr text_eq
parse_instruction op = find_instr op op_to_code

-- Keyed by the code of the instruction.
abbrev pub code_to_op : List (Instr × Text)
code_to_op =
    (heartbeat, codes "HEARTBEAT")
    ∷ (marker, codes "MARKER")
    ∷ (data_request, codes "DATA_REQUEST")
    ∷ (set_tag, codes "SET_TAG")
    ∷ (inc_tag, codes "INC_TAG")
    ∷ (loop, codes "LOOP")
    ∷ (do_loop, codes "DO_LOOP")
    ∷ (repeat, codes "REPEAT")
    ∷ (wait, codes "WAIT")
    ∷ (end, codes "END")
    ∷ (goto, codes "GOTO_LABEL")
    ∷ (label, codes "LABEL")
    ∷ (noop, codes "LABEL")
    ∷ (clear_mode_bits, codes "CLEAR_MODE_BITS")
    ∷ (set_mode_bits, codes "SET_MODE_BITS")
    ∷ (and_mode_bits, codes "AND_MODE_BITS")
    ∷ (or_mode_bits, codes "OR_MODE_BITS")
    ∷ (set_mode, codes "SET_MODE")
    ∷ []

find_name : ℕ → List (Instr × Text) → Outcome Error Text
find_name c [] = err no_translation
find_name c ((instr, name) ∷ table) = if code instr == c then ok name else find_name c table

unfoldable pub translate_op_code : ℕ → Outcome Error Text
unfolding find_name code
translate_op_code c = find_name c code_to_op
