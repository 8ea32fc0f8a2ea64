-- ===== src/Compiler/File.antt =====
-- `CFO_Compiler::processFile` of cfoInterfaceLib/CFO_Compiler.cpp: the loop over the lines of the
-- source, and the listing of the binary. Opening the two files is outside; the listing is kept as
-- rows, not as text.
use mu2e_pcie_utils.Prelude.{
  ℕ, zero, suc, ◌+◌, ◌-◌, ◌/◌, ◌%◌, Bool, false, ◌&&◌, List, [], ◌∷◌, ◌++◌, Text, ltb, ◌==◌, length,
  is_empty, if◌then◌else◌, Option, none, some, Outcome, ok, err, ◌>>=◌, ◌>>◌, require,
}
use mu2e_pcie_utils.Compiler.Error.{Error, source_not_open, output_not_open, missing_plan_end}
use mu2e_pcie_utils.Compiler.Instr.{loop, do_loop, code, translate_op_code}
use mu2e_pcie_utils.Compiler.Scan.{get_vector_from_string}
use mu2e_pcie_utils.Compiler.Source.{read_line, is_comment, clean_arguments}
use mu2e_pcie_utils.Compiler.State.{State}
use mu2e_pcie_utils.Compiler.Float.{Floating}
use mu2e_pcie_utils.Compiler.Op.{process_op}

abbrev pub argument_delimiters : List ℕ
argument_delimiters = b',' ∷ 32 ∷ 9 ∷ b';' ∷ b'=' ∷ []

abbrev pub line_ends : List ℕ
line_ends = 10 ∷ 13 ∷ []

-- What `processFile` resets.
abbrev pub reset : State → State
reset s = record s {
  loop_stack = [];
  label_map = [];
  has_required_plan_end_op = false;
  txt_line_number = 0;
  bin_line_number = 0;
  output = [];
}

-- One row of the listing: the number of the word, the indentation, the eight bytes and the name.
pub record Row : Type 0 where
  pub number : ℕ
  pub tabs : ℕ
  pub bytes : List ℕ
  pub name : Text

-- The loop over the bytes. `cnt` bytes are behind, `held` are those of the word so far. A last word
-- of less than eight bytes gets no name, and makes no row here.
unfoldable pub list_rows : ℕ → ℕ → List ℕ → List ℕ → Outcome Error (List Row)
unfolding code
list_rows cnt tabs held [] = ok []
list_rows cnt tabs held (c ∷ rest) =
    let bytes = (if cnt % 8 == 0 then [] else held) ++ (c ∷ []) in
    let tabs' =
      if c == code loop
      then tabs + 1
      else if c == code do_loop && ltb 0 tabs
      then tabs - 1
      else tabs in
    let last = cnt % 8 == 7 in
    let more = list_rows (cnt + 1) (if last then tabs' else tabs) bytes rest in
    if last
    then (do
      name ← translate_op_code c
      rows ← more
      ok (record { number = cnt / 8 + 1; tabs = tabs; bytes = bytes; name = name } ∷ rows))
    else more

module _ (f : Floating) where
  -- The end of the body of the loop over the lines, from the cleaned arguments on.
  unfoldable pub process_arguments : State → Outcome Error State
  process_arguments s = if is_empty s.op_arguments then ok s else process_op f s

  -- The body from the reading of the arguments on.
  unfoldable pub process_text : Text → State → Outcome Error State
  process_text line s = get_vector_from_string line argument_delimiters line_ends false >>= λ r.
      process_arguments (record s { op_arguments = clean_arguments r.0 })

  unfoldable pub process_line : Text → State → Outcome Error State
  process_line line s =
      let s₁ = record s { txt_line_number = s.txt_line_number + 1 } in
      is_comment s₁.txt_line_number line >>= λ comment.
      if comment then ok s₁ else process_text line s₁

  -- The loop over the lines; the fuel bounds their number.
  unfoldable pub process_lines : ℕ → Text → State → Outcome Error State
  process_lines zero file s = ok s
  process_lines (suc fuel) file s = elim (read_line file) [
    | none ↦ ok s
    | some (line, rest) ↦ process_line line s >>= process_lines fuel rest
  ]

  -- The source's text, or `none` if it does not open; and whether the output file opens.
  unfoldable pub process_file : Option Text → Bool → State → Outcome Error (List Row × State)
  unfolding process_lines
  process_file none opens s = err source_not_open
  process_file (some file) opens s = do
    s' ← process_lines (suc (length file)) file (reset s)
    require s'.has_required_plan_end_op missing_plan_end
    require opens output_not_open
    rows ← list_rows 0 0 [] s'.output
    ok (rows, s')
