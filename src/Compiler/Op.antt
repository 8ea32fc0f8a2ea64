-- ===== src/Compiler/Op.antt =====
-- `outParameter` and `processOp` of cfoInterfaceLib/CFO_Compiler.cpp.
use Prim.Native.Nat.{bit_and}
use mu2e_pcie_utils.Prelude.{
  ℕ, zero, suc, ◌+◌, ◌/◌, ◌%◌, Bool, true, false, List, [], ◌∷◌, ◌++◌, length, if◌then◌else◌,
  Outcome, ok, ◌>>=◌, ◌>>◌, require,
}
use mu2e_pcie_utils.Compiler.Error.{Error, invalid_instruction}
use mu2e_pcie_utils.Compiler.Instr.{
  Instr, noop, repeat, end, goto, label, clear_mode_bits, set_mode_bits, and_mode_bits,
  or_mode_bits, set_mode, invalid, code, parse_instruction,
}
use mu2e_pcie_utils.Compiler.State.{State, argument}
use mu2e_pcie_utils.Compiler.Float.{Floating}
use mu2e_pcie_utils.Compiler.Params.{calculate_parameter}

-- The bytes of an integer in memory, the lowest first.
unfoldable pub bytes_of : ℕ → ℕ → List ℕ
bytes_of zero x = []
bytes_of (suc n) x = x % 256 ∷ bytes_of n (x / 256)

abbrev pub push_back : ℕ → State → State
push_back byte s = record s { output = s.output ++ (byte ∷ []) }

unfoldable pub out_parameter : ℕ → State → State
unfolding bytes_of
out_parameter param s = record s {
  output = s.output ++ bytes_of 6 (bit_and param 0xFFFF_FFFF_FFFF);
}

-- A parameter, a zero byte and the code.
unfoldable pub out_word : ℕ → Instr → State → State
unfolding out_parameter code
out_word param instr s = push_back (code instr) (push_back 0 (out_parameter param s))

abbrev pub is_set : Instr → Bool
is_set set_mode_bits = true
is_set set_mode = true
is_set _ = false

-- What ends a plan.
abbrev pub ends_plan : Instr → Bool
ends_plan repeat = true
ends_plan end = true
ends_plan goto = true
ends_plan _ = false

-- The replacements of `instructionOpcode` that do not end a plan.
abbrev pub binary_op : Instr → Instr
binary_op label = noop
binary_op clear_mode_bits = and_mode_bits
binary_op instr = instr

abbrev pub is_valid : Instr → Bool
is_valid invalid = false
is_valid _ = true

-- The second part of `processOp`, from the computed parameter on.
unfoldable pub emit : Instr → ℕ → State → State
emit instr param s =
    let s₁ = if is_set instr then out_word s.mode_clear_mask and_mode_bits s else s in
    let op = if is_set instr then or_mode_bits else instr in
    let s₂ = record s₁ {
      has_required_plan_end_op = if ends_plan op then true else s₁.has_required_plan_end_op;
    } in
    out_word param (if ends_plan op then op else binary_op op) s₂

module _ (f : Floating) where
  unfoldable pub process_op : State → Outcome Error State
  unfolding emit
  process_op s = do
    let s₁ = record s { bin_line_number = 1 + length s.output / 8 }
    let instr = parse_instruction (argument s 0)
    require (is_valid instr) (invalid_instruction s.txt_line_number)
    (param, s₂) ← calculate_parameter f instr s₁
    ok (emit instr param s₂)
