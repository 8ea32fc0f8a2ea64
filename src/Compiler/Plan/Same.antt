-- ===== src/Compiler/Plan/Same.antt =====
-- The operations that leave the loop stack, the labels, the output and the flag alone.
use mu2e_pcie_utils.Prelude.{ℕ, ◌≡◌, Bool, true, false, ok, arith}
use mu2e_pcie_utils.Compiler.Instr.{
  Instr, noop, heartbeat, marker, data_request, set_tag, inc_tag, wait, loop, do_loop, repeat, end,
  goto, label, clear_mode_bits, set_mode_bits, and_mode_bits, or_mode_bits, set_mode, invalid,
}
use mu2e_pcie_utils.Compiler.State.{State}
use mu2e_pcie_utils.Compiler.Float.{Floating}
use mu2e_pcie_utils.Compiler.ModeBits.{mode_bits, clear_bits, mode_value}
use mu2e_pcie_utils.Compiler.Params.{
  heartbeat_parameter, data_request_parameter, marker_parameter, set_tag_parameter,
  inc_tag_parameter, wait_parameter, parameter_of,
}

pub record SameState (s t : State) : Type 0 where
  pub output : t.output ≡ s.output
  pub loop_stack : t.loop_stack ≡ s.loop_stack
  pub label_map : t.label_map ≡ s.label_map
  pub flag : t.has_required_plan_end_op ≡ s.has_required_plan_end_op

-- The instructions that neither jump nor end a plan nor name a place.
abbrev pub is_plain : Instr → Bool
is_plain loop = false
is_plain do_loop = false
is_plain repeat = false
is_plain end = false
is_plain goto = false
is_plain label = false
is_plain _ = true

module _ (f : Floating) where
  pub parameter_of-SameState :
      (instr : Instr) (s : State) {param : ℕ} {t : State}
      → is_plain instr ≡ true
      → parameter_of f instr s ≡ ok (param, t)
      → SameState s t
  unfolding parameter_of
  parameter_of-SameState heartbeat s h e = unfold heartbeat_parameter in ground arith
  parameter_of-SameState data_request s h e = unfold data_request_parameter in ground arith
  parameter_of-SameState marker s h e = unfold marker_parameter in ground arith
  parameter_of-SameState set_tag s h e = unfold set_tag_parameter in ground arith
  parameter_of-SameState inc_tag s h e = unfold inc_tag_parameter in ground arith
  parameter_of-SameState wait s h e = unfold wait_parameter in ground arith
  parameter_of-SameState set_mode_bits s h e = unfold mode_bits in ground arith
  parameter_of-SameState and_mode_bits s h e = unfold mode_bits in ground arith
  parameter_of-SameState or_mode_bits s h e = unfold mode_bits in ground arith
  parameter_of-SameState clear_mode_bits s h e = unfold clear_bits in ground arith
  parameter_of-SameState set_mode s h e = unfold mode_value in ground arith
  parameter_of-SameState noop s h e = cc
  parameter_of-SameState invalid s h e = cc
  parameter_of-SameState loop s h e = cc
  parameter_of-SameState do_loop s h e = cc
  parameter_of-SameState repeat s h e = cc
  parameter_of-SameState end s h e = cc
  parameter_of-SameState goto s h e = cc
  parameter_of-SameState label s h e = cc
