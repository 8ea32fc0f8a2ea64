-- ===== src/Compiler/Plan/Invariant.antt =====
-- The invariant of the compiler's state, which relates it to the words that are out
-- (cfoInterfaceLib/CFO_Compiler.cpp).
use mu2e_pcie_utils.Prelude.{ℕ, ◌≡◌, List, map, Text}
use mu2e_pcie_utils.Compiler.State.{State, main_goto_label}
use mu2e_pcie_utils.Compiler.Plan.{Word, encode, open_loops, label_lines, has_end, IsPlan}

-- The entries of `labelMap_` for the labels at the lines `ls`.
abbrev pub entries : List ℕ → List (Text × ℕ)
entries = map (λ line. (main_goto_label, line))

-- The state after the words `ws`: the output is their bytes, the stack is that of the open loops, the
-- map has their label, the flag says whether they end, and they are a plan.
pub record IsConsistent (s : State) (ws : List Word) : Type 0 where
  pub output : s.output ≡ encode ws
  pub loops : s.loop_stack ≡ open_loops ws
  pub labels : s.label_map ≡ entries (label_lines ws)
  pub flag : s.has_required_plan_end_op ≡ has_end ws
  pub plan : IsPlan ws

-- The same between the computation of a parameter and its output: stack and map are ahead by `after`.
pub record IsPrepared (s : State) (ws after : List Word) : Type 0 where
  pub output : s.output ≡ encode ws
  pub loops : s.loop_stack ≡ open_loops after
  pub labels : s.label_map ≡ entries (label_lines after)
  pub flag : s.has_required_plan_end_op ≡ has_end ws
  pub plan : IsPlan after
