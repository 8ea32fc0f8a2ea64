-- ===== src/Compiler/Plan/Keep.antt =====
-- Every operation of the compiler keeps the invariant (cfoInterfaceLib/CFO_Compiler.cpp).
use mu2e_pcie_utils.Compiler.Plan.Invariant.{IsConsistent, IsPrepared}
use mu2e_pcie_utils.Compiler.Plan.Loops.{
  AtLine, ahead, loop-IsPrepared, do_loop-IsPrepared, repeat-IsPrepared, end-IsPrepared,
}
use mu2e_pcie_utils.Compiler.Plan.Labels.{goto-IsPrepared, label-IsPrepared}
use mu2e_pcie_utils.Prelude.{ℕ, ◌≡◌, refl, true, List, ok}
use mu2e_pcie_utils.Compiler.State.{State}
use mu2e_pcie_utils.Compiler.Params.{parameter_of}
use mu2e_pcie_utils.Compiler.Instr.{
  Instr, noop, heartbeat, marker, data_request, set_tag, inc_tag, wait, loop, do_loop, repeat, end,
  goto, label, clear_mode_bits, set_mode_bits, and_mode_bits, or_mode_bits, set_mode, invalid,
}
use mu2e_pcie_utils.Compiler.Float.{Floating}
use mu2e_pcie_utils.Compiler.Plan.{Word, open_loops, label_lines, IsPlan}
use mu2e_pcie_utils.Compiler.Plan.Emit.{emitted}
use mu2e_pcie_utils.Compiler.Plan.Same.{is_plain, parameter_of-SameState}

module _ (f : Floating) where
  plain-IsPrepared :
      (instr : Instr) (s : State) (ws : List Word) (param : ℕ) (t : State)
      → is_plain instr ≡ true
      → IsConsistent s ws
      → parameter_of f instr s ≡ ok (param, t)
      → IsPrepared t ws (emitted instr param t.mode_clear_mask ws)
  unfolding emitted open_loops label_lines IsPlan
  plain-IsPrepared heartbeat s ws param t h c e =
      ahead (parameter_of-SameState f heartbeat s h e) c refl refl (tt, c.plan)
  plain-IsPrepared marker s ws param t h c e =
      ahead (parameter_of-SameState f marker s h e) c refl refl (tt, c.plan)
  plain-IsPrepared data_request s ws param t h c e =
      ahead (parameter_of-SameState f data_request s h e) c refl refl (tt, c.plan)
  plain-IsPrepared set_tag s ws param t h c e =
      ahead (parameter_of-SameState f set_tag s h e) c refl refl (tt, c.plan)
  plain-IsPrepared inc_tag s ws param t h c e =
      ahead (parameter_of-SameState f inc_tag s h e) c refl refl (tt, c.plan)
  plain-IsPrepared wait s ws param t h c e =
      ahead (parameter_of-SameState f wait s h e) c refl refl (tt, c.plan)
  plain-IsPrepared and_mode_bits s ws param t h c e =
      ahead (parameter_of-SameState f and_mode_bits s h e) c refl refl (tt, c.plan)
  plain-IsPrepared or_mode_bits s ws param t h c e =
      ahead (parameter_of-SameState f or_mode_bits s h e) c refl refl (tt, c.plan)
  plain-IsPrepared clear_mode_bits s ws param t h c e =
      ahead (parameter_of-SameState f clear_mode_bits s h e) c refl refl (tt, c.plan)
  plain-IsPrepared set_mode_bits s ws param t h c e =
      ahead (parameter_of-SameState f set_mode_bits s h e) c refl refl (tt, (tt, c.plan))
  plain-IsPrepared set_mode s ws param t h c e =
      ahead (parameter_of-SameState f set_mode s h e) c refl refl (tt, (tt, c.plan))
  plain-IsPrepared noop s ws param t h c e = unfold parameter_of in cc
  plain-IsPrepared invalid s ws param t h c e = unfold parameter_of in cc
  plain-IsPrepared loop s ws param t h c e = cc
  plain-IsPrepared do_loop s ws param t h c e = cc
  plain-IsPrepared repeat s ws param t h c e = cc
  plain-IsPrepared end s ws param t h c e = cc
  plain-IsPrepared goto s ws param t h c e = cc
  plain-IsPrepared label s ws param t h c e = cc

module _ (f : Floating) where
  pub parameter_of-IsPrepared :
      (instr : Instr) (s : State) (ws : List Word) (param : ℕ) (t : State)
      → AtLine s ws
      → IsConsistent s ws
      → parameter_of f instr s ≡ ok (param, t)
      → IsPrepared t ws (emitted instr param t.mode_clear_mask ws)
  unfolding parameter_of
  parameter_of-IsPrepared loop s ws param t line c e = loop-IsPrepared s ws param t line c e
  parameter_of-IsPrepared do_loop s ws param t line c e = do_loop-IsPrepared s ws param t line c e
  parameter_of-IsPrepared repeat s ws param t line c e = repeat-IsPrepared s ws param t c e
  parameter_of-IsPrepared end s ws param t line c e = end-IsPrepared s ws param t c e
  parameter_of-IsPrepared goto s ws param t line c e = goto-IsPrepared s ws param t c e
  parameter_of-IsPrepared label s ws param t line c e = label-IsPrepared s ws param t line c e
  parameter_of-IsPrepared other s ws param t line c e =
      plain-IsPrepared f other s ws param t refl c e
