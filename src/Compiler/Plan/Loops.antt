-- ===== src/Compiler/Plan/Loops.antt =====
-- The operations on the stack of loops, and those that end a plan, keep the invariant
-- (cfoInterfaceLib/CFO_Compiler.cpp).
use mu2e_pcie_utils.Compiler.Plan.Invariant.{IsConsistent, IsPrepared, entries}
use mu2e_pcie_utils.Prelude.{
  require-eq-ok, All, ℕ, suc, ◌≤◌, ◌≡◌, sym, ap, ◌∙◌, List, [], ◌∷◌, length, ok, arith,
}
use mathlib.Core.Path.{subst}
use mu2e_pcie_utils.Compiler.State.{State}
use mu2e_pcie_utils.Compiler.Params.{
  loop_parameter, pop_loop, do_loop_parameter, plan_end_parameter,
}
use mu2e_pcie_utils.Compiler.Instr.{Instr, loop, do_loop, repeat, end}
use mu2e_pcie_utils.Compiler.Plan.{Word, open_loops, label_lines, IsPlan, opened}
use mu2e_pcie_utils.Compiler.Plan.Emit.{emitted}
use mu2e_pcie_utils.Compiler.Plan.Same.{SameState}

-- Words that open, close and name nothing.
pub ahead :
    {s t : State} {ws after : List Word}
    → SameState s t
    → IsConsistent s ws
    → open_loops after ≡ open_loops ws
    → label_lines after ≡ label_lines ws
    → IsPlan after
    → IsPrepared t ws after
ahead same c loops labels plan = record {
  output = same.output ∙ c.output;
  loops = same.loop_stack ∙ c.loops ∙ sym loops;
  labels = same.label_map ∙ c.labels ∙ sym (ap entries labels);
  flag = same.flag ∙ c.flag;
  plan = plan;
}

All-weaken : (ls : List ℕ) (n : ℕ) → All (λ l. l ≤ n) ls → All (λ l. l ≤ suc n) ls
All-weaken [] n h = tt
All-weaken (l ∷ ls) n h = (omega arith, All-weaken ls n h.1)

opened-le :
    (op : Instr) (n : ℕ) (ls : List ℕ)
    → All (λ l. l ≤ n) ls
    → All (λ l. l ≤ suc n) (opened op (suc n) ls)
opened-le loop n ls h = (omega arith, All-weaken ls n h)
opened-le do_loop n [] h = tt
opened-le do_loop n (l ∷ ls) h = All-weaken ls n h.1
opened-le _ n ls h = All-weaken ls n h

-- Open loops stand at lines of the words.
pub open_loops-le : (ws : List Word) → All (λ l. l ≤ length ws) (open_loops ws)
unfolding open_loops
open_loops-le [] = tt
open_loops-le (w ∷ ws) = opened-le w.op (length ws) (open_loops ws) (open_loops-le ws)

-- The line of the next word, as `processOp` computes it.
abbrev pub AtLine : State → List Word → Type 0
AtLine s ws = s.bin_line_number ≡ suc (length ws)

pub loop-IsPrepared :
    (s : State) (ws : List Word) (param : ℕ) (t : State)
    → AtLine s ws
    → IsConsistent s ws
    → loop_parameter s ≡ ok (param, t)
    → IsPrepared t ws (emitted loop param t.mode_clear_mask ws)
unfolding emitted open_loops label_lines IsPlan loop_parameter
loop-IsPrepared s ws param t line c e = ground arith

pop-IsPrepared :
    (stack : List ℕ) (s : State) (ws : List Word) (param : ℕ) (t : State)
    → AtLine s ws
    → IsConsistent s ws
    → stack ≡ open_loops ws
    → pop_loop stack s ≡ ok (param, t)
    → IsPrepared t ws (emitted do_loop param t.mode_clear_mask ws)
unfolding emitted open_loops label_lines IsPlan pop_loop
pop-IsPrepared [] s ws param t line c opens e = cc
pop-IsPrepared (l ∷ ls) s ws param t line c opens e =
    let low : l ≤ length ws = (subst (All (λ k. k ≤ length ws)) (sym opens) (open_loops-le ws)).0 in
    record {
      output = ground arith;
      loops = ground arith;
      labels = ground arith;
      flag = ground arith;
      plan = ((l, ls, sym opens, ground arith), c.plan);
    }

pub do_loop-IsPrepared :
    (s : State) (ws : List Word) (param : ℕ) (t : State)
    → AtLine s ws
    → IsConsistent s ws
    → do_loop_parameter s ≡ ok (param, t)
    → IsPrepared t ws (emitted do_loop param t.mode_clear_mask ws)
unfolding do_loop_parameter
do_loop-IsPrepared s ws param t line c e =
    pop-IsPrepared s.loop_stack s ws param t line c c.loops (require-eq-ok _ _ _ e).1

pub repeat-IsPrepared :
    (s : State) (ws : List Word) (param : ℕ) (t : State)
    → IsConsistent s ws
    → plan_end_parameter s ≡ ok (param, t)
    → IsPrepared t ws (emitted repeat param t.mode_clear_mask ws)
unfolding emitted open_loops label_lines IsPlan plan_end_parameter
repeat-IsPrepared s ws param t c e = ground arith

pub end-IsPrepared :
    (s : State) (ws : List Word) (param : ℕ) (t : State)
    → IsConsistent s ws
    → plan_end_parameter s ≡ ok (param, t)
    → IsPrepared t ws (emitted end param t.mode_clear_mask ws)
unfolding emitted open_loops label_lines IsPlan plan_end_parameter
end-IsPrepared s ws param t c e = ground arith
