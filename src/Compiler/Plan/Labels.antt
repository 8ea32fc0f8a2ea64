-- ===== src/Compiler/Plan/Labels.antt =====
-- The operations on labels keep the invariant (cfoInterfaceLib/CFO_Compiler.cpp).
use mu2e_pcie_utils.Compiler.Plan.Invariant.{IsConsistent, IsPrepared, entries}
use mu2e_pcie_utils.Compiler.Plan.Loops.{AtLine}
use mu2e_pcie_utils.Prelude.{
  ==→eq, some, none, set, text_eq, ◌==◌, require-eq-ok, ℕ, suc, ◌≡◌, refl, sym, ◌∙◌, true, List, [],
  ◌∷◌, Text, length, is_empty, ok, arith, ◌++◌, Option,
}
use mathlib.Core.Path.{ap₂}
use mu2e_pcie_utils.Compiler.State.{count_is, State, argument, main_goto_label, find_label}
use mu2e_pcie_utils.Compiler.Params.{
  goto_found, label_found, with_main_label, goto_parameter, label_parameter,
}
use mu2e_pcie_utils.Compiler.Instr.{Instr, noop, goto, label}
use mu2e_pcie_utils.Compiler.Plan.{Word, open_loops, label_lines, Placed, IsPlan, labelled}
use mu2e_pcie_utils.Compiler.Plan.Emit.{emitted}

abbrev AtMostOne : List ℕ → Type 0
AtMostOne [] = Unit
AtMostOne (l ∷ []) = Unit
AtMostOne (l ∷ k ∷ ls) = ⊥

labelled-AtMostOne :
    (op : Instr) (param line : ℕ) (ls : List ℕ) (ws : List Word)
    → label_lines ws ≡ ls
    → Placed op param ws
    → AtMostOne ls
    → AtMostOne (labelled op line ls)
labelled-AtMostOne noop param line [] ws e h one = tt
labelled-AtMostOne noop param line (l ∷ ls) ws e h one = cc (sym e ∙ h.1)
labelled-AtMostOne _ param line ls ws e h one = one

-- A plan has one label at most.
label_lines-AtMostOne : (ws : List Word) → IsPlan ws → AtMostOne (label_lines ws)
unfolding label_lines IsPlan
label_lines-AtMostOne [] h = tt
label_lines-AtMostOne (w ∷ ws) h =
    labelled-AtMostOne w.op w.param (suc (length ws)) (label_lines ws) ws refl h.0
      (label_lines-AtMostOne ws h.1)

-- With one argument, the label that is looked up is MAIN.
main_argument :
    (s : State) (args : List Text)
    → (length args == 1) ≡ true
    → argument
        (record s { op_arguments = set (args ++ (main_goto_label ∷ [])) 1 main_goto_label })
        1
      ≡ main_goto_label
main_argument s [] h = cc
main_argument s (a ∷ []) h = refl
main_argument s (a ∷ b ∷ args) h = absurd (omega (arith, ==→eq _ _ h))

find-entries-none : (ls : List ℕ) → find_label main_goto_label (entries ls) ≡ none → ls ≡ []
unfolding find_label text_eq
find-entries-none [] h = refl
find-entries-none (l ∷ ls) h = cc

find-entries-some :
    (ls : List ℕ) (line : ℕ)
    → AtMostOne ls
    → find_label main_goto_label (entries ls) ≡ some line
    → ls ≡ line ∷ []
unfolding find_label text_eq
find-entries-some [] line one h = cc
find-entries-some (l ∷ []) line one h = cc
find-entries-some (l ∷ k ∷ ls) line one h = absurd one

pub empty-eq : (ls : List ℕ) → is_empty ls ≡ true → ls ≡ []
empty-eq [] h = refl
empty-eq (l ∷ ls) h = cc

goto_found-IsPrepared :
    (found : Option ℕ) (s : State) (ws : List Word) (param : ℕ) (t : State)
    → IsConsistent s ws
    → s.loop_stack ≡ []
    → found ≡ find_label main_goto_label (entries (label_lines ws))
    → goto_found found s ≡ ok (param, t)
    → IsPrepared t ws (emitted goto param t.mode_clear_mask ws)
unfolding emitted open_loops label_lines IsPlan goto_found
goto_found-IsPrepared none s ws param t c no_loop e h = cc
goto_found-IsPrepared (some line) s ws param t c no_loop e h =
    let one : label_lines ws ≡ line ∷ [] =
      find-entries-some (label_lines ws) line (label_lines-AtMostOne ws c.plan) (sym e) in
    record {
      output = ground arith;
      loops = ground arith;
      labels = ground arith;
      flag = ground arith;
      plan = ((sym c.loops ∙ no_loop, (line, one, ground arith)), c.plan);
    }

label_found-IsPrepared :
    (found : Option ℕ) (s : State) (ws : List Word) (param : ℕ) (t : State)
    → IsConsistent s ws
    → AtLine s ws
    → s.loop_stack ≡ []
    → argument s 1 ≡ main_goto_label
    → found ≡ find_label main_goto_label (entries (label_lines ws))
    → label_found found s ≡ ok (param, t)
    → IsPrepared t ws (emitted label param t.mode_clear_mask ws)
unfolding emitted open_loops label_lines IsPlan label_found
label_found-IsPrepared (some line) s ws param t c at_line no_loop main e h = cc
label_found-IsPrepared none s ws param t c at_line no_loop main e h =
    let none_yet : label_lines ws ≡ [] = find-entries-none (label_lines ws) (sym e) in
    record {
      output = ground arith;
      loops = ground arith;
      labels = ground arith;
      flag = ground arith;
      plan = ((sym c.loops ∙ no_loop, none_yet, ground arith), c.plan);
    }

-- The lookup of the label, with the one argument that the count allows.
find_main :
    (s : State) (ws : List Word)
    → IsConsistent s ws
    → count_is s 1 ≡ true
    → find_label (argument (with_main_label s) 1) s.label_map
      ≡ find_label main_goto_label (entries (label_lines ws))
find_main s ws c h = ap₂ find_label (main_argument s s.op_arguments h) c.labels

pub goto-IsPrepared :
    (s : State) (ws : List Word) (param : ℕ) (t : State)
    → IsConsistent s ws
    → goto_parameter s ≡ ok (param, t)
    → IsPrepared t ws (emitted goto param t.mode_clear_mask ws)
unfolding goto_parameter
goto-IsPrepared s ws param t c e =
    let (one, e₁) = require-eq-ok _ _ _ e in
    let (closed, e₂) = require-eq-ok _ _ _ e₁ in
    goto_found-IsPrepared _ (with_main_label s) ws param t
      (record {
        output = c.output;
        loops = c.loops;
        labels = c.labels;
        flag = c.flag;
        plan = c.plan;
      })
      (empty-eq s.loop_stack closed) (find_main s ws c one) e₂

pub label-IsPrepared :
    (s : State) (ws : List Word) (param : ℕ) (t : State)
    → AtLine s ws
    → IsConsistent s ws
    → label_parameter s ≡ ok (param, t)
    → IsPrepared t ws (emitted label param t.mode_clear_mask ws)
unfolding label_parameter
label-IsPrepared s ws param t line c e =
    let (one, e₁) = require-eq-ok _ _ _ e in
    let (closed, e₂) = require-eq-ok _ _ _ e₁ in
    label_found-IsPrepared _ (with_main_label s) ws param t
      (record {
        output = c.output;
        loops = c.loops;
        labels = c.labels;
        flag = c.flag;
        plan = c.plan;
      })
      line (empty-eq s.loop_stack closed) (main_argument s s.op_arguments one)
      (find_main s ws c one) e₂
