-- ===== src/Compiler/Plan/Steps.antt =====
-- Every step of the compiler keeps the invariant, up to the whole file.
use mu2e_pcie_utils.Compiler.Plan.Keep.{parameter_of-IsPrepared}
use mu2e_pcie_utils.Compiler.Plan.Emit.{emit-flag, emit-output, emit-SameRest, emitted, written}
use mu2e_pcie_utils.Compiler.Plan.{Instr, Word, encode, has_end, IsPlan, open_loops, label_lines}
use mu2e_pcie_utils.Prelude.{
  ℕ, zero, suc, ◌+◌, ◌/◌, ◌≡◌, refl, sym, ap, ◌∙◌, Bool, true, false, ◌||◌, List, [], Text, length,
  if◌then◌else◌, ok, arith, Bool-cases, inl, inr, >>=-eq-ok, require-eq-ok, ok-injective, if-cases,
  Option-cases, some, is_empty,
}
use mathlib.Core.Path.{subst}
use mu2e_pcie_utils.Compiler.Instr.{Instr, label, parse_instruction}
use mu2e_pcie_utils.Compiler.Params.{calculate_parameter}
use mu2e_pcie_utils.Compiler.Source.{read_line, is_comment}
use mu2e_pcie_utils.Compiler.File.{
  Row, process_line, process_lines, process_file, reset, list_rows, argument_delimiters, line_ends,
  process_arguments, process_text,
}
use mu2e_pcie_utils.Compiler.Error.{output_not_open}
use mu2e_pcie_utils.Compiler.Scan.{get_vector_from_string}
use mu2e_pcie_utils.Compiler.State.{argument, State}
use mu2e_pcie_utils.Compiler.Plan.Invariant.{IsConsistent, IsPrepared}
use mu2e_pcie_utils.Compiler.Float.{Floating}
use mu2e_pcie_utils.Compiler.Op.{emit, is_set, ends_plan, process_op}
use mu2e_pcie_utils.Compiler.Plan.Encode.{length-encode}

written-ends : (instr : Instr) → ends_plan (written instr) ≡ ends_plan instr
written-ends label = refl
written-ends _ = refl

has_end-emitted :
    (instr : Instr) (param mask : ℕ) (ws : List Word)
    → has_end (emitted instr param mask ws)
      ≡ (if is_set instr then has_end ws else ends_plan instr || has_end ws)
unfolding emitted has_end
has_end-emitted instr param mask ws = elim (Bool-cases (is_set instr)) [
  | inl yes_set ↦ rw yes_set
  | inr no_set ↦ rw (no_set, written-ends instr)
]

emit-IsConsistent :
    (instr : Instr) (param : ℕ) (s : State) (ws : List Word)
    → IsPrepared s ws (emitted instr param s.mode_clear_mask ws)
    → IsConsistent (emit instr param s) (emitted instr param s.mode_clear_mask ws)
emit-IsConsistent instr param s ws p =
    let rest = emit-SameRest instr param s in
    record {
      output = emit-output instr param s ws p.output;
      loops = rest.loop_stack ∙ p.loops;
      labels = rest.label_map ∙ p.labels;
      flag =
          emit-flag instr param s
          ∙ ap (λ b. if is_set instr then b else ends_plan instr || b) p.flag
          ∙ sym (has_end-emitted instr param s.mode_clear_mask ws);
      plan = p.plan;
    }

at_line :
    (s : State) (ws : List Word) → IsConsistent s ws → 1 + length s.output / 8 ≡ suc (length ws)
at_line s ws c = omega (arith, ap length c.output, length-encode ws)

abbrev pub Compiled : State → Type 0
Compiled s = (ws : List Word) × IsConsistent s ws

-- The invariant reads four fields.
moved_on :
    (s t : State)
    → Compiled s
    → t.output ≡ s.output
    → t.loop_stack ≡ s.loop_stack
    → t.label_map ≡ s.label_map
    → t.has_required_plan_end_op ≡ s.has_required_plan_end_op
    → Compiled t
moved_on s t (ws, c) o l m h = (
  ws,
  record {
    output = o ∙ c.output;
    loops = l ∙ c.loops;
    labels = m ∙ c.labels;
    flag = h ∙ c.flag;
    plan = c.plan;
  },
)

module _ (f : Floating) where
  process_op-Compiled : (s t : State) → process_op f s ≡ ok t → Compiled s → Compiled t
  unfolding process_op calculate_parameter
  process_op-Compiled s t e (ws, c) =
      let checked = require-eq-ok _ _ _ e in
      let step = >>=-eq-ok _ _ checked.1 in
      let instr = parse_instruction (argument s 0) in
      let s₁ = record s { bin_line_number = 1 + length s.output / 8; mode_clear_mask = 0 } in
      let c₁ : IsConsistent s₁ ws = record {
        output = c.output;
        loops = c.loops;
        labels = c.labels;
        flag = c.flag;
        plan = c.plan;
      } in
      let p = parameter_of-IsPrepared f instr s₁ ws step.0.0 step.0.1 (at_line s ws c) c₁ step.1 in
      subst Compiled (ok-injective step.2) (
        emitted instr step.0.0 step.0.1.mode_clear_mask ws,
        emit-IsConsistent instr step.0.0 step.0.1 ws p,
      )

  process_arguments-Compiled :
      (s t : State) → process_arguments f s ≡ ok t → Compiled s → Compiled t
  unfolding process_arguments
  process_arguments-Compiled s t e h =
      elim (if-cases (is_empty s.op_arguments) (ok s) (process_op f s) e) [
        | inl empty ↦ subst Compiled (ok-injective empty.1) h
        | inr full ↦ process_op-Compiled s t full.1 h
      ]

  process_text-Compiled :
      (line : Text) (s t : State) → process_text f line s ≡ ok t → Compiled s → Compiled t
  unfolding process_text
  process_text-Compiled line s t e h =
      let split = >>=-eq-ok (get_vector_from_string line argument_delimiters line_ends false) _ e in
      process_arguments-Compiled _ t split.2 (moved_on s _ h refl refl refl refl)

  process_line-Compiled :
      (line : Text) (s t : State) → process_line f line s ≡ ok t → Compiled s → Compiled t
  unfolding process_line
  process_line-Compiled line s t e h =
      let moved = record s { txt_line_number = s.txt_line_number + 1 } in
      let h' : Compiled moved = moved_on s moved h refl refl refl refl in
      let read = >>=-eq-ok (is_comment (s.txt_line_number + 1) line) _ e in
      elim (if-cases read.0 (ok moved) (process_text f line moved) read.2) [
        | inl skipped ↦ subst Compiled (ok-injective skipped.1) h'
        | inr kept ↦ process_text-Compiled line moved t kept.1 h'
      ]

  process_lines-Compiled :
      (fuel : ℕ) (file : Text) (s t : State)
      → process_lines f fuel file s ≡ ok t
      → Compiled s
      → Compiled t
  unfolding process_lines
  process_lines-Compiled zero file s t e h = subst Compiled (ok-injective e) h
  process_lines-Compiled (suc fuel) file s t e h = elim (Option-cases (read_line file)) [
    | inl ended ↦ subst Compiled (ok-injective (rw (ended, process_lines) at e)) h
    | inr (next, e₁) ↦
        let step = >>=-eq-ok _ _ (rw (e₁, process_lines) at e) in
        process_lines-Compiled fuel next.1 step.0 t step.2
          (process_line-Compiled next.0 s step.0 step.1 h)
  ]

  -- A run plan that compiles yields the bytes of a sequence of words that is a plan: each DO_LOOP goes
  -- back by the distance to the innermost LOOP that is open before it, each GOTO names the line of the
  -- one label before it, the label, GOTO, END and REPEAT stand where no loop is open, there is one
  -- label at most, no other operation than those of the binary occurs; and some word is an END, a
  -- REPEAT or a GOTO.
  pub process_file-IsPlan :
      (file : Text) (opens : Bool) (s t : State) {rows : List Row}
      → process_file f (some file) opens s ≡ ok (rows, t)
      → (ws : List Word) × (t.output ≡ encode ws) × IsPlan ws × (has_end ws ≡ true)
  unfolding process_file encode open_loops label_lines has_end IsPlan
  process_file-IsPlan file opens s t e =
      let run = >>=-eq-ok (process_lines f (suc (length file)) file (reset s)) _ e in
      let ended = require-eq-ok _ _ _ run.2 in
      let opened = require-eq-ok opens output_not_open _ ended.1 in
      let listed = >>=-eq-ok (list_rows 0 0 [] run.0.output) _ opened.1 in
      let same : run.0 ≡ t = ap (λ r. r.1) (ok-injective listed.2) in
      let start : Compiled (reset s) =
        ([], record { output = refl; loops = refl; labels = refl; flag = refl; plan = tt }) in
      let c = process_lines-Compiled (suc (length file)) file (reset s) run.0 run.1 start in
      (c.0, ap (λ u. u.output) (sym same) ∙ c.1.output, c.1.plan, sym c.1.flag ∙ ended.0)
