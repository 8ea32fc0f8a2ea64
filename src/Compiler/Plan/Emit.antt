-- ===== src/Compiler/Plan/Emit.antt =====
-- The words that `emit` appends, and what else it changes.
use mu2e_pcie_utils.Prelude.{
  ℕ, ◌≡◌, refl, ◌||◌, List, ◌∷◌, if◌then◌else◌, arith, Bool-cases, inl, inr,
}
use mu2e_pcie_utils.Compiler.Instr.{Instr, and_mode_bits, or_mode_bits}
use mu2e_pcie_utils.Compiler.State.{State}
use mu2e_pcie_utils.Compiler.Op.{out_word, out_parameter, emit, is_set, ends_plan, binary_op}
use mu2e_pcie_utils.Compiler.Plan.{Word, encode}
use mu2e_pcie_utils.Compiler.Plan.Encode.{word_of, out_word-output}

-- The operation that stands in the binary for an instruction that is no SET.
abbrev pub written : Instr → Instr
written instr = if ends_plan instr then instr else binary_op instr

-- One word, or two for the operations that set bits, behind the words `ws`.
unfoldable pub emitted : Instr → ℕ → ℕ → List Word → List Word
emitted instr param mask ws =
    if is_set instr
    then word_of or_mode_bits param ∷ word_of and_mode_bits mask ∷ ws
    else word_of (written instr) param ∷ ws

-- What stays: all fields but the output and the flag.
pub record SameRest (s t : State) : Type 0 where
  pub loop_stack : t.loop_stack ≡ s.loop_stack
  pub label_map : t.label_map ≡ s.label_map

pub emit-SameRest : (instr : Instr) (param : ℕ) (s : State) → SameRest s (emit instr param s)
unfolding emit out_word out_parameter
emit-SameRest instr param s = elim (Bool-cases (is_set instr)) [
  | inl yes_set ↦ rw yes_set (record { loop_stack = refl; label_map = refl })
  | inr no_set ↦ rw no_set (record { loop_stack = refl; label_map = refl })
]

pub emit-flag :
    (instr : Instr) (param : ℕ) (s : State)
    → (emit instr param s).has_required_plan_end_op ≡ (
        if is_set instr
        then s.has_required_plan_end_op
        else ends_plan instr || s.has_required_plan_end_op)
unfolding emit out_word out_parameter
emit-flag instr param s = ground arith

pub emit-output :
    (instr : Instr) (param : ℕ) (s : State) (ws : List Word)
    → s.output ≡ encode ws
    → (emit instr param s).output ≡ encode (emitted instr param s.mode_clear_mask ws)
unfolding emit encode emitted
emit-output instr param s ws e = elim (Bool-cases (is_set instr)) [
  | inl yes_set ↦ rw (yes_set, out_word-output, out_word-output, e)
  | inr no_set ↦ rw (no_set, out_word-output, e)
]
