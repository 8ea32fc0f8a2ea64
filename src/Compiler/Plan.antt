-- ===== src/Compiler/Plan.antt =====
-- What the compiler's binary means, told without the compiler: a plan is a sequence of words, each an
-- operation with a 48-bit parameter, and the words that jump must point at the words that they are
-- meant for. The last word stands first.
pub mod Encode
pub mod Emit
pub mod Same
pub mod Invariant
pub mod Loops
pub mod Labels
pub mod Keep
pub mod Steps
use mu2e_pcie_utils.Prelude.{
  ℕ, suc, ◌+◌, ◌-◌, ◌%◌, ◌^◌, ◌≤◌, ◌≡◌, Bool, true, false, ◌||◌, List, [], ◌∷◌, ◌++◌, length,
}
use mu2e_pcie_utils.Compiler.Instr.{
  Instr, noop, heartbeat, marker, data_request, set_tag, inc_tag, wait, loop, do_loop, repeat, end,
  goto, label, clear_mode_bits, set_mode_bits, and_mode_bits, or_mode_bits, set_mode, invalid, code,
}
use mu2e_pcie_utils.Compiler.Op.{bytes_of, ends_plan}

pub record Word : Type 0 where
  pub op : Instr
  pub param : ℕ

-- Six bytes of the parameter, a zero byte and the operation code.
unfoldable pub encode_word : Word → List ℕ
encode_word w = bytes_of 6 w.param ++ (0 ∷ code w.op ∷ [])

unfoldable pub encode : List Word → List ℕ
encode [] = []
encode (w ∷ ws) = encode ws ++ encode_word w

abbrev pub rest_of : List ℕ → List ℕ
rest_of [] = []
rest_of (l ∷ ls) = ls

-- The lines (from 1) of the LOOP words that are still open, the innermost first.
abbrev pub opened : Instr → ℕ → List ℕ → List ℕ
opened loop line ls = line ∷ ls
opened do_loop line ls = rest_of ls
opened _ line ls = ls

unfoldable pub open_loops : List Word → List ℕ
open_loops [] = []
open_loops (w ∷ ws) = opened w.op (suc (length ws)) (open_loops ws)

-- The lines of the labels: a label is a NOOP word.
abbrev pub labelled : Instr → ℕ → List ℕ → List ℕ
labelled noop line ls = line ∷ ls
labelled _ line ls = ls

unfoldable pub label_lines : List Word → List ℕ
label_lines [] = []
label_lines (w ∷ ws) = labelled w.op (suc (length ws)) (label_lines ws)

unfoldable pub has_end : List Word → Bool
has_end [] = false
has_end (w ∷ ws) = ends_plan w.op || has_end ws

-- Whether a word may follow the words `ws`: DO_LOOP goes back to the innermost open LOOP, GOTO to the
-- label, END, REPEAT, GOTO and the label stand outside loops, and there is one label.
abbrev pub Placed : Instr → ℕ → List Word → Type 0
Placed do_loop param ws =
    (l : ℕ) × (ls : List ℕ) × (open_loops ws ≡ l ∷ ls) × (param ≡ (suc (length ws) - l) % 2 ^ 48)
Placed repeat param ws = (open_loops ws ≡ []) × (param ≡ 0)
Placed end param ws = (open_loops ws ≡ []) × (param ≡ 0)
Placed goto param ws =
    (open_loops ws ≡ []) × ((l : ℕ) × (label_lines ws ≡ l ∷ []) × (param ≡ l % 2 ^ 48))
Placed noop param ws = (open_loops ws ≡ []) × (label_lines ws ≡ []) × (param ≡ 1)
Placed label param ws = ⊥
Placed clear_mode_bits param ws = ⊥
Placed set_mode_bits param ws = ⊥
Placed set_mode param ws = ⊥
Placed invalid param ws = ⊥
Placed _ param ws = Unit

unfoldable pub IsPlan : List Word → Type 0
IsPlan [] = Unit
IsPlan (w ∷ ws) = Placed w.op w.param ws × IsPlan ws
