-- ===== src/Compiler/Plan/Encode.antt =====
-- The bytes of the words: `out_word` writes one word, and the length counts them.
use mathlib.Core.List.{append_assoc}
use mu2e_pcie_utils.Prelude.{
  ℕ, ◌*◌, ◌%◌, ◌^◌, ◌≡◌, refl, List, [], ◌∷◌, ◌++◌, length, length-append, arith,
}
use mu2e_pcie_utils.Bits.{bit_and_mask}
use mu2e_pcie_utils.Compiler.Instr.{Instr}
use mu2e_pcie_utils.Compiler.State.{State}
use mu2e_pcie_utils.Compiler.Op.{bytes_of, out_parameter, out_word}
use mu2e_pcie_utils.Compiler.Plan.{Word, encode_word, encode}

abbrev pub word_of : Instr → ℕ → Word
word_of op param = record { op = op; param = param % 2 ^ 48 }

pub out_word-output :
    (param : ℕ) (op : Instr) (s : State)
    → (out_word param op s).output ≡ s.output ++ encode_word (word_of op param)
unfolding out_word out_parameter encode_word
out_word-output param op s = rw (bit_and_mask 48 param) (simp append_assoc)

length-encode_word : (w : Word) → length (encode_word w) ≡ 8
unfolding encode_word bytes_of
length-encode_word w = refl

pub length-encode : (ws : List Word) → length (encode ws) ≡ length ws * 8
unfolding encode
length-encode [] = refl
length-encode (w ∷ ws) =
    omega (arith, length-append (encode ws) (encode_word w), length-encode_word w, length-encode ws)
