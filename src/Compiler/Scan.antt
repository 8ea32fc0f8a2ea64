-- ===== src/Compiler/Scan.antt =====
-- `getVectorFromString` of cfoInterfaceLib/CFO_Compiler.cpp: the scan over the characters with the
-- indices `i`, `j` and `c` of the source.
use mu2e_pcie_utils.Prelude.{
  ℕ, ◌+◌, ◌-◌, Bool, not, ◌&&◌, ◌||◌, List, [], ◌∷◌, ◌++◌, Text, one_of, ◌==◌, length, take, drop,
  is_empty, if◌then◌else◌, Outcome, ok, ◌>>◌, require,
}
use mu2e_pcie_utils.Compiler.Error.{Error, delimiter_mismatch}

pub record Scan : Type 0 where
  pub i : ℕ
  pub j : ℕ
  pub c : ℕ
  pub last_delimiter : ℕ
  pub elements : List Text
  pub delimiters : List ℕ

abbrev pub scan_start : Scan
scan_start = record { i = 0; j = 0; c = 0; last_delimiter = 0; elements = []; delimiters = [] }

-- `s.substr(i, n)` for `i <= s.size()`.
abbrev pub substr : Text → ℕ → ℕ → Text
substr s i n = take n (drop i s)

-- `wanted` is whether the caller passes a list for the delimiters.
module _ (input : Text) (delimiter whitespace : List ℕ) (wanted : Bool) where
  unfoldable pub push_element : Scan → Scan
  push_element s = record s {
    elements = s.elements ++ (substr input s.i (s.j - s.i) ∷ []);
    delimiters =
        if wanted && not (is_empty s.elements)
        then s.delimiters ++ (s.last_delimiter ∷ [])
        else s.delimiters;
  }

  unfoldable pub scan_char : ℕ → Scan → Scan
  unfolding push_element
  scan_char ch s =
      let is_delimiter = one_of delimiter ch in
      let is_blank = one_of whitespace ch in
      let moved =
        if is_blank && s.i == s.j
        then record s { i = s.i + 1; j = s.j + 1 }
        else if is_blank && not (s.i == s.j)
        then s
        else if is_delimiter
        then record (push_element s) { i = s.c + 1; j = s.c + 1 }
        else record s { j = s.c + 1 } in
      record moved { c = s.c + 1; last_delimiter = if is_delimiter then ch else s.last_delimiter }

  unfoldable pub scan : Text → Scan → Scan
  scan [] s = s
  scan (ch ∷ rest) s = scan rest (scan_char ch s)

  unfoldable pub get_vector_from_string : Outcome Error (List Text × List ℕ)
  unfolding push_element scan_char scan
  get_vector_from_string =
      let s = push_element (scan input scan_start) in
      let size = length s.elements in
      let ops = length s.delimiters in
      require (not wanted || size - 1 == ops || size == ops) delimiter_mismatch
      >> ok (s.elements, s.delimiters)
