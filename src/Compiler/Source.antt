-- ===== src/Compiler/Source.antt =====
-- How `CFO_Compiler::processFile` reads the text of a run plan, one line at a time through a buffer
-- of 100 characters, and what it drops: `isComment` and the loop that cleans the arguments
-- (cfoInterfaceLib/CFO_Compiler.cpp).
use mu2e_pcie_utils.Prelude.{
  ℕ, zero, suc, ◌-◌, Bool, true, false, not, ◌&&◌, List, [], ◌∷◌, ◌++◌, Text, leb, ◌==◌, one_of,
  length, get_or, is_empty, if◌then◌else◌, Option, none, some, Outcome, ok, err,
}
use mu2e_pcie_utils.Compiler.Error.{Error, single_slash}

abbrev pub newline : ℕ
newline = 10

-- `fgets(buffer, n + 1, fp)`: at most `n` characters, up to a newline, that one included.
unfoldable pub fgets_chars : ℕ → Text → Text × Text
fgets_chars zero file = ([], file)
fgets_chars (suc n) [] = ([], [])
fgets_chars (suc n) (c ∷ file) =
    let (chunk, rest) = fgets_chars n file in
    if c == newline then (c ∷ [], file) else (c ∷ chunk, rest)

-- `none` at the end of the file.
unfoldable pub fgets : ℕ → Text → Option (Text × Text)
unfolding fgets_chars
fgets n [] = none
fgets n (c ∷ file) = some (fgets_chars n (c ∷ file))

-- The string that a buffer holds, up to the first zero.
unfoldable pub c_string : Text → Text
c_string [] = []
c_string (c ∷ cs) = let rest = c_string cs in if c == 0 then [] else c ∷ rest

-- `strlen(s) && s[strlen(s) - 1] != '\n'`.
abbrev pub is_cut : Text → Bool
is_cut s = not (is_empty s) && not (get_or s (length s - 1) 0 == newline)

abbrev pub buffer_chars : ℕ
buffer_chars = 99

-- The inner loop: `line` so far, what the buffer holds, and the rest of the file. The fuel bounds
-- the number of reads; each takes a character at least.
unfoldable pub read_more : ℕ → Text → Text → Text → Text × Text
unfolding fgets c_string
read_more zero line held file = (line, file)
read_more (suc fuel) line held file = elim (is_cut held) [
  | false ↦ (line, file)
  | true ↦ elim (fgets buffer_chars file) [
    | none ↦ (line, file)
    | some (chunk, rest) ↦ read_more fuel (line ++ c_string chunk) (c_string chunk) rest
  ]
]

-- The next line and the rest of the file.
unfoldable pub read_line : Text → Option (Text × Text)
unfolding read_more
read_line file = elim (fgets buffer_chars file) [
  | none ↦ none
  | some (chunk, rest) ↦ some (read_more (suc (length file)) (c_string chunk) (c_string chunk) rest)
]

-- The conditions of the loop in `isComment` at `line[i]`, with the characters from there on. The
-- loop stops before the last character.
unfoldable pub comment_loop : ℕ → Text → Outcome Error Bool
comment_loop n [] = ok true
comment_loop n (c ∷ []) = ok true
comment_loop n (c ∷ d ∷ rest) =
    let go_on = comment_loop n (d ∷ rest) in
    if one_of (32 ∷ 9 ∷ 13 ∷ 10 ∷ []) c
    then go_on
    else if not (c == b'/')
    then ok false
    else if not (d == b'/')
    then err (single_slash n)
    else ok true

-- `n` is txtLineNumber_. On the empty string `length() - 1` wraps around, and `line[0]` is zero.
unfoldable pub is_comment : ℕ → Text → Outcome Error Bool
unfolding comment_loop
is_comment n [] = ok false
is_comment n (c ∷ cs) = comment_loop n (c ∷ cs)

-- The loop over `opArguments_` that drops empty ones, and all from a comment on.
unfoldable pub clean_arguments : List Text → List Text
clean_arguments [] = []
clean_arguments (a ∷ rest) =
    let cleaned = clean_arguments rest in
    if is_empty a
    then cleaned
    else if leb 2 (length a) && get_or a 0 0 == b'/' && get_or a 1 0 == b'/'
    then []
    else a ∷ cleaned
