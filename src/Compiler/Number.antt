-- ===== src/Compiler/Number.antt =====
-- `getNumber<T>` of cfoInterfaceLib/CFO_Compiler.cpp for the unsigned integer types, `w` bits wide.
-- `none` is the return value false.
use Prim.Native.Nat.{min}
use mu2e_pcie_utils.Prelude.{
  ℕ, ◌+◌, ◌-◌, ◌*◌, ◌/◌, ◌%◌, ◌^◌, Bool, true, ◌&&◌, ◌||◌, List, [], ◌∷◌, Text, ltb, leb, ◌==◌,
  length, drop, get_or, get_elem?, is_empty, if◌then◌else◌, Option, none, some, Outcome, ok, err,
  ◌>>=◌,
}
use mu2e_pcie_utils.Compiler.Error.{Error, unrecognized_operation, out_of_range, zero_divisor}
use mu2e_pcie_utils.Compiler.Scan.{get_vector_from_string}

abbrev pub operators : List ℕ
operators = b'+' ∷ b'-' ∷ b'*' ∷ b'/' ∷ b'~' ∷ []

abbrev pub blanks : List ℕ
blanks = 32 ∷ 9 ∷ 10 ∷ 13 ∷ []

abbrev pub within : ℕ → ℕ → ℕ → Bool
within lo hi c = leb lo c && leb c hi

abbrev pub is_digit : ℕ → Bool
is_digit c = within b'0' b'9' c

abbrev pub is_hex : ℕ → Bool
is_hex c = is_digit c || within b'A' b'F' c || within b'a' b'f' c

abbrev pub is_bit : ℕ → Bool
is_bit c = within b'0' b'1' c

abbrev pub is_decimal : ℕ → Bool
is_decimal c = is_digit c || c == b'.' || c == b'+' || c == b'-'

-- The loops that return false at the first character that does not fit.
unfoldable pub every : (ℕ → Bool) → Text → Bool
every p [] = true
every p (c ∷ cs) = p c && every p cs

-- `number.find("0x") == 0`.
abbrev pub has_hex_prefix : Text → Bool
has_hex_prefix s = leb 2 (length s) && get_or s 0 0 == b'0' && get_or s 1 0 == b'x'

unfoldable pub looks_like_number : Text → Bool
unfolding every
looks_like_number s =
    if has_hex_prefix s
    then every is_hex (drop 2 s)
    else if get_or s 0 0 == b'b'
    then every is_bit (drop 1 s)
    else every is_decimal s

-- The value of a character in `strtol`; 36 is no digit in any base.
abbrev pub digit_value : ℕ → ℕ
digit_value c =
    if is_digit c
    then c - b'0'
    else if within b'A' b'Z' c
    then c - b'A' + 10
    else if within b'a' b'z' c
    then c - b'a' + 10
    else 36

-- The longest prefix of digits.
unfoldable pub digits_value : ℕ → ℕ → Text → ℕ
digits_value base acc [] = acc
digits_value base acc (c ∷ cs) =
    if ltb (digit_value c) base then digits_value base (acc * base + digit_value c) cs else acc

-- `strtol` for text with no blank and no sign in front, as all text is that `looks_like_number` lets
-- through: a number above LONG_MAX gives LONG_MAX.
unfoldable pub strtol : Text → ℕ → ℕ
unfolding digits_value
strtol s base =
    min (2 ^ 63 - 1) (digits_value base 0 (if base == 16 && has_hex_prefix s then drop 2 s else s))

unfoldable pub number_value : ℕ → Text → ℕ
unfolding strtol
number_value w s =
    (if ltb 2 (length s) && get_or s 1 0 == b'x'
      then strtol s 16
      else if ltb 1 (length s) && get_or s 0 0 == b'b'
      then strtol (drop 1 s) 2
      else strtol s 10)
    % 2 ^ w

pub record Calc : Type 0 where
  pub ret_value : ℕ
  pub i : ℕ
  pub opsi : ℕ
  pub blank_count : ℕ

-- `ops[opsi]`.
abbrev pub op_at : List ℕ → ℕ → Outcome Error ℕ
op_at ops k = elim (get_elem? ops k) [ none ↦ err out_of_range | some op ↦ ok op ]

-- A leading operator.
unfoldable pub apply_leading : ℕ → ℕ → ℕ → ℕ
apply_leading w op x =
    if op == b'-' then (2 ^ w - x) % 2 ^ w else if op == b'~' then 2 ^ w - 1 - x else x

-- The switch on the operator between two numbers.
unfoldable pub apply_op : ℕ → ℕ → ℕ → ℕ → Outcome Error ℕ
apply_op w op x y =
    if op == b'+'
    then ok ((x + y) % 2 ^ w)
    else if op == b'-'
    then ok ((x + 2 ^ w - y) % 2 ^ w)
    else if op == b'*'
    then ok (x * y % 2 ^ w)
    else if op == b'/'
    then (if y == 0 then err zero_divisor else ok (x / y % 2 ^ w))
    else err unrecognized_operation

-- `w` is the width, `count` is numbers.size().
module _ (w count : ℕ) (ops : List ℕ) where
  unfoldable pub apply_number : ℕ → Calc → Outcome Error Calc
  unfolding apply_leading apply_op
  apply_number tmp_value st =
      if st.i == 0
      then (if length ops == count - st.blank_count
          then (do
            op ← op_at ops st.opsi
            ok (record st { ret_value = apply_leading w op tmp_value; i = 1; opsi = st.opsi + 1 }))
          else ok (record st { ret_value = tmp_value; i = 1 }))
      else (do
        op ← op_at ops st.opsi
        r ← apply_op w op st.ret_value tmp_value
        ok (record st { ret_value = r; i = st.i + 1; opsi = st.opsi + 1 }))

  unfoldable pub number_step : Text → Calc → Outcome Error (Option Calc)
  unfolding apply_number looks_like_number number_value
  number_step number st =
      if is_empty number
      then ok (some (record st { blank_count = st.blank_count + 1 }))
      else if looks_like_number number
      then (apply_number (number_value w number) st >>= λ st'. ok (some st'))
      else ok none

  unfoldable pub number_loop : List Text → Calc → Outcome Error (Option ℕ)
  unfolding number_step
  number_loop [] st = ok (some st.ret_value)
  number_loop (number ∷ numbers) st =
      number_step number st >>= λ r. elim r [ none ↦ ok none | some st' ↦ number_loop numbers st' ]

abbrev pub calc_start : Calc
calc_start = record { ret_value = 0; i = 0; opsi = 0; blank_count = 0 }

unfoldable pub get_number : ℕ → Text → Outcome Error (Option ℕ)
unfolding get_vector_from_string number_loop
get_number w s = do
  (numbers, ops) ← get_vector_from_string s operators blanks true
  number_loop w (length numbers) ops numbers calc_start
