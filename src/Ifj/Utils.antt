-- ===== src/Ifj/Utils.antt =====
-- 2/IFJ/utils.c: the functions on strings. A `char *` that may be NULL is an `Option`.
use vut_projects.Base.{
  ℕ, zero, suc, ◌+◌, ◌/◌, ◌%◌, Bool, false, ◌||◌, ◌==◌, Option, none, some, [], ◌∷◌, ◌++◌, ltb,
  if◌then◌else◌, Text, codes,
}

unfoldable pub string_duplicate : Option Text → Option Text
string_duplicate none = none
string_duplicate (some src) = some src

-- `strchr(str, c) != NULL` for a character that is not zero.
abbrev pub has_char : ℕ → Text → Bool
has_char c [] = false
has_char c (d ∷ text) = (c == d) || has_char c text

unfoldable pub add_decimal : Option Text → Option Text
add_decimal none = none
add_decimal (some str) = if has_char b'.' str then some str else some (str ++ codes ".0")

-- `%d` for a number that is not negative: a number has no more digits than its value plus one.
unfoldable pub digits : (fuel : ℕ) → ℕ → Text
digits zero n = []
digits (suc fuel) n =
    let front = digits fuel (n / 10) in
    if ltb n 10 then (b'0' + n) ∷ [] else front ++ (b'0' + n % 10) ∷ []

unfoldable pub decimal : ℕ → Text
unfolding digits
decimal n = digits (suc n) n

-- `"%s.%d.%s"`; the buffer has 20 characters more than the two strings, which is enough.
unfoldable pub construct_variable_name :
    (scope_id : ℕ) → (variable_name function_name : Text) → Text
unfolding decimal
construct_variable_name scope_id variable_name function_name =
    variable_name ++ b'.' ∷ (decimal scope_id ++ b'.' ∷ function_name)

unfoldable pub construct_builtin_name : Text → Text → Text
construct_builtin_name str1 str2 = str1 ++ codes "." ++ str2
