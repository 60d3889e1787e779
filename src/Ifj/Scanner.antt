-- ===== src/Ifj/Scanner.antt =====
-- 2/IFJ/scanner.h, 2/IFJ/tokens.h, 2/IFJ/scanner.c: the scanner's state, its tokens, and the parts
-- that the scans of single tokens share. Characters are bytes, `none` stands for EOF, and the
-- input is what is left of the file. The classes of characters are those of the C locale. Lines
-- and columns are taken to fit an `int`.
use vut_projects.Base.{
  ℕ, zero, suc, ◌+◌, ◌-◌, Bool, true, false, not, ◌&&◌, ◌||◌, Option, none, some, [], ◌∷◌, ◌++◌,
  ltb, leb, ◌==◌, if◌then◌else◌, length, Text,
}
use vut_projects.Ifj.Run.{Run, ok, exit, crash, out_of_fuel, ◌>>=◌, err_lexical}
pub mod Scan
pub mod Next
pub mod Position
pub mod Safe
pub mod Lexemes
pub mod Escapes
pub mod Blanks
pub mod Progress
pub mod Words
pub mod Numbers
pub mod Strings

pub data TokenType : Type 0 where
  token_const token_var token_if token_else token_while token_return token_fn token_pub : TokenType
  token_void token_null token_i32 token_f64 token_u8 token_import : TokenType
  token_identifier token_int_literal token_float_literal token_string_literal : TokenType
  token_plus token_minus token_multiply token_divide token_assign token_equal : TokenType
  token_not_equal token_less token_greater token_less_equal token_greater_equal : TokenType
  token_left_paren token_right_paren token_left_brace token_right_brace token_comma : TokenType
  token_semicolon token_colon token_left_bracket token_right_bracket token_pipe : TokenType
  token_dot token_question token_eof token_unknown : TokenType

pub record Token : Type 0 where
  pub type : TokenType
  pub lexeme : Text
  pub line : ℕ
  pub column : ℕ

pub record Scanner : Type 0 where
  pub input : Text
  pub line : ℕ
  pub column : ℕ
  pub current_char : Option ℕ

abbrev pub max_lexeme_length : ℕ
max_lexeme_length = 256

abbrev pub fgetc : Text → Option ℕ × Text
fgetc [] = (none, [])
fgetc (c ∷ input) = (some c, input)

abbrev pub ungetc : Option ℕ → Text → Text
ungetc none input = input
ungetc (some c) input = c ∷ input

-- `scanner->current_char = fgetc(scanner->input)`
abbrev pub read : Scanner → Scanner
read s = record s { input = (fgetc s.input).1; current_char = (fgetc s.input).0 }

-- The same, then `scanner->column++`.
abbrev pub advance : Scanner → Scanner
advance s = record s {
  input = (fgetc s.input).1;
  column = s.column + 1;
  current_char = (fgetc s.input).0;
}

-- How many characters are not read, the current one included: fuel for each loop.
abbrev pub unread : Scanner → ℕ
unread s = length s.input + (elim s.current_char [ none ↦ 0 | some c ↦ 1 ])

abbrev pub isspace : ℕ → Bool
isspace c = (c == b' ') || (leb 9 c && leb c 13)

abbrev pub isdigit : ℕ → Bool
isdigit c = leb b'0' c && leb c b'9'

abbrev pub isalpha : ℕ → Bool
isalpha c = (leb b'a' c && leb c b'z') || (leb b'A' c && leb c b'Z')

abbrev pub isalnum : ℕ → Bool
isalnum c = isalpha c || isdigit c

abbrev pub isxdigit : ℕ → Bool
isxdigit c = isdigit c || ((leb b'a' c && leb c b'f') || (leb b'A' c && leb c b'F'))

-- A class of characters, or a single one, at the current character.
abbrev pub current_is : (ℕ → Bool) → Scanner → Bool
current_is p s = elim s.current_char [ none ↦ false | some c ↦ p c ]

abbrev pub check_buffer_length : ℕ → Run (Unit {0})
check_buffer_length index = if leb (max_lexeme_length - 1) index then exit err_lexical else ok tt

-- `buffer[(*index)++] = c`: the buffer is what is written, and the index its length. A write
-- behind the array is a crash.
abbrev pub put : Text → ℕ → Run Text
put buffer c = if ltb (length buffer) max_lexeme_length then ok (buffer ++ c ∷ []) else crash

-- The string that a `char *` to these bytes is.
abbrev pub c_string : Text → Text
c_string [] = []
c_string (c ∷ text) = if c == 0 then [] else c ∷ c_string text

-- `buffer[index] = '\0'`, and the string in the buffer.
abbrev pub terminate : Text → Run Text
terminate buffer = if ltb (length buffer) max_lexeme_length then ok (c_string buffer) else crash

-- The inner loop of `skip_whitespace_and_comments` over whitespace.
unfoldable pub spaces_loop : (fuel : ℕ) → Scanner → Run Scanner
spaces_loop zero s = out_of_fuel
spaces_loop (suc fuel) s = elim s.current_char [
  | none ↦ ok s
  | some c ↦
      let next =
        if c == b'\n'
        then read (record s { line = s.line + 1; column = 0 })
        else read (record s { column = s.column + 1 }) in
      let rest = spaces_loop fuel next in if isspace c then rest else ok s
]

-- The one to the end of a comment.
unfoldable pub comment_loop : (fuel : ℕ) → Scanner → Run Scanner
comment_loop zero s = out_of_fuel
comment_loop (suc fuel) s = elim s.current_char [
  | none ↦ ok s
  | some c ↦ let rest = comment_loop fuel (advance s) in if c == b'\n' then ok s else rest
]

-- The test for a comment, which is skipped: the flag `skipping`, and the scanner behind it.
unfoldable pub skip_comment : Scanner → Run (Bool × Scanner)
unfolding comment_loop
skip_comment s =
    let (next_char, input) = fgetc s.input in
    let is_comment : Bool = elim next_char [ none ↦ false | some c ↦ c == b'/' ] in
    if not (current_is (λ c. c == b'/') s)
    then ok (false, s)
    else if not is_comment
    then ok (false, record s { input = ungetc next_char input })
    else (comment_loop (suc (unread s)) (record s { input = input }) >>= λ s'. ok (true, s'))

unfoldable pub skip_loop : (fuel : ℕ) → Scanner → Run Scanner
unfolding spaces_loop skip_comment
skip_loop zero s = out_of_fuel
skip_loop (suc fuel) s = do
  s1 ← spaces_loop (suc (unread s)) s
  (skipping, s2) ← skip_comment s1
  let rest = skip_loop fuel s2
  if skipping then rest else ok s2

unfoldable pub skip_whitespace_and_comments : Scanner → Run Scanner
unfolding skip_loop
skip_whitespace_and_comments s = skip_loop (suc (unread s)) s

unfoldable pub scanner_init : Text → Scanner
scanner_init file = record {
  input = (fgetc file).1;
  line = 1;
  column = 1;
  current_char = (fgetc file).0;
}
