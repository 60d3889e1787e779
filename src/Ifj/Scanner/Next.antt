-- ===== src/Ifj/Scanner/Next.antt =====
-- 2/IFJ/scanner.c: the scans of strings and operators, and the choice between the scans.
use vut_projects.Base.{
  ℕ, zero, suc, ◌+◌, ◌-◌, ◌*◌, Bool, false, not, ◌||◌, none, some, [], ◌∷◌, ltb, leb, ◌==◌,
  if◌then◌else◌, length, Text, codes,
}
use vut_projects.Ifj.Run.{Run, ok, exit, crash, out_of_fuel, ◌>>=◌, ◌>>◌, err_lexical}
use vut_projects.Ifj.Scanner.{
  TokenType, Token, Scanner, fgetc, ungetc, advance, unread, isdigit, isalpha, isxdigit, current_is,
  check_buffer_length, put, c_string, terminate, skip_whitespace_and_comments, token_string_literal,
  token_plus, token_minus, token_multiply, token_divide, token_assign, token_equal, token_not_equal,
  token_less, token_greater, token_less_equal, token_greater_equal, token_left_paren,
  token_right_paren, token_left_brace, token_right_brace, token_comma, token_semicolon, token_colon,
  token_pipe, token_dot, token_question, token_eof,
}
use vut_projects.Ifj.Scanner.Scan.{scan_identifier_or_keyword, scan_number_literal}

-- The value of a digit that `isxdigit` accepts.
abbrev pub hex_digit : ℕ → ℕ
hex_digit c = if isdigit c then c - b'0' else if leb c b'F' then c - b'A' + 10 else c - b'a' + 10

abbrev pub invalid_escape : Run (ℕ × Scanner)
invalid_escape = exit err_lexical

unfoldable pub read_hex_digit : Scanner → Run (ℕ × Scanner)
read_hex_digit s =
    let s1 = advance s in
    elim s1.current_char [
      | none ↦ invalid_escape
      | some c ↦ if not (isxdigit c) then invalid_escape else ok (hex_digit c, s1)
    ]

-- The byte that the sequence stands for.
unfoldable pub handle_escape_sequence : Scanner → Run (ℕ × Scanner)
unfolding read_hex_digit
handle_escape_sequence s =
    let s1 = advance s in
    elim s1.current_char [
      | none ↦ invalid_escape
      | some c ↦
          if c == b'n'
          then ok (b'\n', s1)
          else if c == b't'
          then ok (b'\t', s1)
          else if c == b'r'
          then ok (b'\r', s1)
          else if c == b'"'
          then ok (b'"', s1)
          else if c == b'\\'
          then ok (b'\\', s1)
          else if not (c == b'x')
          then invalid_escape
          else (read_hex_digit s1 >>= λ first.
              read_hex_digit first.1 >>= λ second. ok (first.0 * 16 + second.0, second.1))
    ]

-- One turn of the loop at the character `c`: the byte to write. The index is tested before.
unfoldable pub string_char : Scanner → (index : ℕ) (c : ℕ) → Run (ℕ × Scanner)
unfolding handle_escape_sequence
string_char s index c =
    if c == b'\\'
    then (check_buffer_length index >> handle_escape_sequence s)
    else if c == b'\n'
    then exit err_lexical
    else if ltb c 32 || (c == 35) || (c == 92)
    then exit err_lexical
    else (check_buffer_length index >> ok (c, s))

unfoldable pub string_loop : (fuel : ℕ) → Scanner → Text → Run (Text × Scanner)
unfolding string_char
string_loop zero s buffer = out_of_fuel
string_loop (suc fuel) s buffer = elim s.current_char [
  | none ↦ ok (buffer, s)
  | some c ↦
      if c == b'"'
      then ok (buffer, s)
      else (string_char s (length buffer) c >>= λ r.
          put buffer r.0 >>= λ buffer'. string_loop fuel (advance r.1) buffer')
]

unfoldable pub scan_string_literal : Scanner → Run (Token × Scanner)
unfolding string_loop
scan_string_literal s =
    let s1 = advance s in
    string_loop (suc (unread s1)) s1 [] >>= λ (buffer, s2).
    if not (current_is (λ c. c == b'"') s2)
    then exit err_lexical
    else let s3 = advance s2 in
      terminate buffer >>= λ text. ok (
        record {
          type = token_string_literal;
          lexeme = text;
          line = s3.line;
          column = s3.column - length text - 2;
        },
        s3,
      )

unfoldable pub create_simple_token : Scanner → TokenType → Run (Token × Scanner)
create_simple_token s type = elim s.current_char [
  | none ↦ crash
  | some c ↦ ok (
    record { type = type; lexeme = c_string (c ∷ []); line = s.line; column = s.column },
    advance s,
  )
]

-- The branches of `scan_operator_or_delimiter` for `=`, `<`, `>` and `!`, which read one character
-- ahead: the token if that is `=`, and the one if not.
unfoldable pub scan_two :
    Scanner → (both : Run (TokenType × Text)) (one : Run (TokenType × Text)) → Run (Token × Scanner)
scan_two s both one =
    let (next_char, input) = fgetc s.input in
    let is_both : Bool = elim next_char [ none ↦ false | some c ↦ c == b'=' ] in
    (if is_both then both else one) >>= λ (type, lexeme). ok (
      record { type = type; lexeme = lexeme; line = s.line; column = s.column },
      advance (record s {
        input = if is_both then input else ungetc next_char input;
        column = s.column + 1;
      }),
    )

unfoldable pub scan_operator_or_delimiter : Scanner → Run (Token × Scanner)
unfolding create_simple_token scan_two
scan_operator_or_delimiter s =
    let simple = create_simple_token s in
    elim s.current_char [
      | none ↦ exit err_lexical
      | some c ↦
          if c == b'+'
          then simple token_plus
          else if c == b'-'
          then simple token_minus
          else if c == b'*'
          then simple token_multiply
          else if c == b'/'
          then simple token_divide
          else if c == b'='
          then scan_two s (ok (token_equal, codes "==")) (ok (token_assign, codes "="))
          else if c == b'('
          then simple token_left_paren
          else if c == b')'
          then simple token_right_paren
          else if c == b'{'
          then simple token_left_brace
          else if c == b'}'
          then simple token_right_brace
          else if c == b'|'
          then simple token_pipe
          else if c == b':'
          then simple token_colon
          else if c == b';'
          then simple token_semicolon
          else if c == b'<'
          then scan_two s (ok (token_less_equal, codes "<=")) (ok (token_less, codes "<"))
          else if c == b'>'
          then scan_two s (ok (token_greater_equal, codes ">=")) (ok (token_greater, codes ">"))
          else if c == b','
          then simple token_comma
          else if c == b'.'
          then simple token_dot
          else if c == b'?'
          then simple token_question
          else if c == b'!'
          then scan_two s (ok (token_not_equal, codes "!=")) (exit err_lexical)
          else exit err_lexical
    ]

-- `get_next_token_internal` behind the blanks.
unfoldable pub scan_token : Scanner → Run (Token × Scanner)
unfolding scan_identifier_or_keyword scan_number_literal scan_string_literal
    scan_operator_or_delimiter
scan_token s = elim s.current_char [
  | none ↦
      ok (record { type = token_eof; lexeme = codes "EOF"; line = s.line; column = s.column }, s)
  | some c ↦
      if isalpha c || (c == b'_') || (c == b'@') || (c == b'[') || (c == b']')
      then scan_identifier_or_keyword s
      else if isdigit c
      then scan_number_literal s
      else if c == b'"'
      then scan_string_literal s
      else scan_operator_or_delimiter s
]

unfoldable pub get_next_token : Scanner → Run (Token × Scanner)
unfolding skip_whitespace_and_comments scan_token
get_next_token s = do s1 ← skip_whitespace_and_comments s; scan_token s1
