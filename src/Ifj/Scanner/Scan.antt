-- ===== src/Ifj/Scanner/Scan.antt =====
-- 2/IFJ/scanner.c: the scans of words and numbers.
use vut_projects.Base.{
  ℕ, zero, suc, ◌-◌, Bool, false, not, ◌&&◌, ◌||◌, none, some, [], ◌∷◌, ltb, ◌==◌, if◌then◌else◌,
  length, Text, text_eq, codes,
}
use vut_projects.Ifj.Run.{Run, ok, exit, out_of_fuel, ◌>>=◌, err_lexical}
use vut_projects.Ifj.Scanner.{
  TokenType, Token, Scanner, advance, unread, isdigit, isalnum, current_is, check_buffer_length,
  put, terminate, token_const, token_var, token_if, token_else, token_while, token_return, token_fn,
  token_pub, token_void, token_null, token_i32, token_f64, token_u8, token_import, token_identifier,
  token_int_literal, token_float_literal,
}

-- The test for `'@'`.
abbrev pub has_at_sign : Text → Bool
has_at_sign [] = false
has_at_sign (c ∷ lexeme) = (c == b'@') || has_at_sign lexeme

unfoldable pub recognize_keyword_or_identifier : Text → Scanner → Run Token
unfolding text_eq
recognize_keyword_or_identifier lexeme s =
    let token : TokenType → Run Token = λ t.
      ok (record { type = t; lexeme = lexeme; line = s.line; column = s.column - length lexeme }) in
    if text_eq lexeme (codes "const")
    then token token_const
    else if text_eq lexeme (codes "var")
    then token token_var
    else if text_eq lexeme (codes "if")
    then token token_if
    else if text_eq lexeme (codes "else")
    then token token_else
    else if text_eq lexeme (codes "while")
    then token token_while
    else if text_eq lexeme (codes "return")
    then token token_return
    else if text_eq lexeme (codes "fn")
    then token token_fn
    else if text_eq lexeme (codes "pub")
    then token token_pub
    else if text_eq lexeme (codes "void")
    then token token_void
    else if text_eq lexeme (codes "null")
    then token token_null
    else if text_eq lexeme (codes "i32")
    then token token_i32
    else if text_eq lexeme (codes "f64")
    then token token_f64
    else if text_eq lexeme (codes "[]u8")
    then token token_u8
    else if text_eq lexeme (codes "@import")
    then token token_import
    else if has_at_sign lexeme
    then exit err_lexical
    else token token_identifier

abbrev pub is_word_char : ℕ → Bool
is_word_char c = isalnum c || (c == b'_') || (c == b'@') || (c == b'[') || (c == b']')

-- The loop of `scan_identifier_or_keyword` and of `read_digits`, for their classes of characters.
unfoldable pub read_loop : (p : ℕ → Bool) (fuel : ℕ) → Scanner → Text → Run (Text × Scanner)
read_loop p zero s buffer = out_of_fuel
read_loop p (suc fuel) s buffer = elim s.current_char [
  | none ↦ ok (buffer, s)
  | some c ↦
      if not (p c)
      then ok (buffer, s)
      else (check_buffer_length (length buffer) >>= λ _.
          put buffer c >>= λ buffer'. read_loop p fuel (advance s) buffer')
]

abbrev pub check_not_empty : ℕ → Run (Unit {0})
check_not_empty index = if index == 0 then exit err_lexical else ok tt

-- What `scan_identifier_or_keyword` does behind its loop.
unfoldable pub finish_word : Text → Scanner → Run (Token × Scanner)
unfolding recognize_keyword_or_identifier
finish_word buffer s = do
  _ ← check_not_empty (length buffer)
  lexeme ← terminate buffer
  token ← recognize_keyword_or_identifier lexeme s
  ok (token, s)

unfoldable pub scan_identifier_or_keyword : Scanner → Run (Token × Scanner)
unfolding read_loop finish_word
scan_identifier_or_keyword s =
    read_loop is_word_char (suc (unread s)) s [] >>= λ r. finish_word r.0 r.1

unfoldable pub read_digits : Scanner → Text → Run (Text × Scanner)
unfolding read_loop
read_digits s buffer = read_loop isdigit (suc (unread s)) s buffer

-- The current character as a byte of the buffer; the callers have tested that it is not EOF.
abbrev pub byte : Scanner → ℕ
byte s = elim s.current_char [ none ↦ 255 | some c ↦ c ]

unfoldable pub handle_exponent : Scanner → Text → Run (Text × Scanner)
unfolding read_digits
handle_exponent s buffer = do
  buffer1 ← put buffer (byte s)
  let s1 = advance s
  (buffer2, s2) ←
      (if current_is (λ c. (c == b'+') || (c == b'-')) s1
        then (check_buffer_length (length buffer1) >>= λ _.
            put buffer1 (byte s1) >>= λ buffer2. ok (buffer2, advance s1))
        else ok (buffer1, s1))
  if not (current_is isdigit s2) then exit err_lexical else read_digits s2 buffer2

-- The fraction of a float literal, from its point on.
unfoldable pub handle_fraction : Scanner → Text → Run (Text × Scanner)
unfolding read_digits
handle_fraction s buffer = do
  _ ← check_buffer_length (length buffer)
  buffer1 ← put buffer (byte s)
  let s1 = advance s
  if not (current_is isdigit s1) then exit err_lexical else read_digits s1 buffer1

-- `number_buffer[0] == '0'`
abbrev pub starts_with_zero : Text → Bool
starts_with_zero [] = false
starts_with_zero (c ∷ text) = c == b'0'

-- What `scan_number_literal` does behind the digits of the integer part.
unfoldable pub finish_number : Text → Scanner → Run (Token × Scanner)
unfolding handle_fraction handle_exponent
finish_number buffer1 s1 = do
  let has_point = current_is (λ c. c == b'.') s1
  (buffer2, s2) ← (if has_point then handle_fraction s1 buffer1 else ok (buffer1, s1))
  let has_exponent = current_is (λ c. (c == b'e') || (c == b'E')) s2
  (buffer3, s3) ← (if has_exponent then handle_exponent s2 buffer2 else ok (buffer2, s2))
  let is_float = has_point || has_exponent
  number ← terminate buffer3
  if not is_float && ltb 1 (length number) && starts_with_zero number
      then exit err_lexical
      else ok (
        record {
          type = if is_float then token_float_literal else token_int_literal;
          lexeme = number;
          line = s3.line;
          column = s3.column - length number;
        },
        s3,
      )

unfoldable pub scan_number_literal : Scanner → Run (Token × Scanner)
unfolding read_digits finish_number
scan_number_literal s = read_digits s [] >>= λ r. finish_number r.0 r.1
