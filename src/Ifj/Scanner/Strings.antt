-- ===== src/Ifj/Scanner/Strings.antt =====
-- 2/IFJ/scanner.c: a text printed as a string literal is scanned back to itself.
use vut_projects.Base.{
  ℕ, zero, suc, ◌+◌, ◌-◌, ◌*◌, ◌/◌, ◌%◌, ◌<◌, ◌≤◌, ◌≡◌, refl, Bool, true, false, not, ◌||◌, ◌==◌,
  [], ◌∷◌, ◌++◌, arith, ltb, if◌then◌else◌, length, Text, Bool-cases, inl, inr, ap, ◌∙◌,
  length-snoc, length-append, append_assoc, append-nil, sym,
}
use vut_projects.Ifj.Run.{ok}
use vut_projects.Ifj.Scanner.{Token, token_string_literal, c_string, isxdigit, unread}
use vut_projects.Ifj.Scanner.Next.{
  hex_digit, read_hex_digit, handle_escape_sequence, string_char, string_loop, scan_string_literal,
}
use vut_projects.Ifj.Scanner.Position.{at, scanned, unread-at, check_buffer_length-ok, put-ok}
use vut_projects.Ifj.Scanner.Lexemes.{terminate-ok}

-- The character of a hexadecimal digit.
abbrev pub hex_char : ℕ → ℕ
hex_char n = if ltb n 10 then b'0' + n else b'a' + (n - 10)

-- Bytes that a literal has as they are; the others are written `\xHH`.
abbrev pub is_plain : ℕ → Bool
is_plain b = not (ltb b 32 || (b == b'"') || (b == b'#') || (b == b'\\'))

unfoldable pub print_char : ℕ → Text
print_char b =
    if is_plain b then b ∷ [] else b'\\' ∷ b'x' ∷ hex_char (b / 16) ∷ hex_char (b % 16) ∷ []

-- The text between the quotes.
unfoldable pub print_string : Text → Text
unfolding print_char
print_string [] = []
print_string (b ∷ bytes) = print_char b ++ print_string bytes

-- The bytes of a C string.
abbrev pub AllBytes : Text → Type 0
AllBytes [] = Unit
AllBytes (b ∷ bytes) = ((0 < b) × (b < 256)) × AllBytes bytes

hex_digit-hex_char : (n : ℕ) → n < 16 → hex_digit (hex_char n) ≡ n
hex_digit-hex_char n h = ground arith

isxdigit-hex_char : (n : ℕ) → n < 16 → isxdigit (hex_char n) ≡ true
isxdigit-hex_char n h = ground arith

read_hex_digit-hex_char :
    (n c : ℕ) (text : Text) (line column : ℕ)
    → n < 16
    → read_hex_digit (at (c ∷ hex_char n ∷ text) line column)
      ≡ ok (n, at (hex_char n ∷ text) line (column + 1))
unfolding read_hex_digit
read_hex_digit-hex_char n c text line column h =
    rw (isxdigit-hex_char n h, hex_digit-hex_char n h) refl

halves : (b : ℕ) → b < 256 → (b / 16) * 16 + b % 16 ≡ b
halves b h = omega arith

high : (b : ℕ) → b < 256 → b / 16 < 16
high b h = omega arith

low : (b : ℕ) → b % 16 < 16
low b = omega arith

escape_lem :
    (b : ℕ) (text : Text) (line column : ℕ)
    → b < 256
    → handle_escape_sequence
        (at (b'\\' ∷ b'x' ∷ hex_char (b / 16) ∷ hex_char (b % 16) ∷ text) line column)
      ≡ ok (b, at (hex_char (b % 16) ∷ text) line (column + 1 + 1 + 1))
unfolding handle_escape_sequence
escape_lem b text line column h =
    rw
      (
        read_hex_digit-hex_char (b / 16) b'x' (hex_char (b % 16) ∷ text) line (column + 1)
            (high b h),
        read_hex_digit-hex_char (b % 16) (hex_char (b / 16)) text line (column + 1 + 1) (low b),
        halves b h,
      )
      refl

plain_lem :
    (b : ℕ) (text : Text) (line column index : ℕ)
    → is_plain b ≡ true
    → index < 255
    → string_char (at (b ∷ text) line column) index b ≡ ok (b, at (b ∷ text) line column)
unfolding string_char
plain_lem b text line column index plain room =
    let backslash : (b == b'\\') ≡ false = ground arith in
    let newline : (b == b'\n') ≡ false = ground arith in
    let low : (ltb b 32 || (b == 35) || (b == 92)) ≡ false = ground arith in
    rw (low, backslash, newline, check_buffer_length-ok index room) refl

-- One printed byte is read in one turn of the loop.
turn_lem :
    (b : ℕ) (fuel : ℕ) (text : Text) (line column : ℕ) (buffer : Text)
    → b < 256
    → length buffer < 255
    → string_loop (suc fuel) (at (print_char b ++ text) line column) buffer
      ≡ string_loop fuel (at text line (column + length (print_char b))) (buffer ++ b ∷ [])
unfolding print_char string_loop
turn_lem b fuel text line column buffer h room = elim (Bool-cases (is_plain b)) [
  | inl plain ↦
      let quote : (b == b'"') ≡ false = ground arith in
      rw
        (
          plain,
          quote,
          plain_lem b text line column (length buffer) plain room,
          put-ok buffer b (omega arith),
        )
        refl
  | inr other ↦
      rw
        (
          other,
          check_buffer_length-ok (length buffer) room,
          escape_lem b text line column h,
          put-ok buffer b (omega arith),
        )
        (ap (λ k. string_loop fuel (at text line k) (buffer ++ b ∷ [])) (omega arith))
]

same_end :
    {buffer buffer' : Text} (text : Text) (line : ℕ) {column column' : ℕ}
    → buffer ≡ buffer'
    → column ≡ column'
    → scanned true buffer (at text line column) ≡ scanned true buffer' (at text line column')
same_end text line e e' = rw (e, e') refl

string_loop_lem :
    (bytes rest : Text) (fuel : ℕ) (line column : ℕ) (buffer : Text)
    → AllBytes bytes
    → length buffer + length bytes ≤ 255
    → length bytes < fuel
    → string_loop fuel (at (print_string bytes ++ b'"' ∷ rest) line column) buffer
      ≡ ok (buffer ++ bytes, at (b'"' ∷ rest) line (column + length (print_string bytes)))
unfolding print_string string_loop
string_loop_lem bytes rest zero line column buffer all fits h = absurd (omega arith)
string_loop_lem [] rest (suc fuel) line column buffer all fits h =
    same_end (b'"' ∷ rest) line (sym (append-nil buffer)) (omega arith)
string_loop_lem (b ∷ bytes) rest (suc fuel) line column buffer all fits h =
    ap (λ t. string_loop (suc fuel) (at t line column) buffer)
      (append_assoc (print_char b) (print_string bytes) (b'"' ∷ rest))
    ∙ turn_lem b fuel (print_string bytes ++ b'"' ∷ rest) line column buffer all.0.1 (omega arith)
    ∙ string_loop_lem bytes rest fuel line (column + length (print_char b)) (buffer ++ b ∷ []) all.1
        (omega (arith, length-snoc buffer b)) (omega arith)
    ∙ same_end (b'"' ∷ rest) line (append_assoc buffer (b ∷ []) bytes)
        (omega (arith, length-append (print_char b) (print_string bytes)))

length-print_char : (b : ℕ) → 1 ≤ length (print_char b)
unfolding print_char
length-print_char b = ground arith

c_string-AllBytes : (bytes : Text) → AllBytes bytes → c_string bytes ≡ bytes
c_string-AllBytes [] all = refl
c_string-AllBytes (b ∷ bytes) all =
    let nonzero : (b == 0) ≡ false = ground arith in
    rw nonzero (ap (λ t. b ∷ t) (c_string-AllBytes bytes all.1))

length-print_string : (bytes : Text) → length bytes ≤ length (print_string bytes)
unfolding print_string
length-print_string [] = omega arith
length-print_string (b ∷ bytes) = omega (
  arith,
  length-append (print_char b) (print_string bytes),
  length-print_string bytes,
  length-print_char b,
)

-- Every text of at most 255 bytes, none of them zero, is printed as a string literal that the scanner
-- reads back: the token is a string literal with exactly that text and the line, and the scanner
-- stands behind the closing quote.
pub print-scan :
    (bytes rest : Text) (line column : ℕ)
    → AllBytes bytes
    → length bytes ≤ 255
    → (token : Token) × (scan_string_literal
          (at (b'"' ∷ print_string bytes ++ b'"' ∷ rest) line column)
        ≡ ok (token, at rest line (column + length (print_string bytes) + 2)))
      × (token.type ≡ token_string_literal)
      × (token.lexeme ≡ bytes)
      × (token.line ≡ line)
unfolding scan_string_literal
print-scan bytes rest line column all fits =
    let text = print_string bytes ++ b'"' ∷ rest in
    let enough : length bytes < suc (unread (at text line (column + 1))) = omega (
      arith,
      unread-at text line (column + 1),
      length-append (print_string bytes) (b'"' ∷ rest),
      length-print_string bytes,
    ) in
    let place : column + 1 + length (print_string bytes) + 1
        ≡ column + length (print_string bytes) + 2 =
      omega arith in
    (
      record {
        type = token_string_literal;
        lexeme = bytes;
        line = line;
        column = column + length (print_string bytes) + 2 - length bytes - 2;
      },
      rw
          (
            string_loop_lem bytes rest (suc (unread (at text line (column + 1)))) line (column + 1)
                [] all (omega arith) enough,
            terminate-ok bytes fits,
            c_string-AllBytes bytes all,
            place,
          )
          refl,
      refl,
      refl,
      refl,
    )
