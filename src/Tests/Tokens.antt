-- ===== src/Tests/Tokens.antt =====
-- Tests and instances for the scanner of 2/IFJ.
use vut_projects.Base.{
  ℕ, zero, suc, ◌≡◌, ◌+◌, ◌++◌, refl, List, [], ◌∷◌, Text, codes, arith, length,
}
use vut_projects.Ifj.Run.{Run, ok, exit, ◌>>=◌, Ensures, Returns, err_lexical}
use vut_projects.Ifj.Scanner.{
  TokenType, Token, Scanner, scanner_init, skip_whitespace_and_comments, token_const,
  token_identifier, token_assign, token_float_literal, token_string_literal, isdigit,
}
use vut_projects.Ifj.Scanner.Scan.{scan_identifier_or_keyword, scan_number_literal, is_word_char}
use vut_projects.Ifj.Scanner.Next.{get_next_token, scan_string_literal}
use vut_projects.Ifj.Scanner.Position.{at, before, after}
use vut_projects.Ifj.Scanner.Blanks.{first_is, Skipped, skip-Skipped}
use vut_projects.Ifj.Scanner.Progress.{Progresses, next_token-Progresses}
use vut_projects.Ifj.Scanner.Words.{word_outcome, scan_identifier_lem}
use vut_projects.Ifj.Scanner.Numbers.{int_outcome, scan_number_lem}
use vut_projects.Ifj.Scanner.Strings.{print_string, print-scan}

first_tokens : Text → ℕ → Run (List (TokenType × Text))
unfolding get_next_token scanner_init
first_tokens file n = take n (scanner_init file)
  where
    take : ℕ → Scanner → Run (List (TokenType × Text))
    take zero s = ok []
    take (suc n) s = do (t, s1) ← get_next_token s; ts ← take n s1; ok ((t.type, t.lexeme) ∷ ts)

first_tokens_lem :
    first_tokens (codes "const x = // n\n 1.5e-3") 4
    ≡ ok (
        (token_const, codes "const")
        ∷ (token_identifier, codes "x")
        ∷ (token_assign, codes "=")
        ∷ (token_float_literal, codes "1.5e-3")
        ∷ [])
unfolding first_tokens
first_tokens_lem = refl

leading_zero_exits : first_tokens (codes "007") 1 ≡ exit err_lexical
unfolding first_tokens
leading_zero_exits = refl

-- `'é'` in UTF-8 inside a string literal.
accent_lem :
    first_tokens (b'"' ∷ 195 ∷ 169 ∷ b'"' ∷ []) 1 ≡ ok ((token_string_literal, 195 ∷ 169 ∷ []) ∷ [])
unfolding first_tokens
accent_lem = refl

skip-Skipped_example :
    Returns
      (skip_whitespace_and_comments (at (codes " // n\n x") 1 1))
      (Skipped (codes " // n\n x"))
skip-Skipped_example = skip-Skipped (codes " // n\n x") 1 1

next_token-Progresses_example :
    Ensures (get_next_token (at (codes "fn main") 1 1)) err_lexical (Progresses (codes "fn main"))
next_token-Progresses_example = next_token-Progresses (codes "fn main") 1 1

scan_identifier_lem_example :
    scan_identifier_or_keyword (at (codes "while (x)") 3 5)
    ≡ word_outcome
        (b'w' ∷ before is_word_char (codes "hile (x)"))
        3
        5
        (after is_word_char (codes "hile (x)"))
scan_identifier_lem_example = scan_identifier_lem b'w' (codes "hile (x)") 3 5 refl

scan_number_lem_example :
    scan_number_literal (at (codes "42;") 3 5)
    ≡ int_outcome (b'4' ∷ before isdigit (codes "2;")) 3 5 (after isdigit (codes "2;"))
unfolding after first_is
scan_number_lem_example = scan_number_lem b'4' (codes "2;") 3 5 refl refl

print-scan_example :
    (token : Token) × (scan_string_literal
        (at (b'"' ∷ print_string (b'a' ∷ b'"' ∷ []) ++ b'"' ∷ codes ";") 1 2)
      ≡ ok (token, at (codes ";") 1 (2 + length (print_string (b'a' ∷ b'"' ∷ [])) + 2)))
    × (token.type ≡ token_string_literal)
    × (token.lexeme ≡ b'a' ∷ b'"' ∷ [])
    × (token.line ≡ 1)
print-scan_example =
    print-scan (b'a' ∷ b'"' ∷ []) (codes ";") 1 2
      ((omega arith, omega arith), ((omega arith, omega arith), tt)) (omega arith)
