-- ===== src/Ifj/Scanner/Progress.antt =====
-- 2/IFJ/scanner.c: the scans of operators, and that each call of the scanner ends and progresses.
use vut_projects.Base.{
  ℕ, suc, ◌+◌, ◌<◌, ◌≤◌, ◌≡◌, ◌⊎◌, refl, ◌||◌, ◌==◌, [], ◌∷◌, arith, length, Text, codes,
  Bool-cases, inl, inr,
}
use vut_projects.Ifj.Run.{
  Run, ok, exit, Returns-Ensures, Ensures, Ensures-bind, Ensures-weaken, Ensures-if, Ensures-cases,
  Ensures-ok, Ensures-exit, err_lexical,
}
use vut_projects.Ifj.Scanner.{
  Scanner, Token, TokenType, token_eof, token_equal, token_assign, token_less_equal, token_less,
  token_greater_equal, token_greater, token_not_equal, token_colon, token_comma, token_divide,
  token_dot, token_left_brace, token_left_paren, token_minus, token_multiply, token_pipe,
  token_plus, token_question, token_right_brace, token_right_paren, token_semicolon, isdigit,
  isalpha,
}
use vut_projects.Ifj.Scanner.Next.{
  create_simple_token, scan_two, scan_operator_or_delimiter, scan_token, get_next_token,
}
use vut_projects.Ifj.Scanner.Position.{at}
use vut_projects.Ifj.Scanner.Safe.{Scanned}
use vut_projects.Ifj.Scanner.Lexemes.{scan_identifier-Scanned, scan_number-Scanned}
use vut_projects.Ifj.Scanner.Blanks.{Skipped, skip-Skipped, length-Skips}
use vut_projects.Ifj.Scanner.Escapes.{scan_string-Scanned}

create_simple_token-Scanned :
    (c : ℕ) (text : Text) (line column : ℕ) (type : TokenType)
    → Ensures
        (create_simple_token (at (c ∷ text) line column) type)
        err_lexical
        (Scanned (suc (length text)))
unfolding create_simple_token
create_simple_token-Scanned c text line column type =
    Ensures-ok err_lexical _ _ (text, line, column + 1, refl, omega arith)

scan_two-Scanned :
    (c : ℕ) (text : Text) (line column : ℕ) (both one : Run (TokenType × Text))
    → Ensures both err_lexical (λ t. Unit)
    → Ensures one err_lexical (λ t. Unit)
    → Ensures
        (scan_two (at (c ∷ text) line column) both one)
        err_lexical
        (Scanned (suc (length text)))
unfolding scan_two
scan_two-Scanned c [] line column both one b o =
    Ensures-bind err_lexical (λ t. Unit) (Scanned 1) one _ o
      (λ t _. Ensures-ok err_lexical (Scanned 1) _ ([], line, column + 1 + 1, refl, omega arith))
scan_two-Scanned c (d ∷ text) line column both one b o = elim (Bool-cases (d == b'=')) [
  | inl equals ↦
      let P = Scanned (suc (suc (length text))) in
      rw equals (
        Ensures-bind err_lexical (λ t. Unit) P both _ b
          (λ t _. Ensures-ok err_lexical P _ (text, line, column + 1 + 1, refl, omega arith)))
  | inr other ↦
      let P = Scanned (suc (suc (length text))) in
      rw other (
        Ensures-bind err_lexical (λ t. Unit) P one _ o
          (λ t _. Ensures-ok err_lexical P _ (d ∷ text, line, column + 1 + 1, refl, omega arith)))
]

scan_operator-Scanned :
    (c : ℕ) (text : Text) (line column : ℕ)
    → Ensures
        (scan_operator_or_delimiter (at (c ∷ text) line column))
        err_lexical
        (Scanned (suc (length text)))
unfolding scan_operator_or_delimiter
scan_operator-Scanned c text line column =
    let P = Scanned (suc (length text)) in
    let simple = create_simple_token-Scanned c text line column in
    let two = λ (both one : TokenType × Text).
      scan_two-Scanned c text line column (ok both) (ok one) (Ensures-ok err_lexical _ _ tt)
        (Ensures-ok err_lexical _ _ tt) in
    (Ensures-if err_lexical P (c == b'+') _ _ (simple token_plus) (
      Ensures-if err_lexical P (c == b'-') _ _ (simple token_minus) (
        Ensures-if err_lexical P (c == b'*') _ _ (simple token_multiply) (
          Ensures-if err_lexical P (c == b'/') _ _ (simple token_divide) (
            Ensures-if err_lexical P (c == b'=') _ _
              (two (token_equal, codes "==") (token_assign, codes "="))
              (Ensures-if err_lexical P (c == b'(') _ _ (simple token_left_paren) (
                Ensures-if err_lexical P (c == b')') _ _ (simple token_right_paren) (
                  Ensures-if err_lexical P (c == b'{') _ _ (simple token_left_brace) (
                    Ensures-if err_lexical P (c == b'}') _ _ (simple token_right_brace) (
                      Ensures-if err_lexical P (c == b'|') _ _ (simple token_pipe) (
                        Ensures-if err_lexical P (c == b':') _ _ (simple token_colon) (
                          Ensures-if err_lexical P (c == b';') _ _ (simple token_semicolon) (
                            Ensures-if err_lexical P (c == b'<') _ _
                              (two (token_less_equal, codes "<=") (token_less, codes "<"))
                              (Ensures-if err_lexical P (c == b'>') _ _
                                (two (token_greater_equal, codes ">=") (token_greater, codes ">"))
                                (Ensures-if err_lexical P (c == b',') _ _ (simple token_comma) (
                                  Ensures-if err_lexical P (c == b'.') _ _ (simple token_dot) (
                                    Ensures-if err_lexical P (c == b'?') _ _ (simple token_question)
                                      (Ensures-if err_lexical P (c == b'!') _ _
                                        (scan_two-Scanned c text line column
                                          (ok (token_not_equal, codes "!=")) (exit err_lexical)
                                          (Ensures-ok err_lexical _ _ tt)
                                          (Ensures-exit err_lexical _))
                                        (Ensures-exit err_lexical _)))))))))))))))))))

-- The token is the one for the end of the file, in front of nothing, or something of the text is
-- consumed.
abbrev pub Progresses : Text → Token × Scanner → Type 0
Progresses text (token, s) =
    (rest : Text) × (line : ℕ) × (column : ℕ) × (s ≡ at rest line column)
    × (((token.type ≡ token_eof) × (rest ≡ [])) ⊎ (length rest < length text))

-- The choice between the scans, behind blanks.
choice-Progresses :
    (text rest : Text) (line column : ℕ)
    → length rest ≤ length text
    → Ensures (scan_token (at rest line column)) err_lexical (Progresses text)
unfolding scan_token
choice-Progresses text [] line column short =
    Ensures-ok err_lexical (Progresses text) _ ([], line, column, refl, inl (refl, refl))
choice-Progresses text (c ∷ rest) line column short =
    Ensures-cases err_lexical (Progresses text)
      (isalpha c || (c == b'_') || (c == b'@') || (c == b'[') || (c == b']')) _ _
      (λ word. weaken _ (scan_identifier-Scanned c rest line column (ground arith)))
      (λ _.
        Ensures-cases err_lexical (Progresses text) (isdigit c) _ _
          (λ digit. weaken _ (scan_number-Scanned c rest line column digit))
          (λ _.
            Ensures-if err_lexical (Progresses text) (c == b'"') _ _
              (weaken _ (scan_string-Scanned c rest line column))
              (weaken _ (scan_operator-Scanned c rest line column))))
  where
    weaken :
        (m : Run (Token × Scanner))
        → Ensures m err_lexical (Scanned (suc (length rest)))
        → Ensures m err_lexical (Progresses text)
    weaken m h =
        Ensures-weaken err_lexical (Scanned (suc (length rest))) (Progresses text) m h
          (λ r (left, l, k, e, less). (left, l, k, e, inr (omega arith)))

-- At any text the scanner returns a token or ends with code 1: its loops end, and it writes into its
-- buffer only. Behind the token it stands in front of a shorter text, but for the token of the end
-- of the file, which it returns when nothing is left.
pub next_token-Progresses :
    (text : Text) (line column : ℕ)
    → Ensures (get_next_token (at text line column)) err_lexical (Progresses text)
unfolding get_next_token
next_token-Progresses text line column =
    Ensures-bind err_lexical (Skipped text) (Progresses text) _ _
      (Returns-Ensures err_lexical _ _ (skip-Skipped text line column))
      (λ s (rest, l, k, e, skips, _, _).
        rw e (choice-Progresses text rest l k (length-Skips text rest skips)))
