-- ===== src/Ifj/Scanner/Numbers.antt =====
-- 2/IFJ/scanner.c: which token an integer is.
use vut_projects.Base.{
  ℕ, suc, ◌+◌, ◌-◌, ◌≤◌, ◌≡◌, refl, Bool, true, false, not, ◌&&◌, ◌||◌, ◌==◌, none, some, [], ◌∷◌,
  arith, ltb, leb, if◌then◌else◌, length, Text, Bool-cases, inl, inr, ap, ◌∙◌, subst,
}
use vut_projects.Ifj.Run.{Run, exit, ◌>>=◌, err_lexical}
use vut_projects.Ifj.Scanner.{
  Token, Scanner, token_int_literal, c_string, isdigit, current_is, unread,
}
use vut_projects.Ifj.Scanner.Scan.{scan_number_literal, finish_number, starts_with_zero}
use vut_projects.Ifj.Scanner.Position.{at, before, after, read_loop_lem, scanned}
use vut_projects.Ifj.Scanner.Lexemes.{terminate-ok}
use vut_projects.Ifj.Scanner.Blanks.{first_is}
use vut_projects.Ifj.Scanner.Words.{before-first, after-first, c_string-before, token_or_exit}

-- A character that goes on with a float literal.
abbrev pub goes_on : ℕ → Bool
goes_on c = (c == b'.') || ((c == b'e') || (c == b'E'))

-- What a literal of these digits is: more than 255 of them, or a zero before other digits, end with
-- code 1.
abbrev pub int_outcome : Text → (line column : ℕ) → Text → Run (Token × Scanner)
int_outcome digits line column rest =
    token_or_exit
      (if leb (length digits) 255 && not (ltb 1 (length digits) && starts_with_zero digits)
        then some token_int_literal
        else none)
      digits line column (at rest line (column + length digits))

current_is-false :
    (p q : ℕ → Bool) (text : Text) (line column : ℕ)
    → ((c : ℕ) → q c ≡ false → p c ≡ false)
    → first_is q text ≡ false
    → current_is p (at text line column) ≡ false
unfolding first_is
current_is-false p q [] line column h e = refl
current_is-false p q (c ∷ text) line column h e = h c e

checked :
    (bad : Bool) (lexeme : Text) (line column : ℕ) (s : Scanner)
    → (if bad
        then exit err_lexical
        else token_or_exit (some token_int_literal) lexeme line column s)
      ≡ token_or_exit (if not bad then some token_int_literal else none) lexeme line column s
checked true lexeme line column s = refl
checked false lexeme line column s = refl

finish_number_lem :
    (digits : Text) (line column : ℕ) (rest : Text)
    → length digits ≤ 255
    → c_string digits ≡ digits
    → first_is goes_on rest ≡ false
    → finish_number digits (at rest line (column + length digits))
      ≡ int_outcome digits line column rest
unfolding finish_number
finish_number_lem digits line column rest fits clean stops =
    let place : (column + length digits) - length digits ≡ column = omega arith in
    let fits' : leb (length digits) 255 ≡ true = ground arith in
    rw
      (
        current_is-false (λ c. c == b'.') goes_on rest line (column + length digits)
            (λ c h. ground arith) stops,
        current_is-false (λ c. (c == b'e') || (c == b'E')) goes_on rest line
            (column + length digits) (λ c h. ground arith) stops,
        terminate-ok digits fits,
        clean,
        place,
        fits',
      )
      (checked (ltb 1 (length digits) && starts_with_zero digits) digits line column _)

finish_scanned :
    (digits : Text) (line column : ℕ) (rest : Text)
    → c_string digits ≡ digits
    → first_is goes_on rest ≡ false
    → (scanned (leb (0 + length digits) 255) digits (at rest line (column + length digits)) >>= λ r.
        finish_number r.0 r.1)
      ≡ int_outcome digits line column rest
finish_scanned digits line column rest clean stops = elim (Bool-cases (leb (length digits) 255)) [
  | inl fits ↦
      let fits' : leb (0 + length digits) 255 ≡ true = ground arith in
      rw fits' (finish_number_lem digits line column rest (ground arith) clean stops)
  | inr long ↦
      let long' : leb (0 + length digits) 255 ≡ false = ground arith in rw (long', long) refl
]

-- A text that starts with a digit, with no `.`, `e` or `E` behind its digits, is scanned up to the
-- end of the digits. The scan ends with code 1 if those are more than 255, or several that start with
-- a zero. Otherwise the token is an integer literal with the digits and their place, and the scanner
-- stands behind them.
pub scan_number_lem :
    (c : ℕ) (text : Text) (line column : ℕ)
    → isdigit c ≡ true
    → first_is goes_on (after isdigit text) ≡ false
    → scan_number_literal (at (c ∷ text) line column)
      ≡ int_outcome (c ∷ before isdigit text) line column (after isdigit text)
unfolding scan_number_literal
scan_number_lem c text line column h stops =
    ap (λ m. m >>= λ r. finish_number r.0 r.1)
      (read_loop_lem isdigit (suc (unread (at (c ∷ text) line column))) (c ∷ text) line column []
        (omega arith) (omega arith))
    ∙ rw (before-first isdigit c text h, after-first isdigit c text h)
        (finish_scanned (c ∷ before isdigit text) line column (after isdigit text)
          (subst (λ w. c_string w ≡ w) (before-first isdigit c text h)
            (c_string-before isdigit (c ∷ text) refl))
          stops)
