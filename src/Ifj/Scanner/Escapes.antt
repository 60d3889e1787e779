-- ===== src/Ifj/Scanner/Escapes.antt =====
-- 2/IFJ/scanner.c: the scan of a string ends and stays within its buffer.
use vut_projects.Base.{
  ℕ, ltb, zero, suc, ◌+◌, ◌-◌, ◌<◌, ◌≤◌, ◌≡◌, refl, not, ◌||◌, ◌==◌, [], ◌∷◌, ◌++◌, arith,
  if◌then◌else◌, length, Text, inl, inr, lt-eq-gt, length-snoc, ◌*◌,
}
use vut_projects.Ifj.Run.{
  Run, ok, exit, ◌>>=◌, Ensures, Ensures-bind, Ensures-weaken, Ensures-if, Ensures-ok, Ensures-exit,
  err_lexical,
}
use vut_projects.Ifj.Scanner.{Scanner, token_string_literal, advance, unread, current_is, terminate}
use vut_projects.Ifj.Scanner.Next.{
  hex_digit, read_hex_digit, handle_escape_sequence, string_char, string_loop, scan_string_literal,
}
use vut_projects.Ifj.Scanner.Position.{
  at, unread-at, put-ok, check_buffer_length-ok, check_buffer_length-exit,
}
use vut_projects.Ifj.Scanner.Safe.{Part, Scanned}
use vut_projects.Ifj.Scanner.Lexemes.{terminate-ok}

-- A byte, read up to its last character, in front of at most `n` more.
abbrev OnChar : ℕ → ℕ × Scanner → Type 0
OnChar n (byte, s) =
    (c : ℕ) × (rest : Text) × (line : ℕ) × (column : ℕ) × (s ≡ at (c ∷ rest) line column)
    × (length rest ≤ n)

on_char :
    (byte c : ℕ) (text : Text) (line column : ℕ)
    → OnChar (suc (length text)) (byte, at (c ∷ text) line column)
on_char byte c text line column = (c, text, line, column, refl, omega arith)

read_hex_digit-OnChar :
    (c : ℕ) (text : Text) (line column : ℕ)
    → Ensures (read_hex_digit (at (c ∷ text) line column)) err_lexical (OnChar (length text))
unfolding read_hex_digit
read_hex_digit-OnChar c [] line column = Ensures-exit err_lexical _
read_hex_digit-OnChar c (d ∷ text) line column =
    Ensures-if err_lexical _ _ _ _ (Ensures-exit err_lexical _)
      (Ensures-ok err_lexical _ _ (on_char (hex_digit d) d text line (column + 1)))

two_digits-OnChar :
    (c : ℕ) (text : Text) (line column : ℕ)
    → Ensures
        (read_hex_digit (at (c ∷ text) line column) >>= λ first.
          read_hex_digit first.1 >>= λ second. ok (first.0 * 16 + second.0, second.1))
        err_lexical
        (OnChar (length text))
two_digits-OnChar c text line column =
    Ensures-bind err_lexical (OnChar (length text)) (OnChar (length text)) _ _
      (read_hex_digit-OnChar c text line column)
      (λ first (d, rest, l, k, e, short).
        Ensures-bind err_lexical (OnChar (length rest)) (OnChar (length text))
          (read_hex_digit first.1) _ (rw e (read_hex_digit-OnChar d rest l k))
          (λ second (f, last, l', k', e', short').
            Ensures-ok err_lexical (OnChar (length text)) _ (f, last, l', k', e', omega arith)))

handle_escape-OnChar :
    (c : ℕ) (text : Text) (line column : ℕ)
    → Ensures
        (handle_escape_sequence (at (c ∷ text) line column))
        err_lexical
        (OnChar (length text))
unfolding handle_escape_sequence
handle_escape-OnChar c [] line column = Ensures-exit err_lexical _
handle_escape-OnChar c (d ∷ text) line column =
    let P = OnChar (suc (length text)) in
    let here = λ (byte : ℕ).
      Ensures-ok err_lexical P (byte, at (d ∷ text) line (column + 1))
        (on_char byte d text line (column + 1)) in
    Ensures-if err_lexical P _ _ _ (here b'\n') (
      Ensures-if err_lexical P _ _ _ (here b'\t') (
        Ensures-if err_lexical P _ _ _ (here b'\r') (
          Ensures-if err_lexical P _ _ _ (here b'"') (
            Ensures-if err_lexical P _ _ _ (here b'\\') (
              Ensures-if err_lexical P _ _ _ (Ensures-exit err_lexical _) (
                Ensures-weaken err_lexical (OnChar (length text)) P _
                  (two_digits-OnChar d text line (column + 1))
                  (λ r (e, rest, l, k, at_rest, short). (e, rest, l, k, at_rest, omega arith))))))))

string_char-OnChar :
    (c : ℕ) (text : Text) (line column index : ℕ)
    → Ensures
        (string_char (at (c ∷ text) line column) index c)
        err_lexical
        (λ r. (index ≤ 254) × OnChar (length text) r)
unfolding string_char
string_char-OnChar c text line column index =
    let P = λ (r : ℕ × Scanner). (index ≤ 254) × OnChar (length text) r in
    let bad = λ (m : Run (ℕ × Scanner)) (h : Ensures m err_lexical P).
      Ensures-if err_lexical P (c == b'\n') _ _ (Ensures-exit err_lexical _) (
        Ensures-if err_lexical P (ltb c 32 || (c == 35) || (c == 92)) _ m
          (Ensures-exit err_lexical _) h) in
    elim (lt-eq-gt index 255) [
      | inl room ↦ rw (check_buffer_length-ok index room) (
          Ensures-if err_lexical P _ _ _
            (Ensures-weaken err_lexical (OnChar (length text)) P _
              (handle_escape-OnChar c text line column) (λ r o. (omega arith, o)))
            (bad _ (
              Ensures-ok err_lexical P (c, at (c ∷ text) line column)
                (omega arith, (c, text, line, column, refl, omega arith)))))
      | inr full ↦ rw (check_buffer_length-exit index (ground arith)) (
          Ensures-if err_lexical P _ _ _ (Ensures-exit err_lexical _)
            (bad _ (Ensures-exit err_lexical _)))
    ]

string_loop-Part :
    (fuel : ℕ) (text : Text) (line column : ℕ) (buffer : Text)
    → length text < fuel
    → length buffer ≤ 255
    → Ensures (string_loop fuel (at text line column) buffer) err_lexical (Part (length text))
unfolding string_loop
string_loop-Part zero text line column buffer h fits = absurd (omega arith)
string_loop-Part (suc fuel) [] line column buffer h fits =
    Ensures-ok err_lexical _ _ (fits, [], line, column, refl, omega arith)
string_loop-Part (suc fuel) (c ∷ text) line column buffer h fits =
    let P = Part (suc (length text)) in
    let end : P (buffer, at (c ∷ text) line column) =
      (fits, c ∷ text, line, column, refl, omega arith) in
    Ensures-if err_lexical P _ _ _ (Ensures-ok err_lexical P _ end) (
      Ensures-bind err_lexical (λ r. (length buffer ≤ 254) × OnChar (length text) r) P _ _
        (string_char-OnChar c text line column (length buffer))
        (λ r (room, (d, rest, l, k, e, short)).
          rw (put-ok buffer r.0 (omega arith), e)
            (Ensures-weaken err_lexical (Part (length rest)) P _
              (string_loop-Part fuel rest l (k + 1) (buffer ++ r.0 ∷ []) (omega arith)
                (omega (arith, length-snoc buffer r.0)))
              (λ r' (fits', rest', l', k', e', short'). (fits', rest', l', k', e', omega arith)))))

string_end-Scanned :
    (text : Text) (r : Text × Scanner)
    → Part (length text) r
    → Ensures
        (if not (current_is (λ c. c == b'"') r.1)
          then exit err_lexical
          else (terminate r.0 >>= λ string. ok (
            record {
              type = token_string_literal;
              lexeme = string;
              line = (advance r.1).line;
              column = (advance r.1).column - length string - 2;
            },
            advance r.1,
          )))
        err_lexical
        (Scanned (suc (length text)))
string_end-Scanned text r (fits, [], line, column, e, short) = rw e (Ensures-exit err_lexical _)
string_end-Scanned text r (fits, c ∷ rest, line, column, e, short) =
    rw (e, terminate-ok r.0 fits)
      (Ensures-if err_lexical _ _ _ _ (Ensures-exit err_lexical _)
        (Ensures-ok err_lexical _ _ (rest, line, column + 1, refl, omega arith)))

pub scan_string-Scanned :
    (c : ℕ) (text : Text) (line column : ℕ)
    → Ensures
        (scan_string_literal (at (c ∷ text) line column))
        err_lexical
        (Scanned (suc (length text)))
unfolding scan_string_literal
scan_string-Scanned c text line column =
    Ensures-bind err_lexical (Part (length text)) (Scanned (suc (length text))) _ _
      (string_loop-Part (suc (unread (at text line (column + 1)))) text line (column + 1) []
        (omega (arith, unread-at text line (column + 1))) (omega arith))
      (λ r p. string_end-Scanned text r p)
