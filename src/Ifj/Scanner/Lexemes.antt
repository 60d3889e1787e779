-- ===== src/Ifj/Scanner/Lexemes.antt =====
-- 2/IFJ/scanner.c: the scans of words and numbers end and stay within their buffers.
use vut_projects.Base.{
  ℕ, suc, ◌≤◌, ◌≡◌, refl, Bool, true, false, [], ◌∷◌, arith, if◌then◌else◌, length, Text,
}
use vut_projects.Ifj.Run.{
  Run, ok, exit, Ensures, Ensures-bind, Ensures-weaken, Ensures-if, err_lexical,
}
use vut_projects.Ifj.Scanner.{Scanner, Token, isdigit, current_is, c_string, terminate}
use vut_projects.Ifj.Scanner.Scan.{
  handle_fraction, handle_exponent, is_word_char, check_not_empty, finish_word, finish_number,
  recognize_keyword_or_identifier, scan_number_literal, scan_identifier_or_keyword,
}
use vut_projects.Ifj.Scanner.Position.{at, after}
use vut_projects.Ifj.Scanner.Safe.{
  Part, Scanned, read_loop-Part, length-after-first, Part-weaken, read_digits-Part,
  handle_fraction-Part, handle_exponent-Part,
}

pub terminate-ok : (buffer : Text) → length buffer ≤ 255 → terminate buffer ≡ ok (c_string buffer)
terminate-ok buffer h = ground arith

pub Scanned-Part :
    (n m : ℕ) (token : Token) (r : Text × Scanner) → n ≤ m → Part n r → Scanned (suc m) (token, r.1)
Scanned-Part n m token r h (fits, rest, line, column, e, short) =
    (rest, line, column, e, omega arith)

Scanned-guard :
    (invalid : Bool) (token : Token) (m : ℕ) (r : Text × Scanner)
    → Part m r
    → Ensures (if invalid then exit err_lexical else ok (token, r.1)) err_lexical (Scanned (suc m))
unfolding Ensures
Scanned-guard true token m r p = refl
Scanned-guard false token m r p = Scanned-Part m m token r (omega arith) p

pub recognize-Ensures :
    (lexeme : Text) (s : Scanner)
    → Ensures (recognize_keyword_or_identifier lexeme s) err_lexical (λ t. Unit)
unfolding recognize_keyword_or_identifier Ensures
recognize-Ensures lexeme s = ground arith

check_not_empty-Ensures : (index : ℕ) → Ensures (check_not_empty index) err_lexical (λ t. Unit)
unfolding Ensures
check_not_empty-Ensures index = ground arith

-- A part that may follow, read when the current character is of the class `q`.
optional-Part :
    (q : ℕ → Bool) (handle : Scanner → Text → Run (Text × Scanner))
    → ((c : ℕ) (text : Text) (line column : ℕ) (buffer : Text)
        → length buffer ≤ 255
        → Ensures (handle (at (c ∷ text) line column) buffer) err_lexical (Part (length text)))
    → (n : ℕ) (buffer : Text) (s : Scanner) → Part n (buffer, s)
    → Ensures (if current_is q s then handle s buffer else ok (buffer, s)) err_lexical (Part n)
unfolding Ensures
optional-Part q handle safe n buffer s (fits, [], line, column, e, short) =
    rw e (fits, [], line, column, refl, short)
optional-Part q handle safe n buffer s (fits, c ∷ text, line, column, e, short) = rw e (
    Ensures-if err_lexical (Part n) (q c) _ _
      (Ensures-weaken err_lexical (Part (length text)) (Part n) _
        (safe c text line column buffer fits) (λ r. Part-weaken _ n r (omega arith)))
      (fits, c ∷ text, line, column, refl, short))

pub scan_identifier-Scanned :
    (c : ℕ) (text : Text) (line column : ℕ)
    → is_word_char c ≡ true
    → Ensures
        (scan_identifier_or_keyword (at (c ∷ text) line column))
        err_lexical
        (Scanned (suc (length text)))
unfolding scan_identifier_or_keyword finish_word Ensures
scan_identifier-Scanned c text line column word =
    Ensures-bind err_lexical (Part (length (after is_word_char (c ∷ text))))
      (Scanned (suc (length text))) _ _
      (read_loop-Part is_word_char (c ∷ text) line column [] (omega arith))
      (λ r p.
        Ensures-bind err_lexical (λ t. Unit) (Scanned (suc (length text))) _ _
          (check_not_empty-Ensures (length r.0))
          (λ _ _. rw (terminate-ok r.0 p.0) (
            Ensures-bind err_lexical (λ t. Unit) (Scanned (suc (length text))) _ _
              (recognize-Ensures (c_string r.0) r.1)
              (λ t _.
                Scanned-Part _ (length text) t r (length-after-first is_word_char c text word) p))))

pub scan_number-Scanned :
    (c : ℕ) (text : Text) (line column : ℕ)
    → isdigit c ≡ true
    → Ensures
        (scan_number_literal (at (c ∷ text) line column))
        err_lexical
        (Scanned (suc (length text)))
unfolding scan_number_literal finish_number Ensures
scan_number-Scanned c text line column digit =
    Ensures-bind err_lexical (Part (length text)) (Scanned (suc (length text))) _ _
      (read_digits-Part (length text) (c ∷ text) line column [] digit (omega arith) (omega arith))
      (λ r p.
        Ensures-bind err_lexical (Part (length text)) (Scanned (suc (length text))) _ _
          (optional-Part _ handle_fraction handle_fraction-Part (length text) r.0 r.1 p)
          (λ r2 p2.
            Ensures-bind err_lexical (Part (length text)) (Scanned (suc (length text))) _ _
              (optional-Part _ handle_exponent handle_exponent-Part (length text) r2.0 r2.1 p2)
              (λ r3 p3. rw (terminate-ok r3.0 p3.0) (Scanned-guard _ _ (length text) r3 p3))))
