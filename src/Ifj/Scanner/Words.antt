-- ===== src/Ifj/Scanner/Words.antt =====
-- 2/IFJ/scanner.c: which token a word and an integer are.
use vut_projects.Base.{
  ℕ, zero, suc, ◌+◌, ◌-◌, ◌≤◌, ◌≡◌, refl, Bool, true, false, Option, none, some, List, [], ◌∷◌,
  arith, leb, if◌then◌else◌, length, Text, text_eq, codes, Bool-cases, inl, inr, ap, ◌∙◌, subst,
}
use vut_projects.Ifj.Run.{Run, ok, exit, ◌>>=◌, err_lexical}
use vut_projects.Ifj.Scanner.{
  token_const, token_else, token_f64, token_fn, token_i32, token_identifier, token_if, token_import,
  token_null, token_pub, token_return, token_u8, token_var, token_void, token_while, TokenType,
  Token, Scanner, c_string, unread,
}
use vut_projects.Ifj.Scanner.Scan.{
  is_word_char, has_at_sign, recognize_keyword_or_identifier, scan_identifier_or_keyword,
  check_not_empty, finish_word,
}
use vut_projects.Ifj.Scanner.Position.{at, before, after, read_loop_lem, scanned}
use vut_projects.Ifj.Scanner.Lexemes.{terminate-ok}

abbrev pub keywords : List (Text × TokenType)
keywords =
    (codes "const", token_const)
    ∷ (codes "var", token_var)
    ∷ (codes "if", token_if)
    ∷ (codes "else", token_else)
    ∷ (codes "while", token_while)
    ∷ (codes "return", token_return)
    ∷ (codes "fn", token_fn)
    ∷ (codes "pub", token_pub)
    ∷ (codes "void", token_void)
    ∷ (codes "null", token_null)
    ∷ (codes "i32", token_i32)
    ∷ (codes "f64", token_f64)
    ∷ (codes "[]u8", token_u8)
    ∷ (codes "@import", token_import)
    ∷ []

abbrev pub keyword : List (Text × TokenType) → Text → Option TokenType
keyword [] word = none
keyword ((w, type) ∷ ws) word = if text_eq word w then some type else keyword ws word

abbrev pub or_identifier : Option TokenType → Bool → Option TokenType
or_identifier (some type) at_sign = some type
or_identifier none at_sign = if at_sign then none else some token_identifier

-- The type of a word's token; a word that is no keyword has none if `@` is in it.
unfoldable pub word_type : Text → Option TokenType
unfolding text_eq
word_type word = or_identifier (keyword keywords word) (has_at_sign word)

-- A token that is in front of the text, or the end with code 1.
abbrev pub token_or_exit :
    Option TokenType → Text → (line column : ℕ) → Scanner → Run (Token × Scanner)
token_or_exit none lexeme line column s = exit err_lexical
token_or_exit (some type) lexeme line column s =
    ok (record { type = type; lexeme = lexeme; line = line; column = column }, s)

choose : List (Text × TokenType) → Text → (TokenType → Run Token) → Run Token → Run Token
choose [] word found other = other
choose ((w, type) ∷ ws) word found other =
    if text_eq word w then found type else choose ws word found other

abbrev chosen : Option TokenType → Bool → (TokenType → Run Token) → Run Token
chosen (some type) at_sign token = token type
chosen none at_sign token = if at_sign then exit err_lexical else token token_identifier

choose-keyword :
    (ws : List (Text × TokenType)) (word : Text) (token : TokenType → Run Token) (at_sign : Bool)
    → choose ws word token (if at_sign then exit err_lexical else token token_identifier)
      ≡ chosen (keyword ws word) at_sign token
unfolding choose
choose-keyword [] word token at_sign = refl
choose-keyword ((w, type) ∷ ws) word token at_sign = elim (Bool-cases (text_eq word w)) [
  | inl same ↦ rw same refl
  | inr differ ↦ rw differ (choose-keyword ws word token at_sign)
]

end_of_word :
    (found : Option TokenType) (at_sign : Bool) (word : Text) (line column : ℕ) (s : Scanner)
    → (chosen found at_sign
          (λ t. ok (record { type = t; lexeme = word; line = line; column = column }))
        >>= λ token. ok (token, s))
      ≡ token_or_exit (or_identifier found at_sign) word line column s
end_of_word (some type) at_sign word line column s = refl
end_of_word none true word line column s = refl
end_of_word none false word line column s = refl

recognize-word_type :
    (word : Text) (s s' : Scanner)
    → (recognize_keyword_or_identifier word s >>= λ token. ok (token, s'))
      ≡ token_or_exit (word_type word) word s.line (s.column - length word) s'
unfolding recognize_keyword_or_identifier word_type choose
recognize-word_type word s s' =
    let token : TokenType → Run Token = λ t.
      ok (record { type = t; lexeme = word; line = s.line; column = s.column - length word }) in
    ap (λ m. m >>= λ t. ok (t, s')) (choose-keyword keywords word token (has_at_sign word))
    ∙ end_of_word (keyword keywords word) (has_at_sign word) word s.line (s.column - length word) s'

pub c_string-before :
    (p : ℕ → Bool) (text : Text) → p 0 ≡ false → c_string (before p text) ≡ before p text
unfolding before
c_string-before p [] h = refl
c_string-before p (zero ∷ text) h = rw h refl
c_string-before p (suc c ∷ text) h = ground (arith, c_string-before p text h)

not_empty : (n : ℕ) → check_not_empty (suc n) ≡ ok tt
not_empty n = ground arith

finish_word_lem :
    (c : ℕ) (word : Text) (line column : ℕ) (rest : Text)
    → length (c ∷ word) ≤ 255
    → c_string (c ∷ word) ≡ c ∷ word
    → finish_word (c ∷ word) (at rest line (column + length (c ∷ word)))
      ≡ token_or_exit
          (word_type (c ∷ word))
          (c ∷ word)
          line
          column
          (at rest line (column + length (c ∷ word)))
unfolding finish_word
finish_word_lem c word line column rest fits clean =
    let place : (column + suc (length word)) - suc (length word) ≡ column = omega arith in
    rw
      (
        not_empty (length word),
        terminate-ok (c ∷ word) fits,
        clean,
        recognize-word_type (c ∷ word) (at rest line (column + length (c ∷ word)))
            (at rest line (column + length (c ∷ word))),
        place,
      )
      refl

-- The token of a word of at most 255 characters, and the scanner behind it.
abbrev pub word_outcome : Text → (line column : ℕ) → Text → Run (Token × Scanner)
word_outcome word line column rest =
    token_or_exit (if leb (length word) 255 then word_type word else none) word line column
      (at rest line (column + length word))

finish_scanned :
    (c : ℕ) (word : Text) (line column : ℕ) (rest : Text)
    → c_string (c ∷ word) ≡ c ∷ word
    → (scanned
          (leb (0 + length (c ∷ word)) 255)
          (c ∷ word)
          (at rest line (column + length (c ∷ word)))
        >>= λ r. finish_word r.0 r.1)
      ≡ word_outcome (c ∷ word) line column rest
finish_scanned c word line column rest clean = elim (Bool-cases (leb (suc (length word)) 255)) [
  | inl fits ↦
      let fits' : leb (0 + suc (length word)) 255 ≡ true = ground arith in
      rw (fits', fits) (finish_word_lem c word line column rest (ground arith) clean)
  | inr long ↦
      let long' : leb (0 + suc (length word)) 255 ≡ false = ground arith in rw (long', long) refl
]

pub before-first :
    (p : ℕ → Bool) (c : ℕ) (text : Text) → p c ≡ true → before p (c ∷ text) ≡ c ∷ before p text
unfolding before
before-first p c text h = rw h refl

pub after-first :
    (p : ℕ → Bool) (c : ℕ) (text : Text) → p c ≡ true → after p (c ∷ text) ≡ after p text
unfolding after
after-first p c text h = rw h refl

-- A text that starts with a letter, `_`, `@` or a bracket is scanned up to the first character that
-- is none of these and no digit. The scan ends with code 1 if that is more than 255 characters, or
-- if it has a `@` and is no keyword. Otherwise the token has the type that the table of keywords
-- gives, the word and its place, and the scanner stands behind the word.
pub scan_identifier_lem :
    (c : ℕ) (text : Text) (line column : ℕ)
    → is_word_char c ≡ true
    → scan_identifier_or_keyword (at (c ∷ text) line column)
      ≡ word_outcome (c ∷ before is_word_char text) line column (after is_word_char text)
unfolding scan_identifier_or_keyword
scan_identifier_lem c text line column h =
    ap (λ m. m >>= λ r. finish_word r.0 r.1)
      (read_loop_lem is_word_char (suc (unread (at (c ∷ text) line column))) (c ∷ text) line column
        [] (omega arith) (omega arith))
    ∙ rw (before-first is_word_char c text h, after-first is_word_char c text h)
        (finish_scanned c (before is_word_char text) line column (after is_word_char text) (
          subst (λ w. c_string w ≡ w) (before-first is_word_char c text h)
            (c_string-before is_word_char (c ∷ text) refl)))
