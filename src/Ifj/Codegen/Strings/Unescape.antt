-- ===== src/Ifj/Codegen/Strings/Unescape.antt =====
-- 2/IFJ/codegen.c: what the interpreter of IFJcode24 reads in an escaped string.
use vut_projects.Base.{
  ℕ, zero, suc, sym, ◌+◌, ◌-◌, ◌*◌, ◌/◌, ◌%◌, ◌≤◌, ◌<◌, ◌≡◌, refl, ap, inl, inr, Bool, true, false,
  not, ◌&&◌, ◌==◌, Option, none, some, [], ◌∷◌, ◌++◌, leb, ltb, arith, if◌then◌else◌, length,
  length-append, Text, append_assoc, append-nil, Bool-cases, lt→ltb,
}
use vut_projects.Ifj.Run.{ok}
use vut_projects.Ifj.Codegen.Strings.{escaped, needs_escape, escape_loop, escape_ifj24_string}

abbrev cons : ℕ → Option Text → Option Text
cons c none = none
cons c (some bytes) = some (c ∷ bytes)

-- The text behind a backslash of which `left` digits are still to be read, after the number `n`.
abbrev unescape_from : (left n : ℕ) → Text → Option Text
unescape_from zero n [] = some []
unescape_from (suc left) n [] = none
unescape_from zero n (c ∷ text) =
    let behind = unescape_from 3 0 text in
    let rest = unescape_from 0 0 text in if c == b'\\' then behind else cons c rest
unescape_from (suc zero) n (c ∷ text) = cons (n * 10 + (c - b'0')) (unescape_from 0 0 text)
unescape_from (suc (suc left)) n (c ∷ text) = unescape_from (suc left) (n * 10 + (c - b'0')) text

-- A backslash with the three decimal digits behind it is one byte; all else stands for itself.
abbrev pub unescape : Text → Option Text
unescape text = unescape_from 0 0 text

-- A byte that may stand in an operand: printable, no blank, and no `#`, which starts a comment.
abbrev pub is_operand : Text → Bool
is_operand [] = true
is_operand (c ∷ text) = (leb 33 c && (leb c 126 && not (c == b'#'))) && is_operand text

abbrev pub IsBytes : Text → Type 0
IsBytes [] = Unit
IsBytes (c ∷ text) = (c < 256) × IsBytes text

abbrev piece : ℕ → Text
piece c = if needs_escape c then escaped c else c ∷ []

abbrev pieces : Text → Text
pieces [] = []
pieces (c ∷ input) = piece c ++ pieces input

length-piece : (c : ℕ) → length (piece c) ≤ 4
length-piece c = elim (Bool-cases (needs_escape c)) [
  | inl h ↦ rw h (omega arith)
  | inr h ↦ rw h (omega arith)
]

length-pieces : (input : Text) → length (pieces input) ≤ length input * 4
length-pieces [] = omega arith
length-pieces (c ∷ input) =
    omega (arith, length-pieces input, length-piece c, length-append (piece c) (pieces input))

escape_loop-pieces :
    (size : ℕ) (written input : Text)
    → length written + length input * 4 < size
    → escape_loop size written input ≡ ok (written ++ pieces input)
unfolding escape_loop
escape_loop-pieces size written [] h = ap ok (sym (append-nil written))
escape_loop-pieces size written (c ∷ input) h = elim (Bool-cases (needs_escape c)) [
  | inl special ↦
      let fits : ltb (length written + 4) size ≡ true = lt→ltb _ _ (omega arith) in
      let rest =
        escape_loop-pieces size (written ++ escaped c) input
          (omega (arith, length-append written (escaped c))) in
      rw (special, fits, sym (append_assoc written (escaped c) (pieces input))) rest
  | inr plain ↦
      let fits : ltb (length written) size ≡ true = lt→ltb _ _ (omega arith) in
      let rest =
        escape_loop-pieces size (written ++ c ∷ []) input
          (omega (arith, length-append written (c ∷ []))) in
      rw (plain, fits, sym (append_assoc written (c ∷ []) (pieces input))) rest
]

three_digits :
    (c : ℕ)
    → c < 256
    → ((0 * 10 + (b'0' + c / 100 - b'0')) * 10 + (b'0' + c / 10 % 10 - b'0')) * 10
        + (b'0' + c % 10 - b'0')
      ≡ c
three_digits c h = omega arith

unescape-pieces : (input : Text) → IsBytes input → unescape (pieces input) ≡ some input
unescape-pieces [] h = refl
unescape-pieces (c ∷ input) (byte, h) = elim (Bool-cases (needs_escape c)) [
  | inl special ↦ rw (special, unescape-pieces input h, three_digits c byte) refl
  | inr plain ↦
      let other : (c == b'\\') ≡ false = ground arith in
      rw (plain, other, unescape-pieces input h) refl
]

operand_piece : (c : ℕ) (text : Text) → c < 256 → is_operand (piece c ++ text) ≡ is_operand text
operand_piece c text h = elim (Bool-cases (needs_escape c)) [
  | inl special ↦
      let first : (leb 33 (b'0' + c / 100)
            && (leb (b'0' + c / 100) 126 && not ((b'0' + c / 100) == b'#')))
          ≡ true =
        ground arith in
      let second : (leb 33 (b'0' + c / 10 % 10)
            && (leb (b'0' + c / 10 % 10) 126 && not ((b'0' + c / 10 % 10) == b'#')))
          ≡ true =
        ground arith in
      let third : (leb 33 (b'0' + c % 10)
            && (leb (b'0' + c % 10) 126 && not ((b'0' + c % 10) == b'#')))
          ≡ true =
        ground arith in
      rw (special, first, second, third) refl
  | inr plain ↦
      let own : (leb 33 c && (leb c 126 && not (c == b'#'))) ≡ true = ground arith in
      rw (plain, own) refl
]

operand-pieces : (input : Text) → IsBytes input → is_operand (pieces input) ≡ true
operand-pieces [] h = refl
operand-pieces (c ∷ input) (byte, h) =
    rw (operand_piece c (pieces input) byte) (operand-pieces input h)

-- A string of bytes is escaped within its buffer, into an operand that has no blanks and starts no
-- comment, and of which the interpreter reads the string again.
pub escape-unescape :
    (input : Text)
    → IsBytes input
    → (output : Text) × (escape_ifj24_string input ≡ ok output)
      × (is_operand output ≡ true)
      × (unescape output ≡ some input)
unfolding escape_ifj24_string
escape-unescape input h =
    let fits : ltb (length (pieces input)) (length input * 4 + 1) ≡ true =
      lt→ltb _ _ (omega (arith, length-pieces input)) in
    (
      pieces input,
      rw (escape_loop-pieces (length input * 4 + 1) [] input (omega arith), fits) refl,
      operand-pieces input h,
      unescape-pieces input h,
    )
