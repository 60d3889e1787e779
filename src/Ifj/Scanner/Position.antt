-- ===== src/Ifj/Scanner/Position.antt =====
-- 2/IFJ/scanner.c: the scanner in front of a text, and what its loops do to the text.
use vut_projects.Base.{
  ℕ, zero, suc, ◌+◌, ◌<◌, ◌≤◌, ◌≡◌, refl, Bool, true, [], ◌∷◌, ◌++◌, leb, arith, if◌then◌else◌,
  length, Text, Bool-cases, inl, inr, length-snoc, append-nil, append_assoc, lt-eq-gt, sym, ap,
}
use vut_projects.Ifj.Run.{Run, ok, exit, err_lexical}
use vut_projects.Ifj.Scanner.{Scanner, fgetc, unread, check_buffer_length, put}
use vut_projects.Ifj.Scanner.Scan.{read_loop}

-- The scanner when the rest of the file, from the current character on, is the text.
abbrev pub at : Text → (line column : ℕ) → Scanner
at text line column = record {
  input = (fgetc text).1;
  line = line;
  column = column;
  current_char = (fgetc text).0;
}

pub unread-at : (text : Text) (line column : ℕ) → unread (at text line column) ≡ length text
unread-at [] line column = refl
unread-at (c ∷ text) line column = omega arith

-- The longest prefix of characters of a class, and what comes behind it.
unfoldable pub before : (ℕ → Bool) → Text → Text
before p [] = []
before p (c ∷ text) = if p c then c ∷ before p text else []

unfoldable pub after : (ℕ → Bool) → Text → Text
after p [] = []
after p (c ∷ text) = if p c then after p text else c ∷ text

pub length-before-after :
    (p : ℕ → Bool) (text : Text) → length (before p text) + length (after p text) ≡ length text
unfolding before after
length-before-after p [] = refl
length-before-after p (c ∷ text) = ground (arith, length-before-after p text)

-- A part of a literal, or the end with code 1 where it does not fit.
abbrev pub scanned : Bool → Text → Scanner → Run (Text × Scanner)
scanned fits buffer s = if fits then ok (buffer, s) else exit err_lexical

scanned-eq :
    (b b' : Bool) (buffer buffer' text : Text) (line column column' : ℕ)
    → b ≡ b'
    → buffer ≡ buffer'
    → column ≡ column'
    → scanned b buffer (at text line column) ≡ scanned b' buffer' (at text line column')
scanned-eq b b' buffer buffer' text line column column' h e e' = rw (h, e, e') refl

pub check_buffer_length-ok : (index : ℕ) → index < 255 → check_buffer_length index ≡ ok tt
check_buffer_length-ok index h = ground arith

pub check_buffer_length-exit :
    (index : ℕ) → 255 ≤ index → check_buffer_length index ≡ exit err_lexical
check_buffer_length-exit index h = ground arith

pub put-ok : (buffer : Text) (c : ℕ) → length buffer < 256 → put buffer c ≡ ok (buffer ++ c ∷ [])
put-ok buffer c h = ground arith

-- The loop takes the longest prefix of its class, or ends with code 1 when that does not fit.
pub read_loop_lem :
    (p : ℕ → Bool) (fuel : ℕ) (text : Text) (line column : ℕ) (buffer : Text)
    → length text < fuel
    → length buffer ≤ 255
    → read_loop p fuel (at text line column) buffer
      ≡ scanned
          (leb (length buffer + length (before p text)) 255)
          (buffer ++ before p text)
          (at (after p text) line (column + length (before p text)))
unfolding read_loop before after
read_loop_lem p zero text line column buffer h fits = absurd (omega arith)
read_loop_lem p (suc fuel) [] line column buffer h fits =
    scanned-eq true _ _ _ [] line _ _ (ground arith) (sym (append-nil buffer)) (omega arith)
read_loop_lem p (suc fuel) (c ∷ text) line column buffer h fits = elim (Bool-cases (p c)) [
  | inl in_class ↦ elim (lt-eq-gt (length buffer) 255) [
    | inl room ↦
        rw
          (
            in_class,
            check_buffer_length-ok (length buffer) room,
            put-ok buffer c (omega arith),
            read_loop_lem p fuel text line (column + 1) (buffer ++ c ∷ []) (omega arith)
                (omega (arith, length-snoc buffer c)),
          )
          (scanned-eq _ _ _ _ (after p text) line _ _
            (rw (length-snoc buffer c) (ap (λ n. leb n 255) (omega arith)))
            (append_assoc buffer (c ∷ []) (before p text)) (omega arith))
    | inr full ↦
        rw (in_class, check_buffer_length-exit (length buffer) (ground arith)) (ground arith)
  ]
  | inr other ↦ rw other (
      scanned-eq true _ _ _ (c ∷ text) line _ _ (ground arith) (sym (append-nil buffer))
        (omega arith))
]
