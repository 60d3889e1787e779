-- ===== src/Ifj/Scanner/Safe.antt =====
-- 2/IFJ/scanner.c: no scan writes behind its buffer, and each loop ends.
use vut_projects.Base.{
  ℕ, suc, ◌+◌, ◌==◌, ◌||◌, ◌<◌, ◌≤◌, ◌≡◌, refl, Bool, true, false, not, [], ◌∷◌, ◌++◌, arith,
  if◌then◌else◌, length, Text, Bool-cases, inl, inr, length-snoc, lt-eq-gt, length-append,
}
use vut_projects.Ifj.Run.{exit, Ensures, Ensures-weaken, err_lexical}
use vut_projects.Ifj.Scanner.{Scanner, Token, unread, isdigit, current_is}
use vut_projects.Ifj.Scanner.Scan.{read_loop, read_digits, handle_fraction, handle_exponent}
use vut_projects.Ifj.Scanner.Position.{
  at, unread-at, before, after, length-before-after, scanned, read_loop_lem, check_buffer_length-ok,
  check_buffer_length-exit, put-ok,
}

-- A part of a literal that fits in the buffer with its final zero, in front of at most `n`
-- characters.
abbrev pub Part : ℕ → Text × Scanner → Type 0
Part n (buffer, s) =
    (length buffer ≤ 255)
    × (rest : Text) × (line : ℕ) × (column : ℕ) × (s ≡ at rest line column)
    × (length rest ≤ n)

-- A token in front of fewer than `n` characters.
abbrev pub Scanned : ℕ → Token × Scanner → Type 0
Scanned n (token, s) =
    (rest : Text) × (line : ℕ) × (column : ℕ) × (s ≡ at rest line column) × (length rest < n)

Ensures-scanned :
    (fits : Bool) (buffer : Text) (s : Scanner) (n : ℕ)
    → (fits ≡ true → Part n (buffer, s))
    → Ensures (scanned fits buffer s) err_lexical (Part n)
unfolding Ensures
Ensures-scanned true buffer s n h = h refl
Ensures-scanned false buffer s n h = refl

pub read_loop-Part :
    (p : ℕ → Bool) (text : Text) (line column : ℕ) (buffer : Text)
    → length buffer ≤ 255
    → Ensures
        (read_loop p (suc (unread (at text line column))) (at text line column) buffer)
        err_lexical
        (Part (length (after p text)))
unfolding Ensures
read_loop-Part p text line column buffer fits =
    rw
      (
        unread-at text line column,
        read_loop_lem p (suc (length text)) text line column buffer (omega arith) fits,
      )
      (Ensures-scanned _ (buffer ++ before p text) _ _ λ h. (
        ground (arith, length-append buffer (before p text)),
        after p text,
        line,
        column + length (before p text),
        refl,
        omega arith,
      ))

pub length-after : (p : ℕ → Bool) (text : Text) → length (after p text) ≤ length text
length-after p text = omega (arith, length-before-after p text)

pub length-after-first :
    (p : ℕ → Bool) (c : ℕ) (text : Text) → p c ≡ true → length (after p (c ∷ text)) ≤ length text
unfolding after
length-after-first p c text h = rw h (length-after p text)

pub Part-weaken : (n m : ℕ) (r : Text × Scanner) → n ≤ m → Part n r → Part m r
Part-weaken n m r h (fits, rest, line, column, e, short) =
    (fits, rest, line, column, e, omega arith)

-- Digits from a first one on: if the buffer is full already, the scan ends with code 1.
pub read_digits-Part :
    (n : ℕ) (text : Text) (line column : ℕ) (buffer : Text)
    → current_is isdigit (at text line column) ≡ true
    → length buffer ≤ 256
    → length text ≤ suc n
    → Ensures (read_digits (at text line column) buffer) err_lexical (Part n)
unfolding read_digits Ensures
read_digits-Part n [] line column buffer digit fits short = cc
read_digits-Part n (c ∷ text) line column buffer digit fits short =
    elim (lt-eq-gt (length buffer) 256) [
      | inl room ↦
          Ensures-weaken err_lexical (Part (length (after isdigit (c ∷ text)))) (Part n) _
            (read_loop-Part isdigit (c ∷ text) line column buffer (omega arith))
            (λ r. Part-weaken _ n r (omega (arith, length-after-first isdigit c text digit)))
      | inr full ↦ rw (digit, check_buffer_length-exit (length buffer) (ground arith)) refl
    ]

digits-Part :
    (n : ℕ) (text : Text) (line column : ℕ) (buffer : Text)
    → length buffer ≤ 256
    → length text ≤ suc n
    → Ensures
        (if not (current_is isdigit (at text line column))
          then exit err_lexical
          else read_digits (at text line column) buffer)
        err_lexical
        (Part n)
unfolding Ensures
digits-Part n text line column buffer fits short =
    elim (Bool-cases (current_is isdigit (at text line column))) [
      | inl digit ↦ rw digit (read_digits-Part n text line column buffer digit fits short)
      | inr other ↦ rw other refl
    ]

pub handle_fraction-Part :
    (c : ℕ) (text : Text) (line column : ℕ) (buffer : Text)
    → length buffer ≤ 255
    → Ensures (handle_fraction (at (c ∷ text) line column) buffer) err_lexical (Part (length text))
unfolding handle_fraction Ensures
handle_fraction-Part c text line column buffer fits = elim (lt-eq-gt (length buffer) 255) [
  | inl room ↦
      rw (check_buffer_length-ok (length buffer) room, put-ok buffer c (omega arith))
        (digits-Part (length text) text line (column + 1) (buffer ++ c ∷ [])
          (omega (arith, length-snoc buffer c)) (omega arith))
  | inr full ↦ rw (check_buffer_length-exit (length buffer) (ground arith)) refl
]

abbrev is_sign : ℕ → Bool
is_sign c = (c == b'+') || (c == b'-')

-- The exponent's letter is written without a test of the index, but the buffer still has room.
pub handle_exponent-Part :
    (c : ℕ) (text : Text) (line column : ℕ) (buffer : Text)
    → length buffer ≤ 255
    → Ensures (handle_exponent (at (c ∷ text) line column) buffer) err_lexical (Part (length text))
unfolding handle_exponent Ensures
handle_exponent-Part c [] line column buffer fits = rw (put-ok buffer c (omega arith)) refl
handle_exponent-Part c (d ∷ text) line column buffer fits =
    let short = length-snoc buffer c in
    elim (Bool-cases (is_sign d)) [
      | inl sign ↦ elim (lt-eq-gt (length (buffer ++ c ∷ [])) 255) [
        | inl room ↦
            rw
              (
                put-ok buffer c (omega arith),
                sign,
                check_buffer_length-ok (length (buffer ++ c ∷ [])) room,
                put-ok (buffer ++ c ∷ []) d (omega arith),
              )
              (digits-Part (suc (length text)) text line (column + 1 + 1)
                ((buffer ++ c ∷ []) ++ d ∷ []) (omega (arith, length-snoc (buffer ++ c ∷ []) d))
                (omega arith))
        | inr full ↦
            rw
              (
                put-ok buffer c (omega arith),
                sign,
                check_buffer_length-exit (length (buffer ++ c ∷ [])) (ground arith),
              )
              refl
      ]
      | inr other ↦
          rw (put-ok buffer c (omega arith), other)
            (digits-Part (suc (length text)) (d ∷ text) line (column + 1) (buffer ++ c ∷ [])
              (omega arith) (omega arith))
    ]
