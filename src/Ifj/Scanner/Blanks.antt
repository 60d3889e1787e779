-- ===== src/Ifj/Scanner/Blanks.antt =====
-- 2/IFJ/scanner.c: what `skip_whitespace_and_comments` leaves of the text.
use vut_projects.Base.{
  ℕ, zero, suc, ◌+◌, ◌<◌, ◌≤◌, ◌≡◌, refl, Bool, true, false, not, ◌&&◌, ◌==◌, [], ◌∷◌, arith,
  if◌then◌else◌, length, Text, Bool-cases, inl, inr, ap, ==_iff,
}
use vut_projects.Ifj.Run.{Run, ok, ◌>>=◌, Returns, Returns-bind}
use vut_projects.Ifj.Scanner.{
  Scanner, unread, isspace, spaces_loop, comment_loop, skip_comment, skip_loop,
  skip_whitespace_and_comments,
}
use vut_projects.Ifj.Scanner.Position.{at, unread-at, after, length-before-after}

abbrev pub in_comment : ℕ → Bool
in_comment c = not (c == b'\n')

-- The second text is what is left of the first behind blank characters and comments.
pub data Skips : Text → Text → Type 0 where
  stop : (text : Text) → Skips text text
  space : (c : ℕ) (text rest : Text) → isspace c ≡ true → Skips text rest → Skips (c ∷ text) rest
  comment :
      (text rest : Text) → Skips (after in_comment text) rest → Skips (b'/' ∷ b'/' ∷ text) rest

-- A character of the class, or a comment, stands first.
unfoldable pub first_is : (ℕ → Bool) → Text → Bool
first_is p [] = false
first_is p (c ∷ text) = p c

unfoldable pub is_comment : Text → Bool
is_comment (c ∷ d ∷ text) = (c == b'/') && (d == b'/')
is_comment _ = false

pub length-Skips : (text rest : Text) → Skips text rest → length rest ≤ length text
length-Skips text rest (stop _) = omega arith
length-Skips text rest (space c t _ h s) = omega (arith, length-Skips t rest s)
length-Skips text rest (comment t _ s) =
    omega (arith, length-Skips (after in_comment t) rest s, length-before-after in_comment t)

Skips-spaces : (text rest : Text) → Skips (after isspace text) rest → Skips text rest
unfolding after
Skips-spaces [] rest s = s
Skips-spaces (c ∷ text) rest s = go (isspace c) refl (Skips-spaces text rest) s
  where
    go :
        (b : Bool)
        → isspace c ≡ b
        → (Skips (after isspace text) rest → Skips text rest)
        → Skips (if b then after isspace text else c ∷ text) rest
        → Skips (c ∷ text) rest
    go true h later s = space c text rest h (later s)
    go false h later s = s

spaces_loop_lem :
    (fuel : ℕ) (text : Text) (line column : ℕ)
    → length text < fuel
    → (line' : ℕ) × (column' : ℕ) × (spaces_loop fuel (at text line column)
        ≡ ok (at (after isspace text) line' column'))
unfolding spaces_loop after
spaces_loop_lem zero text line column h = absurd (omega arith)
spaces_loop_lem (suc fuel) [] line column h = (line, column, refl)
spaces_loop_lem (suc fuel) (c ∷ text) line column h = elim (Bool-cases (isspace c)) [
  | inl blank ↦ elim (Bool-cases (c == b'\n')) [
    | inl newline ↦
        let (line', column', run) = spaces_loop_lem fuel text (line + 1) 0 (omega arith) in
        (line', column', rw (blank, newline) run)
    | inr other ↦
        let (line', column', run) = spaces_loop_lem fuel text line (column + 1) (omega arith) in
        (line', column', rw (blank, other) run)
  ]
  | inr other ↦ (line, column, rw other refl)
]

comment_loop_lem :
    (fuel : ℕ) (text : Text) (line column : ℕ)
    → length text < fuel
    → (column' : ℕ) × (comment_loop fuel (at text line column)
        ≡ ok (at (after in_comment text) line column'))
unfolding comment_loop after
comment_loop_lem zero text line column h = absurd (omega arith)
comment_loop_lem (suc fuel) [] line column h = (column, refl)
comment_loop_lem (suc fuel) (c ∷ text) line column h = elim (Bool-cases (c == b'\n')) [
  | inl newline ↦ (column, rw newline refl)
  | inr other ↦
      let (column', run) = comment_loop_lem fuel text line (column + 1) (omega arith) in
      (column', rw other run)
]

after-first : (p : ℕ → Bool) (text : Text) → first_is p (after p text) ≡ false
unfolding after first_is
after-first p [] = refl
after-first p (c ∷ text) = ground (arith, after-first p text)

-- The scanner behind a comment that is skipped, or where it was if there is none.
Turn : Text → Bool × Scanner → Type 0
Turn text (true, s) =
    (rest : Text) × (line : ℕ) × (column : ℕ) × (text ≡ b'/' ∷ b'/' ∷ rest)
    × (s ≡ at (after in_comment rest) line column)
Turn text (false, s) =
    (line : ℕ) × (column : ℕ) × (s ≡ at text line column) × (is_comment text ≡ false)

slashes :
    (text : Text) (line column : ℕ)
    → (column' : ℕ) × (skip_comment (at (b'/' ∷ b'/' ∷ text) line column)
        ≡ ok (true, at (after in_comment text) line column'))
unfolding skip_comment after
slashes text line column =
    let (column', run) =
      comment_loop_lem (suc (unread (at (b'/' ∷ b'/' ∷ text) line column))) (b'/' ∷ text) line
        column (omega arith) in
    (column', ap (λ m. m >>= λ s. ok (true, s)) run)

skip_comment-Turn :
    (text : Text) (line column : ℕ) → Returns (skip_comment (at text line column)) (Turn text)
unfolding skip_comment is_comment Turn
skip_comment-Turn [] line column = (_, refl, (line, column, refl, refl))
skip_comment-Turn (c ∷ []) line column = elim (Bool-cases (c == b'/')) [
  | inl slash ↦ rw slash (_, refl, (line, column, refl, refl))
  | inr other ↦ rw other (_, refl, (line, column, refl, refl))
]
skip_comment-Turn (c ∷ d ∷ text) line column = elim (Bool-cases (c == b'/')) [
  | inl slash ↦ elim (Bool-cases (d == b'/')) [
    | inl both ↦
        let (column', run) = slashes text line column in
        rw ((==_iff c b'/').0 slash, (==_iff d b'/').0 both)
          (_, run, (text, line, column', refl, refl))
    | inr one ↦ rw (slash, one) (_, refl, (line, column, refl, ground arith))
  ]
  | inr other ↦ rw other (_, refl, (line, column, refl, ground arith))
]

-- The scanner is in front of what is left behind all blanks and comments.
abbrev pub Skipped : Text → Scanner → Type 0
Skipped text s =
    (rest : Text) × (line : ℕ) × (column : ℕ) × (s ≡ at rest line column)
    × Skips text rest
    × (first_is isspace rest ≡ false)
    × (is_comment rest ≡ false)

after-Turn :
    (again : Scanner → Run Scanner) (text : Text) (skipping : Bool) (s : Scanner)
    → Turn (after isspace text) (skipping, s)
    → ((rest : Text) (line column : ℕ)
        → length rest < length text
        → Returns (again (at rest line column)) (Skipped rest))
    → Returns (if skipping then again s else ok s) (Skipped text)
unfolding Turn
after-Turn again text true s (rest, line, column, e, at_rest) later =
    let shorter : length (after in_comment rest) < length text =
      omega (
        arith,
        length-before-after isspace text,
        length-before-after in_comment rest,
        ap length e,
      ) in
    let (s', run, (left, line', column', at_left, skips, dark, code)) =
      later (after in_comment rest) line column shorter in
    let behind : Skips text left = Skips-spaces text left (rw e (comment rest left skips)) in
    rw at_rest (s', run, (left, line', column', at_left, behind, dark, code))
after-Turn again text false s (line, column, at_rest, other) later =
    let behind : Skips text (after isspace text) = Skips-spaces text _ (stop _) in
    (s, refl, (after isspace text, line, column, at_rest, behind, after-first isspace text, other))

skip_loop-Skipped :
    (fuel : ℕ) (text : Text) (line column : ℕ)
    → length text < fuel
    → Returns (skip_loop fuel (at text line column)) (Skipped text)
unfolding skip_loop
skip_loop-Skipped zero text line column h = absurd (omega arith)
skip_loop-Skipped (suc fuel) text line column h =
    let (line', column', run) =
      spaces_loop_lem (suc (length text)) text line column (omega arith) in
    rw (unread-at text line column, run)
      (Returns-bind (Turn (after isspace text)) (Skipped text) _ _
        (skip_comment-Turn (after isspace text) line' column')
        (λ r turn.
          after-Turn (skip_loop fuel) text r.0 r.1 turn
            (λ rest line column shorter. skip_loop-Skipped fuel rest line column (omega arith))))

-- At any text the skipping ends without an error. It leaves what is behind whole blanks and comments,
-- and neither a blank nor a comment stands first in that.
pub skip-Skipped :
    (text : Text) (line column : ℕ)
    → Returns (skip_whitespace_and_comments (at text line column)) (Skipped text)
unfolding skip_whitespace_and_comments
skip-Skipped text line column =
    skip_loop-Skipped (suc (unread (at text line column))) text line column
      (omega (arith, unread-at text line column))
