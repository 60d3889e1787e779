-- ===== src/Ifj/Codegen/Numbers.antt =====
-- 2/IFJ/codegen.c, 2/IFJ/utils.c: what `%d` prints, and where a character stands in a name.
use vut_projects.Base.{
  ℕ, zero, suc, sym, ap, ◌∙◌, ◌+◌, ◌-◌, ◌*◌, ◌/◌, ◌%◌, ◌^◌, ◌≤◌, ◌<◌, ◌≡◌, refl, inl, inr, true,
  false, ◌||◌, ◌==◌, none, some, [], ◌∷◌, ◌++◌, ltb, arith, length, length-snoc, Text, Bool-cases,
}
use vut_projects.Ifj.Utils.{digits, decimal, has_char}
use vut_projects.Ifj.Codegen.{split_last}

abbrev value_from : ℕ → Text → ℕ
value_from n [] = n
value_from n (c ∷ text) = value_from (n * 10 + (c - b'0')) text

value_from-snoc :
    (n : ℕ) (text : Text) (c : ℕ)
    → value_from n (text ++ c ∷ []) ≡ value_from n text * 10 + (c - b'0')
value_from-snoc n [] c = refl
value_from-snoc n (d ∷ text) c = value_from-snoc (n * 10 + (d - b'0')) text c

value_from-digits : (fuel n : ℕ) → n < fuel → value_from 0 (digits fuel n) ≡ n
unfolding digits
value_from-digits zero n h = absurd (omega arith)
value_from-digits (suc fuel) n h = elim (Bool-cases (ltb n 10)) [
  | inl short ↦ rw short (omega arith)
  | inr long ↦
      let more : 10 ≤ n = ground arith in
      rw
        (
          long,
          value_from-snoc 0 (digits fuel (n / 10)) (b'0' + n % 10),
          value_from-digits fuel (n / 10) (omega arith),
        )
        (omega arith)
]

pub decimal-injective : (n m : ℕ) → decimal n ≡ decimal m → n ≡ m
unfolding decimal
decimal-injective n m h =
    sym (value_from-digits (suc n) n (omega arith))
    ∙ ap (value_from 0) h
    ∙ value_from-digits (suc m) m (omega arith)

pub has_char-append :
    (c : ℕ) (text text' : Text) → has_char c (text ++ text') ≡ (has_char c text || has_char c text')
has_char-append c [] text' = refl
has_char-append c (d ∷ text) text' = ground (arith, has_char-append c text text')

-- The digits of a number have no character in front of `0` and none behind `9`.
not_digit : (c fuel n : ℕ) → (ltb c b'0' || ltb b'9' c) ≡ true → has_char c (digits fuel n) ≡ false
unfolding digits
not_digit c zero n h = refl
not_digit c (suc fuel) n h = elim (Bool-cases (ltb n 10)) [
  | inl short ↦ rw short (ground arith)
  | inr long ↦
      let other : (c == (b'0' + n % 10)) ≡ false = ground arith in
      rw
        (
          long,
          has_char-append c (digits fuel (n / 10)) ((b'0' + n % 10) ∷ []),
          not_digit c fuel (n / 10) h,
          other,
        )
        refl
]

pub has_char-decimal :
    (c n : ℕ) → (ltb c b'0' || ltb b'9' c) ≡ true → has_char c (decimal n) ≡ false
unfolding decimal
has_char-decimal c n h = not_digit c (suc n) n h

length-digits : (fuel k n : ℕ) → n < 10 ^ suc k → length (digits fuel n) ≤ suc k
unfolding digits
length-digits zero k n h = omega arith
length-digits (suc fuel) zero n h =
    let short : ltb n 10 ≡ true = ground arith in rw short (omega arith)
length-digits (suc fuel) (suc k) n h = elim (Bool-cases (ltb n 10)) [
  | inl short ↦ rw short (omega arith)
  | inr long ↦
      rw (long, length-snoc (digits fuel (n / 10)) (b'0' + n % 10))
        (omega (arith, length-digits fuel k (n / 10) (omega arith)))
]

-- An `int` has ten digits at most.
pub length-decimal : (n : ℕ) → n < 2 ^ 31 → length (decimal n) ≤ 10
unfolding decimal
length-decimal n h = length-digits (suc n) 9 n (omega arith)

split_last-none : (c : ℕ) (text : Text) → has_char c text ≡ false → split_last c text ≡ none
split_last-none c [] h = refl
split_last-none c (d ∷ text) h =
    let other : (d == c) ≡ false = ground arith in
    rw (split_last-none c text (ground arith), other) refl

pub split_last-append :
    (c : ℕ) (prefix text : Text)
    → has_char c text ≡ false
    → split_last c (prefix ++ c ∷ text) ≡ some (prefix, text)
split_last-append c [] text h =
    let same : (c == c) ≡ true = ground arith in rw (split_last-none c text h, same) refl
split_last-append c (d ∷ prefix) text h = rw (split_last-append c prefix text h) refl
