-- ===== src/Ial/HashTable/Slot.antt =====
-- 2/IAL/2/hashtable.c: the index of a key, and where it leaves the array.
use native.Mathlib.Nat.{mod-lt}
use vut_projects.Base.{
  ℕ, ap, ◌↔◌, ◌≢◌, Option, some, ◌>>=◌, Bool-cases, inl, inr, leb, leb→le, zero, suc, ◌+◌, ◌-◌, ◌%◌,
  ◌<◌, ◌≡◌, refl, none, [], ◌∷◌, arith, Text,
}
use vut_projects.Base.Int.{ℤ, pos, negsuc, pos_part, neg_part, sub_ℕ, ◌+ℤ◌, rem}
use vut_projects.Ial.HashTable.{Table, index, char_value, hash_loop, get_hash, ht_search}

-- The index, where the hash is not negative.
unfoldable pub slot : (ht_size : ℕ) → Text → ℕ
slot ht_size key = pos_part (get_hash ht_size key)

-- The hash is not negative.
abbrev pub IsInside : (ht_size : ℕ) → Text → Type 0
IsInside ht_size key = neg_part (get_hash ht_size key) ≡ 0

abbrev pub IsAscii : Text → Type 0
IsAscii [] = Unit
IsAscii (b ∷ key) = (b < 128) × IsAscii key

-- The sum of the bytes that are characters of ASCII, and what the others take away.
unfoldable pub gain : Text → ℕ
gain [] = 0
gain (b ∷ key) = pos_part (char_value b) + gain key

unfoldable pub loss : Text → ℕ
loss [] = 0
loss (b ∷ key) = neg_part (char_value b) + loss key

+ℤ_parts :
    (a b : ℤ)
    → pos_part (a +ℤ b) + neg_part a + neg_part b ≡ neg_part (a +ℤ b) + pos_part a + pos_part b
unfolding ◌+ℤ◌
+ℤ_parts a b = ground arith

hash_loop_parts :
    (key : Text) (r : ℤ)
    → pos_part (hash_loop key r) + neg_part r + loss key
      ≡ neg_part (hash_loop key r) + pos_part r + gain key
unfolding hash_loop gain loss
hash_loop_parts [] r = omega arith
hash_loop_parts (b ∷ key) r =
    omega (arith, hash_loop_parts key (r +ℤ char_value b), +ℤ_parts r (char_value b))

eq-sub_ℕ : (z : ℤ) (a b : ℕ) → pos_part z + b ≡ neg_part z + a → z ≡ sub_ℕ a b
eq-sub_ℕ z a b h = ground arith

pub get_hash-sub :
    (ht_size : ℕ) (key : Text)
    → get_hash ht_size key ≡ rem (sub_ℕ (gain key + 1) (loss key)) ht_size
unfolding get_hash
get_hash-sub ht_size key =
    ap (λ z. rem z ht_size)
      (eq-sub_ℕ (hash_loop key (pos 1)) (gain key + 1) (loss key)
        (omega (arith, hash_loop_parts key (pos 1))))

rem_lt : (z : ℤ) (m : ℕ) → 0 < m → pos_part (rem z m) < m
unfolding rem
rem_lt (pos n) m h = mod-lt n h
rem_lt (negsuc n) m h = ground arith

pub slot-lt : (ht_size : ℕ) (key : Text) → 0 < ht_size → slot ht_size key < ht_size
unfolding slot get_hash
slot-lt ht_size key h = rem_lt (hash_loop key (pos 1)) ht_size h

-- With bytes of ASCII only, the hash is the sum of the bytes and one, taken modulo the size.
loss-IsAscii : (key : Text) → IsAscii key → loss key ≡ 0
unfolding loss char_value
loss-IsAscii [] a = refl
loss-IsAscii (b ∷ key) a = ground (arith, loss-IsAscii key)

pub IsAscii-IsInside : (ht_size : ℕ) (key : Text) → IsAscii key → IsInside ht_size key
unfolding rem
IsAscii-IsInside ht_size key a = rw (get_hash-sub ht_size key, loss-IsAscii key a) (ground arith)

none_of_bind : {A B : Type 0} (m : Option A) (f : A → B) → (m >>= λ a. some (f a)) ≡ none → m ≡ none
none_of_bind none f e = refl
none_of_bind (some a) f e = cc

negative : (r a b : ℕ) → a < b → (index (sub_ℕ 0 r) ≡ none) ↔ ((a < b) × (r ≢ 0))
negative zero a b h = ((λ e. cc), λ p. absurd (p.1 refl))
negative (suc r) a b h = ((λ e. (h, omega arith)), λ p. ground arith)

index-none : (a b m : ℕ) → (index (rem (sub_ℕ a b) m) ≡ none) ↔ ((a < b) × ((b - a) % m ≢ 0))
unfolding rem
index-none a b m = elim (Bool-cases (leb b a)) [
  | inl above ↦ rw (above, rem) ((λ h. cc), λ h. absurd (omega (arith, leb→le b a above)))
  | inr below ↦
      let h : a < b = ground arith in
      let e : suc (b - a - 1) ≡ b - a = omega arith in
      rw (below, rem, e) (negative ((b - a) % m) a b h)
]

module _ {V : Type 0} where
  -- A search reads outside the array exactly when the bytes from 128 on take away more than the
  -- others and the one add, by an amount that the size does not divide.
  pub search-none_iff :
      (ht_size : ℕ) (table : Table V) (key : Text)
      → (ht_search ht_size table key ≡ none)
        ↔ ((gain key + 1 < loss key) × ((loss key - (gain key + 1)) % ht_size ≢ 0))
  unfolding ht_search rem
  search-none_iff ht_size table key =
      let (there, back) = index-none (gain key + 1) (loss key) ht_size in
      rw (get_hash-sub ht_size key) (
        (λ e. there (none_of_bind (index (rem (sub_ℕ (gain key + 1) (loss key)) ht_size)) _ e)),
        λ p. rw (back p),
      )
