-- ===== src/Chained/Buckets.antt =====
-- An array of chains with a slot for each key: where items stand, and writes to one chain.
use native.Mathlib.Nat.{sub-zero}
use vut_projects.Base.{
  ℕ, zero, suc, ◌+◌, ◌-◌, ◌<◌, ◌≡◌, sym, ◌∙◌, Bool, true, Option, none, List, [], ◌∷◌, arith, ltb,
  ◌==◌, if◌then◌else◌, is_some, length, get_or, set, get_or-set, length-append, Text, ap, inl, inr,
  ◌⊎◌, text_eq, eq_of_text_eq, lt-eq-gt, ◌++◌,
}
use vut_projects.Chained.Chain.{find, IsDistinct, find-append}

abbrev pub flatten : {A : Type 0} → List (List A) → List A
flatten [] = []
flatten (c ∷ cs) = c ++ flatten cs

module _ {A : Type 0} (holds : Text → A → Bool) (slot : Text → ℕ) where
  -- What the walk along the chain of a key finds.
  unfoldable pub view : List (List A) → Text → Option A
  view bs k = find holds k (get_or bs (slot k) [])

  -- From index `i` on, a key is found only in its own chain.
  abbrev pub PlacedFrom : ℕ → List (List A) → Type 0
  PlacedFrom i [] = Unit
  PlacedFrom i (c ∷ cs) =
      ((k : Text) → is_some (find holds k c) ≡ true → slot k ≡ i) × PlacedFrom (suc i) cs

  abbrev pub AllDistinct : List (List A) → Type 0
  AllDistinct [] = Unit
  AllDistinct (c ∷ cs) = IsDistinct holds c × AllDistinct cs

  -- A key stands at most once in the array, and in its own chain.
  pub record IsPlaced (bs : List (List A)) : Type 0 where
    pub placed : PlacedFrom 0 bs
    pub distinct : AllDistinct bs

  pub placed_at :
      (i x : ℕ) (k : Text) (bs : List (List A))
      → PlacedFrom i bs
      → is_some (find holds k (get_or bs x [])) ≡ true
      → slot k ≡ i + x
  unfolding find
  placed_at i x k [] p h = cc
  placed_at i zero k (c ∷ cs) p h = omega (arith, p.0 k h)
  placed_at i (suc x) k (c ∷ cs) p h = omega (arith, placed_at (suc i) x k cs p.1 h)

  pub IsDistinct-at :
      (x : ℕ) (bs : List (List A)) → AllDistinct bs → IsDistinct holds (get_or bs x [])
  IsDistinct-at x [] d = tt
  IsDistinct-at zero (c ∷ cs) d = d.0
  IsDistinct-at (suc x) (c ∷ cs) d = IsDistinct-at x cs d.1

  pub PlacedFrom-set :
      (i x : ℕ) (c : List A) (bs : List (List A))
      → PlacedFrom i bs
      → ((k : Text) → is_some (find holds k c) ≡ true → slot k ≡ i + x)
      → PlacedFrom i (set bs x c)
  PlacedFrom-set i x c [] p h = tt
  PlacedFrom-set i zero c (b ∷ bs) p h = ((λ k e. omega (arith, h k e)), p.1)
  PlacedFrom-set i (suc x) c (b ∷ bs) p h =
      (p.0, PlacedFrom-set (suc i) x c bs p.1 (λ k e. omega (arith, h k e)))

  pub AllDistinct-set :
      (x : ℕ) (c : List A) (bs : List (List A))
      → AllDistinct bs
      → IsDistinct holds c
      → AllDistinct (set bs x c)
  AllDistinct-set x c [] d e = tt
  AllDistinct-set zero c (b ∷ bs) d e = (e, d.1)
  AllDistinct-set (suc x) c (b ∷ bs) d e = (d.0, AllDistinct-set x c bs d.1 e)

  -- A write of the chain of `k` changes what is found under the keys of that chain only.
  pub view-set :
      (bs : List (List A)) (k j : Text) (c : List A)
      → slot k < length bs
      → view (set bs (slot k) c) j ≡ (if slot k == slot j then find holds j c else view bs j)
  unfolding view
  view-set bs k j c h = rw (get_or-set bs (slot k) (slot j) c [] h) (ground arith)

  pub length-flatten-set :
      (bs : List (List A)) (x : ℕ) (c : List A)
      → x < length bs
      → length (flatten (set bs x c)) + length (get_or bs x []) ≡ length (flatten bs) + length c
  length-flatten-set [] x c h = absurd (omega arith)
  length-flatten-set (b ∷ bs) zero c h =
      omega (arith, length-append c (flatten bs), length-append b (flatten bs))
  length-flatten-set (b ∷ bs) (suc x) c h = omega (
    arith,
    length-append b (flatten (set bs x c)),
    length-append b (flatten bs),
    length-flatten-set bs x c,
  )

  -- A new chain for `k` that holds no key but `k` and those it held keeps the invariant.
  pub IsPlaced-set :
      (bs : List (List A)) (k : Text) (c : List A)
      → IsPlaced bs
      → IsDistinct holds c
      → ((j : Text)
          → is_some (find holds j c) ≡ true
          → (text_eq k j ≡ true) ⊎ (is_some (find holds j (get_or bs (slot k) [])) ≡ true))
      → IsPlaced (set bs (slot k) c)
  IsPlaced-set bs k c v d h = record {
    placed = PlacedFrom-set 0 (slot k) c bs v.placed λ j e. elim (h j e) [
      | inl same ↦ ap slot (sym (eq_of_text_eq k j same)) ∙ omega arith
      | inr old ↦ placed_at 0 (slot k) j bs v.placed old
    ];
    distinct = AllDistinct-set (slot k) c bs v.distinct d;
  }

  find-flatten :
      (i : ℕ) (k : Text) (bs : List (List A))
      → PlacedFrom i bs
      → find holds k (flatten bs)
        ≡ (if ltb (slot k) i then none else find holds k (get_or bs (slot k - i) []))
  unfolding find
  find-flatten i k [] p = ground arith
  find-flatten i k (c ∷ cs) p =
      rw (find-append holds k c (flatten cs), find-flatten (suc i) k cs p.1)
        (elim (lt-eq-gt i (slot k)) [
          | inl above ↦
              let e : slot k - i ≡ suc (slot k - suc i) = omega arith in
              rw e (ground (arith, p.0 k))
          | inr (inl here) ↦ let e : slot k - i ≡ 0 = omega arith in rw e (ground (arith, p.0 k))
          | inr (inr below) ↦ ground (arith, p.0 k)
        ])

  -- All the chains in one keep every lookup.
  pub find-flatten-view :
      (k : Text) (bs : List (List A)) → IsPlaced bs → find holds k (flatten bs) ≡ view bs k
  unfolding view
  find-flatten-view k bs v = find-flatten 0 k bs v.placed ∙ rw sub-zero (ground arith)

  append-IsDistinct :
      (c d : List A)
      → IsDistinct holds c
      → IsDistinct holds d
      → ((k : Text) → is_some (find holds k c) ≡ true → find holds k d ≡ none)
      → IsDistinct holds (c ++ d)
  unfolding find
  append-IsDistinct [] d sc sd h = sd
  append-IsDistinct (a ∷ c) d sc sd h = (
    (λ k e. rw (find-append holds k c d, sc.0 k e, h k (rw e))),
    append-IsDistinct c d sc.1 sd (λ k e. h k (ground arith)),
  )

  flatten-IsDistinct :
      (i : ℕ) (bs : List (List A))
      → PlacedFrom i bs
      → AllDistinct bs
      → IsDistinct holds (flatten bs)
  flatten-IsDistinct i [] p d = tt
  flatten-IsDistinct i (c ∷ cs) p d =
      append-IsDistinct c (flatten cs) d.0 (flatten-IsDistinct (suc i) cs p.1 d.1)
        (λ k e. find-flatten (suc i) k cs p.1 ∙ rw (p.0 k e) (ground arith))

  pub flatten-IsDistinct_lem : (bs : List (List A)) → IsPlaced bs → IsDistinct holds (flatten bs)
  flatten-IsDistinct_lem bs v = flatten-IsDistinct 0 bs v.placed v.distinct
