-- ===== src/Chained/Chain.antt =====
-- One chain: the walk to the first item with a key, a write through the pointer that it returns,
-- and the unlinking of that item.
use vut_projects.Base.{
  ◌+◌, ◌≡◌, refl, Bool, true, Option, none, some, List, [], ◌∷◌, ◌++◌, arith, if◌then◌else◌,
  is_some, length, Text, Bool-cases, inl, inr, sym, ◌∙◌, text_eq, eq_of_text_eq,
}

module _ {A : Type 0} (holds : Text → A → Bool) where
  unfoldable pub find : Text → List A → Option A
  find k [] = none
  find k (a ∷ c) = if holds k a then some a else find k c

  unfoldable pub update : Text → (A → A) → List A → List A
  update k f [] = []
  update k f (a ∷ c) = if holds k a then f a ∷ c else a ∷ update k f c

  unfoldable pub erase : Text → List A → List A
  erase k [] = []
  erase k (a ∷ c) = if holds k a then c else a ∷ erase k c

  -- No key twice.
  abbrev pub IsDistinct : List A → Type 0
  IsDistinct [] = Unit
  IsDistinct (a ∷ c) = ((k : Text) → holds k a ≡ true → find k c ≡ none) × IsDistinct c

  pub find-append :
      (k : Text) (c d : List A)
      → find k (c ++ d) ≡ (if is_some (find k c) then find k c else find k d)
  unfolding find
  find-append k [] d = refl
  find-append k (a ∷ c) d = ground (arith, find-append k c d)

abbrev pub map_some {ℓ} : {A : Type ℓ} → (A → A) → Option A → Option A
map_some f none = none
map_some f (some a) = some (f a)

-- An item has one key.
abbrev pub IsKeyed : {A : Type 0} → (Text → A → Bool) → Type 0
IsKeyed {A} holds = (k j : Text) (a : A) → holds k a ≡ true → holds j a ≡ text_eq k j

module _ {A : Type 0} (holds : Text → A → Bool) (keyed : IsKeyed holds) where
  pub find-update :
      (k j : Text) (f : A → A) (c : List A)
      → ((i : Text) (a : A) → holds i (f a) ≡ holds i a)
      → find holds j (update holds k f c)
        ≡ (if text_eq k j then map_some f (find holds j c) else find holds j c)
  unfolding find update
  find-update k j f [] same = ground arith
  find-update k j f (a ∷ c) same =
      ground
        (arith, find-update k j f c same, same j a, keyed k j a, keyed j k a, eq_of_text_eq k j)

  pub find-erase :
      (k j : Text) (c : List A)
      → IsDistinct holds c
      → find holds j (erase holds k c) ≡ (if text_eq k j then none else find holds j c)
  unfolding find erase
  find-erase k j [] d = ground arith
  find-erase k j (a ∷ c) d =
      ground (arith, find-erase k j c, keyed k j a, keyed j k a, d.0 j, eq_of_text_eq k j)

  pub update-IsDistinct :
      (k : Text) (f : A → A) (c : List A)
      → ((i : Text) (a : A) → holds i (f a) ≡ holds i a)
      → IsDistinct holds c
      → IsDistinct holds (update holds k f c)
  unfolding update
  update-IsDistinct k f [] same d = tt
  update-IsDistinct k f (a ∷ c) same d = elim (Bool-cases (holds k a)) [
    | inl hit ↦ rw hit ((λ i h. d.0 i (sym (same i a) ∙ h)), d.1)
    | inr miss ↦ rw miss (
      (λ i h. find-update k i f c same ∙ rw (d.0 i h) (ground arith)),
      update-IsDistinct k f c same d.1,
    )
  ]

  pub erase-IsDistinct :
      (k : Text) (c : List A) → IsDistinct holds c → IsDistinct holds (erase holds k c)
  unfolding erase
  erase-IsDistinct k [] d = tt
  erase-IsDistinct k (a ∷ c) d = elim (Bool-cases (holds k a)) [
    | inl hit ↦ rw hit d.1
    | inr miss ↦
        rw miss
          ((λ i h. find-erase k i c d.1 ∙ rw (d.0 i h) (ground arith)), erase-IsDistinct k c d.1)
  ]

  pub length-erase :
      (k : Text) (c : List A)
      → is_some (find holds k c) ≡ true
      → length (erase holds k c) + 1 ≡ length c
  unfolding find erase
  length-erase k [] h = cc
  length-erase k (a ∷ c) h = ground (arith, length-erase k c)

  pub length-update : (k : Text) (f : A → A) (c : List A) → length (update holds k f c) ≡ length c
  unfolding update
  length-update k f [] = refl
  length-update k f (a ∷ c) = ground (arith, length-update k f c)
