-- ===== src/Chained/Move.antt =====
-- Items put one by one at the head of their chains in another array, as a rehash does.
use vut_projects.Base.{
  ℕ, ◌+◌, ◌<◌, ◌≡◌, refl, ◌∙◌, Bool, true, none, List, [], ◌∷◌, arith, if◌then◌else◌, is_some,
  length, get_or, set, length-set, Text, ◌++◌,
}
use vut_projects.Chained.Chain.{find, IsDistinct, IsKeyed}
use vut_projects.Chained.Buckets.{flatten, view, IsPlaced}
use vut_projects.Chained.Writes.{view-push, push-IsPlaced, length-flatten-push}

module _ {A : Type 0} (key_of : A → Text) (slot : Text → ℕ) where
  unfoldable pub push_item : A → List (List A) → List (List A)
  push_item a bs = set bs (slot (key_of a)) (a ∷ get_or bs (slot (key_of a)) [])

  unfoldable pub push_items : List A → List (List A) → List (List A)
  push_items [] bs = bs
  push_items (a ∷ as') bs = push_items as' (push_item a bs)

  pub push_items-append :
      (c d : List A) (bs : List (List A)) → push_items (c ++ d) bs ≡ push_items d (push_items c bs)
  unfolding push_items
  push_items-append [] d bs = refl
  push_items-append (a ∷ c) d bs = push_items-append c d (push_item a bs)

  module _ (holds : Text → A → Bool) (keyed : IsKeyed holds)
      (own : (a : A) → holds (key_of a) a ≡ true) (width : ℕ)
      (room : (k : Text) → slot k < width) where
    pub length-push_items :
        (es : List A) (bs : List (List A)) → length (push_items es bs) ≡ length bs
    unfolding push_items push_item
    length-push_items [] bs = refl
    length-push_items (a ∷ es) bs = length-push_items es _ ∙ length-set bs _ _

    -- What is found afterwards is the moved item, or what was there before.
    pub view-push_items :
        (es : List A) (bs : List (List A)) (j : Text)
        → length bs ≡ width
        → IsDistinct holds es
        → view holds slot (push_items es bs) j
          ≡ (if is_some (find holds j es) then find holds j es else view holds slot bs j)
    unfolding find push_items push_item
    view-push_items [] bs j w d = refl
    view-push_items (a ∷ es) bs j w d =
        let k = key_of a in
        rw (view-push_items es (push_item a bs) j (length-set bs _ _ ∙ w) d.1) (
          rw (view-push holds slot keyed bs k (rw w (room k)) a j (own a))
            (ground (arith, keyed k j a, own a, d.0 j)))

    pub push_items-IsPlaced :
        (es : List A) (bs : List (List A))
        → length bs ≡ width
        → IsDistinct holds es
        → ((k : Text) → is_some (find holds k es) ≡ true → view holds slot bs k ≡ none)
        → IsPlaced holds slot bs
        → IsPlaced holds slot (push_items es bs)
          × (length (flatten (push_items es bs)) ≡ length es + length (flatten bs))
    unfolding find push_items push_item
    push_items-IsPlaced [] bs w d apart v = (v, omega arith)
    push_items-IsPlaced (a ∷ es) bs w d apart v =
        let k = key_of a in
        let fits : slot k < length bs = rw w (room k) in
        let (placed, count) =
          push_items-IsPlaced es (push_item a bs) (length-set bs _ _ ∙ w) d.1
            (λ j e.
              rw (view-push holds slot keyed bs k fits a j (own a))
                (ground (arith, keyed k j a, own a, d.0 j, apart j)))
            (push-IsPlaced holds slot keyed bs k fits a (own a) (apart k (rw (own a))) v) in
        (placed, omega (arith, length-flatten-push holds slot keyed bs k fits a))
