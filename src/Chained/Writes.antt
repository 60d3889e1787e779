-- ===== src/Chained/Writes.antt =====
-- The three writes to the chain of a key: a new first item, a change of the item with the key, and
-- its removal. What is found afterwards, and that the invariant stays.
use vut_projects.Base.{
  ℕ, ◌+◌, ◌<◌, ◌≡◌, sym, ◌∙◌, ap, Bool, true, none, some, List, [], ◌∷◌, arith, if◌then◌else◌,
  is_some, length, get_or, set, Text, text_eq, text_eq_refl, eq_of_text_eq,
}
use vut_projects.Chained.Chain.{
  find, update, erase, IsKeyed, map_some, find-update, find-erase, update-IsDistinct,
  erase-IsDistinct, length-erase, length-update,
}
use vut_projects.Chained.Buckets.{
  flatten, view, IsPlaced, IsDistinct-at, view-set, IsPlaced-set, length-flatten-set,
}

-- A change of an item that leaves its keys alone.
abbrev pub KeepsKey : {A : Type 0} → (Text → A → Bool) → (A → A) → Type 0
KeepsKey {A} holds f = (k : Text) (a : A) → holds k (f a) ≡ holds k a

module _ {A : Type 0} (holds : Text → A → Bool) (slot : Text → ℕ) (keyed : IsKeyed holds)
    (bs : List (List A)) (k : Text) (room : slot k < length bs) where
  same_slot : (j : Text) → text_eq k j ≡ true → slot k ≡ slot j
  same_slot j e = ap slot (eq_of_text_eq k j e)

  pub view-push :
      (a : A) (j : Text)
      → holds k a ≡ true
      → view holds slot (set bs (slot k) (a ∷ get_or bs (slot k) [])) j
        ≡ (if text_eq k j then some a else view holds slot bs j)
  unfolding find view
  view-push a j h =
      rw (view-set holds slot bs k j _ room)
        (ground (arith, keyed k j a, same_slot j, text_eq_refl k))

  pub push-IsPlaced :
      (a : A)
      → holds k a ≡ true
      → view holds slot bs k ≡ none
      → IsPlaced holds slot bs
      → IsPlaced holds slot (set bs (slot k) (a ∷ get_or bs (slot k) []))
  unfolding find view
  push-IsPlaced a h absent v =
      IsPlaced-set holds slot bs k (a ∷ get_or bs (slot k) []) v
        (
          (λ j e. rw (← eq_of_text_eq k j (sym (keyed k j a h) ∙ e)) absent),
          IsDistinct-at holds slot (slot k) bs v.distinct,
        )
        (λ j e. ground (arith, keyed k j a))

  pub view-update :
      (f : A → A) (j : Text)
      → KeepsKey holds f
      → view holds slot (set bs (slot k) (update holds k f (get_or bs (slot k) []))) j
        ≡ (if text_eq k j then map_some f (view holds slot bs j) else view holds slot bs j)
  unfolding view
  view-update f j keeps =
      rw (view-set holds slot bs k j _ room, find-update holds keyed k j f _ keeps)
        (ground (arith, same_slot j))

  pub update-IsPlaced :
      (f : A → A)
      → KeepsKey holds f
      → IsPlaced holds slot bs
      → IsPlaced holds slot (set bs (slot k) (update holds k f (get_or bs (slot k) [])))
  unfolding view
  update-IsPlaced f keeps v =
      let old = get_or bs (slot k) [] in
      IsPlaced-set holds slot bs k (update holds k f old) v
        (update-IsDistinct holds keyed k f old keeps
          (IsDistinct-at holds slot (slot k) bs v.distinct))
        (λ j e. ground (arith, find-update holds keyed k j f old keeps))

  pub view-erase :
      (j : Text)
      → IsPlaced holds slot bs
      → view holds slot (set bs (slot k) (erase holds k (get_or bs (slot k) []))) j
        ≡ (if text_eq k j then none else view holds slot bs j)
  unfolding view
  view-erase j v =
      let old = get_or bs (slot k) [] in
      rw
        (
          view-set holds slot bs k j _ room,
          find-erase holds keyed k j old (IsDistinct-at holds slot (slot k) bs v.distinct),
        )
        (ground (arith, same_slot j))

  pub erase-IsPlaced :
      IsPlaced holds slot bs
      → IsPlaced holds slot (set bs (slot k) (erase holds k (get_or bs (slot k) [])))
  erase-IsPlaced v =
      let old = get_or bs (slot k) [] in
      let distinct = IsDistinct-at holds slot (slot k) bs v.distinct in
      IsPlaced-set holds slot bs k (erase holds k old) v
        (erase-IsDistinct holds keyed k old distinct)
        (λ j e. ground (arith, find-erase holds keyed k j old distinct))

  pub length-flatten-push :
      (a : A)
      → length (flatten (set bs (slot k) (a ∷ get_or bs (slot k) []))) ≡ length (flatten bs) + 1
  length-flatten-push a =
      omega (arith, length-flatten-set holds slot bs (slot k) (a ∷ get_or bs (slot k) []) room)

  pub length-flatten-update :
      (f : A → A)
      → length (flatten (set bs (slot k) (update holds k f (get_or bs (slot k) []))))
        ≡ length (flatten bs)
  length-flatten-update f =
      let old = get_or bs (slot k) [] in
      omega (
        arith,
        length-flatten-set holds slot bs (slot k) (update holds k f old) room,
        length-update holds keyed k f old,
      )

  pub length-flatten-erase :
      is_some (view holds slot bs k) ≡ true
      → length (flatten (set bs (slot k) (erase holds k (get_or bs (slot k) [])))) + 1
        ≡ length (flatten bs)
  unfolding view
  length-flatten-erase h =
      let old = get_or bs (slot k) [] in
      omega (
        arith,
        length-flatten-set holds slot bs (slot k) (erase holds k old) room,
        length-erase holds keyed k old h,
      )
