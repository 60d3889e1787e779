-- ===== src/Ial/DoubleList/DeleteLast.antt =====
-- 2/IAL/1/c206.c: the deletion of the last element.
use vut_projects.Base.{
  ℕ, ◌-◌, ◌≡◌, ◌≢◌, refl, true, false, none, some, List, [], ◌∷◌, ◌++◌, arith, ◌==◌, if◌then◌else◌,
  ap, sym, ◌∙◌, length-append, subst, inl, inr,
}
use vut_projects.Ial.DoubleList.{
  Pointer, Element, DoubleList, pointer_eq, load, write, free, active_without, dll_delete_last,
}
use vut_projects.Ial.DoubleList.Links.{
  first_or, last_or, Absent, AreDistinct, AreBelow, IsList, Links-write, Links-append, Links-split,
  write-same, write-other,
}
use vut_projects.Ial.DoubleList.Last.{
  last_or-snoc, first_or-append, last_cell, Absent-split, middle-Absent,
}

module _ {V : Type 0} where
  first_or-Absent :
      (a : ℕ) (ms : List (ℕ × V)) (b : ℕ)
      → Absent a ms
      → b ≢ a
      → pointer_eq (first_or ms (some b)) (some a) ≡ false
  first_or-Absent a [] b absent differ = ground arith
  first_or-Absent a ((c, v) ∷ ms) b absent differ = ground (arith, absent.0)

  AreDistinct-front : (xs ys : List (ℕ × V)) → AreDistinct (xs ++ ys) → AreDistinct xs
  AreDistinct-front [] ys d = tt
  AreDistinct-front ((a, v) ∷ xs) ys d = ((Absent-split a xs ys d.0).0, AreDistinct-front xs ys d.1)

  AreBelow-front : (n : ℕ) (xs ys : List (ℕ × V)) → AreBelow n (xs ++ ys) → AreBelow n xs
  AreBelow-front n [] ys h = tt
  AreBelow-front n ((a, v) ∷ xs) ys h = (h.0, AreBelow-front n xs ys h.1)

  -- A list with at least two cells.
  delete_last_behind :
      (list : DoubleList V) (ms : List (ℕ × V)) (b : ℕ) (u : V) (a : ℕ) (w : V)
      → IsList list ((ms ++ (b, u) ∷ []) ++ (a, w) ∷ [])
      → (list' : DoubleList V) × (dll_delete_last list ≡ some list')
        × IsList list' (ms ++ (b, u) ∷ [])
        × (list'.active_element ≡ (
            if pointer_eq list.last_element list.active_element then none else list.active_element))
        × (list'.error_flag ≡ list.error_flag)
        × (load list'.heap list.last_element ≡ none)
  unfolding dll_delete_last
  delete_last_behind list ms b u a w i =
      let xs = ms ++ (b, u) ∷ [] in
      let (front, back) = Links-split list.heap.cells none xs ((a, w) ∷ []) none i.linked in
      let (front', back') = Links-split list.heap.cells none ms ((b, u) ∷ []) (some a) front in
      let (gone_a, _) = middle-Absent xs a w [] i.distinct in
      let (gone_a', ba) = Absent-split a ms ((b, u) ∷ []) gone_a in
      let distinct = AreDistinct-front xs ((a, w) ∷ []) i.distinct in
      let (gone_b, _) = middle-Absent ms b u [] distinct in
      let old : Element V = record {
        value = u;
        previous_element = last_or none ms;
        next_element = some a;
      } in
      let new : Element V = record old { next_element = none } in
      let last_a : Element V = record {
        value = w;
        previous_element = some b;
        next_element = none;
      } in
      let found_a : list.heap.cells a ≡ some last_a =
        subst
          (λ p.
            list.heap.cells a
            ≡ some (record { value = w; previous_element = p; next_element = none }))
          (last_or-snoc none ms b u) back.0 in
      let cells = write list.heap.cells b (some new) in
      let last : list.last_element ≡ some a = i.last ∙ last_or-snoc none xs a w in
      let first : list.first_element ≡ first_or ms (some b) =
        i.first
        ∙ first_or-append xs ((a, w) ∷ []) none
        ∙ first_or-append ms ((b, u) ∷ []) (some a) in
      let differ : pointer_eq list.first_element (some a) ≡ false =
        ap (λ p. pointer_eq p (some a)) first ∙ first_or-Absent a ms b gone_a' ba.0 in
      (
        record list {
          heap = free (record list.heap { cells = cells }) (some a);
          active_element = active_without list (some a);
          last_element = some b;
          current_length = list.current_length - 1;
        },
        rw (last, differ, found_a, back'.0) refl,
        record {
          linked =
              Links-append (write cells a none) none ms ((b, u) ∷ []) none
                (Links-write cells a none none ms (some b) gone_a'
                  (Links-write list.heap.cells b (some new) none ms (some b) gone_b front'))
                (write-other cells a b none ba.0 ∙ write-same list.heap.cells b (some new), tt);
          distinct = distinct;
          below = AreBelow-front list.heap.fresh xs ((a, w) ∷ []) i.below;
          first = first ∙ sym (first_or-append ms ((b, u) ∷ []) none);
          last = sym (last_or-snoc none ms b u);
          counted = omega (arith, i.counted, length-append xs ((a, w) ∷ []));
        },
        rw last refl,
        refl,
        rw last (write-same cells a none),
      )

  -- The cells without the last one.
  abbrev pub front : List (ℕ × V) → List (ℕ × V)
  front [] = []
  front (x ∷ []) = []
  front (x ∷ y ∷ xs) = x ∷ front (y ∷ xs)

  front-snoc : (ms : List (ℕ × V)) (a : ℕ) (w : V) → front (ms ++ (a, w) ∷ []) ≡ ms
  front-snoc [] a w = refl
  front-snoc (x ∷ []) a w = refl
  front-snoc (x ∷ y ∷ ms) a w = ap (λ t. x ∷ t) (front-snoc (y ∷ ms) a w)

  delete_last_only :
      (list : DoubleList V) (a : ℕ) (w : V)
      → IsList list ((a, w) ∷ [])
      → (list' : DoubleList V) × (dll_delete_last list ≡ some list')
        × IsList list' []
        × (list'.active_element ≡ (
            if pointer_eq list.last_element list.active_element then none else list.active_element))
        × (list'.error_flag ≡ list.error_flag)
        × (load list'.heap list.last_element ≡ none)
  unfolding dll_delete_last
  delete_last_only list a w i =
      let same : (a == a) ≡ true = ground arith in
      (
        record list {
          heap = free list.heap (some a);
          first_element = none;
          active_element = active_without list (some a);
          last_element = none;
          current_length = list.current_length - 1;
        },
        rw (i.first, i.last, same) refl,
        record {
          linked = tt;
          distinct = tt;
          below = tt;
          first = refl;
          last = refl;
          counted = omega (arith, i.counted);
        },
        rw i.last refl,
        refl,
        rw i.last (write-same list.heap.cells a none),
      )

  delete_last_empty :
      (list : DoubleList V)
      → IsList list []
      → (list' : DoubleList V) × (dll_delete_last list ≡ some list')
        × IsList list' []
        × (list'.active_element ≡ (
            if pointer_eq list.last_element list.active_element then none else list.active_element))
        × (list'.error_flag ≡ list.error_flag)
        × (load list'.heap list.last_element ≡ none)
  unfolding dll_delete_last
  delete_last_empty list i =
      (list, rw i.last refl, i, rw i.last (stays list.active_element), refl, rw i.last refl)
    where
      stays : (p : Pointer) → p ≡ (if pointer_eq none p then none else p)
      stays none = refl
      stays (some a) = refl

  -- The deletion of the last element succeeds, gives the list without it and frees it. If that
  -- element was active, none is afterwards, and otherwise the active one stays. The error stays, and
  -- an empty list stays empty.
  pub delete_last-IsList :
      (list : DoubleList V) (xs : List (ℕ × V))
      → IsList list xs
      → (list' : DoubleList V) × (dll_delete_last list ≡ some list')
        × IsList list' (front xs)
        × (list'.active_element ≡ (
            if pointer_eq list.last_element list.active_element then none else list.active_element))
        × (list'.error_flag ≡ list.error_flag)
        × (load list'.heap list.last_element ≡ none)
  delete_last-IsList list xs i = elim (last_cell xs) [
    | inl e ↦ rw e (delete_last_empty list (rw e at i))
    | inr (ms, a, w, e) ↦
        rw (e, front-snoc ms a w)
          (elim (last_cell ms) [
            | inl e' ↦ rw e' (delete_last_only list a w (rw (e, e') at i))
            | inr (ks, b, u, e') ↦ rw e' (delete_last_behind list ks b u a w (rw (e, e') at i))
          ])
  ]
