-- ===== src/Ial/DoubleList/Last.antt =====
-- 2/IAL/1/c206.c: the operations at the last element.
use vut_projects.Base.{
  ℕ, ◌+◌, ◌≡◌, refl, true, false, none, some, List, [], ◌∷◌, ◌++◌, arith, ap, sym, ◌∙◌,
  length-append, append_assoc, subst, ◌⊎◌, inl, inr,
}
use vut_projects.Ial.DoubleList.{Pointer, Element, DoubleList, write, alloc, dll_insert_last}
use vut_projects.Ial.DoubleList.Links.{
  first_or, last_or, Links, Absent, AreDistinct, AreBelow, IsList, Links-write, Links-append,
  Links-split, AreBelow-Absent, write-same, write-other,
}

module _ {V : Type 0} where
  pub last_or-snoc :
      (p : Pointer) (ms : List (ℕ × V)) (a : ℕ) (v : V) → last_or p (ms ++ (a, v) ∷ []) ≡ some a
  last_or-snoc p [] a v = refl
  last_or-snoc p ((b, w) ∷ ms) a v = last_or-snoc (some b) ms a v

  pub first_or-append :
      (xs ys : List (ℕ × V)) (q : Pointer) → first_or (xs ++ ys) q ≡ first_or xs (first_or ys q)
  first_or-append [] ys q = refl
  first_or-append (x ∷ xs) ys q = refl

  pub Absent-append :
      (a : ℕ) (xs ys : List (ℕ × V)) → Absent a xs → Absent a ys → Absent a (xs ++ ys)
  Absent-append a [] ys h k = k
  Absent-append a ((b, v) ∷ xs) ys h k = (h.0, Absent-append a xs ys h.1 k)

  pub Absent-split :
      (a : ℕ) (xs ys : List (ℕ × V)) → Absent a (xs ++ ys) → Absent a xs × Absent a ys
  Absent-split a [] ys h = (tt, h)
  Absent-split a ((b, v) ∷ xs) ys h =
      let (front, back) = Absent-split a xs ys h.1 in ((h.0, front), back)

  AreBelow-snoc :
      (n : ℕ) (xs : List (ℕ × V)) (v : V) → AreBelow n xs → AreBelow (n + 1) (xs ++ (n, v) ∷ [])
  AreBelow-snoc n [] v h = (omega arith, tt)
  AreBelow-snoc n ((a, w) ∷ xs) v h = (omega arith, AreBelow-snoc n xs v h.1)

  AreDistinct-snoc :
      (n : ℕ) (xs : List (ℕ × V)) (v : V)
      → AreBelow n xs
      → AreDistinct xs
      → AreDistinct (xs ++ (n, v) ∷ [])
  AreDistinct-snoc n [] v h d = (tt, tt)
  AreDistinct-snoc n ((a, w) ∷ xs) v h d = (
    Absent-append a xs ((n, v) ∷ []) d.0 ((λ e. absurd (omega arith)), tt),
    AreDistinct-snoc n xs v h.1 d.1,
  )

  -- The cell before a split is not behind it, nor the other way round.
  pub middle-Absent :
      (xs : List (ℕ × V)) (a : ℕ) (v : V) (ys : List (ℕ × V))
      → AreDistinct (xs ++ (a, v) ∷ ys)
      → Absent a xs × Absent a ys
  middle-Absent [] a v ys d = (tt, d.0)
  middle-Absent ((b, w) ∷ xs) a v ys d =
      let (front, back) = middle-Absent xs a v ys d.1 in
      let (_, apart) = Absent-split b xs ((a, v) ∷ ys) d.0 in
      (((λ e. apart.0 (sym e)), front), back)

  -- With memory, the insertion at the back gives the list with the new cell last.
  insert_last_behind :
      (list : DoubleList V) (ms : List (ℕ × V)) (a : ℕ) (w : V) (value : V)
      → IsList list (ms ++ (a, w) ∷ [])
      → (list' : DoubleList V) × (dll_insert_last true list value ≡ some list')
        × IsList list' ((ms ++ (a, w) ∷ []) ++ (list.heap.fresh, value) ∷ [])
        × (list'.active_element ≡ list.active_element)
  unfolding dll_insert_last
  insert_last_behind list ms a w value i =
      let n = list.heap.fresh in
      let xs = ms ++ (a, w) ∷ [] in
      let e : Element V = record {
        value = value;
        previous_element = some a;
        next_element = none;
      } in
      let h = alloc list.heap e in
      let (front, back) = Links-split list.heap.cells none ms ((a, w) ∷ []) none i.linked in
      let old : Element V = record {
        value = w;
        previous_element = last_or none ms;
        next_element = none;
      } in
      let linked : Element V = record old { next_element = some n } in
      let (gone, _) = middle-Absent ms a w [] i.distinct in
      let fresh = AreBelow-Absent n xs i.below in
      let (fresh_front, fresh_back) = Absent-split n ms ((a, w) ∷ []) fresh in
      let last : list.last_element ≡ some a = i.last ∙ last_or-snoc none ms a w in
      let found : h.cells a ≡ some old =
        write-other list.heap.cells n a (some e) fresh_back.0 ∙ back.0 in
      let cells = write h.cells a (some linked) in
      let assoc = append_assoc ms ((a, w) ∷ []) ((n, value) ∷ []) in
      (
        record list {
          heap = record h { cells = cells };
          last_element = some n;
          current_length = list.current_length + 1;
        },
        rw (last, found) refl,
        record {
          linked =
              subst (λ ys. Links cells none ys none) (sym assoc)
                (Links-append cells none ms ((a, w) ∷ (n, value) ∷ []) none
                  (Links-write h.cells a (some linked) none ms (some a) gone
                    (Links-write list.heap.cells n (some e) none ms (some a) fresh_front front))
                  (
                    write-same h.cells a (some linked),
                    (
                      write-other h.cells a n (some linked) (λ q. fresh_back.0 (sym q))
                          ∙ write-same list.heap.cells n (some e),
                      tt,
                    ),
                  ));
          distinct = AreDistinct-snoc n xs value i.below i.distinct;
          below = AreBelow-snoc n xs value i.below;
          first =
              i.first
              ∙ first_or-append ms ((a, w) ∷ []) none
              ∙ sym (
                  ap (λ ys. first_or ys none) assoc
                  ∙ first_or-append ms ((a, w) ∷ (n, value) ∷ []) none);
          last = sym (last_or-snoc none xs n value);
          counted = omega (arith, i.counted, length-append xs ((n, value) ∷ []));
        },
        refl,
      )

  -- A list is empty, or it has a last cell.
  pub last_cell :
      (xs : List (ℕ × V))
      → (xs ≡ []) ⊎ ((ms : List (ℕ × V)) × (a : ℕ) × (w : V) × (xs ≡ ms ++ (a, w) ∷ []))
  last_cell [] = inl refl
  last_cell ((a, w) ∷ xs) = inr (elim (last_cell xs) [
    | inl e ↦ ([], a, w, ap (λ t. (a, w) ∷ t) e)
    | inr (ms, b, v, e) ↦ ((a, w) ∷ ms, b, v, ap (λ t. (a, w) ∷ t) e)
  ])

  insert_last_empty :
      (list : DoubleList V) (value : V)
      → IsList list []
      → (list' : DoubleList V) × (dll_insert_last true list value ≡ some list')
        × IsList list' ((list.heap.fresh, value) ∷ [])
        × (list'.active_element ≡ list.active_element)
  unfolding dll_insert_last
  insert_last_empty list value i =
      let n = list.heap.fresh in
      (
        record list {
          heap =
              alloc list.heap
                (record { value = value; previous_element = none; next_element = none });
          first_element = some n;
          last_element = some n;
          current_length = list.current_length + 1;
        },
        rw i.last refl,
        record {
          linked = (write-same list.heap.cells n _, tt);
          distinct = (tt, tt);
          below = (omega arith, tt);
          first = refl;
          last = refl;
          counted = omega (arith, i.counted);
        },
        refl,
      )

  insert_last_without : (list : DoubleList V) (value : V) → dll_insert_last false list value ≡ none
  unfolding dll_insert_last
  insert_last_without list value = refl

  -- With memory, the insertion at the back gives the list with the new cell last, at the address that
  -- the heap gives next. The active element stays. Without memory it follows a null pointer.
  pub insert_last-IsList :
      (list : DoubleList V) (xs : List (ℕ × V)) (value : V)
      → IsList list xs
      → ((list' : DoubleList V) × (dll_insert_last true list value ≡ some list')
          × IsList list' (xs ++ (list.heap.fresh, value) ∷ [])
          × (list'.active_element ≡ list.active_element))
        × (dll_insert_last false list value ≡ none)
  insert_last-IsList list xs value i = (
    elim (last_cell xs) [
      | inl e ↦ rw e (insert_last_empty list value (rw e at i))
      | inr (ms, a, w, e) ↦ rw e (insert_last_behind list ms a w value (rw e at i))
    ],
    insert_last_without list value,
  )
