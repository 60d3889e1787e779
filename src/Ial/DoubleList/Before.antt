-- ===== src/Ial/DoubleList/Before.antt =====
-- 2/IAL/1/c206.c: the insertion before the active element.
use vut_projects.Base.{
  ℕ, ◌+◌, ◌≡◌, refl, true, false, none, some, List, ◌∷◌, ◌++◌, length, arith, ◌==◌, if◌then◌else◌,
  ap, ◌∙◌,
}
use vut_projects.Ial.DoubleList.{Pointer, Element, Heap, DoubleList, pointer_eq, write, alloc}
use vut_projects.Ial.DoubleList.Active.{dll_insert_before}
use vut_projects.Ial.DoubleList.Links.{
  first_or, last_or, Absent, Links, IsList, Links-write, Links-split, AreBelow-Absent, write-same,
}
use vut_projects.Ial.DoubleList.Last.{Absent-split, middle-Absent}

module _ {V : Type 0} where
  -- Before an active element that is not the first, the insertion does not link the new element into
  -- the list: the new element is its own successor, and points back to the element in front of the
  -- active one. Of all other cells only the active one changes, whose predecessor is the new
  -- element, so the elements in front of the active one and behind it are linked as before. The
  -- first, the last and the active element and the error stay, and the length counts one more.
  pub insert_before-self_linked :
      (list : DoubleList V) (x : ℕ × V) (ms : List (ℕ × V)) (a : ℕ) (v : V) (ns : List (ℕ × V))
      (value : V)
      → IsList list (x ∷ ms ++ (a, v) ∷ ns)
      → list.active_element ≡ some a
      → (list' : DoubleList V) × (dll_insert_before true list value ≡ some list')
        × (list'.heap.cells list.heap.fresh
            ≡ some (record {
              value = value;
              previous_element = last_or none (x ∷ ms);
              next_element = some list.heap.fresh;
            }))
        × ((b : ℕ)
            → list'.heap.cells b ≡ (
                if b == list.heap.fresh
                then some (record {
                  value = value;
                  previous_element = last_or none (x ∷ ms);
                  next_element = some list.heap.fresh;
                })
                else if b == a
                then some (record {
                  value = v;
                  previous_element = some list.heap.fresh;
                  next_element = first_or ns none;
                })
                else list.heap.cells b))
        × Links list'.heap.cells none (x ∷ ms) (some a)
        × Links list'.heap.cells (some a) ns none
        × (list'.first_element ≡ list.first_element)
        × (list'.last_element ≡ list.last_element)
        × (list'.active_element ≡ list.active_element)
        × (list'.error_flag ≡ list.error_flag)
        × (list'.current_length ≡ length (x ∷ ms ++ (a, v) ∷ ns) + 1)
  unfolding dll_insert_before
  insert_before-self_linked list (b, u) ms a v ns value i active =
      let n = list.heap.fresh in
      let xs = (b, u) ∷ ms in
      let (front, back) = Links-split list.heap.cells none xs ((a, v) ∷ ns) none i.linked in
      let e : Element V = record {
        value = value;
        previous_element = last_or none xs;
        next_element = some a;
      } in
      let h = alloc list.heap e in
      let old : Element V = record {
        value = v;
        previous_element = last_or none xs;
        next_element = first_or ns none;
      } in
      let moved : Element V = record old { previous_element = some n } in
      let looped : Element V = record e { next_element = some n } in
      let h1 : Heap V = record h { cells = write h.cells a (some moved) } in
      let (gone, gone_behind) = middle-Absent xs a v ns i.distinct in
      let (fresh_front, fresh_back) =
        Absent-split n xs ((a, v) ∷ ns) (AreBelow-Absent n (xs ++ (a, v) ∷ ns) i.below) in
      let found : list.heap.cells a ≡ some old = back.0 in
      let an : (a == n) ≡ false = ground (arith, fresh_back.0) in
      let na : (n == a) ≡ false = ground (arith, fresh_back.0) in
      let aa : (a == a) ≡ true = ground arith in
      let nn : (n == n) ≡ true = ground arith in
      let apart : (a == b) ≡ false = ground (arith, gone.0) in
      let inner : pointer_eq (some a) list.first_element ≡ false =
        ap (pointer_eq (some a)) i.first ∙ apart in
      let kept : (p : Pointer) (ys : List (ℕ × V)) (q : Pointer)
          → Absent n ys
          → Absent a ys
          → Links list.heap.cells p ys q
          → Links (write h1.cells n (some looped)) p ys q =
        λ p ys q no_n no_a l. Links-write h1.cells n (some looped) p ys q no_n (
          Links-write h.cells a (some moved) p ys q no_a
            (Links-write list.heap.cells n (some e) p ys q no_n l)) in
      let all_cells : (k : ℕ)
          → write h1.cells n (some looped) k
            ≡ (if k == n then some looped else if k == a then some moved else list.heap.cells k) =
        λ k. ground arith in
      (
        record list {
          heap = record h1 { cells = write h1.cells n (some looped) };
          current_length = list.current_length + 1;
        },
        rw (active, found, an, inner, aa, na, nn) refl,
        write-same h1.cells n (some looped),
        (λ k. all_cells k),
        kept none xs (some a) fresh_front gone front,
        kept (some a) ns none fresh_back.1 gone_behind back.1,
        refl,
        refl,
        refl,
        refl,
        omega (arith, i.counted),
      )
