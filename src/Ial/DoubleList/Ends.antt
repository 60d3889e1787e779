-- ===== src/Ial/DoubleList/Ends.antt =====
-- 2/IAL/1/c206.c: the operations at the first element, and the disposal.
use vut_projects.Base.{
  Option, ◌≢◌, ℕ, zero, suc, ◌+◌, ◌-◌, ◌<◌, ◌≡◌, ◌≢◌, refl, Bool, true, false, not, none, some,
  List, [], ◌∷◌, length, is_some, arith, ◌==◌, if◌then◌else◌, ap, ◌>>=◌, sym, ◌∙◌,
}
use vut_projects.Ial.DoubleList.{
  load, Pointer, Element, Heap, DoubleList, pointer_eq, write, free, alloc, active_without,
  dll_init, dll_insert_first, dll_delete_first, dll_first,
}
use vut_projects.Ial.DoubleList.Active.{dispose_loop, dll_dispose}
use vut_projects.Ial.DoubleList.Links.{
  first_or, last_or, write-same, write-other, IsList, Links-write, AreBelow-Absent, AreBelow-suc,
  last_or-Absent,
}

module _ {V : Type 0} where
  pub init-IsList : (h : Heap V) (flag : Bool) → IsList (dll_init h flag) []
  unfolding dll_init
  init-IsList h flag = record {
    linked = tt;
    distinct = tt;
    below = tt;
    first = refl;
    last = refl;
    counted = refl;
  }

  -- With memory, the insertion at the front gives the list with the new cell first, at the address
  -- that the heap gives next. The active element stays. Without memory it follows a null pointer.
  pub insert_first-IsList :
      (list : DoubleList V) (xs : List (ℕ × V)) (value : V)
      → IsList list xs
      → ((list' : DoubleList V) × (dll_insert_first true list value ≡ some list')
          × IsList list' ((list.heap.fresh, value) ∷ xs)
          × (list'.active_element ≡ list.active_element))
        × (dll_insert_first false list value ≡ none)
  unfolding dll_insert_first
  insert_first-IsList list [] value i = (
    (
      record list {
        heap =
            alloc list.heap
              (record { value = value; previous_element = none; next_element = none });
        first_element = some list.heap.fresh;
        last_element = some list.heap.fresh;
        current_length = list.current_length + 1;
      },
      rw i.first refl,
      record {
        linked = (write-same list.heap.cells list.heap.fresh _, tt);
        distinct = (tt, tt);
        below = (omega arith, tt);
        first = refl;
        last = refl;
        counted = omega (arith, i.counted);
      },
      refl,
    ),
    refl,
  )
  insert_first-IsList list ((a, w) ∷ xs) value i =
      let n = list.heap.fresh in
      let e : Element V = record {
        value = value;
        previous_element = none;
        next_element = some a;
      } in
      let h = alloc list.heap e in
      let old : Element V = record {
        value = w;
        previous_element = none;
        next_element = first_or xs none;
      } in
      let linked : Element V = record old { previous_element = some n } in
      let apart : a ≢ n = (AreBelow-Absent n ((a, w) ∷ xs) i.below).0 in
      let found : h.cells a ≡ some old =
        write-other list.heap.cells n a (some e) apart ∙ i.linked.0 in
      (
        (
          record list {
            heap = record h { cells = write h.cells a (some linked) };
            first_element = some n;
            current_length = list.current_length + 1;
          },
          rw (i.first, found) refl,
          record {
            linked = (
              write-other h.cells a n (some linked) (λ q. apart (sym q))
                  ∙ write-same list.heap.cells n (some e),
              (
                write-same h.cells a (some linked),
                Links-write h.cells a (some linked) (some a) xs none i.distinct.0 (
                    Links-write list.heap.cells n (some e) (some a) xs none
                      (AreBelow-Absent n xs i.below.1) i.linked.1),
              ),
            );
            distinct = (AreBelow-Absent n ((a, w) ∷ xs) i.below, i.distinct);
            below = (omega arith, AreBelow-suc n ((a, w) ∷ xs) i.below);
            first = refl;
            last = i.last;
            counted = omega (arith, i.counted);
          },
          refl,
        ),
        refl,
      )

  abbrev pub rest : List (ℕ × V) → List (ℕ × V)
  rest [] = []
  rest (x ∷ xs) = xs

  write-none :
      (cells : ℕ → Option (Element V)) (a k : ℕ) → cells k ≡ none → write cells a none k ≡ none
  write-none cells a k h = ground (arith, h)

  differs :
      (cells : ℕ → Option (Element V)) (k b : ℕ) (e : Element V)
      → cells k ≡ none
      → cells b ≡ some e
      → k ≢ b
  differs cells k b e h found same =
      let absurd_eq : none ≡ some e = sym h ∙ ap cells same ∙ found in cc

  -- The deletion of the first element succeeds and gives the list without it. If that element was
  -- active, none is afterwards, and otherwise the active one stays. An empty list stays as it is.
  pub delete_first-IsList :
      (list : DoubleList V) (xs : List (ℕ × V))
      → IsList list xs
      → (list' : DoubleList V) × (dll_delete_first list ≡ some list')
        × IsList list' (rest xs)
        × (list'.active_element ≡ active_without list list.first_element)
        × (list'.error_flag ≡ list.error_flag)
        × (load list'.heap list.first_element ≡ none)
        × ((k : ℕ) → list.heap.cells k ≡ none → list'.heap.cells k ≡ none)
  unfolding dll_delete_first
  delete_first-IsList list [] i = (
    list,
    rw i.first refl,
    i,
    rw i.first (stays list.active_element),
    refl,
    rw i.first refl,
    λ k h. h,
  )
    where
      stays : (p : Pointer) → p ≡ (if pointer_eq none p then none else p)
      stays none = refl
      stays (some a) = refl
  delete_first-IsList list ((a, v) ∷ []) i =
      let same : (a == a) ≡ true = ground arith in
      (
        record list {
          heap = free list.heap (some a);
          first_element = none;
          active_element = active_without list (some a);
          last_element = none;
          current_length = list.current_length - 1;
        },
        rw (i.first, i.last, same) refl,
        record {
          linked = tt;
          distinct = tt;
          below = tt;
          first = refl;
          last = refl;
          counted = omega (arith, i.counted);
        },
        rw i.first refl,
        refl,
        ap (load (free list.heap (some a))) i.first ∙ write-same list.heap.cells a none,
        λ k h. write-none list.heap.cells a k h,
      )
  delete_first-IsList list ((a, v) ∷ (b, w) ∷ xs) i =
      let old : Element V = record {
        value = w;
        previous_element = some a;
        next_element = first_or xs none;
      } in
      let new : Element V = record old { previous_element = none } in
      let cells = write list.heap.cells b (some new) in
      let differ : pointer_eq (some a) (last_or (some b) xs) ≡ false =
        last_or-Absent b a xs i.distinct.0.0 i.distinct.0.1 in
      let gone = i.distinct.0.1 in
      (
        record list {
          heap = free (record list.heap { cells = cells }) (some a);
          first_element = some b;
          active_element = active_without list (some a);
          current_length = list.current_length - 1;
        },
        rw (i.first, i.last, differ, i.linked.0, i.linked.1.0) refl,
        record {
          linked = (
            write-other cells a b none i.distinct.0.0 ∙ write-same list.heap.cells b (some new),
            Links-write cells a none (some b) xs none gone (
                Links-write list.heap.cells b (some new) (some b) xs none i.distinct.1.0
                  i.linked.1.1),
          );
          distinct = i.distinct.1;
          below = i.below.1;
          first = refl;
          last = i.last;
          counted = omega (arith, i.counted);
        },
        rw i.first refl,
        refl,
        ap (load (free (record list.heap { cells = cells }) (some a))) i.first
            ∙ write-same cells a none,
        λ k h. write-none cells a k (
            write-other list.heap.cells b k (some new)
              (differs list.heap.cells k b old h i.linked.1.0)
            ∙ h),
      )

  -- Nothing is stored at the addresses of the cells.
  abbrev pub AreFree : (ℕ → Option (Element V)) → List (ℕ × V) → Type 0
  AreFree cells [] = Unit
  AreFree cells ((a, v) ∷ xs) = (cells a ≡ none) × AreFree cells xs

  dispose_step :
      (fuel : ℕ) (list : DoubleList V) (a : ℕ)
      → list.first_element ≡ some a
      → dispose_loop (suc fuel) list ≡ (dll_delete_first list >>= λ list'. dispose_loop fuel list')
  unfolding dispose_loop
  dispose_step fuel list a h =
      ap
        (λ p.
          if not (is_some p)
          then some list
          else (dll_delete_first list >>= λ list'. dispose_loop fuel list'))
        h

  dispose_loop-empties :
      (fuel : ℕ) (list : DoubleList V) (xs : List (ℕ × V))
      → IsList list xs
      → length xs < fuel
      → (list' : DoubleList V) × (dispose_loop fuel list ≡ some list')
        × (list'.error_flag ≡ list.error_flag)
        × AreFree list'.heap.cells xs
        × ((k : ℕ) → list.heap.cells k ≡ none → list'.heap.cells k ≡ none)
  unfolding dispose_loop
  dispose_loop-empties zero list xs i h = absurd (omega arith)
  dispose_loop-empties (suc fuel) list [] i h = (list, rw i.first refl, refl, tt, λ k free. free)
  dispose_loop-empties (suc fuel) list ((a, v) ∷ xs) i h =
      let (next, run, i', _, flag, gone, keeps) = delete_first-IsList list ((a, v) ∷ xs) i in
      let (end, run', flag', free, keeps') = dispose_loop-empties fuel next xs i' (omega arith) in
      (
        end,
        dispose_step fuel list a i.first ∙ ap (λ m. m >>= λ l. dispose_loop fuel l) run ∙ run',
        flag' ∙ flag,
        (keeps' a (sym (ap (load next.heap) i.first) ∙ gone), free),
        λ k h. keeps' k (keeps k h),
      )

  -- The disposal of a list ends, without a null or freed pointer followed, and leaves the list as
  -- the initialisation does. Every cell of the list is freed.
  pub dispose-init :
      (list : DoubleList V) (xs : List (ℕ × V))
      → IsList list xs
      → (h : Heap V) × (dll_dispose list ≡ some (dll_init h list.error_flag))
        × IsList (dll_init h list.error_flag) []
        × AreFree h.cells xs
  unfolding dll_dispose dll_init dll_first
  dispose-init list xs i =
      let start : IsList (dll_first list) xs = record {
        linked = i.linked;
        distinct = i.distinct;
        below = i.below;
        first = i.first;
        last = i.last;
        counted = i.counted;
      } in
      let (end, run, flag, free, _) =
        dispose_loop-empties (suc list.current_length) (dll_first list) xs start
          (omega (arith, i.counted)) in
      (end.heap, rw (run, flag) refl, init-IsList end.heap list.error_flag, free)
