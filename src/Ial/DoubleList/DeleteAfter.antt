-- ===== src/Ial/DoubleList/DeleteAfter.antt =====
-- 2/IAL/1/c206.c: the deletion after the active element.
use vut_projects.Base.{
  ℕ, ◌-◌, ◌≡◌, ◌≢◌, refl, true, false, none, some, List, [], ◌∷◌, ◌++◌, arith, ◌==◌, ap, sym, ◌∙◌,
}
use vut_projects.Ial.DoubleList.{Element, DoubleList, pointer_eq, write, free, load}
use vut_projects.Ial.DoubleList.Active.{dll_delete_after}
use vut_projects.Ial.DoubleList.Links.{
  first_or, last_or, Absent, AreDistinct, AreBelow, IsList, Links-write, Links-append, Links-split,
  write-same, write-other, last_or-Absent,
}
use vut_projects.Ial.DoubleList.Last.{first_or-append, middle-Absent}
use vut_projects.Ial.DoubleList.After.{last_or-append, next-Absent, length-after}

module _ {V : Type 0} where
  Absent-without :
      (b : ℕ) (ms : List (ℕ × V)) (x y : ℕ × V) (ns : List (ℕ × V))
      → Absent b (ms ++ x ∷ y ∷ ns)
      → Absent b (ms ++ x ∷ ns)
  Absent-without b [] x y ns h = (h.0, h.1.1)
  Absent-without b (m ∷ ms) x y ns h = (h.0, Absent-without b ms x y ns h.1)

  AreDistinct-without :
      (ms : List (ℕ × V)) (x y : ℕ × V) (ns : List (ℕ × V))
      → AreDistinct (ms ++ x ∷ y ∷ ns)
      → AreDistinct (ms ++ x ∷ ns)
  AreDistinct-without [] x y ns d = (d.0.1, d.1.1)
  AreDistinct-without ((b, w) ∷ ms) x y ns d =
      (Absent-without b ms x y ns d.0, AreDistinct-without ms x y ns d.1)

  AreBelow-without :
      (n : ℕ) (ms : List (ℕ × V)) (x y : ℕ × V) (ns : List (ℕ × V))
      → AreBelow n (ms ++ x ∷ y ∷ ns)
      → AreBelow n (ms ++ x ∷ ns)
  AreBelow-without n [] x y ns h = (h.0, h.1.1)
  AreBelow-without n (m ∷ ms) x y ns h = (h.0, AreBelow-without n ms x y ns h.1)

  delete_after_last :
      (list : DoubleList V) (ms : List (ℕ × V)) (a : ℕ) (v : V) (c : ℕ) (z : V)
      → IsList list (ms ++ (a, v) ∷ (c, z) ∷ [])
      → list.active_element ≡ some a
      → (list' : DoubleList V) × (dll_delete_after list ≡ some list')
        × IsList list' (ms ++ (a, v) ∷ [])
        × (list'.active_element ≡ some a)
        × (load list'.heap (some c) ≡ none)
  unfolding dll_delete_after
  delete_after_last list ms a v c z i active =
      let (front, back) =
        Links-split list.heap.cells none ms ((a, v) ∷ (c, z) ∷ []) none i.linked in
      let old : Element V = record {
        value = v;
        previous_element = last_or none ms;
        next_element = some c;
      } in
      let new : Element V = record old { next_element = none } in
      let cells = write list.heap.cells a (some new) in
      let (gone, gone_behind) = middle-Absent ms a v ((c, z) ∷ []) i.distinct in
      let (gone_c, _) = next-Absent ms (a, v) c z [] i.distinct in
      let cc_same : (c == c) ≡ true = ground arith in
      let last : list.last_element ≡ some c = i.last ∙ last_or-append none ms a v ((c, z) ∷ []) in
      (
        record list {
          heap = free (record list.heap { cells = cells }) (some c);
          last_element = some a;
          current_length = list.current_length - 1;
        },
        rw (active, back.0, back.1.0, last, cc_same) refl,
        record {
          linked =
              Links-append (write cells c none) none ms ((a, v) ∷ []) none
                (Links-write cells c none none ms (some a) gone_c
                  (Links-write list.heap.cells a (some new) none ms (some a) gone front))
                (
                  write-other cells c a none (λ q. gone_behind.0 (sym q))
                      ∙ write-same list.heap.cells a (some new),
                  tt,
                );
          distinct = AreDistinct-without ms (a, v) (c, z) [] i.distinct;
          below = AreBelow-without list.heap.fresh ms (a, v) (c, z) [] i.below;
          first =
              i.first
              ∙ first_or-append ms ((a, v) ∷ (c, z) ∷ []) none
              ∙ sym (first_or-append ms ((a, v) ∷ []) none);
          last = sym (last_or-append none ms a v []);
          counted = omega (arith, i.counted, length-after ms (a, v) (c, z) []);
        },
        active,
        write-same cells c none,
      )

  delete_after_inner :
      (list : DoubleList V) (ms : List (ℕ × V)) (a : ℕ) (v : V) (c : ℕ) (z : V) (d : ℕ) (y : V)
      (ks : List (ℕ × V))
      → IsList list (ms ++ (a, v) ∷ (c, z) ∷ (d, y) ∷ ks)
      → list.active_element ≡ some a
      → (list' : DoubleList V) × (dll_delete_after list ≡ some list')
        × IsList list' (ms ++ (a, v) ∷ (d, y) ∷ ks)
        × (list'.active_element ≡ some a)
        × (load list'.heap (some c) ≡ none)
  unfolding dll_delete_after
  delete_after_inner list ms a v c z d y ks i active =
      let ns = (d, y) ∷ ks in
      let (front, back) =
        Links-split list.heap.cells none ms ((a, v) ∷ (c, z) ∷ ns) none i.linked in
      let old : Element V = record {
        value = v;
        previous_element = last_or none ms;
        next_element = some c;
      } in
      let new : Element V = record old { next_element = some d } in
      let next : Element V = record {
        value = y;
        previous_element = some c;
        next_element = first_or ks none;
      } in
      let moved : Element V = record next { previous_element = some a } in
      let cells1 = write list.heap.cells a (some new) in
      let cells2 = write cells1 d (some moved) in
      let distinct = AreDistinct-without ms (a, v) (c, z) ns i.distinct in
      let (gone, gone_behind) = middle-Absent ms a v ns distinct in
      let (_, gone_all) = middle-Absent ms a v ((c, z) ∷ ns) i.distinct in
      let (gone_c, gone_ns) = next-Absent ms (a, v) c z ns i.distinct in
      let (gone_d, gone_ks) = next-Absent ms (a, v) d y ks distinct in
      let ca_apart : c ≢ a = gone_all.0 in
      let da_apart : d ≢ a = gone_behind.0 in
      let dc_apart : d ≢ c = gone_ns.0 in
      let da : (d == a) ≡ false = ground arith in
      let inner : pointer_eq (some c) list.last_element ≡ false =
        ap (pointer_eq (some c)) (i.last ∙ last_or-append none ms a v ((c, z) ∷ ns))
        ∙ last_or-Absent d c ks dc_apart gone_ns.1 in
      (
        record list {
          heap = free (record list.heap { cells = cells2 }) (some c);
          current_length = list.current_length - 1;
        },
        rw (active, back.0, back.1.0, inner, da, back.1.1.0) refl,
        record {
          linked =
              Links-append (write cells2 c none) none ms ((a, v) ∷ ns) none
                (Links-write cells2 c none none ms (some a) gone_c (
                  Links-write cells1 d (some moved) none ms (some a) gone_d
                    (Links-write list.heap.cells a (some new) none ms (some a) gone front)))
                (
                  write-other cells2 c a none (λ q. ca_apart (sym q))
                      ∙ write-other cells1 d a (some moved) (λ q. da_apart (sym q))
                      ∙ write-same list.heap.cells a (some new),
                  (
                    write-other cells2 c d none dc_apart ∙ write-same cells1 d (some moved),
                    Links-write cells2 c none (some d) ks none gone_ns.1 (
                        Links-write cells1 d (some moved) (some d) ks none gone_ks (
                          Links-write list.heap.cells a (some new) (some d) ks none gone_behind.1
                            back.1.1.1)),
                  ),
                );
          distinct = distinct;
          below = AreBelow-without list.heap.fresh ms (a, v) (c, z) ns i.below;
          first =
              i.first
              ∙ first_or-append ms ((a, v) ∷ (c, z) ∷ ns) none
              ∙ sym (first_or-append ms ((a, v) ∷ ns) none);
          last =
              i.last
              ∙ last_or-append none ms a v ((c, z) ∷ ns)
              ∙ sym (last_or-append none ms a v ns);
          counted = omega (arith, i.counted, length-after ms (a, v) (c, z) ns);
        },
        active,
        write-same cells2 c none,
      )

  -- The deletion after the active element, where there is an element, gives the list without that one
  -- and frees its cell. The active element stays.
  pub delete_after-IsList :
      (list : DoubleList V) (ms : List (ℕ × V)) (a : ℕ) (v : V) (c : ℕ) (z : V) (ns : List (ℕ × V))
      → IsList list (ms ++ (a, v) ∷ (c, z) ∷ ns)
      → list.active_element ≡ some a
      → (list' : DoubleList V) × (dll_delete_after list ≡ some list')
        × IsList list' (ms ++ (a, v) ∷ ns)
        × (list'.active_element ≡ some a)
        × (load list'.heap (some c) ≡ none)
  delete_after-IsList list ms a v c z [] i active = delete_after_last list ms a v c z i active
  delete_after-IsList list ms a v c z ((d, y) ∷ ks) i active =
      delete_after_inner list ms a v c z d y ks i active
