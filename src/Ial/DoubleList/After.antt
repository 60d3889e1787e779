-- ===== src/Ial/DoubleList/After.antt =====
-- 2/IAL/1/c206.c: the insertion after the active element, and the moves of the activity.
use vut_projects.Base.{
  ℕ, ◌+◌, ◌≡◌, ◌≢◌, refl, true, false, none, some, List, [], ◌∷◌, ◌++◌, length, arith, ◌==◌, ap,
  sym, ◌∙◌, length-append,
}
use vut_projects.Ial.DoubleList.{Pointer, Element, DoubleList, pointer_eq, write, alloc}
use vut_projects.Ial.DoubleList.Active.{dll_insert_after, dll_next, dll_previous, dll_get_value}
use vut_projects.Ial.DoubleList.Links.{
  first_or, last_or, Absent, AreDistinct, AreBelow, IsList, Links-write, Links-append, Links-split,
  write-same, write-other, AreBelow-Absent, last_or-Absent,
}
use vut_projects.Ial.DoubleList.Last.{first_or-append, Absent-split, middle-Absent}

module _ {V : Type 0} where
  pub last_or-append :
      (p : Pointer) (ms : List (ℕ × V)) (a : ℕ) (v : V) (ys : List (ℕ × V))
      → last_or p (ms ++ (a, v) ∷ ys) ≡ last_or (some a) ys
  last_or-append p [] a v ys = refl
  last_or-append p ((b, w) ∷ ms) a v ys = last_or-append (some b) ms a v ys

  Absent-after :
      (b n : ℕ) (value : V) (ms : List (ℕ × V)) (x : ℕ × V) (ns : List (ℕ × V))
      → n ≢ b
      → Absent b (ms ++ x ∷ ns)
      → Absent b (ms ++ x ∷ (n, value) ∷ ns)
  Absent-after b n value [] x ns differ h = (h.0, (differ, h.1))
  Absent-after b n value (y ∷ ms) x ns differ h = (h.0, Absent-after b n value ms x ns differ h.1)

  AreDistinct-after :
      (n : ℕ) (value : V) (ms : List (ℕ × V)) (x : ℕ × V) (ns : List (ℕ × V))
      → Absent n (ms ++ x ∷ ns)
      → AreDistinct (ms ++ x ∷ ns)
      → AreDistinct (ms ++ x ∷ (n, value) ∷ ns)
  AreDistinct-after n value [] x ns h d = (((λ e. h.0 (sym e)), d.0), (h.1, d.1))
  AreDistinct-after n value ((b, w) ∷ ms) x ns h d = (
    Absent-after b n value ms x ns (λ e. h.0 (sym e)) d.0,
    AreDistinct-after n value ms x ns h.1 d.1,
  )

  AreBelow-after :
      (n : ℕ) (value : V) (ms : List (ℕ × V)) (x : ℕ × V) (ns : List (ℕ × V))
      → AreBelow n (ms ++ x ∷ ns)
      → AreBelow (n + 1) (ms ++ x ∷ (n, value) ∷ ns)
  AreBelow-after n value [] x ns h = (omega arith, (omega arith, more ns h.1))
    where
      more : (ys : List (ℕ × V)) → AreBelow n ys → AreBelow (n + 1) ys
      more [] k = tt
      more (y ∷ ys) k = (omega arith, more ys k.1)
  AreBelow-after n value (y ∷ ms) x ns h = (omega arith, AreBelow-after n value ms x ns h.1)

  pub length-after :
      (ms : List (ℕ × V)) (x y : ℕ × V) (ns : List (ℕ × V))
      → length (ms ++ x ∷ y ∷ ns) ≡ length (ms ++ x ∷ ns) + 1
  length-after ms x y ns = omega (arith, length-append ms (x ∷ y ∷ ns), length-append ms (x ∷ ns))

  pub next-Absent :
      (ms : List (ℕ × V)) (x : ℕ × V) (c : ℕ) (z : V) (ns : List (ℕ × V))
      → AreDistinct (ms ++ x ∷ (c, z) ∷ ns)
      → Absent c ms × Absent c ns
  next-Absent [] x c z ns d = (tt, d.1.0)
  next-Absent ((b, w) ∷ ms) x c z ns d =
      let (front, back) = next-Absent ms x c z ns d.1 in
      let (_, behind) = Absent-split b ms (x ∷ (c, z) ∷ ns) d.0 in
      (((λ e. behind.1.0 (sym e)), front), back)

  -- The active element is the last one.
  insert_after_last :
      (list : DoubleList V) (ms : List (ℕ × V)) (a : ℕ) (v value : V)
      → IsList list (ms ++ (a, v) ∷ [])
      → list.active_element ≡ some a
      → (list' : DoubleList V) × (dll_insert_after true list value ≡ some list')
        × IsList list' (ms ++ (a, v) ∷ (list.heap.fresh, value) ∷ [])
        × (list'.active_element ≡ some a)
  unfolding dll_insert_after
  insert_after_last list ms a v value i active =
      let n = list.heap.fresh in
      let (front, back) = Links-split list.heap.cells none ms ((a, v) ∷ []) none i.linked in
      let e : Element V = record {
        value = value;
        previous_element = some a;
        next_element = none;
      } in
      let h = alloc list.heap e in
      let old : Element V = record {
        value = v;
        previous_element = last_or none ms;
        next_element = none;
      } in
      let linked : Element V = record old { next_element = some n } in
      let (gone, _) = middle-Absent ms a v [] i.distinct in
      let absent = AreBelow-Absent n (ms ++ (a, v) ∷ []) i.below in
      let (fresh_front, fresh_back) = Absent-split n ms ((a, v) ∷ []) absent in
      let an : (a == n) ≡ false = ground (arith, fresh_back.0) in
      let aa : (a == a) ≡ true = ground arith in
      let found : list.heap.cells a ≡ some old = back.0 in
      let last : list.last_element ≡ some a = i.last ∙ last_or-append none ms a v [] in
      (
        record list {
          heap = record h { cells = write h.cells a (some linked) };
          last_element = some n;
          current_length = list.current_length + 1;
        },
        rw (active, found, an, last, aa) refl,
        record {
          linked =
              Links-append (write h.cells a (some linked)) none ms ((a, v) ∷ (n, value) ∷ []) none
                (Links-write h.cells a (some linked) none ms (some a) gone
                  (Links-write list.heap.cells n (some e) none ms (some a) fresh_front front))
                (
                  write-same h.cells a (some linked),
                  (
                    write-other h.cells a n (some linked) (λ q. fresh_back.0 (sym q))
                        ∙ write-same list.heap.cells n (some e),
                    tt,
                  ),
                );
          distinct = AreDistinct-after n value ms (a, v) [] absent i.distinct;
          below = AreBelow-after n value ms (a, v) [] i.below;
          first =
              i.first
              ∙ first_or-append ms ((a, v) ∷ []) none
              ∙ sym (first_or-append ms ((a, v) ∷ (n, value) ∷ []) none);
          last = sym (last_or-append none ms a v ((n, value) ∷ []));
          counted = omega (arith, i.counted, length-after ms (a, v) (n, value) []);
        },
        rw active refl,
      )

  insert_after_inner :
      (list : DoubleList V) (ms : List (ℕ × V)) (a : ℕ) (v : V) (c : ℕ) (z : V) (ns : List (ℕ × V))
      (value : V)
      → IsList list (ms ++ (a, v) ∷ (c, z) ∷ ns)
      → list.active_element ≡ some a
      → (list' : DoubleList V) × (dll_insert_after true list value ≡ some list')
        × IsList list' (ms ++ (a, v) ∷ (list.heap.fresh, value) ∷ (c, z) ∷ ns)
        × (list'.active_element ≡ some a)
  unfolding dll_insert_after
  insert_after_inner list ms a v c z ns value i active =
      let n = list.heap.fresh in
      let ys = (c, z) ∷ ns in
      let (front, back) = Links-split list.heap.cells none ms ((a, v) ∷ ys) none i.linked in
      let e : Element V = record {
        value = value;
        previous_element = some a;
        next_element = some c;
      } in
      let h = alloc list.heap e in
      let old : Element V = record {
        value = v;
        previous_element = last_or none ms;
        next_element = some c;
      } in
      let linked : Element V = record old { next_element = some n } in
      let next : Element V = record {
        value = z;
        previous_element = some a;
        next_element = first_or ns none;
      } in
      let moved : Element V = record next { previous_element = some n } in
      let cells2 = write h.cells a (some linked) in
      let cells3 = write cells2 c (some moved) in
      let (gone, gone_behind) = middle-Absent ms a v ys i.distinct in
      let absent = AreBelow-Absent n (ms ++ (a, v) ∷ ys) i.below in
      let (fresh_front, fresh_back) = Absent-split n ms ((a, v) ∷ ys) absent in
      let (gone_c, gone_ns) = next-Absent ms (a, v) c z ns i.distinct in
      let ca_apart : c ≢ a = gone_behind.0 in
      let cn_apart : c ≢ n = fresh_back.1.0 in
      let an_apart : a ≢ n = fresh_back.0 in
      let an : (a == n) ≡ false = ground arith in
      let na : (n == a) ≡ false = ground arith in
      let ca : (c == a) ≡ false = ground arith in
      let cn : (c == n) ≡ false = ground arith in
      let nn : (n == n) ≡ true = ground arith in
      let found : list.heap.cells a ≡ some old = back.0 in
      let found_c : list.heap.cells c ≡ some next = back.1.0 in
      let inner : pointer_eq (some a) list.last_element ≡ false =
        ap (pointer_eq (some a)) (i.last ∙ last_or-append none ms a v ys)
        ∙ last_or-Absent c a ns ca_apart gone_behind.1 in
      (
        record list {
          heap = record h { cells = cells3 };
          current_length = list.current_length + 1;
        },
        rw (active, found, an, inner, na, nn, ca, cn, found_c) refl,
        record {
          linked =
              Links-append cells3 none ms ((a, v) ∷ (n, value) ∷ ys) none
                (Links-write cells2 c (some moved) none ms (some a) gone_c (
                  Links-write h.cells a (some linked) none ms (some a) gone
                    (Links-write list.heap.cells n (some e) none ms (some a) fresh_front front)))
                (
                  write-other cells2 c a (some moved) (λ q. ca_apart (sym q))
                      ∙ write-same h.cells a (some linked),
                  (
                    write-other cells2 c n (some moved) (λ q. cn_apart (sym q))
                        ∙ write-other h.cells a n (some linked) (λ q. an_apart (sym q))
                        ∙ write-same list.heap.cells n (some e),
                    (
                      write-same cells2 c (some moved),
                      Links-write cells2 c (some moved) (some c) ns none gone_ns (
                          Links-write h.cells a (some linked) (some c) ns none gone_behind.1 (
                            Links-write list.heap.cells n (some e) (some c) ns none fresh_back.1.1
                              back.1.1)),
                    ),
                  ),
                );
          distinct = AreDistinct-after n value ms (a, v) ys absent i.distinct;
          below = AreBelow-after n value ms (a, v) ys i.below;
          first =
              i.first
              ∙ first_or-append ms ((a, v) ∷ ys) none
              ∙ sym (first_or-append ms ((a, v) ∷ (n, value) ∷ ys) none);
          last =
              i.last
              ∙ last_or-append none ms a v ys
              ∙ sym (last_or-append none ms a v ((n, value) ∷ ys));
          counted = omega (arith, i.counted, length-after ms (a, v) (n, value) ys);
        },
        rw active refl,
      )

  -- With memory, the insertion after the active element gives the list with the new cell behind that
  -- of the active element, which stays active.
  pub insert_after-IsList :
      (list : DoubleList V) (ms : List (ℕ × V)) (a : ℕ) (v : V) (ns : List (ℕ × V)) (value : V)
      → IsList list (ms ++ (a, v) ∷ ns)
      → list.active_element ≡ some a
      → (list' : DoubleList V) × (dll_insert_after true list value ≡ some list')
        × IsList list' (ms ++ (a, v) ∷ (list.heap.fresh, value) ∷ ns)
        × (list'.active_element ≡ some a)
  insert_after-IsList list ms a v [] value i active = insert_after_last list ms a v value i active
  insert_after-IsList list ms a v ((c, z) ∷ ns) value i active =
      insert_after_inner list ms a v c z ns value i active

  -- With an active element, the moves make the neighbour in the list active, or none at an end, the
  -- reading gives the element's value, and nothing else changes.
  pub move-neighbour :
      (list : DoubleList V) (ms : List (ℕ × V)) (a : ℕ) (v : V) (ns : List (ℕ × V))
      → IsList list (ms ++ (a, v) ∷ ns)
      → list.active_element ≡ some a
      → (dll_next list ≡ some (record list { active_element = first_or ns none }))
        × (dll_previous list ≡ some (record list { active_element = last_or none ms }))
        × (dll_get_value list ≡ some (some v, list))
  unfolding dll_next dll_previous dll_get_value
  move-neighbour list ms a v ns i active =
      let (_, back) = Links-split list.heap.cells none ms ((a, v) ∷ ns) none i.linked in
      (rw (active, back.0) refl, rw (active, back.0) refl, rw (active, back.0) refl)
