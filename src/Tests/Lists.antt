-- ===== src/Tests/Lists.antt =====
-- Tests and instances for the doubly linked list of 2/IAL/1.
use vut_projects.Base.{
  ℕ, ◌+◌, ◌≡◌, refl, true, false, none, some, List, [], ◌∷◌, ◌++◌, arith, length, if◌then◌else◌,
  ◌==◌,
}
use vut_projects.Ial.DoubleList.{
  load, Heap, DoubleList, write, dll_init, dll_insert_last, dll_delete_last, pointer_eq,
}
use vut_projects.Ial.DoubleList.Active.{
  dll_delete_after, dll_insert_before, dll_insert_after, dll_dispose,
}
use vut_projects.Ial.DoubleList.Links.{Links, IsList}
use vut_projects.Ial.DoubleList.Ends.{AreFree, dispose-init}
use vut_projects.Ial.DoubleList.Last.{insert_last-IsList}
use vut_projects.Ial.DoubleList.DeleteLast.{front, delete_last-IsList}
use vut_projects.Ial.DoubleList.After.{insert_after-IsList}
use vut_projects.Ial.DoubleList.DeleteAfter.{delete_after-IsList}
use vut_projects.Ial.DoubleList.Before.{insert_before-self_linked}

-- 7 at the address 0 and 8 at 1, the second one active.
abbrev pair : DoubleList ℕ
pair = record {
  heap = record {
    cells =
        write
          (write (λ a. none) 0
            (some (record { value = 7; previous_element = none; next_element = some 1 })))
          1 (some (record { value = 8; previous_element = some 0; next_element = none }));
    fresh = 2;
  };
  first_element = some 0;
  active_element = some 1;
  last_element = some 1;
  current_length = 2;
  error_flag = false;
}

abbrev cells : List (ℕ × ℕ)
cells = (0, 7) ∷ (1, 8) ∷ []

pair-IsList : IsList pair cells
pair-IsList = record {
  linked = (refl, (refl, tt));
  distinct = (((λ e. absurd (omega arith)), tt), (tt, tt));
  below = (omega arith, (omega arith, tt));
  first = refl;
  last = refl;
  counted = refl;
}

insert_last-IsList_example :
    ((list : DoubleList ℕ) × (dll_insert_last true pair 9 ≡ some list)
      × IsList list (cells ++ (2, 9) ∷ [])
      × (list.active_element ≡ some 1))
    × (dll_insert_last false pair 9 ≡ none)
insert_last-IsList_example = insert_last-IsList pair cells 9 pair-IsList

dispose-init_example :
    (h : Heap ℕ) × (dll_dispose pair ≡ some (dll_init h false))
    × IsList (dll_init h false) []
    × AreFree h.cells cells
dispose-init_example = dispose-init pair cells pair-IsList

insert_before-self_linked_example :
    (list : DoubleList ℕ) × (dll_insert_before true pair 6 ≡ some list)
    × (list.heap.cells 2
        ≡ some (record { value = 6; previous_element = some 0; next_element = some 2 }))
    × ((b : ℕ)
        → list.heap.cells b ≡ (
            if b == 2
            then some (record { value = 6; previous_element = some 0; next_element = some 2 })
            else if b == 1
            then some (record { value = 8; previous_element = some 2; next_element = none })
            else pair.heap.cells b))
    × Links list.heap.cells none ((0, 7) ∷ []) (some 1)
    × Links list.heap.cells (some 1) [] none
    × (list.first_element ≡ some 0)
    × (list.last_element ≡ some 1)
    × (list.active_element ≡ some 1)
    × (list.error_flag ≡ false)
    × (list.current_length ≡ length cells + 1)
insert_before-self_linked_example =
    insert_before-self_linked pair (0, 7) [] 1 8 [] 6 pair-IsList refl

delete_last-IsList_example :
    (list : DoubleList ℕ) × (dll_delete_last pair ≡ some list)
    × IsList list (front cells)
    × (list.active_element
        ≡ (if pointer_eq pair.last_element pair.active_element then none else pair.active_element))
    × (list.error_flag ≡ false)
    × (load list.heap pair.last_element ≡ none)
delete_last-IsList_example = delete_last-IsList pair cells pair-IsList

insert_after-IsList_example :
    (list : DoubleList ℕ) × (dll_insert_after true pair 9 ≡ some list)
    × IsList list (((0, 7) ∷ []) ++ (1, 8) ∷ (2, 9) ∷ [])
    × (list.active_element ≡ some 1)
insert_after-IsList_example = insert_after-IsList pair ((0, 7) ∷ []) 1 8 [] 9 pair-IsList refl

abbrev at_first : DoubleList ℕ
at_first = record pair { active_element = some 0 }

at_first-IsList : IsList at_first cells
at_first-IsList = record {
  linked = (refl, (refl, tt));
  distinct = (((λ e. absurd (omega arith)), tt), (tt, tt));
  below = (omega arith, (omega arith, tt));
  first = refl;
  last = refl;
  counted = refl;
}

delete_after-IsList_example :
    (list : DoubleList ℕ) × (dll_delete_after at_first ≡ some list)
    × IsList list ((0, 7) ∷ [])
    × (list.active_element ≡ some 0)
    × (load list.heap (some 1) ≡ none)
delete_after-IsList_example = delete_after-IsList at_first [] 0 7 1 8 [] at_first-IsList refl
