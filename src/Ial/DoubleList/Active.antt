-- ===== src/Ial/DoubleList/Active.antt =====
-- 2/IAL/1/c206.c: the operations at the active element, and the disposal of a list.
use vut_projects.Base.{
  ℕ, zero, suc, ◌+◌, ◌-◌, Bool, not, Option, none, some, ◌>>=◌, is_some, if◌then◌else◌,
}
use vut_projects.Ial.DoubleList.{
  DoubleList, pointer_eq, load, modify, set_next, set_previous, alloc, free, dll_error, dll_first,
  dll_delete_first,
}

module _ {V : Type 0} where
  unfoldable pub dll_delete_after : DoubleList V → Option (DoubleList V)
  dll_delete_after list = elim list.active_element [
    | none ↦ some list
    | some a ↦
        (load list.heap (some a) >>= λ active.
        if not (is_some active.next_element)
        then some list
        else (load list.heap active.next_element >>= λ deleted.
            set_next list.heap (some a) deleted.next_element >>= λ h.
            if pointer_eq active.next_element list.last_element
            then some (record list {
              heap = free h active.next_element;
              last_element = some a;
              current_length = list.current_length - 1;
            })
            else (set_previous h deleted.next_element (some a) >>= λ h'. some (record list {
              heap = free h' active.next_element;
              current_length = list.current_length - 1;
            }))))
  ]

  unfoldable pub dll_delete_before : DoubleList V → Option (DoubleList V)
  dll_delete_before list = elim list.active_element [
    | none ↦ some list
    | some a ↦
        (load list.heap (some a) >>= λ active.
        if not (is_some active.previous_element)
        then some list
        else (load list.heap active.previous_element >>= λ deleted.
            set_previous list.heap (some a) deleted.previous_element >>= λ h.
            if pointer_eq active.previous_element list.first_element
            then some (record list {
              heap = free h active.previous_element;
              first_element = some a;
              current_length = list.current_length - 1;
            })
            else (set_next h deleted.previous_element (some a) >>= λ h'. some (record list {
              heap = free h' active.previous_element;
              current_length = list.current_length - 1;
            }))))
  ]

  unfoldable pub dll_insert_after : (has_memory : Bool) → DoubleList V → V → Option (DoubleList V)
  dll_insert_after has_memory list value = elim list.active_element [
    | none ↦ some list
    | some a ↦
        if not has_memory
        then none
        else (load list.heap (some a) >>= λ active.
            let new = some list.heap.fresh in
            let h = alloc list.heap (record {
              value = value;
              previous_element = some a;
              next_element = active.next_element;
            }) in
            set_next h (some a) new >>= λ h1.
            if pointer_eq (some a) list.last_element
            then some (record list {
              heap = h1;
              last_element = new;
              current_length = list.current_length + 1;
            })
            else (load h1 new >>= λ e. set_previous h1 e.next_element new >>= λ h2.
                some (record list { heap = h2; current_length = list.current_length + 1 })))
  ]

  -- The last assignment reads `previousElement` of the active element, which is the new element by
  -- then.
  unfoldable pub dll_insert_before : (has_memory : Bool) → DoubleList V → V → Option (DoubleList V)
  dll_insert_before has_memory list value = elim list.active_element [
    | none ↦ some list
    | some a ↦
        if not has_memory
        then none
        else (load list.heap (some a) >>= λ active.
            let new = some list.heap.fresh in
            let h = alloc list.heap (record {
              value = value;
              previous_element = active.previous_element;
              next_element = some a;
            }) in
            set_previous h (some a) new >>= λ h1.
            if pointer_eq (some a) list.first_element
            then some (record list {
              heap = h1;
              first_element = new;
              current_length = list.current_length + 1;
            })
            else (load h1 (some a) >>= λ e. set_next h1 e.previous_element new >>= λ h2.
                some (record list { heap = h2; current_length = list.current_length + 1 })))
  ]

  unfoldable pub dll_get_value : DoubleList V → Option (Option V × DoubleList V)
  dll_get_value list = elim list.active_element [
    | none ↦ some (none, dll_error list)
    | some a ↦ (load list.heap (some a) >>= λ e. some (some e.value, list))
  ]

  unfoldable pub dll_set_value : DoubleList V → V → Option (DoubleList V)
  dll_set_value list value = elim list.active_element [
    | none ↦ some list
    | some a ↦
        (modify list.heap (some a) (λ e. record e { value = value }) >>= λ h.
        some (record list { heap = h }))
  ]

  unfoldable pub dll_next : DoubleList V → Option (DoubleList V)
  dll_next list = elim list.active_element [
    | none ↦ some list
    | some a ↦
        (load list.heap (some a) >>= λ e. some (record list { active_element = e.next_element }))
  ]

  unfoldable pub dll_previous : DoubleList V → Option (DoubleList V)
  dll_previous list = elim list.active_element [
    | none ↦ some list
    | some a ↦
        (load list.heap (some a) >>= λ e.
        some (record list { active_element = e.previous_element }))
  ]

  unfoldable pub dispose_loop : (fuel : ℕ) → DoubleList V → Option (DoubleList V)
  unfolding dll_delete_first
  dispose_loop zero list = none
  dispose_loop (suc fuel) list =
      if not (is_some list.first_element)
      then some list
      else (dll_delete_first list >>= λ list'. dispose_loop fuel list')

  -- The fuel is for a list whose length is right; what is left when it runs out is `none`.
  unfoldable pub dll_dispose : DoubleList V → Option (DoubleList V)
  unfolding dispose_loop dll_first
  dll_dispose list = dispose_loop (suc list.current_length) (dll_first list) >>= λ list'.
      some (record {
        heap = list'.heap;
        first_element = none;
        active_element = none;
        last_element = none;
        current_length = 0;
        error_flag = list'.error_flag;
      })
