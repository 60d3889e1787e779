-- ===== src/Ial/DoubleList.antt =====
-- 2/IAL/1/c206.c: the doubly linked list with an active element, on a heap. A pointer is the address
-- of an element, or `none` for NULL. A result of `none` is a null or freed pointer followed; the
-- functions that are told whether there is memory follow one after a `malloc` that failed, since
-- `DLL_Error` returns.
use vut_projects.Base.{
  ℕ, zero, suc, ◌+◌, ◌-◌, Bool, true, false, not, ◌||◌, Option, none, some, ◌==◌, ◌>>=◌, is_some,
  if◌then◌else◌,
}
pub mod Active
pub mod Links
pub mod Ends
pub mod Last
pub mod Before
pub mod DeleteLast
pub mod After
pub mod DeleteAfter

abbrev pub Pointer : Type 0
Pointer = Option ℕ

pub record Element (V : Type 0) : Type 0 where
  pub value : V
  pub previous_element : Pointer
  pub next_element : Pointer

-- What is stored at an address, and the next address that `malloc` gives.
pub record Heap (V : Type 0) : Type 0 where
  pub cells : ℕ → Option (Element V)
  pub fresh : ℕ

pub record DoubleList (V : Type 0) : Type 0 where
  pub heap : Heap V
  pub first_element : Pointer
  pub active_element : Pointer
  pub last_element : Pointer
  pub current_length : ℕ
  pub error_flag : Bool

abbrev pub pointer_eq : Pointer → Pointer → Bool
pointer_eq none none = true
pointer_eq (some a) (some b) = a == b
pointer_eq _ _ = false

module _ {V : Type 0} where
  abbrev pub write : (ℕ → Option (Element V)) → ℕ → Option (Element V) → ℕ → Option (Element V)
  write cells a e b = if b == a then e else cells b

  abbrev pub load : Heap V → Pointer → Option (Element V)
  load h none = none
  load h (some a) = h.cells a

  -- Change the element that a pointer points to.
  abbrev pub modify : Heap V → Pointer → (Element V → Element V) → Option (Heap V)
  modify h none f = none
  modify h (some a) f = h.cells a >>= λ e. some (record h { cells = write h.cells a (some (f e)) })

  abbrev pub set_next : Heap V → Pointer → Pointer → Option (Heap V)
  set_next h p q = modify h p (λ e. record e { next_element = q })

  abbrev pub set_previous : Heap V → Pointer → Pointer → Option (Heap V)
  set_previous h p q = modify h p (λ e. record e { previous_element = q })

  -- `malloc` and the writes of the three fields.
  abbrev pub alloc : Heap V → Element V → Heap V
  alloc h e = record { cells = write h.cells h.fresh (some e); fresh = h.fresh + 1 }

  abbrev pub free : Heap V → Pointer → Heap V
  free h none = h
  free h (some a) = record h { cells = write h.cells a none }

  abbrev pub dll_error : DoubleList V → DoubleList V
  dll_error list = record list { error_flag = true }

  unfoldable pub dll_init : Heap V → Bool → DoubleList V
  dll_init h flag = record {
    heap = h;
    first_element = none;
    active_element = none;
    last_element = none;
    current_length = 0;
    error_flag = flag;
  }

  abbrev pub dll_is_active : DoubleList V → Bool
  dll_is_active list = is_some list.active_element

  unfoldable pub dll_insert_first : (has_memory : Bool) → DoubleList V → V → Option (DoubleList V)
  dll_insert_first false list value = none
  dll_insert_first true list value =
      let new = some list.heap.fresh in
      let h =
        alloc list.heap
          (record { value = value; previous_element = none; next_element = list.first_element }) in
      elim list.first_element [
        | none ↦ some (record list {
          heap = h;
          first_element = new;
          last_element = new;
          current_length = list.current_length + 1;
        })
        | some a ↦
            (set_previous h list.first_element new >>= λ h'. some (record list {
              heap = h';
              first_element = new;
              current_length = list.current_length + 1;
            }))
      ]

  unfoldable pub dll_insert_last : (has_memory : Bool) → DoubleList V → V → Option (DoubleList V)
  dll_insert_last false list value = none
  dll_insert_last true list value =
      let new = some list.heap.fresh in
      let h =
        alloc list.heap
          (record { value = value; previous_element = list.last_element; next_element = none }) in
      elim list.last_element [
        | none ↦ some (record list {
          heap = h;
          first_element = new;
          last_element = new;
          current_length = list.current_length + 1;
        })
        | some a ↦
            (set_next h list.last_element new >>= λ h'. some (record list {
              heap = h';
              last_element = new;
              current_length = list.current_length + 1;
            }))
      ]

  unfoldable pub dll_first : DoubleList V → DoubleList V
  dll_first list = record list { active_element = list.first_element }

  unfoldable pub dll_last : DoubleList V → DoubleList V
  dll_last list = record list { active_element = list.last_element }

  -- The list, which keeps an error, and the value behind `dataPtr` if it is written.
  unfoldable pub dll_get_first : DoubleList V → Option (Option V × DoubleList V)
  dll_get_first list = elim list.first_element [
    | none ↦ some (none, dll_error list)
    | some a ↦ (load list.heap list.first_element >>= λ e. some (some e.value, list))
  ]

  unfoldable pub dll_get_last : DoubleList V → Option (Option V × DoubleList V)
  dll_get_last list = elim list.last_element [
    | none ↦ some (none, dll_error list)
    | some a ↦ (load list.heap list.last_element >>= λ e. some (some e.value, list))
  ]

  -- The active pointer after the element at `p` is deleted.
  abbrev pub active_without : DoubleList V → Pointer → Pointer
  active_without list p = if pointer_eq p list.active_element then none else list.active_element

  unfoldable pub dll_delete_first : DoubleList V → Option (DoubleList V)
  dll_delete_first list =
      let p = list.first_element in
      let active = active_without list p in
      if not (is_some p)
      then some list
      else if pointer_eq p list.last_element
      then some (record list {
        heap = free list.heap p;
        first_element = none;
        active_element = active;
        last_element = none;
        current_length = list.current_length - 1;
      })
      else (load list.heap p >>= λ e. set_previous list.heap e.next_element none >>= λ h.
          some (record list {
            heap = free h p;
            first_element = e.next_element;
            active_element = active;
            current_length = list.current_length - 1;
          }))

  unfoldable pub dll_delete_last : DoubleList V → Option (DoubleList V)
  dll_delete_last list =
      let p = list.last_element in
      let active = active_without list p in
      if not (is_some p)
      then some list
      else if pointer_eq list.first_element p
      then some (record list {
        heap = free list.heap p;
        first_element = none;
        active_element = active;
        last_element = none;
        current_length = list.current_length - 1;
      })
      else (load list.heap p >>= λ e. set_next list.heap e.previous_element none >>= λ h.
          some (record list {
            heap = free h p;
            active_element = active;
            last_element = e.previous_element;
            current_length = list.current_length - 1;
          }))
