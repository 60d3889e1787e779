-- ===== src/Ifj/Storage.antt =====
-- 2/IFJ/utils.c, 2/IFJ/utils.h: the storage of the pointers that the compiler has allocated. An
-- address is a number, and NULL is 0. What `malloc` and `realloc` return is a parameter of each
-- call: a new block, and `room`, what the cells hold by which the array grows. A read or a write
-- behind the array is a crash. Sizes are taken to fit a `size_t`.
use vut_projects.Base.{
  ℕ, zero, suc, ◌+◌, ◌-◌, ◌*◌, Bool, true, false, Option, none, some, List, [], ◌∷◌, ◌++◌, ltb, leb,
  ◌==◌, if◌then◌else◌, get_or, set, length,
}
use vut_projects.Ifj.Run.{Run, ok, exit, crash, ◌>>=◌, err_internal}
pub mod Held

-- `pointers` has all cells of the array.
pub record PointerStorage : Type 0 where
  pub pointers : List ℕ
  pub count : ℕ
  pub capacity : ℕ

unfoldable pub init_pointers_storage :
    (cells : Option (List ℕ)) → (initial_capacity : ℕ) → Run PointerStorage
init_pointers_storage none initial_capacity = exit err_internal
init_pointers_storage (some cells) initial_capacity =
    ok (record { pointers = cells; count = 0; capacity = initial_capacity })

-- `pointers[i] = ptr`
abbrev pub write : List ℕ → ℕ → ℕ → Run (List ℕ)
write cells i ptr = if ltb i (length cells) then ok (set cells i ptr) else crash

-- The value of `pointers[i]`
abbrev pub read : List ℕ → ℕ → Run ℕ
read cells i = if ltb i (length cells) then ok (get_or cells i 0) else crash

-- The growth at the start of `add_pointer_to_storage`.
unfoldable pub grow : (room : Option (List ℕ)) → PointerStorage → Run PointerStorage
grow room s =
    if leb s.capacity s.count
    then elim room [
      | none ↦ exit err_internal
      | some cells ↦
          ok (record { pointers = s.pointers ++ cells; count = s.count; capacity = s.capacity * 2 })
    ]
    else ok s

unfoldable pub add_pointer_to_storage :
    (room : Option (List ℕ)) → (ptr : ℕ) → PointerStorage → Run PointerStorage
unfolding grow
add_pointer_to_storage room ptr s = do
  grown ← grow room s
  cells ← write grown.pointers grown.count ptr
  ok (record { pointers = cells; count = grown.count + 1; capacity = grown.capacity })

unfoldable pub safe_malloc :
    (block : Option ℕ) → (room : Option (List ℕ)) → PointerStorage → Run (ℕ × PointerStorage)
unfolding add_pointer_to_storage
safe_malloc none room s = exit err_internal
safe_malloc (some ptr) room s = add_pointer_to_storage room ptr s >>= λ s'. ok (ptr, s')

-- The loop over the first `count` cells: the index of the pointer, if it is there.
unfoldable pub find_pointer : (cells : List ℕ) → (count : ℕ) → (ptr : ℕ) → Run (Option ℕ)
find_pointer cells zero ptr = ok none
find_pointer [] (suc count) ptr = crash
find_pointer (cell ∷ cells) (suc count) ptr =
    let rest = find_pointer cells count ptr in
    if cell == ptr
    then ok (some 0)
    else (rest >>= λ i. ok (elim i [ none ↦ none | some k ↦ some (suc k) ]))

unfoldable pub safe_realloc :
    (ptr : ℕ)
    → (block : Option ℕ) → (room : Option (List ℕ)) → PointerStorage
    → Run (ℕ × PointerStorage)
unfolding safe_malloc find_pointer
safe_realloc zero block room s = safe_malloc block room s
safe_realloc (suc ptr) none room s = exit err_internal
safe_realloc (suc ptr) (some new_ptr) room s =
    find_pointer s.pointers s.count (suc ptr) >>= λ found. elim found [
      | none ↦ ok (new_ptr, s)
      | some i ↦ write s.pointers i new_ptr >>= λ cells. ok (new_ptr, record s { pointers = cells })
    ]

-- The inner loop of `safe_free`, for this many turns from the cell `j` on.
unfoldable pub shift_loop : (turns : ℕ) → (j : ℕ) → List ℕ → Run (List ℕ)
shift_loop zero j cells = ok cells
shift_loop (suc turns) j cells = do
  pointer ← read cells (j + 1)
  moved ← write cells j pointer
  shift_loop turns (j + 1) moved

-- The addresses that are given to `free`, and the storage.
unfoldable pub safe_free : (ptr : ℕ) → PointerStorage → Run (List ℕ × PointerStorage)
unfolding find_pointer shift_loop
safe_free zero s = ok ([], s)
safe_free (suc ptr) s = find_pointer s.pointers s.count (suc ptr) >>= λ found. elim found [
  | none ↦ ok ([], s)
  | some i ↦ do
    shifted ← shift_loop (s.count - 1 - i) i s.pointers
    cells ← write shifted (s.count - 1) 0
    ok (suc ptr ∷ [], record s { pointers = cells; count = s.count - 1 })
]

-- The loop of `cleanup_pointers_storage`: what it frees.
unfoldable pub cleanup_loop : (cells : List ℕ) → (count : ℕ) → Run (List ℕ)
cleanup_loop cells zero = ok []
cleanup_loop [] (suc count) = crash
cleanup_loop (cell ∷ cells) (suc count) = cleanup_loop cells count >>= λ freed. ok (cell ∷ freed)

unfoldable pub cleanup_pointers_storage : PointerStorage → Run (List ℕ × PointerStorage)
unfolding cleanup_loop
cleanup_pointers_storage s = cleanup_loop s.pointers s.count >>= λ freed.
    ok (freed, record { pointers = []; count = 0; capacity = 0 })
