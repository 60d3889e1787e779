-- ===== src/Ifj/Storage/Held.antt =====
-- 2/IFJ/utils.c: the storage as the list of the pointers that it holds.
use vut_projects.Base.{
  ℕ, suc, ◌+◌, ◌-◌, ◌*◌, ◌≤◌, ◌<◌, ◌≡◌, refl, sym, ◌∙◌, ap, ◌⊎◌, inl, inr, Bool, true, false,
  Option, none, some, List, [], ◌∷◌, ◌++◌, ltb, leb, ◌==◌, arith, if◌then◌else◌, length,
  length-append, length-snoc, set-append, get_or-append, append_assoc, Bool-cases, lt→ltb,
}
use vut_projects.Ifj.Run.{ok}
use vut_projects.Ifj.Storage.{
  PointerStorage, read, write, grow, add_pointer_to_storage, find_pointer, safe_realloc, shift_loop,
  safe_free, cleanup_loop, cleanup_pointers_storage,
}

-- The array has `capacity` cells, at least one, and these pointers stand in its first ones.
pub record Holds (s : PointerStorage) (held : List ℕ) : Type 0 where
  pub spare : List ℕ
  pub cells : s.pointers ≡ held ++ spare
  pub counted : s.count ≡ length held
  pub width : length s.pointers ≡ s.capacity
  pub positive : 1 ≤ s.capacity

-- The first occurrence of a pointer replaced, or taken out.
abbrev pub replace : ℕ → ℕ → List ℕ → List ℕ
replace ptr new [] = []
replace ptr new (p ∷ held) = if p == ptr then new ∷ held else p ∷ replace ptr new held

abbrev pub remove : ℕ → List ℕ → List ℕ
remove ptr [] = []
remove ptr (p ∷ held) = if p == ptr then held else p ∷ remove ptr held

abbrev pub holds : ℕ → List ℕ → Bool
holds ptr [] = false
holds ptr (p ∷ held) = if p == ptr then true else holds ptr held

-- A read and a write at a cell of the array.
read-cell : (ms : List ℕ) (p : ℕ) (ns : List ℕ) → read (ms ++ (p ∷ ns)) (length ms) ≡ ok p
read-cell ms p ns =
    let fits : ltb (length ms) (length (ms ++ (p ∷ ns))) ≡ true =
      lt→ltb _ _ (omega (arith, length-append ms (p ∷ ns))) in
    rw (fits, get_or-append ms p ns 0) refl

write-cell :
    (ms : List ℕ) (p new : ℕ) (ns : List ℕ)
    → write (ms ++ (p ∷ ns)) (length ms) new ≡ ok (ms ++ (new ∷ ns))
write-cell ms p new ns =
    let fits : ltb (length ms) (length (ms ++ (p ∷ ns))) ≡ true =
      lt→ltb _ _ (omega (arith, length-append ms (p ∷ ns))) in
    rw (fits, set-append ms p new ns) refl

write_at_end :
    (cells held spare : List ℕ) (ptr : ℕ)
    → cells ≡ held ++ spare
    → 0 < length spare
    → (rest : List ℕ) × (write cells (length held) ptr ≡ ok ((held ++ ptr ∷ []) ++ rest))
      × (length spare ≡ suc (length rest))
write_at_end cells held [] ptr e h = absurd (omega arith)
write_at_end cells held (c ∷ rest) ptr e h = (
  rest,
  rw (e, write-cell held c ptr rest) (ap ok (sym (append_assoc held (ptr ∷ []) rest))),
  refl,
)

-- The write of a pointer into the first spare cell.
put-Holds :
    (pointers held spare : List ℕ) (ptr capacity count : ℕ)
    → pointers ≡ held ++ spare
    → count ≡ length held
    → length pointers ≡ capacity
    → count < capacity
    → (cells : List ℕ) × (write pointers count ptr ≡ ok cells)
      × Holds
          (record { pointers = cells; count = count + 1; capacity = capacity })
          (held ++ ptr ∷ [])
put-Holds pointers held spare ptr capacity count e counted width room =
    let total : length pointers ≡ length held + length spare = rw e (length-append held spare) in
    let (rest, run, less) = write_at_end pointers held spare ptr e (omega arith) in
    (
      (held ++ ptr ∷ []) ++ rest,
      rw counted run,
      record {
        spare = rest;
        cells = refl;
        counted = rw (length-snoc held ptr) (omega arith);
        width = rw (length-append (held ++ ptr ∷ []) rest, length-snoc held ptr) (omega arith);
        positive = omega arith;
      },
    )

-- A pointer is put behind the others, into a cell of the array: it never writes outside of it.
-- Where the array is full it doubles first.
pub add-Holds :
    {s : PointerStorage} {held : List ℕ} (room : List ℕ) (ptr : ℕ)
    → Holds s held
    → length room ≡ s.capacity
    → (s' : PointerStorage) × (add_pointer_to_storage (some room) ptr s ≡ ok s')
      × Holds s' (held ++ ptr ∷ [])
      × (s'.capacity ≡ (if leb s.capacity s.count then s.capacity * 2 else s.capacity))
unfolding add_pointer_to_storage grow
add-Holds {s} {held} room ptr h more =
    let total : length s.pointers ≡ length held + length h.spare =
      rw h.cells (length-append held h.spare) in
    elim (Bool-cases (leb s.capacity s.count)) [
      | inl full ↦
          let (cells, run, put) =
            put-Holds (s.pointers ++ room) held (h.spare ++ room) ptr (s.capacity * 2) s.count
              (rw h.cells (append_assoc held h.spare room)) h.counted
              (rw (length-append s.pointers room) (omega (arith, h.width, more)))
              (omega (arith, h.counted, h.width, h.positive, total)) in
          (_, rw (full, run) refl, put, rw full refl)
      | inr spare ↦
          let (cells, run, put) =
            put-Holds s.pointers held h.spare ptr s.capacity s.count h.cells h.counted h.width
              (ground (arith, spare)) in
          (_, rw (spare, run) refl, put, rw spare refl)
    ]

-- The loop of `safe_free` over cells in front of which others stand.
shift-cells :
    (ms ns rest : List ℕ) (p : ℕ)
    → (last : ℕ) × (shift_loop (length ns) (length ms) (ms ++ (p ∷ (ns ++ rest)))
        ≡ ok (ms ++ (ns ++ (last ∷ rest))))
unfolding shift_loop
shift-cells ms [] rest p = (p, refl)
shift-cells ms (n ∷ ns) rest p =
    let (last, e) = shift-cells (ms ++ n ∷ []) ns rest n in
    let tail = n ∷ (ns ++ rest) in
    let size : length (ms ++ p ∷ []) ≡ length ms + 1 = rw (length-snoc ms p) (omega arith) in
    let size' : length (ms ++ n ∷ []) ≡ length ms + 1 = rw (length-snoc ms n) (omega arith) in
    let found : read (ms ++ (p ∷ tail)) (length ms + 1) ≡ ok n =
      rw (sym (append_assoc ms (p ∷ []) tail), sym size)
        (read-cell (ms ++ p ∷ []) n (ns ++ rest)) in
    let moved : shift_loop (length ns) (length ms + 1) (ms ++ (n ∷ tail))
        ≡ ok (ms ++ (n ∷ (ns ++ (last ∷ rest)))) =
      rw
        (
          sym (append_assoc ms (n ∷ []) tail),
          sym (append_assoc ms (n ∷ []) (ns ++ (last ∷ rest))),
          sym size',
        )
        e in
    (last, rw (found, write-cell ms p n tail) moved)

-- What the loop over the first cells finds.
abbrev Absent : ℕ → (held spare : List ℕ) → Type 0
Absent ptr held spare =
    (find_pointer (held ++ spare) (length held) ptr ≡ ok none)
    × (holds ptr held ≡ false)
    × (remove ptr held ≡ held)
    × ((new : ℕ) → replace ptr new held ≡ held)

abbrev Found : ℕ → (held spare : List ℕ) → Type 0
Found ptr held spare =
    (ms : List ℕ) × (ns : List ℕ) × (held ≡ ms ++ (ptr ∷ ns))
    × (find_pointer (held ++ spare) (length held) ptr ≡ ok (some (length ms)))
    × (holds ptr held ≡ true)
    × (remove ptr held ≡ ms ++ ns)
    × ((new : ℕ) → replace ptr new held ≡ ms ++ (new ∷ ns))

find-cases : (ptr : ℕ) (held spare : List ℕ) → Absent ptr held spare ⊎ Found ptr held spare
unfolding find_pointer
find-cases ptr [] spare = inl (refl, refl, refl, (λ new. refl))
find-cases ptr (p ∷ held) spare = elim (Bool-cases (p == ptr)) [
  | inl same ↦
      let e : p ≡ ptr = ground (arith, same) in
      inr ([], held, rw e refl, rw same refl, rw same refl, rw same refl, (λ new. rw same refl))
  | inr other ↦ elim (find-cases ptr held spare) [
    | inl (run, absent, removed, replaced) ↦ inl (
      rw (other, run) refl,
      rw (other, absent) refl,
      rw (other, removed) refl,
      (λ new. rw (other, replaced new) refl),
    )
    | inr (ms, ns, e, run, found, removed, replaced) ↦ inr (
      p ∷ ms,
      ns,
      rw e refl,
      rw (other, run) refl,
      rw (other, found) refl,
      rw (other, removed) refl,
      (λ new. rw (other, replaced new) refl),
    )
  ]
]

-- A pointer other than NULL is given to `free` just when it is held, once, and it is held once less
-- afterwards. The others stay in their order, and each cell that is read or written is one of the
-- array: an access behind it would be a crash.
pub free-Holds :
    {s : PointerStorage} {held : List ℕ} (ptr : ℕ)
    → Holds s held
    → (s' : PointerStorage) × (safe_free (suc ptr) s
        ≡ ok (if holds (suc ptr) held then suc ptr ∷ [] else [], s'))
      × Holds s' (remove (suc ptr) held)
unfolding safe_free
free-Holds {s} {held} ptr h = elim (find-cases (suc ptr) held h.spare) [
  | inl (run, absent, removed, _) ↦
      let run' : find_pointer s.pointers s.count (suc ptr) ≡ ok none =
        rw (h.cells, h.counted) run in
      (s, rw (run', absent) refl, rw removed h)
  | inr (ms, ns, e, run, found, removed, _) ↦
      let run' : find_pointer s.pointers s.count (suc ptr) ≡ ok (some (length ms)) =
        rw (h.cells, h.counted) run in
      let size : s.count ≡ length ms + suc (length ns) =
        rw (h.counted, e) (length-append ms (suc ptr ∷ ns)) in
      let front : length (ms ++ ns) ≡ length ms + length ns = length-append ms ns in
      let (last, shifted) = shift-cells ms ns h.spare (suc ptr) in
      let cells : s.pointers ≡ ms ++ (suc ptr ∷ (ns ++ h.spare)) =
        rw (h.cells, e) (append_assoc ms (suc ptr ∷ ns) h.spare) in
      let turns : s.count - 1 - length ms ≡ length ns = rw size (omega arith) in
      let index : s.count - 1 ≡ length (ms ++ ns) = rw (size, front) (omega arith) in
      let moved : shift_loop (s.count - 1 - length ms) (length ms) s.pointers
          ≡ ok ((ms ++ ns) ++ (last ∷ h.spare)) =
        rw (turns, cells, append_assoc ms ns (last ∷ h.spare)) shifted in
      let cleared : write ((ms ++ ns) ++ (last ∷ h.spare)) (s.count - 1) 0
          ≡ ok ((ms ++ ns) ++ (0 ∷ h.spare)) =
        rw index (write-cell (ms ++ ns) last 0 h.spare) in
      (
        record {
          pointers = (ms ++ ns) ++ (0 ∷ h.spare);
          count = s.count - 1;
          capacity = s.capacity;
        },
        rw (run', found, moved, cleared) refl,
        record {
          spare = 0 ∷ h.spare;
          cells = rw removed refl;
          counted = rw removed index;
          width =
              rw (length-append (ms ++ ns) (0 ∷ h.spare), front)
                (omega (
                  arith,
                  size,
                  h.width,
                  ap length cells,
                  length-append ms (suc ptr ∷ (ns ++ h.spare)),
                  length-append ns h.spare,
                ));
          positive = h.positive;
        },
      )
]

cleanup-held : (held spare : List ℕ) → cleanup_loop (held ++ spare) (length held) ≡ ok held
unfolding cleanup_loop
cleanup-held [] spare = refl
cleanup-held (p ∷ held) spare = rw (cleanup-held held spare) refl

-- A block that is moved is replaced where it is held; a pointer that is not held changes nothing.
pub realloc-Holds :
    {s : PointerStorage} {held : List ℕ} (ptr new_ptr : ℕ) (room : Option (List ℕ))
    → Holds s held
    → (s' : PointerStorage) × (safe_realloc (suc ptr) (some new_ptr) room s ≡ ok (new_ptr, s'))
      × Holds s' (replace (suc ptr) new_ptr held)
unfolding safe_realloc
realloc-Holds {s} {held} ptr new_ptr room h = elim (find-cases (suc ptr) held h.spare) [
  | inl (run, _, _, replaced) ↦
      let run' : find_pointer s.pointers s.count (suc ptr) ≡ ok none =
        rw (h.cells, h.counted) run in
      (s, rw run' refl, rw (replaced new_ptr) h)
  | inr (ms, ns, e, run, _, _, replaced) ↦
      let run' : find_pointer s.pointers s.count (suc ptr) ≡ ok (some (length ms)) =
        rw (h.cells, h.counted) run in
      let cells : s.pointers ≡ ms ++ (suc ptr ∷ (ns ++ h.spare)) =
        rw (h.cells, e) (append_assoc ms (suc ptr ∷ ns) h.spare) in
      let size : s.count ≡ length ms + suc (length ns) =
        rw (h.counted, e) (length-append ms (suc ptr ∷ ns)) in
      let behind = ns ++ h.spare in
      let written : write s.pointers (length ms) new_ptr ≡ ok (ms ++ (new_ptr ∷ behind)) =
        rw cells (write-cell ms (suc ptr) new_ptr behind) in
      let same_length : length (ms ++ (new_ptr ∷ behind)) ≡ length (ms ++ (suc ptr ∷ behind)) =
        omega (arith, length-append ms (new_ptr ∷ behind), length-append ms (suc ptr ∷ behind)) in
      (
        record s { pointers = ms ++ (new_ptr ∷ (ns ++ h.spare)) },
        rw (run', written) refl,
        record {
          spare = h.spare;
          cells = rw (replaced new_ptr) (sym (append_assoc ms (new_ptr ∷ ns) h.spare));
          counted = rw (replaced new_ptr, length-append ms (new_ptr ∷ ns)) size;
          width = same_length ∙ ap length (sym cells) ∙ h.width;
          positive = h.positive;
        },
      )
]

-- At the end each held pointer is freed once, in the order of the allocations, and the storage is
-- empty.
pub cleanup-Holds :
    {s : PointerStorage} {held : List ℕ}
    → Holds s held
    → cleanup_pointers_storage s ≡ ok (held, record { pointers = []; count = 0; capacity = 0 })
unfolding cleanup_pointers_storage
cleanup-Holds {s} {held} h =
    let run : cleanup_loop s.pointers s.count ≡ ok held =
      rw (h.cells, h.counted) (cleanup-held held h.spare) in
    rw run refl
