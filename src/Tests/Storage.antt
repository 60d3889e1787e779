-- ===== src/Tests/Storage.antt =====
-- Tests and instances for the storage of pointers of 2/IFJ, and for the names of variables.
use vut_projects.Base.{◌≡◌, refl, some, none, [], ◌∷◌, arith}
use vut_projects.Ifj.Run.{ok}
use vut_projects.Ifj.Storage.{
  PointerStorage, add_pointer_to_storage, safe_free, safe_realloc, cleanup_pointers_storage,
}
use vut_projects.Ifj.Storage.Held.{Holds, add-Holds, free-Holds, realloc-Holds, cleanup-Holds}

-- Two pointers in an array of two cells.
abbrev two : PointerStorage
two = record { pointers = 7 ∷ 9 ∷ []; count = 2; capacity = 2 }

two-Holds : Holds two (7 ∷ 9 ∷ [])
two-Holds = record {
  spare = [];
  cells = refl;
  counted = refl;
  width = refl;
  positive = omega arith;
}

add-Holds_example :
    (s : PointerStorage) × (add_pointer_to_storage (some (0 ∷ 0 ∷ [])) 5 two ≡ ok s)
    × Holds s (7 ∷ 9 ∷ 5 ∷ [])
    × (s.capacity ≡ 4)
add-Holds_example = add-Holds (0 ∷ 0 ∷ []) 5 two-Holds refl

free-Holds_example : (s : PointerStorage) × (safe_free 7 two ≡ ok (7 ∷ [], s)) × Holds s (9 ∷ [])
free-Holds_example = free-Holds 6 two-Holds

realloc-Holds_example :
    (s : PointerStorage) × (safe_realloc 9 (some 12) none two ≡ ok (12, s)) × Holds s (7 ∷ 12 ∷ [])
realloc-Holds_example = realloc-Holds 8 12 none two-Holds

cleanup-Holds_example :
    cleanup_pointers_storage two
    ≡ ok (7 ∷ 9 ∷ [], record { pointers = []; count = 0; capacity = 0 })
cleanup-Holds_example = cleanup-Holds two-Holds
