-- ===== src/Ial/HashTable/Clear.antt =====
-- 2/IAL/2/hashtable.c: the loops over the whole array, for a size that is the length of the array.
use mathlib.Core.List.{append-nil, append_assoc}
use vut_projects.Base.{
  ℕ, zero, suc, ◌<◌, ◌≡◌, refl, ◌∙◌, none, List, [], ◌∷◌, ◌++◌, arith, length, length-snoc,
  length-replicate, get_or-replicate, replicate, set-append, get_or-append,
}
use vut_projects.Chained.Chain.{find}
use vut_projects.Chained.Buckets.{flatten, PlacedFrom, AllDistinct, view}
use vut_projects.Ial.HashTable.{Item, Table, holds, init_loop, ht_init, delete_loop, ht_delete_all}
use vut_projects.Ial.HashTable.Slot.{slot}
use vut_projects.Ial.HashTable.Laws.{Models, get-view}

module _ {V : Type 0} where
  init_loop-append :
      (ms ns : Table V)
      → init_loop (length ns) (length ms) (ms ++ ns) ≡ ms ++ replicate (length ns) []
  unfolding init_loop
  init_loop-append ms [] = refl
  init_loop-append ms (c ∷ ns) =
      rw (set-append ms c [] ns, init_loop)
        (simp (append_assoc, length-snoc) at (init_loop-append (ms ++ [] ∷ []) ns))

  delete_loop-append :
      (ms ns : Table V) (freed : List (Item V))
      → delete_loop (length ns) (length ms) (ms ++ ns) freed
        ≡ (ms ++ replicate (length ns) [], freed ++ flatten ns)
  unfolding delete_loop
  delete_loop-append ms [] freed = simp append-nil
  delete_loop-append ms (c ∷ ns) freed =
      rw (set-append ms c [] ns, get_or-append ms c ns [], delete_loop)
        (simp (append_assoc, length-snoc) at (delete_loop-append (ms ++ [] ∷ []) ns (freed ++ c)))

  replicate-Models : (m : ℕ) → 0 < m → Models {V = V} m (replicate m []) (λ k. none)
  unfolding view find
  replicate-Models m h = record {
    valid = record {
      positive = h;
      width = omega (arith, length-replicate {0} {A = List (Item V)} m []);
      items = record { placed = placed m 0; distinct = distinct m };
    };
    reads = λ k i. get-view m (replicate m []) k i ∙ rw get_or-replicate;
  }
    where
      placed : (n i : ℕ) → PlacedFrom (holds {V = V}) (slot m) i (replicate n [])
      placed zero i = tt
      placed (suc n) i = ((λ k. cc), placed n (suc i))

      distinct : (n : ℕ) → AllDistinct (holds {V = V}) (slot m) (replicate n [])
      distinct zero = tt
      distinct (suc n) = (tt, distinct n)

  -- Over an array of HT_SIZE chains, whatever it holds, the initialisation gives an empty table.
  pub init-Models :
      (table : Table V)
      → 0 < length table
      → Models (length table) (ht_init (length table) table) (λ k. none)
  unfolding ht_init
  init-Models table h = rw (init_loop-append [] table) (replicate-Models (length table) h)

  -- Over an array of HT_SIZE chains the deletion of all items frees the items of every chain, in
  -- order and each once, and gives an empty table.
  pub delete_all-Models :
      (table : Table V)
      → 0 < length table
      → ((ht_delete_all (length table) table).1 ≡ flatten table)
        × Models (length table) (ht_delete_all (length table) table).0 (λ k. none)
  unfolding ht_delete_all
  delete_all-Models table h =
      rw (delete_loop-append [] table []) (refl, replicate-Models (length table) h)
