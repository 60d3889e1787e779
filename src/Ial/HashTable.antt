-- ===== src/Ial/HashTable.antt =====
-- 2/IAL/2/hashtable.c: a table of chains under string keys. The array is the list of its chains,
-- `ht_size` the variable HT_SIZE, which may be set below the length of the array. `none` is an
-- access outside the array. A key is shorter than 2 ^ 24 bytes, so the sum of its bytes stays in
-- an `int`. The argument `allocated` says whether `malloc` succeeds.
pub mod Slot
pub mod Laws
pub mod Clear
use vut_projects.Base.{
  ℕ, zero, suc, ◌+◌, ◌-◌, ◌≡◌, Bool, true, false, Option, none, some, List, [], ◌∷◌, ◌++◌, ltb,
  if◌then◌else◌, ◌>>=◌, get_or, set, Text, text_eq,
}
use vut_projects.Base.Int.{ℤ, pos, negsuc, ◌+ℤ◌, rem}
use vut_projects.Chained.Chain.{find, update, erase}

-- The value of a byte as a signed `char`.
unfoldable pub char_value : ℕ → ℤ
char_value b = if ltb b 128 then pos b else negsuc (255 - b)

unfoldable pub hash_loop : Text → ℤ → ℤ
hash_loop [] result = result
hash_loop (b ∷ key) result = hash_loop key (result +ℤ char_value b)

unfoldable pub get_hash : (ht_size : ℕ) → Text → ℤ
get_hash ht_size key = rem (hash_loop key (pos 1)) ht_size

-- A negative index lies outside the array.
abbrev pub index : ℤ → Option ℕ
index (pos n) = some n
index (negsuc n) = none

abbrev pub Item : Type 0 → Type 0
Item V = Text × V

abbrev pub Table : Type 0 → Type 0
Table V = List (List (Item V))

module _ {V : Type 0} where
  -- `strcmp(c_item->key, key) == 0`
  abbrev pub holds : Text → Item V → Bool
  holds key item = text_eq item.0 key

  -- `(*table)[i] = NULL` for the next `rounds` indices
  init_loop : (rounds i : ℕ) → Table V → Table V
  init_loop zero i table = table
  init_loop (suc rounds) i table = init_loop rounds (suc i) (set table i [])

  module _ (ht_size : ℕ) where
    unfoldable pub ht_init : Table V → Table V
    unfolding init_loop
    ht_init table = init_loop ht_size 0 table

    unfoldable pub ht_search : Table V → Text → Option (Option (Item V))
    ht_search table key = do
      i ← index (get_hash ht_size key)
      some (find holds key (get_or table i []))

    unfoldable pub ht_insert : (allocated : Bool) → Table V → Text → V → Option (Table V)
    ht_insert allocated table key value = do
      found ← ht_search table key
      i ← index (get_hash ht_size key)
      some (elim found [
        | some item ↦ set table i (update holds key (λ old. (old.0, value)) (get_or table i []))
        | none ↦ if allocated then set table i ((key, value) ∷ get_or table i []) else table
      ])

    unfoldable pub ht_get : Table V → Text → Option (Option V)
    ht_get table key = do
      found ← ht_search table key
      some (elim found [ some item ↦ some item.1 | none ↦ none ])

    unfoldable pub ht_delete : Table V → Text → Option (Table V)
    ht_delete table key = do
      i ← index (get_hash ht_size key)
      some (set table i (erase holds key (get_or table i [])))

  -- The table with the next `rounds` chains dropped, and the items freed, in order.
  delete_loop : (rounds i : ℕ) → Table V → List (Item V) → Table V × List (Item V)
  delete_loop zero i table freed = (table, freed)
  delete_loop (suc rounds) i table freed =
      delete_loop rounds (suc i) (set table i []) (freed ++ get_or table i [])

  unfoldable pub ht_delete_all : (ht_size : ℕ) → Table V → Table V × List (Item V)
  unfolding delete_loop
  ht_delete_all ht_size table = delete_loop ht_size 0 table []
