-- ===== src/Tests/Tables.antt =====
-- Tests and instances for the hash tables.
use vut_projects.Base.{
  ℕ, ◌≡◌, refl, true, false, ◌&&◌, ◌||◌, none, some, [], ◌∷◌, arith, if◌then◌else◌, replicate,
  text_eq, codes,
}
use vut_projects.Base.Int.{rem, ◌+ℤ◌}
use vut_projects.Chained.Chain.{find, update, erase}
use vut_projects.Ial.HashTable.{
  Table, char_value, hash_loop, get_hash, ht_init, ht_search, ht_insert, ht_get, ht_delete,
}
use vut_projects.Ial.HashTable.Slot.{IsAscii-IsInside}
use vut_projects.Ial.HashTable.Laws.{Models, insert-Models, delete-Models}
use vut_projects.Ial.HashTable.Clear.{init-Models}

abbrev unset : Table ℕ
unset = replicate 7 ((codes "junk", 0) ∷ [])

init-Models_example : Models 7 (ht_init 7 unset) (λ k. none)
init-Models_example = init-Models unset (omega arith)

insert-Models_example :
    (after : Table ℕ) × (ht_insert 7 true (ht_init 7 unset) (codes "Ethereum") 13 ≡ some after)
    × Models 7 after
        (λ k. if text_eq (codes "Ethereum") k && (true || false) then some 13 else none)
insert-Models_example =
    insert-Models init-Models_example (codes "Ethereum")
      (IsAscii-IsInside 7 (codes "Ethereum") (omega arith)) true 13

delete-Models_example :
    (after : Table ℕ) × (ht_delete 7 (ht_init 7 unset) (codes "Ethereum") ≡ some after)
    × Models 7 after (λ k. if text_eq (codes "Ethereum") k then none else none)
delete-Models_example =
    delete-Models init-Models_example (codes "Ethereum")
      (IsAscii-IsInside 7 (codes "Ethereum") (omega arith))

program : Unit {0}
unfolding char_value hash_loop ◌+ℤ◌ rem get_hash find update erase text_eq ht_init ht_search
    ht_insert ht_get ht_delete
program = tt

-- "é" in UTF-8 has a negative hash.
get_hash_accent :
    ht_search {V = ℕ} 101 (replicate 101 ((codes "junk", 0) ∷ [])) (195 ∷ 169 ∷ []) ≡ none
unfolding program
get_hash_accent = refl
