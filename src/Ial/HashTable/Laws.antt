-- ===== src/Ial/HashTable/Laws.antt =====
-- 2/IAL/2/hashtable.c: the operations against a map from keys to values.
use vut_projects.Base.{
  ap, ℕ, ◌≤◌, ◌<◌, ◌≡◌, refl, ◌∙◌, inl, inr, Bool, ◌&&◌, ◌||◌, Option, none, some, List, [], ◌∷◌,
  arith, if◌then◌else◌, is_some, Option-cases, length, get_or, set, length-set, Text, text_eq,
  text_eq_refl, eq_of_text_eq, Bool-cases,
}
use vut_projects.Base.Int.{ℤ, pos, negsuc, neg_part, pos_part}
use vut_projects.Chained.Chain.{update, erase, IsKeyed}
use vut_projects.Chained.Buckets.{view, IsPlaced}
use vut_projects.Chained.Writes.{
  view-push, push-IsPlaced, view-update, update-IsPlaced, view-erase, erase-IsPlaced,
}
use vut_projects.Ial.HashTable.{
  Item, Table, get_hash, holds, ht_search, ht_insert, ht_get, ht_delete,
}
use vut_projects.Ial.HashTable.Slot.{slot, slot-lt, IsInside}

holds-IsKeyed : {V : Type 0} → IsKeyed (holds {V = V})
holds-IsKeyed k j a h = rw (eq_of_text_eq a.0 k h)

-- The size lies within the array, and every item stands once, in the chain of its key.
pub record IsValid {V : Type 0} (ht_size : ℕ) (table : Table V) : Type 0 where
  pub positive : 0 < ht_size
  pub width : ht_size ≤ length table
  pub items : IsPlaced holds (slot ht_size) table

inside : (z : ℤ) → neg_part z ≡ 0 → z ≡ pos (pos_part z)
inside (pos n) h = refl
inside (negsuc n) h = absurd (omega arith)

hash-slot : (m : ℕ) (key : Text) → IsInside m key → get_hash m key ≡ pos (slot m key)
unfolding slot
hash-slot m key i = inside (get_hash m key) i

module _ {V : Type 0} where
  abbrev pub value_of : Option (Item V) → Option V
  value_of none = none
  value_of (some item) = some item.1

  search-view :
      (m : ℕ) (table : Table V) (key : Text)
      → IsInside m key
      → ht_search m table key ≡ some (view holds (slot m) table key)
  unfolding ht_search view
  search-view m table key i = rw (hash-slot m key i)

  pub get-view :
      (m : ℕ) (table : Table V) (key : Text)
      → IsInside m key
      → ht_get m table key ≡ some (value_of (view holds (slot m) table key))
  unfolding ht_get
  get-view m table key i = rw (search-view m table key i) (of_found (view holds (slot m) table key))
    where
      of_found :
          (found : Option (Item V))
          → some (elim found [ some item ↦ some item.1 | none ↦ none ]) ≡ some (value_of found)
      of_found none = refl
      of_found (some item) = refl

  -- The table is valid, and `ht_get` reads the map `f` at every key whose hash is not negative.
  pub record Models (ht_size : ℕ) (table : Table V) (f : Text → Option V) : Type 0 where
    pub valid : IsValid ht_size table
    pub reads : (k : Text) → IsInside ht_size k → ht_get ht_size table k ≡ some (f k)

  module _ {m : ℕ} {table : Table V} {f : Text → Option V} (model : Models m table f) (key : Text)
      (i : IsInside m key) where
    value-eq : (k : Text) → IsInside m k → value_of (view holds (slot m) table k) ≡ f k
    value-eq k j = cc (get-view m table k j, model.reads k j)

    room : slot m key < length table
    room = omega (arith, slot-lt m key model.valid.positive, model.valid.width)

    rewritten :
        (c : List (Item V)) (g : Text → Option V)
        → IsPlaced holds (slot m) (set table (slot m key) c)
        → ((k : Text)
            → IsInside m k
            → value_of (view holds (slot m) (set table (slot m key) c) k) ≡ g k)
        → Models m (set table (slot m key) c) g
    rewritten c g items h = record {
      valid = record {
        positive = model.valid.positive;
        width = rw (length-set table (slot m key) c) model.valid.width;
        items = items;
      };
      reads = λ k j. get-view m _ k j ∙ ap some (h k j);
    }

    -- For a key whose hash is not negative an insertion succeeds. The key then reads the value, if
    -- an item could be allocated or the key was there, and each other key what it read before.
    -- The table stays valid.
    pub insert-Models :
        (allocated : Bool) (value : V)
        → (after : Table V) × (ht_insert m allocated table key value ≡ some after)
          × Models m after
              (λ k. if text_eq key k && (allocated || is_some (f key)) then some value else f k)
    unfolding ht_insert
    insert-Models allocated value = elim (Option-cases (view holds (slot m) table key)) [
      | inr (item, e) ↦
          let upd : Item V → Item V = λ old. (old.0, value) in
          (
            set table (slot m key) (update holds key upd (get_or table (slot m key) [])),
            rw (search-view m table key i, hash-slot m key i, e),
            rewritten _ _
                (update-IsPlaced holds (slot m) holds-IsKeyed table key room upd (λ k a. refl)
                  model.valid.items)
                (λ k j.
                  rw (view-update holds (slot m) holds-IsKeyed table key room upd k (λ k a. refl))
                    (ground (arith, value-eq k j, value-eq key i, e, eq_of_text_eq key k))),
          )
      | inl e ↦ elim (Bool-cases allocated) [
        | inl yes' ↦ (
          set table (slot m key) ((key, value) ∷ get_or table (slot m key) []),
          rw (search-view m table key i, hash-slot m key i, e, yes'),
          rewritten _ _
              (push-IsPlaced holds (slot m) holds-IsKeyed table key room (key, value)
                (text_eq_refl key) e model.valid.items)
              (λ k j.
                rw
                  (view-push holds (slot m) holds-IsKeyed table key room (key, value) k
                    (text_eq_refl key))
                  (ground (arith, value-eq k j))),
        )
        | inr no' ↦ (
          table,
          rw (search-view m table key i, hash-slot m key i, e, no'),
          record {
            valid = model.valid;
            reads = λ k j. model.reads k j ∙ ground (arith, value-eq key i, e, eq_of_text_eq key k);
          },
        )
      ]
    ]

    -- For a key whose hash is not negative a deletion succeeds. The key then reads nothing, and
    -- each other key what it read before. The table stays valid.
    pub delete-Models :
        (after : Table V) × (ht_delete m table key ≡ some after)
        × Models m after (λ k. if text_eq key k then none else f k)
    unfolding ht_delete
    delete-Models =
        let same = λ (k : Text).
          view-erase holds (slot m) holds-IsKeyed table key room k model.valid.items in
        (
          set table (slot m key) (erase holds key (get_or table (slot m key) [])),
          rw (hash-slot m key i),
          rewritten _ _
              (erase-IsPlaced holds (slot m) holds-IsKeyed table key room model.valid.items)
              (λ k j. rw (same k) (ground (arith, value-eq k j))),
        )
