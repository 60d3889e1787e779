-- ===== src/Ifj/Symtable/Refine.antt =====
-- 2/IFJ/symtable.c: insertion, search and removal against a map from names to symbols.
use vut_projects.Base.{
  ◌+◌, ◌-◌, ◌*◌, ◌<◌, ◌≡◌, refl, ◌∙◌, inl, inr, true, not, ◌&&◌, none, some, [], ◌∷◌, arith,
  if◌then◌else◌, is_some, Bool-cases, Option-cases, length, get_or, set, length-set, Text, text_eq,
  text_eq_refl, eq_of_text_eq,
}
use vut_projects.Chained.Chain.{update, erase, map_some}
use vut_projects.Chained.Buckets.{view}
use vut_projects.Chained.Writes.{
  view-push, push-IsPlaced, view-update, update-IsPlaced, view-erase, erase-IsPlaced,
  length-flatten-push, length-flatten-update, length-flatten-erase,
}
use vut_projects.Ifj.Run.{ok}
use vut_projects.Ifj.Symtable.{
  Symbol, SymTable, holds, mark_used, is_full, insert_named, symtable_insert, symtable_search,
  symtable_remove,
}
use vut_projects.Ifj.Symtable.Valid.{
  holds-IsKeyed, slot, lookup, AllNamed, IsValid, hash-slot, slot-lt, named_at, named-set,
  walk-find, remove_loop-erase, update-AllNamed, erase-AllNamed,
}
use vut_projects.Ifj.Symtable.Grow.{grow-lookup}

module _ {st : SymTable} (v : IsValid st) (key : Text) where
  room : slot st.size key < length st.table
  room = rw v.width (slot-lt st.size (omega (arith, v.positive)) key)

  chain-named : AllNamed (get_or st.table (slot st.size key) [])
  chain-named = named_at st.table (slot st.size key) v.named

  some_room : 0 < st.size
  some_room = omega (arith, v.positive)

  -- The part of an insertion behind the growth, for a table that is not full.
  insert_named-lookup :
      (symbol : Symbol)
      → symbol.name ≡ some key
      → 4 * st.count < 3 * st.size
      → (st' : SymTable) × (insert_named st key symbol ≡ ok (not (is_some (lookup st key)), st'))
        × IsValid st'
        × (st'.count ≡ (if is_some (lookup st key) then st.count else st.count + 1))
        × ((k : Text)
            → lookup st' k ≡ (
                if text_eq key k && not (is_some (lookup st key))
                then some symbol
                else lookup st k))
  unfolding insert_named lookup view
  insert_named-lookup symbol name spare = elim (Option-cases (lookup st key)) [
    | inr (s, e) ↦ (
      st,
      rw (hash-slot key st.size some_room, walk-find key _ chain-named, e),
      v,
      rw e,
      λ k. rw e (ground arith),
    )
    | inl e ↦
        let i = slot st.size key in
        let mine : holds key symbol ≡ true = rw name (text_eq_refl key) in
        (
          record st {
            table = set st.table i (symbol ∷ get_or st.table i []);
            count = st.count + 1;
          },
          rw (hash-slot key st.size some_room, walk-find key _ chain-named, e),
          record {
            width = length-set st.table i _ ∙ v.width;
            positive = v.positive;
            items =
                push-IsPlaced holds (slot st.size) holds-IsKeyed st.table key room symbol mine e
                  v.items;
            named = named-set st.table i _ v.named (rw name refl, chain-named);
            counted =
                length-flatten-push holds (slot st.size) holds-IsKeyed st.table key room symbol
                ∙ omega (arith, v.counted);
            loaded = omega arith;
          },
          rw e,
          λ k. rw e (
              view-push holds (slot st.size) holds-IsKeyed st.table key room symbol k mine
              ∙ ground arith),
        )
  ]

-- A name that is not in a valid table is added with its symbol, and the result says so. For a name
-- that is there the symbols stay as they are. No other lookup changes, the count is right, and
-- the table stays valid, so its load stays below three quarters but for the last symbol.
pub insert-lookup :
    {st : SymTable} (key : Text) (symbol : Symbol)
    → IsValid st
    → symbol.name ≡ some key
    → (st' : SymTable) × (symtable_insert st (some key) (some symbol)
        ≡ ok (not (is_some (lookup st key)), st'))
      × IsValid st'
      × (st'.count ≡ (if is_some (lookup st key) then st.count else st.count + 1))
      × ((k : Text)
          → lookup st' k
            ≡ (if text_eq key k && not (is_some (lookup st key)) then some symbol else lookup st k))
unfolding symtable_insert
insert-lookup {st} key symbol v name = elim (Bool-cases (is_full st)) [
  | inr spare ↦
      let (st', run, v', count, same) = insert_named-lookup v key symbol name (ground arith) in
      (st', rw (name, spare, run), v', count, same)
  | inl full ↦
      let (grown, run, v', size, count, same) = grow-lookup st v in
      let (st', run', v'', count', same') =
        insert_named-lookup v' key symbol name (omega (arith, v.loaded, v.positive, size, count)) in
      (
        st',
        rw (name, full, run, run', same key),
        v'',
        rw (count', same key, count),
        λ k. rw (same' k, same key, same k),
      )
]

module _ {st : SymTable} (v : IsValid st) (key : Text) where
  pub search-lookup :
      (st' : SymTable) × (symtable_search st (some key)
        ≡ ok (map_some mark_used (lookup st key), st'))
      × IsValid st'
      × (st'.count ≡ st.count)
      × ((k : Text)
          → lookup st' k
            ≡ (if text_eq key k then map_some mark_used (lookup st k) else lookup st k))
  unfolding symtable_search lookup view
  search-lookup = elim (Option-cases (lookup st key)) [
    | inl e ↦ (
      st,
      rw (hash-slot key st.size (some_room v key), walk-find key _ (chain-named v key), e),
      v,
      refl,
      λ k. absent_same k e,
    )
    | inr (s, e) ↦
        let i = slot st.size key in
        (
          record st { table = set st.table i (update holds key mark_used (get_or st.table i [])) },
          rw (hash-slot key st.size (some_room v key), walk-find key _ (chain-named v key), e),
          record {
            width = length-set st.table i _ ∙ v.width;
            positive = v.positive;
            items =
                update-IsPlaced holds (slot st.size) holds-IsKeyed st.table key (room v key)
                  mark_used (λ k a. refl) v.items;
            named = named-set st.table i _ v.named (update-AllNamed key _ (chain-named v key));
            counted =
                length-flatten-update holds (slot st.size) holds-IsKeyed st.table key (room v key)
                  mark_used
                ∙ v.counted;
            loaded = v.loaded;
          },
          refl,
          λ k.
              view-update holds (slot st.size) holds-IsKeyed st.table key (room v key) mark_used k
                (λ k a. refl),
        )
  ]
    where
      absent_same :
          (k : Text)
          → lookup st key ≡ none
          → lookup st k ≡ (if text_eq key k then map_some mark_used (lookup st k) else lookup st k)
      absent_same k e = ground (arith, eq_of_text_eq key k)

  -- A removal from a valid table takes the symbol of the name away. No other lookup changes, the
  -- count is right, and the table stays valid.
  pub remove-lookup :
      (st' : SymTable) × (symtable_remove st (some key) ≡ ok st')
      × IsValid st'
      × (st'.count ≡ (if is_some (lookup st key) then st.count - 1 else st.count))
      × ((k : Text) → lookup st' k ≡ (if text_eq key k then none else lookup st k))
  unfolding symtable_remove lookup view
  remove-lookup = elim (Option-cases (lookup st key)) [
    | inl e ↦ (
      st,
      rw (hash-slot key st.size (some_room v key), remove_loop-erase key _ (chain-named v key), e),
      v,
      rw e,
      λ k. absent_same k e,
    )
    | inr (s, e) ↦
        let i = slot st.size key in
        let present : is_some (lookup st key) ≡ true = rw e in
        let fewer =
          length-flatten-erase holds (slot st.size) holds-IsKeyed st.table key (room v key)
            present in
        (
          record st {
            table = set st.table i (erase holds key (get_or st.table i []));
            count = st.count - 1;
          },
          rw (
            hash-slot key st.size (some_room v key),
            remove_loop-erase key _ (chain-named v key),
            e,
          ),
          record {
            width = length-set st.table i _ ∙ v.width;
            positive = v.positive;
            items =
                erase-IsPlaced holds (slot st.size) holds-IsKeyed st.table key (room v key) v.items;
            named = named-set st.table i _ v.named (erase-AllNamed key _ (chain-named v key));
            counted = omega (arith, fewer, v.counted);
            loaded = omega (arith, v.loaded);
          },
          rw e,
          λ k. view-erase holds (slot st.size) holds-IsKeyed st.table key (room v key) k v.items,
        )
  ]
    where
      absent_same :
          (k : Text)
          → lookup st key ≡ none
          → lookup st k ≡ (if text_eq key k then none else lookup st k)
      absent_same k e = ground (arith, eq_of_text_eq key k)
