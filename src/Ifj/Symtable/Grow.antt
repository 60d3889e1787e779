-- ===== src/Ifj/Symtable/Grow.antt =====
-- 2/IFJ/symtable.c: symtable_grow keeps every lookup and doubles the array.
use vut_projects.Base.{
  ℕ, zero, suc, ◌*◌, ◌<◌, ◌≡◌, refl, ap, ◌∙◌, true, Option, none, some, List, [], ◌∷◌, ◌++◌, arith,
  if◌then◌else◌, is_some, length, replicate, length-replicate, Text, text_eq_refl,
}
use vut_projects.Chained.Buckets.{flatten, view, find-flatten-view, flatten-IsDistinct_lem}
use vut_projects.Chained.Move.{
  push_item, push_items, push_items-append, length-push_items, view-push_items, push_items-IsPlaced,
}
use vut_projects.Chained.Empty.{replicate-IsPlaced, view-replicate, flatten-replicate}
use vut_projects.Ifj.Run.{ok}
use vut_projects.Ifj.Symtable.{
  Symbol, SymTable, symtable_hash, key_of, holds, rehash_chain, rehash, symtable_grow,
}
use vut_projects.Ifj.Symtable.Valid.{
  holds-IsKeyed, slot, lookup, AllNamed, TableNamed, IsValid, hash-slot, slot-lt, named_at,
  named-set,
}

hash-named :
    (s : Symbol) (size : ℕ)
    → is_some s.name ≡ true
    → 0 < size
    → symtable_hash s.name size ≡ ok (slot size (key_of s))
hash-named s size n h = named s.name n
  where
    named :
        (name : Option Text)
        → is_some name ≡ true
        → symtable_hash name size ≡ ok (slot size (elim name [ none ↦ [] | some k ↦ k ]))
    named none e = cc
    named (some k) e = hash-slot k size h

rehash_chain-eq :
    (chain : List Symbol) (size : ℕ) (fresh : List (List Symbol))
    → AllNamed chain
    → 0 < size
    → rehash_chain chain size fresh ≡ ok (push_items key_of (slot size) chain fresh)
unfolding rehash_chain push_items push_item
rehash_chain-eq [] size fresh n h = refl
rehash_chain-eq (s ∷ chain) size fresh n h =
    rw (hash-named s size n.0 h) (rehash_chain-eq chain size _ n.1 h)

rehash-eq :
    (table : List (List Symbol)) (size : ℕ) (fresh : List (List Symbol))
    → TableNamed table
    → 0 < size
    → rehash table size fresh ≡ ok (push_items key_of (slot size) (flatten table) fresh)
unfolding rehash push_items
rehash-eq [] size fresh n h = refl
rehash-eq (chain ∷ table) size fresh n h =
    rw
      (
        rehash_chain-eq chain size fresh n.0 h,
        push_items-append key_of (slot size) chain (flatten table) fresh,
      )
      (rehash-eq table size _ n.1 h)

-- Symbols with names stay so when they are moved.
push_items-named :
    (size : ℕ) (es : List Symbol) (fresh : List (List Symbol))
    → AllNamed es
    → TableNamed fresh
    → TableNamed (push_items key_of (slot size) es fresh)
unfolding push_items push_item
push_items-named size [] fresh n t = t
push_items-named size (s ∷ es) fresh n t =
    push_items-named size es _ n.1
      (named-set fresh _ _ t (n.0, named_at fresh (slot size (key_of s)) t))

append-AllNamed : (c d : List Symbol) → AllNamed c → AllNamed d → AllNamed (c ++ d)
append-AllNamed [] d m n = n
append-AllNamed (s ∷ c) d m n = (m.0, append-AllNamed c d m.1 n)

pub flatten-AllNamed : (table : List (List Symbol)) → TableNamed table → AllNamed (flatten table)
flatten-AllNamed [] n = tt
flatten-AllNamed (c ∷ table) n = append-AllNamed c (flatten table) n.0 (flatten-AllNamed table n.1)

replicate-named : (n : ℕ) → TableNamed (replicate n [])
replicate-named zero = tt
replicate-named (suc n) = (tt, replicate-named n)

-- A valid table grows to one of twice the size with the same symbols under the same keys.
pub grow-lookup :
    (st : SymTable)
    → IsValid st
    → (st' : SymTable) × (symtable_grow st ≡ ok st')
      × IsValid st'
      × (st'.size ≡ st.size * 2)
      × (st'.count ≡ st.count)
      × ((key : Text) → lookup st' key ≡ lookup st key)
unfolding symtable_grow lookup
grow-lookup st v =
    let size = st.size * 2 in
    let es = flatten st.table in
    let blank : List (List Symbol) = replicate size [] in
    let positive : 0 < size = omega arith in
    let width : length blank ≡ size = length-replicate size [] in
    let distinct = flatten-IsDistinct_lem holds (slot st.size) st.table v.items in
    let fits = slot-lt size positive in
    let own = λ (s : Symbol). text_eq_refl (key_of s) in
    let (placed, count) =
      push_items-IsPlaced key_of (slot size) holds holds-IsKeyed own size fits es blank width
        distinct (λ k e. view-replicate holds (slot size) size k)
        (replicate-IsPlaced holds (slot size) size) in
    (
      record { table = push_items key_of (slot size) es blank; size = size; count = st.count },
      rw (rehash-eq st.table size blank v.named positive),
      record {
        width =
            length-push_items key_of (slot size) holds holds-IsKeyed own size fits es blank ∙ width;
        positive = omega (arith, v.positive);
        items = placed;
        named =
            push_items-named size es blank (flatten-AllNamed st.table v.named)
              (replicate-named size);
        counted = count ∙ omega (arith, v.counted, ap length (flatten-replicate {A = Symbol} size));
        loaded = omega (arith, v.loaded, v.positive);
      },
      refl,
      refl,
      λ key.
          view-push_items key_of (slot size) holds holds-IsKeyed own size fits es blank key width
            distinct
          ∙ rw (find-flatten-view holds (slot st.size) key st.table v.items, view-replicate)
              (same_view (view holds (slot st.size) st.table key)),
    )
  where
    same_view : (o : Option Symbol) → (if is_some o then o else none) ≡ o
    same_view none = refl
    same_view (some s) = refl
