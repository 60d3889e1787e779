-- ===== src/Ifj/Symtable/Valid.antt =====
-- 2/IFJ/symtable.c: the invariant of the table, and the loops along a chain as lookups.
use native.Mathlib.Nat.{mod-lt}
use vut_projects.Base.{
  ℕ, zero, suc, ◌+◌, ◌*◌, ◌%◌, ◌≤◌, ◌<◌, ◌≡◌, refl, true, Option, none, some, List, [], ◌∷◌, arith,
  if◌then◌else◌, is_some, length, get_or, set, Text, eq_of_text_eq,
}
use vut_projects.Chained.Chain.{find, erase, update, IsKeyed}
use vut_projects.Chained.Buckets.{flatten, view, IsPlaced}
use vut_projects.Ifj.Run.{ok}
use vut_projects.Ifj.Symtable.{
  Symbol, SymTable, hash_loop, symtable_hash, walk, key_of, holds, mark_used, remove_loop,
}

pub holds-IsKeyed : IsKeyed holds
holds-IsKeyed k j s h = rw (eq_of_text_eq (key_of s) k h)

unfoldable pub slot : (size : ℕ) → Text → ℕ
slot size key = hash_loop key 5381 % size

-- What the table holds under a key.
unfoldable pub lookup : SymTable → Text → Option Symbol
lookup st = view holds (slot st.size) st.table

abbrev pub AllNamed : List Symbol → Type 0
AllNamed [] = Unit
AllNamed (s ∷ chain) = (is_some s.name ≡ true) × AllNamed chain

abbrev pub TableNamed : List (List Symbol) → Type 0
TableNamed [] = Unit
TableNamed (chain ∷ table) = AllNamed chain × TableNamed table

pub record IsValid (st : SymTable) : Type 0 where
  pub width : length st.table ≡ st.size
  pub positive : 2 ≤ st.size
  pub items : IsPlaced holds (slot st.size) st.table
  pub named : TableNamed st.table
  pub counted : length (flatten st.table) ≡ st.count
  -- the load stays below three quarters, but for the symbol that was put in last
  pub loaded : 4 * st.count < 3 * st.size + 4

pub hash-slot :
    (key : Text) (size : ℕ) → 0 < size → symtable_hash (some key) size ≡ ok (slot size key)
unfolding symtable_hash slot
hash-slot key zero h = elim h [ ]
hash-slot key (suc n) h = refl

pub slot-lt : (size : ℕ) → 0 < size → (key : Text) → slot size key < size
unfolding slot
slot-lt size h key = mod-lt (hash_loop key 5381) h

pub named_at :
    (table : List (List Symbol)) (i : ℕ) → TableNamed table → AllNamed (get_or table i [])
named_at [] i n = tt
named_at (chain ∷ table) zero n = n.0
named_at (chain ∷ table) (suc i) n = named_at table i n.1

pub named-set :
    (table : List (List Symbol)) (i : ℕ) (chain : List Symbol)
    → TableNamed table
    → AllNamed chain
    → TableNamed (set table i chain)
named-set [] i chain n c = tt
named-set (old ∷ table) zero chain n c = (c, n.1)
named-set (old ∷ table) (suc i) chain n c = (n.0, named-set table i chain n.1 c)

pub walk-find :
    (key : Text) (chain : List Symbol) → AllNamed chain → walk key chain ≡ ok (find holds key chain)
unfolding walk find
walk-find key [] n = refl
walk-find key (s ∷ chain) n = ground (arith, walk-find key chain)

pub remove_loop-erase :
    (key : Text) (chain : List Symbol)
    → AllNamed chain
    → remove_loop key chain
      ≡ ok (if is_some (find holds key chain) then some (erase holds key chain) else none)
unfolding remove_loop find erase
remove_loop-erase key [] n = refl
remove_loop-erase key (s ∷ chain) n = ground (arith, remove_loop-erase key chain)

pub update-AllNamed :
    (key : Text) (chain : List Symbol)
    → AllNamed chain
    → AllNamed (update holds key mark_used chain)
unfolding update
update-AllNamed key [] n = tt
update-AllNamed key (s ∷ chain) n = ground (arith, update-AllNamed key chain)

pub erase-AllNamed :
    (key : Text) (chain : List Symbol) → AllNamed chain → AllNamed (erase holds key chain)
unfolding erase
erase-AllNamed key [] n = tt
erase-AllNamed key (s ∷ chain) n = ground (arith, erase-AllNamed key chain)
