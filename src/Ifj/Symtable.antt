-- ===== src/Ifj/Symtable.antt =====
-- 2/IFJ/symtable.h, 2/IFJ/symtable.c: the symbol table of the compiler, a hash table with chains
-- that doubles. A `char *` that may be NULL is an `Option`. Memory never runs out here: an
-- allocation that fails ends the process inside `safe_malloc`.
use vut_projects.Base.{
  ℕ, zero, suc, ◌+◌, ◌-◌, ◌*◌, ◌%◌, ◌^◌, Bool, true, false, not, ◌&&◌, Option, none, some, List, [],
  ◌∷◌, ◌++◌, ltb, leb, ◌==◌, if◌then◌else◌, get_or, set, replicate, length, Text, text_eq, codes,
}
pub mod Compile
pub mod Valid
pub mod Grow
pub mod Ends
pub mod Refine
pub mod Checks
pub mod Startup
use mathlib.Core.Option
use vut_projects.Chained.Chain.{update}
use vut_projects.Ifj.Ast.{DataType, Pointer}
use vut_projects.Ifj.Run.{
  Run, ok, exit, crash, ◌>>=◌, ◌>>◌, err_semantic_undef, err_semantic_params, err_semantic_unused,
  err_internal,
}

pub data SymbolType : Type 0 where
  variable function parameter : SymbolType

pub record Symbol : Type 0 where
  pub name : Option Text
  pub symbol_type : SymbolType
  pub data_type : DataType
  pub parent_function : Option Text
  pub is_defined : Bool
  pub is_used : Bool
  pub is_constant : Bool
  pub declaration_node : Pointer

pub record SymTable : Type 0 where
  pub table : List (List Symbol)
  pub size : ℕ
  pub count : ℕ

abbrev pub initial_symtable_size : ℕ
initial_symtable_size = 64

-- A signed `char` as it is added to an `unsigned long`.
unfoldable pub char_word : ℕ → ℕ
char_word b = if ltb b 128 then b else 2 ^ 64 + b - 256

unfoldable pub hash_loop : Text → ℕ → ℕ
unfolding char_word
hash_loop [] hash = hash
hash_loop (c ∷ key) hash = hash_loop key (((hash * 32) % 2 ^ 64 + hash + char_word c) % 2 ^ 64)

unfoldable pub symtable_hash : Option Text → ℕ → Run ℕ
symtable_hash none size = exit err_internal
symtable_hash (some key) zero = crash
symtable_hash (some key) (suc n) = ok (hash_loop key 5381 % suc n)

-- The loop along a chain in `symtable_insert` and `symtable_search`.
unfoldable pub walk : Text → List Symbol → Run (Option Symbol)
walk key [] = ok none
walk key (s ∷ chain) = elim s.name [
  | none ↦ exit err_internal
  | some name ↦ if text_eq name key then ok (some s) else walk key chain
]

-- The inner loop of `symtable_grow`: each symbol goes to the front of its new chain.
rehash_chain : List Symbol → ℕ → List (List Symbol) → Run (List (List Symbol))
rehash_chain [] size fresh = ok fresh
rehash_chain (s ∷ chain) size fresh = do
  i ← symtable_hash s.name size
  rehash_chain chain size (set fresh i (s ∷ get_or fresh i []))

rehash : List (List Symbol) → ℕ → List (List Symbol) → Run (List (List Symbol))
unfolding rehash_chain
rehash [] size fresh = ok fresh
rehash (chain ∷ old) size fresh = do fresh' ← rehash_chain chain size fresh; rehash old size fresh'

unfoldable pub symtable_grow : SymTable → Run SymTable
unfolding rehash
symtable_grow st = do
  fresh ← rehash st.table (st.size * 2) (replicate (st.size * 2) [])
  ok (record { table = fresh; size = st.size * 2; count = st.count })

-- `(float)count / size >= 0.75`; both fit a `float` exactly below 2 ^ 24.
abbrev pub is_full : SymTable → Bool
is_full st = leb (3 * st.size) (4 * st.count)

-- The part of `symtable_insert` behind the tests. The `Bool` says that the result is not NULL.
unfoldable pub insert_named : SymTable → Text → Symbol → Run (Bool × SymTable)
unfolding walk
insert_named st key symbol = do
  i ← symtable_hash (some key) st.size
  found ← walk key (get_or st.table i [])
  elim found [
    | some s ↦ ok (false, st)
    | none ↦ ok (
      true,
      record st { table = set st.table i (symbol ∷ get_or st.table i []); count = st.count + 1 },
    )
  ]

unfoldable pub symtable_insert : SymTable → Option Text → Option Symbol → Run (Bool × SymTable)
unfolding insert_named
symtable_insert st none symbol = exit err_internal
symtable_insert st (some key) none = exit err_internal
symtable_insert st (some key) (some symbol) = elim symbol.name [
  | none ↦ exit err_internal
  | some name ↦ do
    grown ← (if is_full st then symtable_grow st else ok st)
    insert_named grown key symbol
]

abbrev pub mark_used : Symbol → Symbol
mark_used s = record s { is_used = true }

-- The key of a symbol; the loops leave with an error where there is none.
abbrev pub key_of : Symbol → Text
key_of s = elim s.name [ none ↦ [] | some name ↦ name ]

abbrev pub holds : Text → Symbol → Bool
holds key s = text_eq (key_of s) key

-- The symbol that the result points to, marked, and the table after the write through that
-- pointer.
unfoldable pub symtable_search : SymTable → Option Text → Run (Option Symbol × SymTable)
unfolding walk
symtable_search st none = exit err_internal
symtable_search st (some key) = do
  i ← symtable_hash (some key) st.size
  found ← walk key (get_or st.table i [])
  elim found [
    | none ↦ ok (none, st)
    | some s ↦ ok (
      some (mark_used s),
      record st { table = set st.table i (update holds key mark_used (get_or st.table i [])) },
    )
  ]

-- The loop of `symtable_remove`, which hands every name to `strcmp`: the chain without the symbol,
-- or `none` if it is not there.
unfoldable pub remove_loop : Text → List Symbol → Run (Option (List Symbol))
remove_loop key [] = ok none
remove_loop key (s ∷ chain) = elim s.name [
  | none ↦ crash
  | some name ↦
      if text_eq name key
      then ok (some chain)
      else (remove_loop key chain >>= λ rest. ok (Option.map (λ c. s ∷ c) rest))
]

unfoldable pub symtable_remove : SymTable → Option Text → Run SymTable
unfolding remove_loop
symtable_remove st key = do
  i ← symtable_hash key st.size
  rest ← remove_loop (elim key [ none ↦ [] | some k ↦ k ]) (get_or st.table i [])
  elim rest [
    | none ↦ ok st
    | some chain ↦ ok (record st { table = set st.table i chain; count = st.count - 1 })
  ]

-- The loops of `symtable_free` along a chain and along the array: the symbols they free, in order.
free_chain : List Symbol → List Symbol
free_chain [] = []
free_chain (symbol ∷ rest) = symbol ∷ free_chain rest

free_chains : List (List Symbol) → List Symbol
unfolding free_chain
free_chains [] = []
free_chains (chain ∷ table) = free_chain chain ++ free_chains table

-- What is freed, and the table: afterwards it is NULL, with no chain to read.
unfoldable pub symtable_free : SymTable → List Symbol × SymTable
unfolding free_chains
symtable_free st = (free_chains st.table, record { table = []; size = 0; count = 0 })
