-- ===== src/Ifj/Symtable/Ends.antt =====
-- 2/IFJ/symtable.c: the loops of a search and of an insertion end on any table.
use vut_projects.Base.{ℕ, zero, suc, ◌*◌, Option, none, some, List, [], ◌∷◌, Text, text_eq, get_or}
use vut_projects.Ifj.Run.{
  Halts, Halts-bind, Halts-ok, Halts-exit, Halts-if, Halts-option, err_internal,
}
use vut_projects.Ifj.Symtable.{
  Symbol, SymTable, symtable_hash, walk, rehash_chain, rehash, symtable_grow, insert_named, is_full,
  symtable_insert, symtable_search,
}

hash-Halts : (key : Option Text) (size : ℕ) → Halts (symtable_hash key size) (λ _. Unit)
unfolding symtable_hash Halts
hash-Halts none size = tt
hash-Halts (some key) zero = tt
hash-Halts (some key) (suc n) = tt

walk-Halts : (key : Text) (chain : List Symbol) → Halts (walk key chain) (λ _. Unit)
unfolding walk
walk-Halts key [] = Halts-ok _ none tt
walk-Halts key (s ∷ chain) =
    Halts-option _ s.name _ _ (Halts-exit _ err_internal)
      (λ name. Halts-if _ (text_eq name key) _ _ (Halts-ok _ (some s) tt) (walk-Halts key chain))

rehash_chain-Halts :
    (chain : List Symbol) (size : ℕ) (fresh : List (List Symbol))
    → Halts (rehash_chain chain size fresh) (λ _. Unit)
unfolding rehash_chain
rehash_chain-Halts [] size fresh = Halts-ok _ fresh tt
rehash_chain-Halts (s ∷ chain) size fresh =
    Halts-bind _ _ (symtable_hash s.name size) _ (hash-Halts s.name size)
      (λ i _. rehash_chain-Halts chain size _)

rehash-Halts :
    (old : List (List Symbol)) (size : ℕ) (fresh : List (List Symbol))
    → Halts (rehash old size fresh) (λ _. Unit)
unfolding rehash
rehash-Halts [] size fresh = Halts-ok _ fresh tt
rehash-Halts (chain ∷ old) size fresh =
    Halts-bind _ _ _ _ (rehash_chain-Halts chain size fresh)
      (λ fresh' _. rehash-Halts old size fresh')

insert_named-Halts :
    (st : SymTable) (key : Text) (symbol : Symbol) → Halts (insert_named st key symbol) (λ _. Unit)
unfolding insert_named
insert_named-Halts st key symbol = Halts-bind _ _ _ _ (hash-Halts (some key) st.size) (λ i _.
    Halts-bind _ _ _ _ (walk-Halts key (get_or st.table i []))
      (λ found _. Halts-option _ found _ _ (Halts-ok _ _ tt) (λ s. Halts-ok _ _ tt)))

grow-Halts : (st : SymTable) → Halts (symtable_grow st) (λ _. Unit)
unfolding symtable_grow
grow-Halts st =
    Halts-bind _ _ _ _ (rehash-Halts st.table (st.size * 2) _) (λ fresh _. Halts-ok _ _ tt)

pub insert-Halts :
    (st : SymTable) (key : Text) (symbol : Symbol)
    → Halts (symtable_insert st (some key) (some symbol)) (λ _. Unit)
unfolding symtable_insert
insert-Halts st key symbol = Halts-option _ symbol.name _ _ (Halts-exit _ err_internal) (λ name.
    Halts-bind _ _ _ _ (Halts-if _ (is_full st) _ _ (grow-Halts st) (Halts-ok _ st tt))
      (λ grown _. insert_named-Halts grown key symbol))

pub search-Halts : (st : SymTable) (key : Text) → Halts (symtable_search st (some key)) (λ _. Unit)
unfolding symtable_search
search-Halts st key = Halts-bind _ _ _ _ (hash-Halts (some key) st.size) (λ i _.
    Halts-bind _ _ _ _ (walk-Halts key (get_or st.table i []))
      (λ found _. Halts-option _ found _ _ (Halts-ok _ _ tt) (λ s. Halts-ok _ _ tt)))
