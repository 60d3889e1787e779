-- ===== src/Ifj/Symtable/Checks.antt =====
-- 2/IFJ/symtable.c: the two checks at the end of the analysis.
use vut_projects.Base.{
  ◌≡◌, refl, sym, ◌∙◌, ◌↔◌, inl, inr, Bool, true, false, not, ◌&&◌, ◌||◌, Option, none, some, List,
  [], ◌∷◌, ◌++◌, arith, if◌then◌else◌, Bool-cases, Text, text_eq_refl, codes,
}
use vut_projects.Chained.Chain.{find, IsDistinct}
use vut_projects.Chained.Buckets.{flatten, find-flatten-view, flatten-IsDistinct_lem}
use vut_projects.Ifj.Ast.{nil, to, parameters_of, is_null_array}
use vut_projects.Ifj.Run.{
  Run, ok, exit, crash, err_semantic_undef, err_semantic_params, err_semantic_unused,
}
use vut_projects.Ifj.Symtable.{Symbol, SymTable, key_of, holds}
use vut_projects.Ifj.Symtable.Compile.{
  starts_with, chain_all_used, table_all_used, is_symtable_all_used, is_void,
}
use vut_projects.Ifj.Symtable.Valid.{slot, lookup, AllNamed, TableNamed, IsValid}

-- The symbol is used, or a built-in function.
abbrev pub is_excused : Symbol → Bool
is_excused s = s.is_used || starts_with (codes "ifj.") (key_of s)

abbrev all_excused : List Symbol → Bool
all_excused [] = true
all_excused (s ∷ chain) = is_excused s && all_excused chain

all_excused-append : (c d : List Symbol) → all_excused (c ++ d) ≡ (all_excused c && all_excused d)
all_excused-append [] d = refl
all_excused-append (s ∷ c) d = ground (arith, all_excused-append c d)

chain_all_used-eq :
    (chain : List Symbol) → AllNamed chain → chain_all_used chain ≡ ok (all_excused chain)
unfolding chain_all_used
chain_all_used-eq [] n = refl
chain_all_used-eq (s ∷ chain) n = ground (arith, chain_all_used-eq chain n.1)

table_all_used-eq :
    (table : List (List Symbol)) (b : Bool)
    → TableNamed table
    → table_all_used table b ≡ ok (b && all_excused (flatten table))
unfolding table_all_used
table_all_used-eq [] b n = ground arith
table_all_used-eq (c ∷ table) b n =
    rw (chain_all_used-eq c n.0, table_all_used-eq table (b && all_excused c) n.1)
      (ground (arith, all_excused-append c (flatten table)))

-- Symbols that are found are on the list, and the other way round if no key stands twice.
excused_of_find :
    (es : List Symbol) (key : Text) (s : Symbol)
    → all_excused es ≡ true
    → find holds key es ≡ some s
    → is_excused s ≡ true
unfolding find
excused_of_find [] key s a e = cc
excused_of_find (x ∷ es) key s a e = ground (arith, excused_of_find es key s)

all_excused_of_find :
    (es : List Symbol)
    → IsDistinct holds es
    → ((key : Text) (s : Symbol) → find holds key es ≡ some s → is_excused s ≡ true)
    → all_excused es ≡ true
unfolding find
all_excused_of_find [] d h = refl
all_excused_of_find (x ∷ es) d h =
    let first : is_excused x ≡ true = h (key_of x) x (rw (text_eq_refl (key_of x))) in
    let rest = all_excused_of_find es d.1 (λ key s e. h key s (rw (misses key s e) e)) in
    rw (first, rest)
  where
    misses : (key : Text) (s : Symbol) → find holds key es ≡ some s → holds key x ≡ false
    misses key s e = elim (Bool-cases (holds key x)) [
      | inl hit ↦ cc (d.0 key hit)
      | inr miss ↦ miss
    ]

abbrev pub done : Run (Unit {0})
done = ok tt

swapped :
    (b : Bool)
    → (if not b then exit err_semantic_unused else done)
      ≡ (if b then done else exit err_semantic_unused)
swapped true = refl
swapped false = refl

-- In a valid table the check of uses ends with code 9 or passes, and it passes exactly when every
-- symbol that a name leads to is used or has a name that starts with `ifj.`.
pub all_used_iff :
    (st : SymTable)
    → IsValid st
    → (passes : Bool) × (is_symtable_all_used st
        ≡ (if passes then done else exit err_semantic_unused))
      × ((passes ≡ true)
          ↔ ((key : Text) (s : Symbol) → lookup st key ≡ some s → is_excused s ≡ true))
unfolding is_symtable_all_used lookup
all_used_iff st v =
    let es = flatten st.table in
    let same = λ (key : Text). find-flatten-view holds (slot st.size) key st.table v.items in
    (
      all_excused es,
      rw (table_all_used-eq st.table true v.named) (swapped (all_excused es)),
      (
        (λ a key s e. excused_of_find es key s a (same key ∙ e)),
        λ h.
            all_excused_of_find es (flatten-IsDistinct_lem holds (slot st.size) st.table v.items)
              (λ key s e. h key s (sym (same key) ∙ e)),
      ),
    )

-- How the check of `main` ends for the symbol that the name leads to.
abbrev pub main_outcome : Option Symbol → SymTable → Run SymTable
main_outcome none st = exit err_semantic_undef
main_outcome (some s) st = elim s.declaration_node [
  | nil ↦ crash
  | to node ↦
      if not (is_null_array (parameters_of node)) || not (is_void s.data_type)
      then exit err_semantic_params
      else ok st
]
