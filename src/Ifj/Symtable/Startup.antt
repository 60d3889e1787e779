-- ===== src/Ifj/Symtable/Startup.antt =====
-- 2/IFJ/symtable.c: the table as the compiler starts, with `_` and the built-in functions.
use vut_projects.Base.{
  ℕ, zero, suc, ◌≡◌, refl, ◌∙◌, ap, true, false, Option, none, some, List, [], ◌∷◌, ◌++◌, arith,
  if◌then◌else◌, is_some, replicate, length, Text, text_eq, codes, eq_of_text_eq,
}
use vut_projects.Chained.Empty.{replicate-IsPlaced, view-replicate, flatten-replicate}
use vut_projects.Ifj.Ast.{Pointer, all}
use vut_projects.Ifj.Run.{ok}
use vut_projects.Ifj.Symtable.{Symbol, SymTable, holds, initial_symtable_size, variable}
use vut_projects.Ifj.Symtable.Compile.{
  BuiltinFunctionInfo, builtin_symbol, insert_underscore, symtable_init, load_builtin_functions,
}
use vut_projects.Ifj.Symtable.Valid.{slot, lookup, TableNamed, IsValid}
use vut_projects.Ifj.Symtable.Refine.{insert-lookup}

-- The table before `insert_underscore`.
abbrev blank : SymTable
blank = record {
  table = replicate initial_symtable_size [];
  size = initial_symtable_size;
  count = 0;
}

blank-IsValid : IsValid blank
blank-IsValid = record {
  width = refl;
  positive = omega arith;
  items = replicate-IsPlaced holds (slot 64) 64;
  named = replicate-named 64;
  counted = ap length (flatten-replicate {A = Symbol} 64);
  loaded = omega arith;
}
  where
    replicate-named : (n : ℕ) → TableNamed (replicate n [])
    replicate-named zero = tt
    replicate-named (suc n) = (tt, replicate-named n)

blank-lookup : (k : Text) → lookup blank k ≡ none
unfolding lookup
blank-lookup k = view-replicate holds (slot 64) 64 k

-- The initialisation succeeds and gives a valid table that holds the name `_` and no other. The
-- symbol of `_` is a variable of every type and counts as used.
pub init-lookup :
    (parent : Option Text) (node : Pointer)
    → (st : SymTable) × (s : Symbol) × (symtable_init parent node ≡ ok st)
      × IsValid st
      × (st.count ≡ 1)
      × (s.data_type ≡ all)
      × (s.is_used ≡ true)
      × ((k : Text) → lookup st k ≡ (if text_eq (codes "_") k then some s else none))
unfolding symtable_init insert_underscore
init-lookup parent node =
    let s : Symbol = record {
      name = some (codes "_");
      symbol_type = variable;
      data_type = all;
      parent_function = parent;
      is_defined = true;
      is_used = true;
      is_constant = false;
      declaration_node = node;
    } in
    let (st, run, v, count, same) = insert-lookup (codes "_") s blank-IsValid refl in
    (
      st,
      s,
      rw run,
      v,
      rw (count, blank-lookup (codes "_")),
      refl,
      refl,
      λ k. rw (same k, blank-lookup (codes "_"), blank-lookup k) (ground arith),
    )

-- The first function of the list whose prefixed name is the key.
unfoldable pub builtin_lookup : List BuiltinFunctionInfo → Text → Option Symbol
builtin_lookup [] k = none
builtin_lookup (f ∷ fs) k =
    if text_eq (codes "ifj." ++ f.name) k then some (builtin_symbol f) else builtin_lookup fs k

builtin-named : (f : BuiltinFunctionInfo) → (builtin_symbol f).name ≡ some (codes "ifj." ++ f.name)
unfolding builtin_symbol
builtin-named f = refl

-- Loading built-in functions into a valid table succeeds and leaves it valid. Each name that the
-- table held keeps its symbol; each other name gets that of the first function with the name,
-- prefixed by `ifj.`.
pub load-lookup :
    (fs : List BuiltinFunctionInfo) (st : SymTable)
    → IsValid st
    → (st' : SymTable) × (load_builtin_functions fs st ≡ ok st')
      × IsValid st'
      × ((k : Text)
          → lookup st' k ≡ (if is_some (lookup st k) then lookup st k else builtin_lookup fs k))
unfolding load_builtin_functions builtin_lookup
load-lookup [] st v = (st, refl, v, λ k. same (lookup st k))
  where
    same : (o : Option Symbol) → o ≡ (if is_some o then o else none)
    same none = refl
    same (some s) = refl
load-lookup (f ∷ fs) st v =
    let key = codes "ifj." ++ f.name in
    let (mid, run, v', _, same) = insert-lookup key (builtin_symbol f) v (builtin-named f) in
    let (st', run', v'', same') = load-lookup fs mid v' in
    (st', rw run run', v'', λ k. same' k ∙ rw (same k) (ground (arith, eq_of_text_eq key k)))
