-- ===== src/Ifj/Symtable/Compile.antt =====
-- 2/IFJ/symtable.c: how the compiler fills its symbol table at the start and checks it at the end.
use vut_projects.Base.{
  ℕ, Bool, true, false, not, ◌&&◌, Option, none, some, List, [], ◌∷◌, ◌++◌, ◌==◌, if◌then◌else◌,
  replicate, Text, codes,
}
use vut_projects.Ifj.Run.{
  Run, ok, exit, crash, ◌>>=◌, err_semantic_undef, err_semantic_params, err_semantic_unused,
}
use vut_projects.Ifj.Symtable.{
  Symbol, SymTable, initial_symtable_size, symtable_insert, symtable_search, variable, function,
}
use vut_projects.Ifj.Ast.{
  DataType, null, int, float, all, void, u8, int_nullable, float_nullable, u8_nullable, Pointer,
  nil, to, parameters_of, is_null_array,
}

-- `strncmp(text, prefix, strlen(prefix)) == 0`
unfoldable pub starts_with : Text → Text → Bool
starts_with [] text = true
starts_with (c ∷ prefix) [] = false
starts_with (c ∷ prefix) (d ∷ text) = (c == d) && starts_with prefix text

-- The inner loop of `is_symtable_all_used`, left at the first unused symbol.
unfoldable pub chain_all_used : List Symbol → Run Bool
unfolding starts_with
chain_all_used [] = ok true
chain_all_used (s ∷ chain) =
    let rest = chain_all_used chain in
    if s.is_used then rest else elim s.name [
      | none ↦ crash
      | some name ↦ if not (starts_with (codes "ifj.") name) then ok false else rest
    ]

unfoldable pub table_all_used : List (List Symbol) → Bool → Run Bool
unfolding chain_all_used
table_all_used [] is_all_used = ok is_all_used
table_all_used (chain ∷ table) is_all_used = do
  used ← chain_all_used chain
  table_all_used table (is_all_used && used)

unfoldable pub is_symtable_all_used : SymTable → Run (Unit {0})
unfolding table_all_used
is_symtable_all_used st = do
  is_all_used ← table_all_used st.table true
  if not is_all_used then exit err_semantic_unused else ok tt

abbrev pub is_void : DataType → Bool
is_void void = true
is_void _ = false

unfoldable pub is_main_correct : SymTable → Run SymTable
unfolding symtable_search
is_main_correct st = do
  (main, st') ← symtable_search st (some (codes "main"))
  elim main [
    | none ↦ exit err_semantic_undef
    | some s ↦ elim s.declaration_node [
      | nil ↦ crash
      | to node ↦
          if not (is_null_array (parameters_of node))
          then exit err_semantic_params
          else if not (is_void s.data_type)
          then exit err_semantic_params
          else ok st'
    ]
  ]

-- The fields that `insert_underscore` does not set hold whatever `malloc` returns.
unfoldable pub insert_underscore : Option Text → Pointer → SymTable → Run SymTable
unfolding symtable_insert
insert_underscore parent node st = do
  (_, st') ← symtable_insert st (some (codes "_")) (
      some (record {
        name = some (codes "_");
        symbol_type = variable;
        data_type = all;
        parent_function = parent;
        is_defined = true;
        is_used = true;
        is_constant = false;
        declaration_node = node;
      }))
  ok st'

unfoldable pub symtable_init : Option Text → Pointer → Run SymTable
unfolding insert_underscore
symtable_init parent node =
    insert_underscore parent node (record {
      table = replicate initial_symtable_size [];
      size = initial_symtable_size;
      count = 0;
    })

pub record BuiltinFunctionInfo : Type 0 where
  pub name : Text
  pub return_type : DataType
  pub param_types : List DataType
  pub param_count : ℕ

abbrev builtin : Text → DataType → List DataType → ℕ → BuiltinFunctionInfo
builtin name return_type params count = record {
  name = name;
  return_type = return_type;
  param_types = params;
  param_count = count;
}

abbrev pub builtin_functions : List BuiltinFunctionInfo
builtin_functions =
    builtin (codes "readstr") u8_nullable (null ∷ []) 0
    ∷ builtin (codes "readi32") int_nullable (null ∷ []) 0
    ∷ builtin (codes "readf64") float_nullable (null ∷ []) 0
    ∷ builtin (codes "write") void (all ∷ []) 1
    ∷ builtin (codes "i2f") float (int ∷ []) 1
    ∷ builtin (codes "f2i") int (float ∷ []) 1
    ∷ builtin (codes "string") u8 (u8 ∷ []) 1
    ∷ builtin (codes "length") int (u8 ∷ []) 1
    ∷ builtin (codes "concat") u8 (u8 ∷ u8 ∷ []) 2
    ∷ builtin (codes "substring") u8_nullable (u8 ∷ int ∷ int ∷ []) 3
    ∷ builtin (codes "strcmp") int (u8 ∷ u8 ∷ []) 2
    ∷ builtin (codes "ord") int (u8 ∷ int ∷ []) 2
    ∷ builtin (codes "chr") u8 (int ∷ []) 1
    ∷ []

unfoldable pub builtin_symbol : BuiltinFunctionInfo → Symbol
builtin_symbol f = record {
  name = some (codes "ifj." ++ f.name);
  symbol_type = function;
  data_type = f.return_type;
  parent_function = none;
  is_defined = true;
  is_used = false;
  is_constant = true;
  declaration_node = nil;
}

unfoldable pub load_builtin_functions : List BuiltinFunctionInfo → SymTable → Run SymTable
unfolding builtin_symbol
load_builtin_functions [] st = ok st
load_builtin_functions (f ∷ fs) st = do
  (_, st') ← symtable_insert st (some (codes "ifj." ++ f.name)) (some (builtin_symbol f))
  load_builtin_functions fs st'
