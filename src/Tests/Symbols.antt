-- ===== src/Tests/Symbols.antt =====
-- Tests and instances for the symbol table of 2/IFJ.
use vut_projects.Base.{
  ℕ, ◌-◌, ◌≡◌, refl, ◌↔◌, Bool, true, false, not, ◌&&◌, Option, none, some, [], ◌∷◌, arith,
  if◌then◌else◌, is_some, Text, text_eq, eq_of_text_eq, codes,
}
use vut_projects.Chained.Chain.{find, update}
use vut_projects.Ifj.Run.{ok, exit, ◌>>=◌, err_semantic_unused}
use vut_projects.Ifj.Symtable.{
  Symbol, SymTable, symtable_insert, symtable_search, symtable_remove, symtable_grow, function,
  variable, hash_loop, symtable_hash, walk,
}
use vut_projects.Ifj.Ast.{Garbage, void, int, all, nil, to, end, create_function_node}
use vut_projects.Ifj.Symtable.Compile.{
  is_main_correct, is_symtable_all_used, load_builtin_functions, builtin_functions,
}
use vut_projects.Ifj.Symtable.Valid.{IsValid, lookup, slot}
use vut_projects.Ifj.Symtable.Grow.{grow-lookup}
use vut_projects.Ifj.Symtable.Refine.{insert-lookup, remove-lookup}
use vut_projects.Ifj.Symtable.Checks.{all_used_iff, is_excused, done}
use vut_projects.Ifj.Symtable.Startup.{load-lookup, builtin_lookup}

abbrev garbage : Garbage
garbage = record {
  data_type = all;
  value = none;
  pointer = nil;
  is_used = false;
  is_constant = false;
}

abbrev main_symbol : Symbol
main_symbol = record {
  name = some (codes "main");
  symbol_type = function;
  data_type = void;
  parent_function = some (codes "main");
  is_defined = true;
  is_used = true;
  is_constant = false;
  declaration_node = to (create_function_node 0 garbage (some (codes "main")) void end 0 nil);
}

abbrev counter : Symbol
counter = record {
  name = some (codes "i.1.main");
  symbol_type = variable;
  data_type = int;
  parent_function = some (codes "main");
  is_defined = true;
  is_used = false;
  is_constant = false;
  declaration_node = nil;
}

-- Two chains, `main` in the first.
abbrev small : SymTable
small = record { table = (main_symbol ∷ []) ∷ [] ∷ []; size = 2; count = 1 }

small-IsValid : IsValid small
unfolding find slot hash_loop
small-IsValid = record {
  width = refl;
  positive = omega arith;
  items = record {
    placed = ((λ k h. at_main k h), ((λ k. cc), tt));
    distinct = (((λ k h. refl), tt), (tt, tt));
  };
  named = ((refl, tt), (tt, tt));
  counted = refl;
  loaded = omega arith;
}
  where
    at_main :
        (k : Text)
        → is_some (if text_eq (codes "main") k then some main_symbol else none) ≡ true
        → slot 2 k ≡ 0
    at_main k h = rw (← eq_of_text_eq (codes "main") k (ground arith)) refl

insert-lookup_example :
    (st : SymTable) × (symtable_insert small (some (codes "i.1.main")) (some counter)
      ≡ ok (not (is_some (lookup small (codes "i.1.main"))), st))
    × IsValid st
    × (st.count ≡ (if is_some (lookup small (codes "i.1.main")) then 1 else 2))
    × ((k : Text)
        → lookup st k ≡ (
            if text_eq (codes "i.1.main") k && not (is_some (lookup small (codes "i.1.main")))
            then some counter
            else lookup small k))
insert-lookup_example = insert-lookup (codes "i.1.main") counter small-IsValid refl

remove-lookup_example :
    (st : SymTable) × (symtable_remove small (some (codes "main")) ≡ ok st)
    × IsValid st
    × (st.count ≡ (if is_some (lookup small (codes "main")) then 1 - 1 else 1))
    × ((k : Text) → lookup st k ≡ (if text_eq (codes "main") k then none else lookup small k))
remove-lookup_example = remove-lookup small-IsValid (codes "main")

grow-lookup_example :
    (st : SymTable) × (symtable_grow small ≡ ok st)
    × IsValid st
    × (st.size ≡ 4)
    × (st.count ≡ 1)
    × ((key : Text) → lookup st key ≡ lookup small key)
grow-lookup_example = grow-lookup small small-IsValid

all_used_iff_example :
    (passes : Bool) × (is_symtable_all_used small
      ≡ (if passes then done else exit err_semantic_unused))
    × ((passes ≡ true)
        ↔ ((key : Text) (s : Symbol) → lookup small key ≡ some s → is_excused s ≡ true))
all_used_iff_example = all_used_iff small small-IsValid

load-lookup_example :
    (st : SymTable) × (load_builtin_functions builtin_functions small ≡ ok st)
    × IsValid st
    × ((k : Text)
        → lookup st k ≡ (
            if is_some (lookup small k)
            then lookup small k
            else builtin_lookup builtin_functions k))
load-lookup_example = load-lookup builtin_functions small small-IsValid

program : Unit {0}
unfolding find update text_eq hash_loop symtable_hash walk symtable_insert symtable_search
    symtable_grow symtable_remove is_symtable_all_used is_main_correct load_builtin_functions
program = tt

-- The thirteen built-in functions are put into a table that grows four times on the way.
grown_count : Option (ℕ × ℕ)
unfolding program
grown_count = elim (load_builtin_functions builtin_functions small) [
  | ok st ↦ some (st.size, st.count)
  | _ ↦ none
]

grown_count_lem : grown_count ≡ some (32, 14)
unfolding grown_count
grown_count_lem = refl

-- An unused variable ends the check with code 9.
unused_exits :
    (symtable_insert small (some (codes "i.1.main")) (some counter) >>= λ r.
    is_symtable_all_used r.1)
    ≡ exit err_semantic_unused
unfolding program
unused_exits = refl
