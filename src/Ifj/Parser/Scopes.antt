-- ===== src/Ifj/Parser/Scopes.antt =====
-- 2/IFJ/parser.c: the stack of scopes, and the search for a variable along it.
use vut_projects.Base.{ℕ, ◌+◌, Option, none, some, List, [], ◌∷◌, leb, if◌then◌else◌, length, Text}
use vut_projects.Ifj.Run.{ok, exit, err_internal}
use vut_projects.Ifj.Symtable.{Symbol}
use vut_projects.Ifj.Utils.{construct_variable_name}
use vut_projects.Ifj.Parser.{Parse, max_scope_depth, pure, ◌>>=◌, ◌>>◌, search}

unfoldable pub enter_scope : Parse (Unit {0})
enter_scope p =
    if leb max_scope_depth (length p.scope_stack)
    then exit err_internal
    else ok (
      tt,
      record p {
        scope_stack = (p.scope_counter + 1) ∷ p.scope_stack;
        scope_counter = p.scope_counter + 1;
      },
    )

unfoldable pub exit_scope : Parse (Unit {0})
exit_scope p = elim p.scope_stack [
  | [] ↦ exit err_internal
  | _ ∷ stack ↦ ok (tt, record p { scope_stack = stack })
]

-- A part of the program in a scope of its own.
unfoldable pub in_scope : {A : Type 0} → Parse A → Parse A
unfolding enter_scope exit_scope
in_scope m = do enter_scope; a ← m; exit_scope; pure a

abbrev pub top_id : List ℕ → ℕ
top_id [] = 0
top_id (id ∷ stack) = id

unfoldable pub current_scope_id : Parse ℕ
current_scope_id p = ok (top_id p.scope_stack, p)

-- The loop through the scopes from the top one, and at last the scope 0.
unfoldable pub search_loop : List ℕ → (variable_name function_name : Text) → Parse (Option Symbol)
search_loop [] variable_name function_name =
    search (construct_variable_name 0 variable_name function_name)
search_loop (id ∷ stack) variable_name function_name =
    search (construct_variable_name id variable_name function_name) >>= λ found. elim found [
      | some symbol ↦ pure (some symbol)
      | none ↦ search_loop stack variable_name function_name
    ]

unfoldable pub search_variable_in_scopes :
    (variable_name function_name : Text) → Parse (Option Symbol)
unfolding search_loop
search_variable_in_scopes variable_name function_name p =
    search_loop p.scope_stack variable_name function_name p

-- The loop starts below the top, and does not run where there is no scope at all.
unfoldable pub search_below : List ℕ → (variable_name function_name : Text) → Parse (Option Symbol)
unfolding search_loop
search_below [] variable_name function_name = pure none
search_below (id ∷ stack) variable_name function_name =
    search_loop stack variable_name function_name

unfoldable pub search_variable_in_outer_scopes :
    (variable_name function_name : Text) → Parse (Option Symbol)
unfolding search_below
search_variable_in_outer_scopes variable_name function_name p =
    search_below p.scope_stack variable_name function_name p
