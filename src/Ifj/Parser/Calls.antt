-- ===== src/Ifj/Parser/Calls.antt =====
-- 2/IFJ/parser.c: calls of functions and their arguments. `expression` is `parse_expression`, as the
-- functions here are called by it, and each loop has fuel for its turns.
use vut_projects.Base.{
  ℕ, zero, suc, ◌+◌, ◌-◌, Bool, true, false, not, ◌&&◌, ◌==◌, Option, none, some, List, [], ◌∷◌,
  leb, if◌then◌else◌, get_or, Text, text_eq, codes,
}
use mathlib.Core.Option
use vut_projects.Ifj.Run.{err_semantic_undef, err_semantic_params, err_internal}
use vut_projects.Ifj.Utils.{construct_builtin_name, string_duplicate}
use vut_projects.Ifj.Ast.{
  DataType, Node, Pointers, null, all, same_type, nil, to, end, snoc, entry_at, fields, type_of,
  parameters_of, set_data_type, create_function_call_node, create_identifier_node,
}
use vut_projects.Ifj.Symtable.{Symbol}
use vut_projects.Ifj.Symtable.Compile.{BuiltinFunctionInfo, builtin_functions}
use vut_projects.Ifj.Scanner.{token_dot, token_comma, token_left_paren, token_right_paren}
use vut_projects.Ifj.Parser.{
  Parse, pure, error_exit, null_pointer, out_of_fuel, ◌>>=◌, ◌>>◌, lexeme, same_token, when_token,
  get_token, expect_token, safe_malloc, search,
}
use vut_projects.Ifj.Parser.Scopes.{search_variable_in_scopes}

-- The loop of `get_builtin_function_index`.
unfoldable pub index_loop : List BuiltinFunctionInfo → Text → Option ℕ
index_loop [] name = none
index_loop (f ∷ fs) name =
    if text_eq name f.name then some 0 else Option.map suc (index_loop fs name)

-- `none` is -1.
unfoldable pub get_builtin_function_index : Text → Option ℕ
unfolding index_loop
get_builtin_function_index function_name = index_loop builtin_functions function_name

-- `builtin_functions[i]`; an index out of the array counts as a crash.
unfoldable pub builtin_at : List BuiltinFunctionInfo → Option ℕ → Parse BuiltinFunctionInfo
builtin_at fs none = null_pointer
builtin_at [] (some i) = null_pointer
builtin_at (f ∷ fs) (some zero) = pure f
builtin_at (f ∷ fs) (some (suc i)) = builtin_at fs (some i)

abbrev pub is_builtin_name : List BuiltinFunctionInfo → Text → Bool
is_builtin_name [] name = false
is_builtin_name (f ∷ fs) name = if text_eq name f.name then true else is_builtin_name fs name

unfoldable pub is_builtin_function : (identifier : Text) → Parse Bool
is_builtin_function identifier = if not (text_eq identifier (codes "ifj")) then pure false else do
  get_token
  expect_token token_dot
  name ← lexeme
  if is_builtin_name builtin_functions name then pure true else error_exit err_semantic_undef

-- The type that is declared for the argument with this index.
unfoldable pub declared_type :
    Symbol → (index : ℕ) → (builtin_function_name : Option Text) → Parse DataType
declared_type symbol index builtin_function_name = elim symbol.declaration_node [
  | to declaration ↦ elim (entry_at (parameters_of declaration) index) [
    | nil ↦ null_pointer
    | to parameter ↦ pure (type_of parameter)
  ]
  | nil ↦ elim builtin_function_name [
    | none ↦ error_exit err_internal
    | some name ↦ elim (get_builtin_function_index name) [
      | none ↦ error_exit err_semantic_undef
      | some i ↦
          builtin_at builtin_functions (some i) >>= λ f. pure (get_or f.param_types index null)
    ]
  ]
]

-- Of the arguments the one is read that was parsed last.
unfoldable pub check_arguments_compability :
    Symbol
    → (argument : Node) → (arg_count : ℕ) → (builtin_function_name : Option Text) → Parse Bool
unfolding declared_type
check_arguments_compability symbol argument arg_count builtin_function_name =
    declared_type symbol (arg_count - 1) builtin_function_name >>= λ declared.
    pure (not (same_type (type_of argument) declared) && not (same_type declared all))

module _ (expression : Parse Node) (symbol : Symbol) (builtin_function_name : Option Text) where
  -- An argument is parsed, put behind the others, and checked.
  unfoldable pub parse_argument : Pointers → (arg_count : ℕ) → Parse (Pointers × ℕ)
  unfolding check_arguments_compability
  parse_argument arguments arg_count = do
    argument ← expression
    invalid ← check_arguments_compability symbol argument (arg_count + 1) builtin_function_name
    if invalid
        then error_exit err_semantic_params
        else pure (snoc arguments (to argument), arg_count + 1)

  unfoldable pub arguments_loop :
      (fuel : ℕ) → (param_count : ℕ) → Pointers → (arg_count : ℕ) → Parse (Pointers × ℕ)
  unfolding parse_argument
  arguments_loop zero param_count arguments arg_count = out_of_fuel
  arguments_loop (suc fuel) param_count arguments arg_count =
      let next : Parse (Pointers × ℕ) =
        (parse_argument arguments arg_count >>= λ (arguments', arg_count').
        arguments_loop fuel param_count arguments' arg_count') in
      when_token (same_token token_comma)
        (get_token
          >> when_token (same_token token_right_paren) (pure (arguments, arg_count))
              (if leb param_count arg_count then error_exit err_semantic_params else next))
        (pure (arguments, arg_count))

  unfoldable pub parse_arguments : (fuel : ℕ) → (param_count : ℕ) → Parse (Pointers × ℕ)
  unfolding arguments_loop
  parse_arguments fuel param_count = parse_argument end 0 >>= λ (arguments, arg_count).
      arguments_loop fuel param_count arguments arg_count

unfoldable pub parse_builtin_function_call : (fuel : ℕ) → Parse Node → Parse Node
unfolding parse_arguments
parse_builtin_function_call fuel expression = do
  name ← lexeme
  let identifier_name = construct_builtin_name (codes "ifj") name
  found ← search identifier_name
  elim found [
    | none ↦ error_exit err_semantic_undef
    | some symbol ↦ do
      get_token
      expect_token token_left_paren
      f ← builtin_at builtin_functions (get_builtin_function_index name)
      (arguments, arg_count) ←
          when_token (same_token token_right_paren) (pure (end, 0))
            (parse_arguments expression symbol (some name) fuel f.param_count)
      expect_token token_right_paren
      (address, g) ←
          (if not (arg_count == f.param_count) then error_exit err_semantic_params else safe_malloc)
      pure (
          set_data_type f.return_type
            (create_function_call_node address g (some identifier_name) arguments arg_count))
  ]

-- Without arguments the array of the call is the one of the declared parameters.
unfoldable pub parse_function_call : (fuel : ℕ) → Parse Node → Symbol → Parse Node
unfolding parse_arguments
parse_function_call fuel expression symbol = do
  identifier_name ← lexeme
  get_token
  expect_token token_left_paren
  elim symbol.declaration_node [
    | nil ↦ null_pointer
    | to declaration ↦ do
      let params_count = (fields declaration).param_count
      (arguments, arg_count) ←
          when_token (same_token token_right_paren) (pure (parameters_of declaration, 0))
            (parse_arguments expression symbol none fuel params_count)
      expect_token token_right_paren
      (address, g) ←
          (if not (arg_count == params_count) then error_exit err_semantic_params else safe_malloc)
      pure (
          set_data_type symbol.data_type
            (create_function_call_node address g (some identifier_name) arguments arg_count))
  ]

unfoldable pub parse_idendifier : (function_name : Text) → Parse Node
parse_idendifier function_name = do
  name ← lexeme
  found ← search_variable_in_scopes name function_name
  elim found [
    | none ↦ error_exit err_semantic_undef
    | some symbol ↦ do
      (address, g) ← safe_malloc
      get_token
      pure (
          set_data_type symbol.data_type
            (create_identifier_node address g (string_duplicate symbol.name)))
  ]
