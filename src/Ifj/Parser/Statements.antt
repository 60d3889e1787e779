-- ===== src/Ifj/Parser/Statements.antt =====
-- 2/IFJ/parser.c: statements without blocks, and the conditions of the others. `expression` is
-- `parse_expression` in the function that is parsed.
use vut_projects.Base.{
  ℕ, Bool, true, false, not, ◌&&◌, ◌||◌, Option, none, some, if◌then◌else◌, Text, text_eq, codes,
}
use vut_projects.Ifj.Run.{
  err_syntax, err_semantic, err_semantic_undef, err_semantic_params, err_semantic_other,
  err_semantic_type, err_semantic_infer,
}
use vut_projects.Ifj.Ast.{
  DataType, Node, null, int, float, all, void, bool, u8, unknown, same_type, node_literal, is_node,
  nil, to, type_of, set_data_type, create_variable_declaration_node, create_assignment_node,
  create_return_node,
}
use vut_projects.Ifj.Utils.{construct_variable_name, string_duplicate}
use vut_projects.Ifj.Symtable.{Symbol, variable}
use vut_projects.Ifj.Scanner.{
  TokenType, token_var, token_return, token_identifier, token_colon, token_assign, token_semicolon,
  token_pipe, token_left_paren, token_right_paren,
}
use vut_projects.Ifj.Parser.{
  Parse, pure, error_exit, null_pointer, ◌>>=◌, ◌>>◌, lexeme, same_token, when_token, get_token,
  expect_token, safe_malloc, search, insert,
}
use vut_projects.Ifj.Parser.Scopes.{
  current_scope_id, search_variable_in_scopes, search_variable_in_outer_scopes,
}
use vut_projects.Ifj.Parser.Types.{is_nullable, detach_nullable, can_assign_type, parse_type}
use vut_projects.Ifj.Parser.Operations.{convert_to_float_node, check_and_convert_expression}
use vut_projects.Ifj.Parser.Calls.{
  is_builtin_function, parse_builtin_function_call, parse_function_call,
}
use vut_projects.Ifj.Parser.Expressions.{is_function}

-- `strcmp(symbol->name, "_") == 0`
abbrev pub is_underscore : Symbol → Parse Bool
is_underscore symbol = elim symbol.name [
  | none ↦ null_pointer
  | some name ↦ pure (text_eq name (codes "_"))
]

abbrev pub or_null : Option Symbol → Parse Symbol
or_null none = null_pointer
or_null (some symbol) = pure symbol

-- The code that ends a declaration whose types do not fit, or the type of the variable. With
-- `unknown` no type is declared.
unfoldable pub declared_or_inferred :
    (is_var : Bool) → (declaration_type : DataType) → (initializer : Node) → Parse DataType
declared_or_inferred is_var declaration_type initializer =
    let expr_type = type_of initializer in
    let infers = same_type declaration_type unknown in
    if (not infers
        && not (same_type expr_type declaration_type)
        && not (can_assign_type declaration_type expr_type))
      || (infers && same_type expr_type void)
    then error_exit err_semantic_type
    else if infers && (same_type expr_type unknown || same_type expr_type null)
    then error_exit err_semantic_infer
    else if is_node node_literal initializer && same_type expr_type u8
    then error_exit err_semantic_infer
    else if is_var && same_type expr_type unknown
    then error_exit err_semantic_type
    else pure (if infers then expr_type else declaration_type)

unfoldable pub declare_variable :
    (name function_name : Text) → DataType → (is_constant : Bool) → Node → Parse (Unit {0})
declare_variable name function_name data_type is_constant declaration = do
  (_, g) ← safe_malloc
  insert name (record {
    name = some name;
    symbol_type = variable;
    data_type = data_type;
    parent_function = some function_name;
    is_defined = true;
    is_used = g.is_used;
    is_constant = is_constant;
    declaration_node = to declaration;
  })

module _ (fuel : ℕ) (expression : Parse Node) (function_name : Text) where
  -- The branches of `parse_variable_assigning` for a function of the program, for `_` and for a
  -- variable.
  unfoldable pub call_statement : Parse Node
  call_statement = do
    name ← lexeme
    found ← search name
    elim found [
      | none ↦ error_exit err_semantic_undef
      | some symbol ↦ if not (is_function symbol) then error_exit err_semantic_undef else do
        call ← parse_function_call fuel expression symbol
        if not (same_type symbol.data_type void)
            then error_exit err_semantic_params
            else (expect_token token_semicolon >> pure (set_data_type symbol.data_type call))
    ]

  unfoldable pub assign_underscore : Parse Node
  assign_underscore = do
    name ← lexeme
    found ← search name
    get_token
    expect_token token_assign
    value ← expression
    symbol ← or_null found
    let fits : Bool =
        same_type symbol.data_type all
        || (is_nullable symbol.data_type && same_type (type_of value) null)
        || can_assign_type symbol.data_type (type_of value)
    converted ←
        (if not fits
          then error_exit err_semantic_type
          else if same_type symbol.data_type float && same_type (type_of value) int
          then convert_to_float_node value
          else pure value)
    expect_token token_semicolon
    (address, g) ← safe_malloc
    pure (create_assignment_node address g (some name) converted)

  unfoldable pub assign_variable : Parse Node
  assign_variable = do
    variable_name ← lexeme
    found ← search_variable_in_scopes variable_name function_name
    elim found [
      | none ↦ error_exit err_semantic_undef
      | some symbol ↦ do
        let name = string_duplicate symbol.name
        get_token
        expect_token token_assign
        value ← expression
        converted ←
            (if is_node node_literal value && same_type (type_of value) u8
              then error_exit err_semantic_infer
              else if not (can_assign_type symbol.data_type (type_of value))
              then check_and_convert_expression value symbol.data_type
              else pure value)
        expect_token token_semicolon
        (address, g) ← safe_malloc
        pure (create_assignment_node address g name converted)
    ]

  unfoldable pub parse_variable_assigning : Parse Node
  unfolding call_statement assign_underscore assign_variable
  parse_variable_assigning = do
    identifier ← lexeme
    is_builtin ← is_builtin_function identifier
    name ← lexeme
    found ← search name
    underscore ← elim found [
      | none ↦ pure false
      | some symbol ↦ if is_function symbol then pure false else is_underscore symbol
    ]
    let is_function_name : Bool = elim found [ none ↦ false | some symbol ↦ is_function symbol ]
    if is_builtin
        then (parse_builtin_function_call fuel expression >>= λ call.
            expect_token token_semicolon >> pure call)
        else if is_function_name
        then call_statement
        else if underscore
        then assign_underscore
        else assign_variable

  -- Behind `var` or `const`. The name of a token is never NULL.
  unfoldable pub declare : (is_var : Bool) → Parse Node
  unfolding declared_or_inferred declare_variable
  declare is_var = do
    get_token
    base ← when_token (same_token token_identifier) lexeme (error_exit err_syntax)
    scope_id ← (if text_eq base (codes "_") then error_exit err_semantic else current_scope_id)
    let variable_name = construct_variable_name scope_id base function_name
    get_token
    declaration_type ← when_token (same_token token_colon) (get_token >> parse_type) (pure unknown)
    expect_token token_assign
    initializer ← expression
    data_type ← declared_or_inferred is_var declaration_type initializer
    expect_token token_semicolon
    outer ← search_variable_in_outer_scopes base function_name
    found ← elim outer [ some symbol ↦ error_exit err_semantic_other | none ↦ search variable_name ]
    (address, g) ← elim found [ some symbol ↦ error_exit err_semantic_other | none ↦ safe_malloc ]
    let declaration =
        create_variable_declaration_node address g (some variable_name) data_type (to initializer)
    declare_variable variable_name function_name data_type (not is_var) declaration
    pure declaration

  unfoldable pub parse_variable_declaration : Parse Node
  unfolding declare
  parse_variable_declaration = when_token (same_token token_var) (declare true) (declare false)

  unfoldable pub parse_return_statement : Parse Node
  parse_return_statement = do
    expect_token token_return
    value ← when_token (same_token token_semicolon) (pure nil) (expression >>= λ e. pure (to e))
    expect_token token_semicolon
    (address, g) ← safe_malloc
    pure (create_return_node address g value)

  -- `|id|` behind a condition: the declaration of the variable. Its initializer is written over
  -- before it is read.
  unfoldable pub parse_pipe : (condition : Node) → Parse Node
  unfolding declare_variable
  parse_pipe condition = do
    get_token
    id ← when_token (same_token token_identifier) lexeme (error_exit err_semantic)
    scope_id ← current_scope_id
    let variable_name = construct_variable_name scope_id id function_name
    found ← search id
    (address, g) ← elim found [ some symbol ↦ error_exit err_semantic_other | none ↦ safe_malloc ]
    let data_type = detach_nullable (type_of condition)
    let declaration = create_variable_declaration_node address g (some variable_name) data_type nil
    declare_variable variable_name function_name data_type true declaration
    get_token
    expect_token token_pipe
    pure declaration

  -- `if` or `while` up to the block: the condition, and the declaration of `|id|`.
  unfoldable pub parse_condition : TokenType → Parse (Node × Option Node)
  unfolding parse_pipe
  parse_condition keyword = do
    expect_token keyword
    expect_token token_left_paren
    condition ← expression
    if not (same_type (type_of condition) bool) && not (is_nullable (type_of condition))
        then error_exit err_semantic_type
        else expect_token token_right_paren
    declaration ←
        when_token (same_token token_pipe) (parse_pipe condition >>= λ d. pure (some d)) (pure none)
    pure (condition, declaration)
