-- ===== src/Ifj/Parser/Program.antt =====
-- 2/IFJ/parser.c: functions and the program. The first pass over the file declares the functions,
-- the second one parses them. The copy of the FILE is taken to restore the position in it. The fuel
-- of each loop is one more than what is left of the file.
use vut_projects.Base.{
  ℕ, zero, suc, ◌+◌, Bool, true, false, not, ◌&&◌, ◌||◌, Option, none, some, List, [], ◌∷◌,
  if◌then◌else◌, Text, text_eq, codes,
}
use vut_projects.Ifj.Run
use vut_projects.Ifj.Run.{Run, err_syntax, err_semantic_other}
use vut_projects.Ifj.Ast.{
  Garbage, DataType, Node, Pointer, Pointers, u8, nil, to, end, entry, snoc, fields, body_of,
  set_next, set_body, set_address, create_program_node, create_function_node,
  create_variable_declaration_node, create_literal_node,
}
use vut_projects.Ifj.Utils.{construct_variable_name}
use vut_projects.Ifj.Symtable.{SymTable, function, parameter}
use vut_projects.Ifj.Symtable.Compile.{
  load_builtin_functions, builtin_functions, is_main_correct, is_symtable_all_used, symtable_init,
}
use vut_projects.Ifj.Scanner.{
  Scanner, Token, TokenType, token_pub, token_fn, token_const, token_import, token_identifier,
  token_colon, token_comma, token_semicolon, token_assign, token_left_paren, token_right_paren,
  token_left_brace, token_right_brace, token_string_literal, token_eof,
}
use vut_projects.Ifj.Scanner.Next.{get_next_token}
use vut_projects.Ifj.Parser.{
  Parser, Parse, pure, error_exit, null_pointer, out_of_fuel, ◌>>=◌, ◌>>◌, lexeme, same_token,
  when_token, with_fuel, get_token, expect_token, safe_malloc, search, insert,
}
use vut_projects.Ifj.Parser.Scopes.{in_scope, current_scope_id}
use vut_projects.Ifj.Parser.Types.{parse_type, parse_return_type}
use vut_projects.Ifj.Parser.Blocks.{parse_block}
use vut_projects.Ifj.Parser.Returns.{check_return_types}
use vut_projects.Ifj.Parser.ScopeCheck.{scope_check_identifiers_in_tree}

-- A step that leaves the parser as it is.
unfoldable pub lift : {A : Type 0} → Run A → Parse A
lift m p = Run.◌>>=◌ m (λ a. Run.ok (a, p))

unfoldable pub on_symtable : (SymTable → Run SymTable) → Parse (Unit {0})
on_symtable f p = Run.◌>>=◌ (f p.symtable) (λ st. Run.ok (tt, record p { symtable = st }))

unfoldable pub parse_parameter : (function_name : Text) → (is_definition : Bool) → Parse Node
parse_parameter function_name is_definition = do
  name ← when_token (same_token token_identifier) lexeme (error_exit err_syntax)
  scope_id ← current_scope_id
  let param_name = construct_variable_name scope_id name function_name
  get_token
  expect_token token_colon
  param_type ← parse_type
  found ← search param_name
  let is_known : Bool = elim found [ none ↦ false | some symbol ↦ true ]
  (address, g) ← (if is_known && is_definition then error_exit err_semantic_other else safe_malloc)
  let param_node = create_variable_declaration_node address g (some param_name) param_type nil
  if is_definition
      then (safe_malloc >>= λ (_, h). insert param_name (record {
        name = some param_name;
        symbol_type = parameter;
        data_type = param_type;
        parent_function = some function_name;
        is_defined = true;
        is_used = h.is_used;
        is_constant = h.is_constant;
        declaration_node = to param_node;
      }))
      else pure tt
  pure param_node

unfoldable pub parameters_loop :
    (fuel : ℕ) → (function_name : Text) → Bool → Pointers → ℕ → Parse (Pointers × ℕ)
unfolding parse_parameter
parameters_loop zero function_name is_definition parameters param_count = out_of_fuel
parameters_loop (suc fuel) function_name is_definition parameters param_count =
    let next : Parse (Pointers × ℕ) =
      (get_token
        >> (parse_parameter function_name is_definition >>= λ p.
            parameters_loop fuel function_name is_definition (snoc parameters (to p))
              (param_count + 1))) in
    when_token (same_token token_comma) next (pure (parameters, param_count))

unfoldable pub parse_parameters :
    (function_name : Text) → (is_definition : Bool) → Parse (Pointers × ℕ)
unfolding parameters_loop
parse_parameters function_name is_definition =
    when_token (same_token token_right_paren) (pure (end, 0)) (
      parse_parameter function_name is_definition >>= λ p.
      with_fuel (λ fuel. parameters_loop fuel function_name is_definition (entry (to p) end) 1))

-- The loop to the brace that closes the body, with the number of open braces.
unfoldable pub braces_loop : (fuel : ℕ) → (brace_count : ℕ) → Parse (Unit {0})
braces_loop zero brace_count = out_of_fuel
braces_loop (suc fuel) zero = pure tt
braces_loop (suc fuel) (suc n) =
    let opened = braces_loop fuel (suc (suc n)) in
    let closed = braces_loop fuel n in
    let other = braces_loop fuel (suc n) in
    get_token
    >> when_token (same_token token_left_brace) opened
        (when_token (same_token token_right_brace) closed other)

-- The rest of a definition and of a declaration behind the return type.
unfoldable pub define_function :
    (function_name : Text) → DataType → Pointers → (param_count : ℕ) → Parse Node
define_function function_name return_type parameters param_count = do
  body ← with_fuel (λ fuel. parse_block fuel function_name false)
  (address, g) ← safe_malloc
  lift (check_return_types (body_of body) return_type)
  pure (
      create_function_node address g (some function_name) return_type parameters param_count
        (to body))

unfoldable pub declare_function :
    (fuel : ℕ) → (function_name : Text) → DataType → Pointers → (param_count : ℕ) → Parse Node
unfolding braces_loop
declare_function fuel function_name return_type parameters param_count = do
  when_token (same_token token_left_brace) (braces_loop fuel 1) (error_exit err_syntax)
  (address, g) ← safe_malloc
  let declared =
      create_function_node address g (some function_name) return_type parameters param_count nil
  found ← search function_name
  (_, h) ← elim found [ some symbol ↦ error_exit err_semantic_other | none ↦ safe_malloc ]
  insert function_name (record {
    name = some function_name;
    symbol_type = function;
    data_type = return_type;
    parent_function = some function_name;
    is_defined = true;
    is_used = text_eq function_name (codes "main");
    is_constant = h.is_constant;
    declaration_node = to declared;
  })
  get_token
  pure declared

-- `parse_function` up to its body, which `rest` parses, and the end of its scope.
unfoldable pub parse_function_with :
    (is_definition : Bool) → (rest : Text → DataType → Pointers → ℕ → Parse Node) → Parse Node
unfolding parse_parameters in_scope
parse_function_with is_definition rest = do
  expect_token token_pub
  expect_token token_fn
  function_name ← when_token (same_token token_identifier) lexeme (error_exit err_syntax)
  get_token
  expect_token token_left_paren
  in_scope (do
    (parameters, param_count) ← parse_parameters function_name is_definition
    expect_token token_right_paren
    return_type ← parse_return_type
    rest function_name return_type parameters param_count)

-- In the first pass the fuel bounds the loop over the braces.
unfoldable pub parse_function : (fuel : ℕ) → (is_definition : Bool) → Parse Node
unfolding parse_function_with define_function declare_function
parse_function fuel true = parse_function_with true define_function
parse_function fuel false = parse_function_with false (declare_function fuel)

abbrev pub starts_function : TokenType → Bool
starts_function t = same_token token_pub t || same_token token_fn t

-- The loop of the first pass: the nodes of the functions in order.
unfoldable pub declarations_loop : (fuel : ℕ) → Parse (List Node)
unfolding parse_function
declarations_loop zero = out_of_fuel
declarations_loop (suc fuel) =
    let next : Parse (List Node) =
      (with_fuel (λ fuel'. parse_function fuel' false) >>= λ declared.
      declarations_loop fuel >>= λ rest. pure (declared ∷ rest)) in
    when_token (same_token token_eof) (pure [])
      (when_token starts_function next (error_exit err_syntax))

unfoldable pub restore : Scanner → Token → Parse (Unit {0})
restore s token p = Run.ok (tt, record p { scanner = s; current_token = token })

unfoldable pub parse_functions_declaration : Parse (List Node)
unfolding declarations_loop ◌>>=◌
parse_functions_declaration p =
    (with_fuel declarations_loop >>= λ functions.
    restore p.scanner p.current_token >> pure functions)
      p

abbrev is_empty : List Node → Bool
is_empty [] = true
is_empty (n ∷ ns) = false

-- Nodes linked by `next`.
abbrev link : List Node → Pointer
link [] = nil
link (n ∷ ns) = to (set_next (link ns) n)

-- The loop of the second pass, which writes each function over the node of the first pass. Where
-- there is none left, a null pointer is followed.
unfoldable pub definitions_loop : (fuel : ℕ) → (declared : List Node) → Parse Pointer
unfolding parse_function
definitions_loop zero declared = out_of_fuel
definitions_loop (suc fuel) declared =
    let next : Node → Parse Pointer = (λ defined. elim declared [
      | [] ↦ null_pointer
      | blank ∷ rest ↦ definitions_loop fuel rest >>= λ functions.
          pure (to (set_next functions (set_address (fields blank).address defined)))
    ]) in
    when_token (same_token token_eof) (pure (link declared))
      (when_token starts_function (parse_function 0 true >>= next) (error_exit err_syntax))

unfoldable pub parse_import : Parse Node
parse_import = do
  expect_token token_const
  name ← when_token (same_token token_identifier) lexeme (error_exit err_syntax)
  if not (text_eq name (codes "ifj")) then error_exit err_syntax else get_token
  expect_token token_assign
  when_token (same_token token_import) get_token (error_exit err_syntax)
  expect_token token_left_paren
  file ← when_token (same_token token_string_literal) lexeme (error_exit err_syntax)
  if not (text_eq file (codes "ifj24.zig")) then error_exit err_syntax else get_token
  expect_token token_right_paren
  expect_token token_semicolon
  (address, g) ← safe_malloc
  pure (create_literal_node address g u8 (some file))

unfoldable pub check_program : (program : Node) → Parse (Unit {0})
check_program program = do
  on_symtable is_main_correct
  on_symtable (λ st. Run.◌>>=◌ (is_symtable_all_used st) (λ _. Run.ok st))
  scope_check_identifiers_in_tree (to program) (to program)

-- `*program_node->body` is read before the second pass: without functions it is a null pointer.
unfoldable pub parse_program : Parse Node
unfolding parse_import parse_functions_declaration definitions_loop check_program
parse_program = do
  (address, g) ← safe_malloc
  import_node ← parse_import
  on_symtable (load_builtin_functions builtin_functions)
  declared ← parse_functions_declaration
  body ←
      (if is_empty declared
        then null_pointer
        else with_fuel (λ fuel. definitions_loop fuel declared))
  let program = set_body body (set_next (to import_node) (create_program_node address g))
  check_program program
  pure program

-- `parser_init` on a fresh scanner, and the parser's variables before it.
unfoldable pub parser_init : Option Text → (memory : ℕ → Garbage) → Scanner → Run Parser
parser_init parent memory s = Run.◌>>=◌ (symtable_init parent nil) (λ symtable.
    Run.◌>>=◌ (get_next_token s) (λ (token, scanner). Run.ok (record {
      scanner = scanner;
      current_token = token;
      symtable = symtable;
      scope_stack = [];
      scope_counter = 0;
      next_block = 0;
      memory = memory;
    })))
