-- ===== src/Tests/Programs.antt =====
-- Tests and instances for the parser of 2/IFJ.
use vut_projects.Base.{◌≡◌, refl, true, false, none, some, Text, codes, ◌++◌, []}
use vut_projects.Ifj.Run
use vut_projects.Ifj.Run.{
  Run, ok, exit, crash, Halts, Ensures, err_semantic_unused, err_semantic_type,
}
use vut_projects.Ifj.Ast.{
  Pointer, Garbage, all, int, float, nil, to, create_literal_node, create_return_node,
}
use vut_projects.Ifj.Scanner.{scanner_init, token_pub}
use vut_projects.Ifj.Scanner.Position.{at}
use vut_projects.Ifj.Symtable.Startup.{init-lookup}
use vut_projects.Ifj.Parser.{Parser}
use vut_projects.Ifj.Parser.Operations.{perform_type_checking_and_create_node}
use vut_projects.Ifj.Parser.Returns.{check_return_types}
use vut_projects.Ifj.Parser.Program.{parser_init, parse_program, parse_function, braces_loop}
use vut_projects.Ifj.Parser.Typed.{Typed, perform-Typed}
use vut_projects.Ifj.Parser.Paths.{Falls, checked-Returns}
use vut_projects.Ifj.Parser.Braces.{unclosed-Endless}
use vut_projects.Ifj.Parser.Frames.{
  KeepsScopes, Grows, Reads, Advances, function-Ends, function-KeepsScopes, function-Grows,
}
use vut_projects.Ifj.Parser.{
  pure, error_exit, null_pointer, out_of_fuel, ◌>>=◌, lexeme, when_token, with_fuel, get_token,
  expect_token, safe_malloc, search, insert,
}
use vut_projects.Ifj.Parser.Scopes.{
  enter_scope, exit_scope, in_scope, current_scope_id, search_loop, search_variable_in_scopes,
  search_below, search_variable_in_outer_scopes,
}
use vut_projects.Ifj.Parser.Types.{
  is_nullable, detach_nullable, can_assign_type, parse_nullable_type, parse_type, parse_return_type,
}
use vut_projects.Ifj.Parser.Operations.{
  convert_to_float_node, check_and_convert_expression, create_typed, convert_if, compare_nodes,
  calculate_nodes, perform_type_checking_and_create_node,
}
use vut_projects.Ifj.Parser.Calls.{
  index_loop, get_builtin_function_index, builtin_at, is_builtin_function, declared_type,
  check_arguments_compability, parse_argument, arguments_loop, parse_arguments,
  parse_builtin_function_call, parse_function_call, parse_idendifier,
}
use vut_projects.Ifj.Parser.Expressions.{
  parse_literal, parse_name, parse_primary_expression, operators_loop, parse_multiplicative,
  parse_additive, parse_relational, parse_equality, parse_expression,
}
use vut_projects.Ifj.Parser.Statements.{
  declared_or_inferred, declare_variable, call_statement, assign_underscore, assign_variable,
  parse_variable_assigning, declare, parse_variable_declaration, parse_return_statement, parse_pipe,
  parse_condition,
}
use vut_projects.Ifj.Parser.Blocks.{
  put_declaration, scoped_block, parse_if_statement, parse_while_statement, parse_statement,
  statements_loop, block_rest, parse_block,
}
use vut_projects.Ifj.Parser.Returns.{
  check_return_types_recursive, check_all_return_types, check_void_returns, check_return_types,
}
use vut_projects.Ifj.Parser.ScopeCheck.{
  scope_check, find_node, current, scope_of, check_identifier, scope_check_identifiers_in_tree,
}
use vut_projects.Ifj.Parser.Program.{
  lift, on_symtable, parse_parameter, parameters_loop, parse_parameters, braces_loop,
  define_function, declare_function, parse_function_with, parse_function, declarations_loop,
  restore, parse_functions_declaration, definitions_loop, parse_import, check_program,
  parse_program, parser_init,
}
use vut_projects.Ifj.Utils.{
  string_duplicate, add_decimal, digits, decimal, construct_variable_name, construct_builtin_name,
}
use vut_projects.Ifj.Ast.{
  create_program_node, create_function_node, create_variable_declaration_node,
  create_assignment_node, create_binary_operation_node, create_literal_node, create_identifier_node,
  create_if_node, create_while_node, create_return_node, create_function_call_node,
  create_block_node,
}
use vut_projects.Ifj.Symtable.{symtable_search, symtable_insert, symtable_hash, hash_loop}
use vut_projects.Chained.Chain.{update}
use vut_projects.Ifj.Symtable.Compile.{
  symtable_init, load_builtin_functions, is_main_correct, is_symtable_all_used,
}
use vut_projects.Ifj.Scanner.Next.{get_next_token}

abbrev garbage : Garbage
garbage = record {
  data_type = all;
  value = none;
  pointer = nil;
  is_used = true;
  is_constant = false;
}

-- How the parse of a file ends.
outcome : Text → Run (Unit {0})
unfolding hash_loop update scanner_init symtable_init load_builtin_functions is_main_correct
    is_symtable_all_used symtable_search symtable_insert symtable_hash get_next_token pure
    error_exit null_pointer out_of_fuel ◌>>=◌ lexeme when_token with_fuel get_token expect_token
    safe_malloc search insert enter_scope exit_scope in_scope current_scope_id search_loop
    search_variable_in_scopes search_below search_variable_in_outer_scopes is_nullable
    detach_nullable can_assign_type parse_nullable_type parse_type parse_return_type
    convert_to_float_node check_and_convert_expression create_typed convert_if compare_nodes
    calculate_nodes perform_type_checking_and_create_node index_loop get_builtin_function_index
    builtin_at is_builtin_function declared_type check_arguments_compability parse_argument
    arguments_loop parse_arguments parse_builtin_function_call parse_function_call parse_idendifier
    parse_literal parse_name parse_primary_expression operators_loop parse_multiplicative
    parse_additive parse_relational parse_equality parse_expression declared_or_inferred
    declare_variable call_statement assign_underscore assign_variable parse_variable_assigning
    declare parse_variable_declaration parse_return_statement parse_pipe parse_condition
    put_declaration scoped_block parse_if_statement parse_while_statement parse_statement
    statements_loop block_rest parse_block check_return_types_recursive check_all_return_types
    check_void_returns check_return_types scope_check find_node current scope_of check_identifier
    scope_check_identifiers_in_tree lift on_symtable parse_parameter parameters_loop
    parse_parameters braces_loop define_function declare_function parse_function_with parse_function
    declarations_loop restore parse_functions_declaration definitions_loop parse_import
    check_program parse_program parser_init string_duplicate add_decimal digits decimal
    construct_variable_name construct_builtin_name create_program_node create_function_node
    create_variable_declaration_node create_assignment_node create_binary_operation_node
    create_literal_node create_identifier_node create_if_node create_while_node create_return_node
    create_function_call_node create_block_node
outcome file =
    Run.◌>>=◌ (parser_init none (λ n. garbage) (scanner_init file))
      (λ p. Run.◌>>=◌ (parse_program p) (λ _. ok tt))

abbrev import_line : Text
import_line = codes "const ifj = @import(\"ifj24.zig\");\n"

two_functions_lem :
    outcome (
      import_line
      ++ codes "pub fn f(a: i32) i32 { if (a < 3) { return a; } else { return f(a); } }\n"
      ++ codes "pub fn main() void { const y = f(1); if (y == 2) { ifj.write(y); } else { } }")
    ≡ ok tt
unfolding outcome
two_functions_lem = refl

-- The name of a built-in function may be a string literal.
quoted_name_lem : outcome (import_line ++ codes "pub fn main() void { ifj.\"write\"(1); }") ≡ ok tt
unfolding outcome
quoted_name_lem = refl

-- A null pointer is followed for a file without functions, for an empty body, and for an argument
-- to a function without parameters.
no_functions_crash : outcome import_line ≡ crash
unfolding outcome
no_functions_crash = refl

empty_body_crash : outcome (import_line ++ codes "pub fn main() void { }") ≡ crash
unfolding outcome
empty_body_crash = refl

argument_crash :
    outcome (import_line ++ codes "pub fn f() void { return; } pub fn main() void { f(1); }")
    ≡ crash
unfolding outcome
argument_crash = refl

mixed_types_exit :
    outcome (import_line ++ codes "pub fn main() void { var x: i32 = 1 + \"a\"; _ = x; }")
    ≡ exit err_semantic_type
unfolding outcome
mixed_types_exit = refl

-- In front of `fn f(a: i32) i32 { return a; }`, with `pub` as the current token.
abbrev function_text : Text
function_text = codes " fn f(a: i32) i32 { return a; }"

abbrev in_front : Parser
in_front = record {
  scanner = at function_text 1 4;
  current_token = record { type = token_pub; lexeme = codes "pub"; line = 1; column = 4 };
  symtable = (init-lookup none nil).0;
  scope_stack = [];
  scope_counter = 0;
  next_block = 0;
  memory = λ n. garbage;
}

function-Ends_example :
    Halts
      (parse_function 0 true in_front)
      (λ (_, q). ((rest : Text) × Reads q rest) × Advances in_front q)
function-Ends_example = function-Ends in_front function_text (1, 4, refl)

function-KeepsScopes_example :
    Halts (parse_function 0 true in_front) (λ (_, q). KeepsScopes in_front q)
function-KeepsScopes_example = function-KeepsScopes in_front function_text (1, 4, refl)

function-Grows_example :
    Halts (parse_function 0 true in_front) (λ (_, q). Grows in_front.symtable q.symtable)
function-Grows_example = function-Grows in_front function_text (1, 4, refl) (init-lookup none nil).3

perform-Typed_example :
    Ensures
      (perform_type_checking_and_create_node
        (codes "*")
        (create_literal_node 0 garbage int (some (codes "2")))
        (create_literal_node 1 garbage float (some (codes "1.5")))
        in_front)
      err_semantic_type
      (λ (n, _). Typed (codes "*") n)
perform-Typed_example =
    perform-Typed (codes "*") (create_literal_node 0 garbage int (some (codes "2")))
      (create_literal_node 1 garbage float (some (codes "1.5"))) in_front

-- `return 2;`
abbrev returning : Pointer
returning =
    to (create_return_node 1 garbage (to (create_literal_node 0 garbage int (some (codes "2")))))

checked-Returns_example : Falls returning → ⊥
unfolding check_return_types create_return_node create_literal_node
checked-Returns_example = checked-Returns returning int refl refl

at_end : Parser
at_end = record in_front { scanner = at [] 7 1 }

unclosed-Endless_example : braces_loop 1000 1 at_end ≡ Run.out_of_fuel
unfolding at_end
unclosed-Endless_example = unclosed-Endless 1000 0 7 1 at_end refl
