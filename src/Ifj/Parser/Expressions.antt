-- ===== src/Ifj/Parser/Expressions.antt =====
-- 2/IFJ/parser.c: expressions by recursive descent, one function for each precedence. A nested
-- expression costs a unit of fuel, as does each turn of a loop.
use vut_projects.Base.{ℕ, zero, suc, Bool, ◌||◌, none, some, if◌then◌else◌, Text}
use vut_projects.Ifj.Run.{err_syntax}
use vut_projects.Ifj.Ast.{
  DataType, Node, null, int, float, u8, bool, set_data_type, create_literal_node,
}
use vut_projects.Ifj.Symtable.{Symbol, function}
use vut_projects.Ifj.Scanner.{
  TokenType, token_int_literal, token_float_literal, token_string_literal, token_identifier,
  token_left_paren, token_right_paren, token_null, token_multiply, token_divide, token_plus,
  token_minus, token_less, token_less_equal, token_greater, token_greater_equal, token_equal,
  token_not_equal,
}
use vut_projects.Ifj.Utils.{string_duplicate}
use vut_projects.Ifj.Parser.{
  Parse, pure, error_exit, out_of_fuel, ◌>>=◌, ◌>>◌, lexeme, same_token, when_token, get_token,
  expect_token, safe_malloc, search,
}
use vut_projects.Ifj.Parser.Operations.{perform_type_checking_and_create_node}
use vut_projects.Ifj.Parser.Calls.{
  is_builtin_function, parse_builtin_function_call, parse_function_call, parse_idendifier,
}

abbrev pub is_function : Symbol → Bool
is_function symbol = elim symbol.symbol_type [ function ↦ Bool.true | _ ↦ Bool.false ]

unfoldable pub parse_literal : DataType → Parse Node
parse_literal type = do
  value ← lexeme
  (address, g) ← safe_malloc
  get_token
  pure (create_literal_node address g type (string_duplicate (some value)))

-- The branch of `parse_primary_expression` for an identifier.
unfoldable pub parse_name : (fuel : ℕ) → Parse Node → (function_name : Text) → Parse Node
parse_name fuel expression function_name = do
  name ← lexeme
  is_builtin ← is_builtin_function name
  if is_builtin then parse_builtin_function_call fuel expression else do
    found ← search name
    elim found [
      | none ↦ parse_idendifier function_name
      | some symbol ↦
          if is_function symbol
          then parse_function_call fuel expression symbol
          else parse_idendifier function_name
    ]

unfoldable pub parse_primary_expression :
    (fuel : ℕ) → (expression : Parse Node) → (function_name : Text) → Parse Node
unfolding parse_literal parse_name
parse_primary_expression fuel expression function_name =
    when_token (same_token token_int_literal) (parse_literal int) (
      when_token (same_token token_float_literal) (parse_literal float) (
        when_token (same_token token_string_literal) (parse_literal u8) (
          when_token (same_token token_identifier) (parse_name fuel expression function_name) (
            when_token (same_token token_left_paren)
              (do get_token; inner ← expression; expect_token token_right_paren; pure inner)
              (when_token (same_token token_null) (parse_literal null) (error_exit err_syntax))))))

-- The loop of each precedence: operands joined by operators of the class. `finish` is what the
-- loop does to a new node.
unfoldable pub operators_loop :
    (fuel : ℕ)
    → (TokenType → Bool)
    → (finish : Node → Node) → (operand : Parse Node) → Node
    → Parse Node
operators_loop zero is_operator finish operand node = out_of_fuel
operators_loop (suc fuel) is_operator finish operand node =
    let next : Parse Node =
      (lexeme >>= λ operator_name.
      get_token
      >> (operand >>= λ right_node.
          perform_type_checking_and_create_node operator_name node right_node >>= λ joined.
          operators_loop fuel is_operator finish operand (finish joined))) in
    when_token is_operator next (pure node)

abbrev pub is_multiplicative : TokenType → Bool
is_multiplicative t = same_token token_multiply t || same_token token_divide t

abbrev pub is_additive : TokenType → Bool
is_additive t = same_token token_plus t || same_token token_minus t

abbrev pub is_relational : TokenType → Bool
is_relational t =
    same_token token_less t
    || same_token token_less_equal t
    || same_token token_greater t
    || same_token token_greater_equal t

abbrev pub is_equal_or_not : TokenType → Bool
is_equal_or_not t = same_token token_equal t || same_token token_not_equal t

module _ (fuel : ℕ) (expression : Parse Node) (function_name : Text) where
  unfoldable pub parse_multiplicative : Parse Node
  unfolding operators_loop parse_primary_expression
  parse_multiplicative =
      parse_primary_expression fuel expression function_name
      >>= operators_loop fuel is_multiplicative (λ node. node)
          (parse_primary_expression fuel expression function_name)

  unfoldable pub parse_additive : Parse Node
  unfolding operators_loop parse_multiplicative
  parse_additive =
      parse_multiplicative >>= operators_loop fuel is_additive (λ node. node) parse_multiplicative

  unfoldable pub parse_relational : Parse Node
  unfolding operators_loop parse_additive
  parse_relational =
      parse_additive >>= operators_loop fuel is_relational (set_data_type bool) parse_additive

  unfoldable pub parse_equality : Parse Node
  unfolding operators_loop parse_relational
  parse_equality =
      parse_relational >>= operators_loop fuel is_equal_or_not (set_data_type bool) parse_relational

unfoldable pub parse_expression : (fuel : ℕ) → (function_name : Text) → Parse Node
unfolding parse_equality
parse_expression zero function_name = out_of_fuel
parse_expression (suc fuel) function_name =
    parse_equality (suc fuel) (parse_expression fuel function_name) function_name
