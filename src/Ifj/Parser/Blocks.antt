-- ===== src/Ifj/Parser/Blocks.antt =====
-- 2/IFJ/parser.c: the statements with blocks, and blocks. `expression` is `parse_expression` in the
-- function that is parsed, and `block` is `parse_block` in it, with the flag for a new scope. A nested
-- block costs a unit of fuel, as does each statement of a block.
use vut_projects.Base.{ℕ, zero, suc, Bool, true, not, ◌||◌, Option, none, some, if◌then◌else◌, Text}
use vut_projects.Ifj.Run.{err_syntax, err_semantic_type}
use vut_projects.Ifj.Ast.{
  Node, Pointer, null, same_type, nil, to, fields, type_of, body_of, set_left, set_next, set_body,
  create_if_node, create_while_node, create_block_node, create_identifier_node,
}
use vut_projects.Ifj.Utils.{string_duplicate}
use vut_projects.Ifj.Scanner.{
  token_var, token_const, token_if, token_else, token_while, token_return, token_identifier,
  token_left_brace, token_right_brace,
}
use vut_projects.Ifj.Parser.{
  Parse, pure, error_exit, out_of_fuel, ◌>>=◌, ◌>>◌, same_token, when_token, get_token,
  expect_token, safe_malloc,
}
use vut_projects.Ifj.Parser.Scopes.{in_scope}
use vut_projects.Ifj.Parser.Expressions.{parse_expression}
use vut_projects.Ifj.Parser.Statements.{
  parse_condition, parse_variable_declaration, parse_return_statement, parse_variable_assigning,
}

module _ (fuel : ℕ) (expression : Parse Node) (function_name : Text) where
  -- The declaration in front of the statements of the block, with the name of the condition; and
  -- the block.
  unfoldable pub put_declaration :
      (condition : Node) → Option Node → (block : Node) → Parse (Option Node × Node)
  put_declaration condition none block = pure (none, block)
  put_declaration condition (some declaration) block = do
    (address, g) ← safe_malloc
    let identifier = create_identifier_node address g (string_duplicate (fields condition).name)
    let declared = set_left (to identifier) (set_next (body_of block) declaration)
    pure (some declared, set_body (to declared) block)

  module _ (block : Bool → Parse Node) where
    -- A block in a scope of its own, which makes another one.
    unfoldable pub scoped_block : Parse Node
    scoped_block = in_scope (block true)

    -- Without `|id|` the declaration that `create_if_node` gets is not set.
    unfoldable pub parse_if_statement : Parse Node
    unfolding parse_condition put_declaration scoped_block
    parse_if_statement = do
      (condition, declaration) ← parse_condition fuel expression function_name token_if
      parsed ← scoped_block
      (declared, true_block) ← put_declaration condition declaration parsed
      false_block ←
          when_token (same_token token_else) (get_token >> (scoped_block >>= λ b. pure (to b)))
            (pure nil)
      let agrees : Bool = elim false_block [
        | nil ↦ true
        | to b ↦ same_type (type_of true_block) (type_of b)
      ]
      (address, g) ← (if not agrees then error_exit err_semantic_type else safe_malloc)
      pure (
          create_if_node address g condition true_block false_block
            (elim declared [ none ↦ g.pointer | some d ↦ to d ]))

    unfoldable pub parse_while_statement : Parse Node
    unfolding parse_condition put_declaration scoped_block
    parse_while_statement = do
      (condition, declaration) ← parse_condition fuel expression function_name token_while
      parsed ← scoped_block
      (_, body) ← put_declaration condition declaration parsed
      (address, g) ← safe_malloc
      pure (create_while_node address g condition body)

    unfoldable pub parse_statement : Parse Node
    unfolding parse_variable_declaration parse_if_statement parse_while_statement
        parse_return_statement parse_variable_assigning
    parse_statement =
        when_token (λ t. same_token token_var t || same_token token_const t)
          (parse_variable_declaration fuel expression function_name)
          (when_token (same_token token_if) parse_if_statement (
            when_token (same_token token_while) parse_while_statement (
              when_token (same_token token_return)
                (parse_return_statement fuel expression function_name)
                (when_token (same_token token_identifier)
                  (parse_variable_assigning fuel expression function_name)
                  (error_exit err_syntax)))))

-- The loop of `parse_block`: the statements up to the brace, linked by `next`.
unfoldable pub statements_loop : (fuel : ℕ) → (statement : Parse Node) → Parse Pointer
statements_loop zero statement = out_of_fuel
statements_loop (suc fuel) statement =
    let more : Parse Pointer =
      (statement >>= λ first.
      statements_loop fuel statement >>= λ rest. pure (to (set_next rest first))) in
    when_token (same_token token_right_brace) (pure nil) more

-- The block behind its first brace.
unfoldable pub block_rest : (fuel : ℕ) → (statement : Parse Node) → Parse Node
unfolding statements_loop
block_rest fuel statement = do
  (address, g) ← safe_malloc
  statements ← statements_loop fuel statement
  expect_token token_right_brace
  pure (set_body statements (create_block_node address g nil null))

unfoldable pub parse_block :
    (fuel : ℕ) → (function_name : Text) → (enter_new_scope : Bool) → Parse Node
unfolding block_rest parse_statement
parse_block zero function_name enter_new_scope = out_of_fuel
parse_block (suc fuel) function_name enter_new_scope =
    let statement =
      parse_statement (suc fuel) (parse_expression (suc fuel) function_name) function_name
        (parse_block fuel function_name) in
    expect_token token_left_brace
    >> (if enter_new_scope
        then in_scope (block_rest (suc fuel) statement)
        else block_rest (suc fuel) statement)
