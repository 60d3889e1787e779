-- ===== src/Ifj/Codegen/Statements.antt =====
-- 2/IFJ/codegen.c: the code of calls, expressions and statements.
use vut_projects.Base.{
  ℕ, ◌+◌, ◌&&◌, ◌||◌, List, [], ◌∷◌, if◌then◌else◌, Text, codes, Option, some, none,
}
use Prim.Native.String.{String}
use vut_projects.Ifj.Run.{ok}
use vut_projects.Ifj.Ast.{
  NodeType, node_variable_declaration, node_assignment, node_binary_operation, node_literal,
  node_identifier, node_if, node_while, node_return, node_function_call, Fields, Pointer, nil, to,
  cell, Pointers, end, entry, fields, type_of, is_node,
}
use vut_projects.Ifj.Parser.Types.{is_nullable}
use vut_projects.Ifj.Codegen.{lf, word}
use vut_projects.Ifj.Codegen.Actions.{
  Gen, Step, error_exit, null_pointer, ◌>>=◌, ◌>>◌, done, set, is, argument_at, pass_at,
  passes_loop, reverse_loop, renamed, unique_label, emit, lit, label, pop,
}
use vut_projects.Ifj.Codegen.Emit.{
  generate_literal, generate_identifier, generate_binary, generate_write, generate_unary,
  generate_read, generate_concat, generate_chr, generate_ord,
}

-- The name behind `POPS` of a declaration: the code ends where it is NULL.
abbrev pub pop_declared : Option Text → Step
pop_declared none = error_exit
pop_declared (some name) = renamed (some name) >>= pop

-- The result of a call that is assigned to a variable.
abbrev pub take_result : (left : Pointer) → Step
take_result nil = done
take_result (to n) = renamed (fields n).name >>= pop

-- `passes` has the code of each argument.
unfoldable pub codegen_generate_function_call :
    Fields → (left : Pointer) → (arguments : Pointers) → (passes : List Step) → Step
codegen_generate_function_call f left arguments passes = do
  name ← set f.name
  let node = f.address
  let unary : String → String → Step = λ opcode key.
      argument_at arguments 0 >>= λ arg. generate_unary opcode key node arg (pass_at passes 0)
  if is name "ifj.write"
      then (argument_at arguments 0 >>= λ arg. generate_write arg (pass_at passes 0))
      else if is name "ifj.readi32" || (is name "ifj.readf64" || is name "ifj.readstr")
      then generate_read name node
      else if is name "ifj.length"
      then unary "STRLEN" "tmp_str_var"
      else if is name "ifj.concat"
      then (do
        arg1 ← argument_at arguments 0
        arg2 ← argument_at arguments 1
        generate_concat node arg1 arg2 (pass_at passes 0) (pass_at passes 1))
      else if is name "ifj.i2f"
      then unary "INT2FLOAT" "tmp_var"
      else if is name "ifj.f2i"
      then unary "FLOAT2INT" "tmp_var"
      else if is name "ifj.substring" || (is name "ifj.strcmp" || is name "ifj.string")
      then (passes_loop f.arg_count passes
          >> emit "CALL" (
              (if is name "ifj.string"
                then lit "ifj-string"
                else if is name "ifj.strcmp"
                then lit "ifj-strcmp"
                else lit "ifj-substring")
              ∷ []))
      else if is name "ifj.chr"
      then (argument_at arguments 0 >>= λ arg. generate_chr node arg (pass_at passes 0))
      else if is name "ifj.ord"
      then generate_ord node (pass_at passes 0) (pass_at passes 1)
      else (do reverse_loop f.arg_count passes; emit "CALL" (word name ∷ []); take_result left)

module _ (print_float : Text → Text) where
  -- The switch over the type of an expression, with the code of its parts.
  unfoldable pub expression_of :
      NodeType
      → Fields
      → (left right : Pointer) → (arguments : Pointers) → (in_left in_right : Step)
      → (passes : List Step) → Step
  unfolding codegen_generate_function_call
  expression_of node_literal f left right arguments in_left in_right passes =
      generate_literal print_float f
  expression_of node_identifier f left right arguments in_left in_right passes =
      generate_identifier f
  expression_of node_binary_operation f left right arguments in_left in_right passes =
      generate_binary f left right in_left in_right
  expression_of node_function_call f left right arguments in_left in_right passes =
      codegen_generate_function_call f left arguments passes
  expression_of _ f left right arguments in_left in_right passes = error_exit

  unfoldable mutual
    unfolding expression_of

    pub codegen_generate_expression : Pointer → Step
    codegen_generate_expression nil = done
    codegen_generate_expression (to (cell f left right next condition body ps as')) =
        expression_of f.type f left right as' (codegen_generate_expression left)
          (codegen_generate_expression right) (expression_passes as')

    pub expression_passes : Pointers → List Step
    expression_passes end = []
    expression_passes (entry p ps) = codegen_generate_expression p ∷ expression_passes ps

  unfoldable pub codegen_generate_return : (left : Pointer) → Step
  unfolding codegen_generate_expression
  codegen_generate_return left =
      codegen_generate_expression left >> emit "POPFRAME" [] >> emit "RETURN" []

  -- `if_label_count++`
  unfoldable pub if_label : Gen ℕ
  if_label g = ok (g.if_label_count, record g { if_label_count = g.if_label_count + 1 })

  -- The jump to the `else` of a condition that is null or false.
  unfoldable pub generate_condition : (condition : Pointer) → (current_label : ℕ) → Step
  unfolding codegen_generate_expression
  generate_condition nil current_label = null_pointer
  generate_condition (to n) current_label =
      if is_node node_identifier n && is_nullable (type_of n)
      then (do
        var_name ← renamed (fields n).name
        emit "TYPE" (lf (codes "%tmp_type") ∷ lf var_name ∷ [])
        emit "JUMPIFEQ"
            (label "$else_" current_label ∷ lf (codes "%tmp_type") ∷ lit "string@nil" ∷ []))
      else (do
        codegen_generate_expression (to n)
        emit "PUSHS" (lit "bool@false" ∷ [])
        emit "JUMPIFEQS" (label "$else_" current_label ∷ []))

  -- With the code of the two blocks.
  unfoldable pub codegen_generate_if : (condition left : Pointer) → (in_body in_left : Step) → Step
  unfolding if_label generate_condition
  codegen_generate_if condition left in_body in_left = do
    current_label ← if_label
    generate_condition condition current_label
    in_body
    emit "JUMP" (label "$endif_" current_label ∷ [])
    emit "LABEL" (label "$else_" current_label ∷ [])
    elim left [ nil ↦ done | to n ↦ in_left ]
    emit "LABEL" (label "$endif_" current_label ∷ [])

  unfoldable pub codegen_generate_while : (condition : Pointer) → (in_body : Step) → Step
  unfolding codegen_generate_expression
  codegen_generate_while condition in_body = do
    label_num ← unique_label
    emit "LABEL" (label "$while_start_" label_num ∷ [])
    codegen_generate_expression condition
    emit "PUSHS" (lit "bool@false" ∷ [])
    emit "JUMPIFEQS" (label "$while_end_" label_num ∷ [])
    in_body
    emit "JUMP" (label "$while_start_" label_num ∷ [])
    emit "LABEL" (label "$while_end_" label_num ∷ [])

  -- The switch over the type of a statement.
  unfoldable pub statement_of :
      NodeType
      → Fields
      → (left condition : Pointer) → (arguments : Pointers) → (in_body in_left : Step) → Step
  unfolding codegen_generate_expression codegen_generate_return codegen_generate_if
      codegen_generate_while
  statement_of node_variable_declaration f left condition arguments in_body in_left = elim left [
    | nil ↦ done
    | to n ↦ codegen_generate_expression (to n) >> pop_declared f.name
  ]
  statement_of node_assignment f left condition arguments in_body in_left =
      codegen_generate_expression left >> (renamed f.name >>= pop)
  statement_of node_return f left condition arguments in_body in_left = codegen_generate_return left
  statement_of node_if f left condition arguments in_body in_left =
      codegen_generate_if condition left in_body in_left
  statement_of node_while f left condition arguments in_body in_left =
      codegen_generate_while condition in_body
  statement_of node_function_call f left condition arguments in_body in_left =
      codegen_generate_function_call f left arguments (expression_passes arguments)
  statement_of _ f left condition arguments in_body in_left = error_exit

  unfoldable pub codegen_generate_statement :
      Fields → (left condition : Pointer) → (arguments : Pointers) → (in_body in_left : Step) → Step
  unfolding statement_of
  codegen_generate_statement f left condition arguments in_body in_left =
      statement_of f.type f left condition arguments in_body in_left

  unfoldable mutual
    unfolding codegen_generate_statement

    pub codegen_generate_block : Pointer → Step
    codegen_generate_block nil = null_pointer
    codegen_generate_block (to (cell f left right next condition body ps as')) =
        statements_loop body

    -- The loop along `next`.
    pub statements_loop : Pointer → Step
    statements_loop nil = done
    statements_loop (to (cell f left right next condition body ps as')) =
        codegen_generate_statement f left condition as' (codegen_generate_block body)
          (codegen_generate_block left)
        >> statements_loop next
