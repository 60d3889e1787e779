-- ===== src/Ifj/Codegen/Collect.antt =====
-- 2/IFJ/codegen.c: the collection of the built-in functions and of the variables of a function.
use vut_projects.Base.{true, ◌||◌, Option, List, [], ◌∷◌, if◌then◌else◌, Text}
use vut_projects.Ifj.Run.{ok}
use vut_projects.Ifj.Ast.{
  node_program, node_function, node_variable_declaration, node_assignment, node_binary_operation,
  node_literal, node_identifier, node_if, node_while, node_return, node_function_call, node_block,
  Fields, Pointer, nil, to, cell, Pointers, end, entry, fields, type_of,
}
use vut_projects.Ifj.Parser.Types.{is_nullable}
use vut_projects.Ifj.Codegen.Actions.{
  Step, error_exit, null_pointer, ◌>>=◌, ◌>>◌, done, when, set, is, address_of, argument_at,
  pass_at, passes_loop, renamed, declare, new_temporary,
}

-- The flag of a built-in function that is generated where it is used.
unfoldable pub use_builtin : (name : Text) → Step
use_builtin name g =
    let usage = g.builtin_function_usage in
    ok (
      tt,
      if is name "ifj.substring"
          then record g { builtin_function_usage = record usage { uses_substring = true } }
          else if is name "ifj.strcmp"
          then record g { builtin_function_usage = record usage { uses_strcmp = true } }
          else if is name "ifj.string"
          then record g { builtin_function_usage = record usage { uses_string = true } }
          else g,
    )

-- The switch over the type of a node, with what is done for its parts; `each` is the loop over the
-- nodes of its body.
abbrev usage_of :
    Fields → (in_left in_right in_condition in_body each : Step) → (passes : List Step) → Step
usage_of f in_left in_right in_condition in_body each passes = elim f.type [
  | node_program ↦ each
  | node_function ↦ in_body
  | node_block ↦ each
  | node_function_call ↦ set f.name >>= λ name. use_builtin name >> passes_loop f.arg_count passes
  | node_binary_operation ↦ in_left >> in_right
  | node_variable_declaration ↦ in_left
  | node_assignment ↦ in_left
  | node_if ↦ in_condition >> in_body >> in_left
  | node_while ↦ in_condition >> in_body
  | node_return ↦ in_left
  | node_literal ↦ done
  | node_identifier ↦ done
]

unfoldable mutual
  pub collect_builtin_function_usage : Pointer → Step
  collect_builtin_function_usage nil = done
  collect_builtin_function_usage (to (cell f left right next condition body ps as')) =
      usage_of f (collect_builtin_function_usage left) (collect_builtin_function_usage right)
        (collect_builtin_function_usage condition) (collect_builtin_function_usage body)
        (usage_loop body) (usage_passes as')

  -- The loop along `next`.
  usage_loop : Pointer → Step
  usage_loop nil = done
  usage_loop (to (cell f left right next condition body ps as')) =
      usage_of f (collect_builtin_function_usage left) (collect_builtin_function_usage right)
        (collect_builtin_function_usage condition) (collect_builtin_function_usage body)
        (usage_loop body) (usage_passes as')
      >> usage_loop next

  usage_passes : Pointers → List Step
  usage_passes end = []
  usage_passes (entry p ps) = collect_builtin_function_usage p ∷ usage_passes ps

abbrev pub declare_renamed : Option Text → Step
declare_renamed name = renamed name >>= λ var_name. declare var_name

-- `passes` has what is collected in each argument.
unfoldable pub collect_variables_in_function_call :
    Fields → (left : Pointer) → (arguments : Pointers) → (passes : List Step) → Step
collect_variables_in_function_call f left arguments passes = do
  name ← set f.name
  let node = f.address
  if is name "ifj.write"
      then (do
        pass_at passes 0
        arg ← argument_at arguments 0
        new_temporary "temp" (address_of arg) "temp_var"
        elim arg [
          | nil ↦ null_pointer
          | to n ↦
              when (is_nullable (type_of n))
                (new_temporary "tmp_type" (address_of (to n)) "temp_type")
        ])
      else if is name "ifj.readi32" || (is name "ifj.readf64" || is name "ifj.readstr")
      then new_temporary "retval" node "retval_var"
      else if is name "ifj.length"
      then (do
        pass_at passes 0
        arg ← argument_at arguments 0
        new_temporary "tmp_str" (address_of arg) "tmp_str_var"
        new_temporary "retval" node "retval_var")
      else if is name "ifj.concat"
      then (do
        pass_at passes 0
        pass_at passes 1
        arg1 ← argument_at arguments 0
        arg2 ← argument_at arguments 1
        new_temporary "tmp_str1" (address_of arg1) "tmp_str1_var"
        new_temporary "tmp_str2" (address_of arg2) "tmp_str2_var"
        new_temporary "retval" node "retval_var")
      else if is name "ifj.i2f" || is name "ifj.f2i"
      then (do
        pass_at passes 0
        arg ← argument_at arguments 0
        new_temporary "tmp_var" (address_of arg) "tmp_var"
        new_temporary "retval" node "retval_var")
      else if is name "ifj.substring" || (is name "ifj.strcmp" || is name "ifj.string")
      then passes_loop f.arg_count passes
      else if is name "ifj.chr"
      then (do
        pass_at passes 0
        arg ← argument_at arguments 0
        new_temporary "tmp_int" (address_of arg) "tmp_int_var"
        new_temporary "tmp_temp" node "tmp_temp_var"
        new_temporary "retval" node "retval_var")
      else if is name "ifj.ord"
      then (do
        pass_at passes 0
        pass_at passes 1
        new_temporary "str" node "str_var"
        new_temporary "idx" node "idx_var"
        new_temporary "strlen" node "strlen_var"
        new_temporary "tmp_bool" node "tmp_bool_var"
        new_temporary "retval" node "retval_var")
      else (do
        passes_loop f.arg_count passes
        elim left [ nil ↦ done | to n ↦ declare_renamed (fields n).name ])

unfoldable mutual
  unfolding collect_variables_in_function_call

  pub collect_variables_in_expression : Pointer → Step
  collect_variables_in_expression nil = done
  collect_variables_in_expression (to (cell f left right next condition body ps as')) =
      let in_left = collect_variables_in_expression left in
      let in_right = collect_variables_in_expression right in
      let passes = expression_passes as' in
      elim f.type [
        | node_literal ↦ done
        | node_identifier ↦ declare_renamed f.name
        | node_binary_operation ↦
            in_left
            >> new_temporary "temp" (address_of left) "temp_var"
            >> in_right
            >> new_temporary "temp" (address_of right) "temp_var"
            >> new_temporary "result" f.address "result_var"
        | node_function_call ↦ collect_variables_in_function_call f left as' passes
        | _ ↦ error_exit
      ]

  pub expression_passes : Pointers → List Step
  expression_passes end = []
  expression_passes (entry p ps) = collect_variables_in_expression p ∷ expression_passes ps

-- With what is done for the blocks of an `if` or a `while`.
unfoldable pub collect_variables_in_statement :
    Fields → (left condition : Pointer) → (arguments : Pointers) → (in_body in_left : Step) → Step
collect_variables_in_statement f left condition arguments in_body in_left =
    let value = collect_variables_in_expression left in
    let test = collect_variables_in_expression condition in
    elim f.type [
      | node_variable_declaration ↦ declare_renamed f.name >> value
      | node_assignment ↦ declare_renamed f.name >> value
      | node_return ↦ value
      | node_if ↦ test >> in_body >> elim left [ nil ↦ done | to n ↦ in_left ]
      | node_while ↦ test >> in_body
      | node_function_call ↦
          collect_variables_in_function_call f left arguments (expression_passes arguments)
      | _ ↦ done
    ]

unfoldable mutual
  unfolding collect_variables_in_statement

  pub collect_variables_in_block : Pointer → Step
  collect_variables_in_block nil = null_pointer
  collect_variables_in_block (to (cell f left right next condition body ps as')) =
      statements_loop body

  -- The loop along `next`.
  statements_loop : Pointer → Step
  statements_loop nil = done
  statements_loop (to (cell f left right next condition body ps as')) =
      collect_variables_in_statement f left condition as' (collect_variables_in_block body)
        (collect_variables_in_block left)
      >> statements_loop next
