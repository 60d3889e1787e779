-- ===== src/Ifj/Parser/Returns.antt =====
-- 2/IFJ/parser.c: the checks of the return statements in the body of a function.
use vut_projects.Base.{Bool, true, false, not, ◌&&◌, ◌||◌, if◌then◌else◌}
use vut_projects.Ifj.Run.{
  Run, ok, exit, crash, ◌>>=◌, ◌>>◌, err_semantic_params, err_semantic_return,
}
use vut_projects.Ifj.Ast.{
  DataType, Fields, Pointer, NodeType, void, node_code, node_return, node_if, node_while,
  node_literal, is_node, same_type, nil, to, cell,
}
use vut_projects.Ifj.Parser.Types.{can_assign_type}
use vut_projects.Base.{◌==◌}

abbrev pub has_type : NodeType → Fields → Bool
has_type type f = node_code f.type == node_code type

unfoldable pub check_return_types_recursive : Pointer → (return_type : DataType) → Run Bool
check_return_types_recursive nil return_type = ok false
check_return_types_recursive (to (cell f left right next condition body ps as')) return_type =
    let in_body = check_return_types_recursive body return_type in
    let in_left = check_return_types_recursive left return_type in
    let in_next = check_return_types_recursive next return_type in
    let behind = λ (has_return : Bool). if has_return then ok true else in_next in
    if has_type node_return f
    then (if not (same_type f.data_type return_type)
          && not (can_assign_type return_type f.data_type)
        then exit err_semantic_params
        else ok true)
    else if has_type node_if f
    then (in_body >>= λ if_branch. in_left >>= λ else_branch. behind (if_branch && else_branch))
    else if has_type node_while f
    then (in_body >>= λ _. behind false)
    else (in_body >>= λ b. in_left >>= λ l. behind (b || l))

-- The test at a return statement, which reads the type of the node of the value.
abbrev pub check_return : Fields → (left : Pointer) → (return_type : DataType) → Run (Unit {0})
check_return f left return_type =
    if not (has_type node_return f) || same_type f.data_type return_type then ok tt else elim left [
      | nil ↦ crash
      | to value ↦
          if not (is_node node_literal value) || not (can_assign_type return_type f.data_type)
          then exit err_semantic_params
          else ok tt
    ]

unfoldable pub check_all_return_types : Pointer → (return_type : DataType) → Run Bool
check_all_return_types nil return_type = ok true
check_all_return_types (to (cell f left right next condition body ps as')) return_type = do
  check_return f left return_type
  body_check ← check_all_return_types body return_type
  left_check ← check_all_return_types left return_type
  next_check ← check_all_return_types next return_type
  ok (body_check && left_check && next_check)

abbrev pub when_set : Pointer → Run (Unit {0}) → Run (Unit {0})
when_set nil check = ok tt
when_set (to n) check = check

-- `check_return_types` for a function of type void.
unfoldable pub check_void_returns : Pointer → Run (Unit {0})
check_void_returns nil = crash
check_void_returns (to (cell f left right next condition body ps as')) =
    (if has_type node_return f && not (same_type f.data_type void)
      then exit err_semantic_return
      else ok tt)
    >> when_set body (check_void_returns body)
    >> when_set left (check_void_returns left)
    >> when_set next (check_void_returns next)

unfoldable pub check_return_types : Pointer → (return_type : DataType) → Run (Unit {0})
unfolding check_void_returns check_return_types_recursive check_all_return_types
check_return_types function_node return_type =
    if same_type return_type void then check_void_returns function_node else do
      has_return ← check_return_types_recursive function_node return_type
      compatible ←
          (if not has_return
            then exit err_semantic_return
            else check_all_return_types function_node return_type)
      if not compatible then exit err_semantic_params else ok tt
