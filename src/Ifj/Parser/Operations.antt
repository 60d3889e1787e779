-- ===== src/Ifj/Parser/Operations.antt =====
-- 2/IFJ/parser.c: the types of binary operations, and the conversions from int to float.
use vut_projects.Base.{Bool, not, ◌&&◌, ◌||◌, if◌then◌else◌, Text, text_eq, codes}
use vut_projects.Ifj.Run.{err_semantic_type}
use vut_projects.Ifj.Utils.{string_duplicate, add_decimal}
use vut_projects.Ifj.Ast.{
  DataType, null, int, float, bool, u8, u8_nullable, same_type, Node, node_literal, is_node,
  type_of, fields, set_data_type, create_literal_node, create_binary_operation_node,
}
use vut_projects.Ifj.Parser.{Parse, pure, error_exit, ◌>>=◌, safe_malloc}
use vut_projects.Ifj.Parser.Types.{is_nullable, detach_nullable, can_assign_type}

unfoldable pub convert_to_float_node : Node → Parse Node
convert_to_float_node node =
    if not (same_type (type_of node) int) then error_exit err_semantic_type else do
      let decimal_value = add_decimal (string_duplicate (fields node).value)
      (address, g) ← safe_malloc
      pure (create_literal_node address g float decimal_value)

unfoldable pub check_and_convert_expression : Node → (expected_type : DataType) → Parse Node
unfolding convert_to_float_node
check_and_convert_expression node expected_type =
    if not (can_assign_type expected_type (type_of node))
    then error_exit err_semantic_type
    else if same_type expected_type float && same_type (type_of node) int
    then convert_to_float_node node
    else pure node

abbrev pub is_equality : Text → Bool
is_equality op = text_eq op (codes "==") || text_eq op (codes "!=")

abbrev pub is_boolean : Text → Bool
is_boolean op =
    text_eq op (codes ">=")
    || text_eq op (codes "<=")
    || text_eq op (codes "<")
    || text_eq op (codes ">")
    || is_equality op

abbrev pub is_string : DataType → Bool
is_string t = same_type t u8 || same_type t u8_nullable

abbrev pub base_type : DataType → DataType
base_type t = if is_nullable t then detach_nullable t else t

-- `create_binary_operation_node`, then `node->data_type = …`.
unfoldable pub create_typed : Text → (left right : Node) → DataType → Parse Node
create_typed op left right type = safe_malloc >>= λ (address, g).
    pure (set_data_type type (create_binary_operation_node address g op left right))

-- An operand and its base type, converted where the test holds.
unfoldable pub convert_if : Bool → Node → DataType → Parse (Node × DataType)
unfolding convert_to_float_node
convert_if test node base =
    if test
    then (convert_to_float_node node >>= λ converted. pure (converted, float))
    else pure (node, base)

-- The branch for `==` and `!=`.
unfoldable pub compare_nodes : Text → (left right : Node) → Parse Node
unfolding create_typed convert_if
compare_nodes op left right =
    let lt = type_of left in
    let rt = type_of right in
    let lb = base_type lt in
    let rb = base_type rt in
    if same_type lt null || same_type rt null
    then (if (is_nullable lt && same_type rt null) || (same_type lt null && is_nullable rt)
        then create_typed op left right bool
        else error_exit err_semantic_type)
    else do
      let left_int : Bool = same_type lb int && same_type rb float && is_node node_literal left
      let right_int : Bool = same_type lb float && same_type rb int && is_node node_literal right
      (left1, lb1) ← convert_if left_int left lb
      (right1, rb1) ← convert_if (not left_int && right_int) right rb
      if not (same_type lb1 rb1)
          then error_exit err_semantic_type
          else create_typed op left1 right1 bool

-- The branch for the other operators. The type of the result is bool if the operator compares.
unfoldable pub calculate_nodes : Text → (left right : Node) → Parse Node
unfolding create_typed convert_to_float_node
calculate_nodes op left right =
    let lt = type_of left in
    let rt = type_of right in
    let lb = base_type lt in
    let rb = base_type rt in
    if is_nullable lt || is_nullable rt || same_type lt null || same_type rt null
    then error_exit err_semantic_type
    else if same_type lb rb
    then (if same_type lb int || same_type lb float
        then create_typed op left right (if is_boolean op then bool else lb)
        else error_exit err_semantic_type)
    else if (same_type lb int && same_type rb float) || (same_type lb float && same_type rb int)
    then (if same_type lb int && is_node node_literal left
        then (convert_to_float_node left >>= λ left1.
            create_typed op left1 right (if is_boolean op then bool else float))
        else if same_type rb int && is_node node_literal right
        then (convert_to_float_node right >>= λ right1.
            create_typed op left right1 (if is_boolean op then bool else float))
        else error_exit err_semantic_type)
    else error_exit err_semantic_type

unfoldable pub perform_type_checking_and_create_node : Text → (left right : Node) → Parse Node
unfolding compare_nodes calculate_nodes
perform_type_checking_and_create_node op left right =
    if is_string (type_of left) || is_string (type_of right)
    then error_exit err_semantic_type
    else if is_equality op
    then compare_nodes op left right
    else calculate_nodes op left right
