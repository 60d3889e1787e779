-- ===== src/Ifj/Ast.antt =====
-- 2/IFJ/ast.h, 2/IFJ/ast.c: the nodes of the syntax tree and the functions that create them, with
-- the types of data of 2/IFJ/symtable.h. A node holds its address, by which pointers to nodes are
-- compared. `string_duplicate` gives an equal string.
use vut_projects.Base.{ℕ, zero, suc, Bool, true, false, ◌==◌, Option, none, some, Text}

pub data DataType : Type 0 where
  null int float all void bool u8 unknown int_nullable float_nullable u8_nullable : DataType

pub data NodeType : Type 0 where
  node_program node_function node_variable_declaration node_assignment : NodeType
  node_binary_operation node_literal node_identifier node_if node_while node_return : NodeType
  node_function_call node_block : NodeType

-- The fields of an ASTNode that are no pointers to nodes.
pub record Fields : Type 0 where
  pub address : ℕ
  pub type : NodeType
  pub data_type : DataType
  pub name : Option Text
  pub value : Option Text
  pub param_count : ℕ
  pub arg_count : ℕ

-- A node with its fields, then `left`, `right`, `next`, `condition`, `body`, `parameters` and
-- `arguments`. An array that is NULL has no entries.
mutual
  pub data Node : Type 0 where
    cell : Fields → Pointer → Pointer → Pointer → Pointer → Pointer → Pointers → Pointers → Node

  pub data Pointer : Type 0 where
    nil : Pointer
    to : Node → Pointer

  pub data Pointers : Type 0 where
    end : Pointers
    entry : Pointer → Pointers → Pointers

-- What a block from `malloc` holds where nothing has been written to it yet.
pub record Garbage : Type 0 where
  pub data_type : DataType
  pub value : Option Text
  pub pointer : Pointer
  pub is_used : Bool
  pub is_constant : Bool

-- The numbers of the enumerations, by which C compares their values.
abbrev pub data_code : DataType → ℕ
data_code null = 0
data_code int = 1
data_code float = 2
data_code all = 3
data_code void = 4
data_code bool = 5
data_code u8 = 6
data_code unknown = 7
data_code int_nullable = 8
data_code float_nullable = 9
data_code u8_nullable = 10

abbrev pub node_code : NodeType → ℕ
node_code node_program = 0
node_code node_function = 1
node_code node_variable_declaration = 2
node_code node_assignment = 3
node_code node_binary_operation = 4
node_code node_literal = 5
node_code node_identifier = 6
node_code node_if = 7
node_code node_while = 8
node_code node_return = 9
node_code node_function_call = 10
node_code node_block = 11

abbrev pub same_type : DataType → DataType → Bool
same_type a b = data_code a == data_code b

abbrev pub fields : Node → Fields
fields (cell f left right next condition body parameters arguments) = f

abbrev pub type_of : Node → DataType
type_of n = (fields n).data_type

abbrev pub is_node : NodeType → Node → Bool
is_node type n = node_code (fields n).type == node_code type

abbrev pub left_of : Node → Pointer
left_of (cell f left right next condition body parameters arguments) = left

abbrev pub right_of : Node → Pointer
right_of (cell f left right next condition body parameters arguments) = right

abbrev pub next_of : Node → Pointer
next_of (cell f left right next condition body parameters arguments) = next

abbrev pub condition_of : Node → Pointer
condition_of (cell f left right next condition body parameters arguments) = condition

abbrev pub body_of : Node → Pointer
body_of (cell f left right next condition body parameters arguments) = body

abbrev pub parameters_of : Node → Pointers
parameters_of (cell f left right next condition body parameters arguments) = parameters

-- `node->field = …` for the fields that are written after the creation.
abbrev pub set_data_type : DataType → Node → Node
set_data_type t (cell f left right next condition body parameters arguments) =
    cell (record f { data_type = t }) left right next condition body parameters arguments

abbrev pub set_address : ℕ → Node → Node
set_address a (cell f left right next condition body parameters arguments) =
    cell (record f { address = a }) left right next condition body parameters arguments

abbrev pub set_left : Pointer → Node → Node
set_left p (cell f left right next condition body parameters arguments) =
    cell f p right next condition body parameters arguments

abbrev pub set_next : Pointer → Node → Node
set_next p (cell f left right next condition body parameters arguments) =
    cell f left right p condition body parameters arguments

abbrev pub set_body : Pointer → Node → Node
set_body p (cell f left right next condition body parameters arguments) =
    cell f left right next condition p parameters arguments

-- `pointers[i]`; the arrays are read within their bounds or are NULL.
abbrev pub entry_at : Pointers → ℕ → Pointer
entry_at end i = nil
entry_at (entry p ps) zero = p
entry_at (entry p ps) (suc i) = entry_at ps i

abbrev pub is_null_array : Pointers → Bool
is_null_array end = true
is_null_array (entry p ps) = false

abbrev pub snoc : Pointers → Pointer → Pointers
snoc end p = entry p end
snoc (entry q ps) p = entry q (snoc ps p)

-- A block with the fields of every node that has no name, value, parameters or arguments.
abbrev blank : ℕ → Garbage → NodeType → DataType → Fields
blank address g type data_type = record {
  address = address;
  type = type;
  data_type = data_type;
  name = none;
  value = none;
  param_count = 0;
  arg_count = 0;
}

module _ (address : ℕ) (g : Garbage) where
  unfoldable pub create_program_node : Node
  create_program_node = cell (blank address g node_program g.data_type) nil nil nil nil nil end end

  unfoldable pub create_function_node :
      Option Text → DataType → Pointers → (param_count : ℕ) → (body : Pointer) → Node
  create_function_node name return_type parameters param_count body =
      cell
        (record (blank address g node_function return_type) {
          name = name;
          param_count = param_count;
        })
        nil nil nil nil body parameters end

  unfoldable pub create_variable_declaration_node :
      Option Text → DataType → (initializer : Pointer) → Node
  create_variable_declaration_node name data_type initializer =
      cell
        (record (blank address g node_variable_declaration data_type) {
          name = name;
          value = g.value;
        })
        initializer nil nil nil nil end end

  unfoldable pub create_assignment_node : Option Text → (value : Node) → Node
  create_assignment_node name value =
      cell (record (blank address g node_assignment g.data_type) { name = name; value = g.value })
        (to value) nil nil nil nil end end

  unfoldable pub create_binary_operation_node : (operator_name : Text) → (left right : Node) → Node
  create_binary_operation_node operator_name left right =
      cell
        (record (blank address g node_binary_operation (type_of left)) {
          name = some operator_name;
        })
        (to left) (to right) nil nil nil end end

  unfoldable pub create_literal_node : DataType → (value : Option Text) → Node
  create_literal_node type value =
      cell (record (blank address g node_literal type) { value = value }) nil nil nil nil nil end
        end

  unfoldable pub create_identifier_node : Option Text → Node
  create_identifier_node name =
      cell (record (blank address g node_identifier unknown) { name = name }) nil nil nil nil nil
        end end

  unfoldable pub create_if_node :
      (condition true_block : Node) → (false_block var_without_null : Pointer) → Node
  create_if_node condition true_block false_block var_without_null =
      cell (blank address g node_if (type_of true_block)) false_block nil nil (to condition)
        (to true_block) (entry var_without_null end) end

  unfoldable pub create_while_node : (condition body : Node) → Node
  create_while_node condition body =
      cell (blank address g node_while g.data_type) nil nil nil (to condition) (to body) end end

  unfoldable pub create_return_node : (value : Pointer) → Node
  create_return_node value =
      cell (blank address g node_return (elim value [ nil ↦ void | to n ↦ type_of n ])) value nil
        nil nil nil end end

  unfoldable pub create_function_call_node :
      Option Text → (arguments : Pointers) → (arg_count : ℕ) → Node
  create_function_call_node name arguments arg_count =
      cell
        (record (blank address g node_function_call g.data_type) {
          name = name;
          arg_count = arg_count;
        })
        nil nil nil nil nil end arguments

  unfoldable pub create_block_node : (statements : Pointer) → DataType → Node
  create_block_node statements return_type =
      cell (blank address g node_block return_type) nil nil nil nil statements end end
