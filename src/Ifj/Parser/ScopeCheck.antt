-- ===== src/Ifj/Parser/ScopeCheck.antt =====
-- 2/IFJ/parser.c: the check that identifiers stand below or behind their declarations. Nodes are
-- compared by their addresses. A symbol keeps its declaration as the node was at the insertion;
-- the node as it is now is found in the tree by its address.
use vut_projects.Base.{ℕ, Bool, false, ◌||◌, ◌==◌, none, some, if◌then◌else◌, text_eq, codes}
use vut_projects.Ifj.Run.{err_semantic_undef, err_internal}
use vut_projects.Ifj.Ast.{Pointer, Fields, node_identifier, node_assignment, nil, to, cell, fields}
use vut_projects.Ifj.Symtable.{Symbol, parameter}
use vut_projects.Ifj.Parser.{Parse, pure, error_exit, null_pointer, ◌>>=◌, ◌>>◌, search}
use vut_projects.Ifj.Parser.Returns.{has_type}

-- `scope_check`, for the address of the second node.
unfoldable pub scope_check : Pointer → (address : ℕ) → Bool
scope_check nil address = false
scope_check (to (cell f left right next condition body ps as')) address =
    f.address == address
    || scope_check left address
    || scope_check right address
    || scope_check body address
    || scope_check next address
    || scope_check condition address

abbrev or_else : Pointer → Pointer → Pointer
or_else nil q = q
or_else (to n) q = to n

unfoldable pub find_node : (address : ℕ) → Pointer → Pointer
find_node address nil = nil
find_node address (to (cell f left right next condition body ps as')) =
    let below = or_else (find_node address left) (
      or_else (find_node address right) (
        or_else (find_node address body)
          (or_else (find_node address next) (find_node address condition)))) in
    if f.address == address then to (cell f left right next condition body ps as') else below

-- What a pointer to a node of the program points to now.
unfoldable pub current : (program : Pointer) → Pointer → Pointer
unfolding find_node
current program nil = nil
current program (to n) = or_else (find_node (fields n).address program) (to n)

abbrev pub names_variable : Fields → Bool
names_variable f = has_type node_identifier f || has_type node_assignment f

-- The declaration that the scope of a variable begins with; for a parameter the function.
unfoldable pub scope_of : Symbol → Parse Pointer
scope_of symbol = elim symbol.symbol_type [
  | parameter ↦ elim symbol.parent_function [
    | none ↦ error_exit err_internal
    | some function_name ↦ search function_name >>= λ parent. elim parent [
      | none ↦ null_pointer
      | some parent_function ↦ pure parent_function.declaration_node
    ]
  ]
  | _ ↦ pure symbol.declaration_node
]

unfoldable pub check_identifier : (program : Pointer) → Fields → Parse (Unit {0})
unfolding scope_of scope_check current
check_identifier program f = elim f.name [
  | none ↦ null_pointer
  | some name ↦
      if text_eq name (codes "_")
      then pure tt
      else (search name >>= λ found. elim found [
        | none ↦ null_pointer
        | some symbol ↦ scope_of symbol >>= λ declaration.
            if scope_check (current program declaration) f.address
            then pure tt
            else error_exit err_semantic_undef
      ])
]

unfoldable pub scope_check_identifiers_in_tree : (program root : Pointer) → Parse (Unit {0})
unfolding check_identifier
scope_check_identifiers_in_tree program nil = pure tt
scope_check_identifiers_in_tree program (to (cell f left right next condition body ps as')) = do
  if names_variable f then check_identifier program f else pure tt
  scope_check_identifiers_in_tree program left
  scope_check_identifiers_in_tree program right
  scope_check_identifiers_in_tree program body
  scope_check_identifiers_in_tree program next
  scope_check_identifiers_in_tree program condition
