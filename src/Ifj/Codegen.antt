-- ===== src/Ifj/Codegen.antt =====
-- 2/IFJ/codegen.h, 2/IFJ/codegen.c: the state of the generator of the code, with the names of the
-- variables and the numbers of the labels. `Strings` has the escapes of string literals. A node is
-- known by its address, and NULL is 0; allocations succeed.
use vut_projects.Base.{
  ℕ, ◌+◌, Bool, true, false, ◌&&◌, ◌||◌, ◌==◌, not, Option, none, some, List, [], ◌∷◌, ◌++◌, map,
  leb, if◌then◌else◌, length, take, Text, text_eq, codes, is_some,
}
use vut_projects.Ifj.Run.{Run, ok, exit, err_internal}
use vut_projects.Ifj.Utils.{decimal}
pub mod Strings
pub mod Numbers
pub mod Temporaries
pub mod Variables
pub mod Actions
pub mod Collect
pub mod Emit
pub mod Statements
pub mod Program
pub mod Steps
pub mod Passes
pub mod SecondPass

pub record TempVarMapEntry : Type 0 where
  pub node : ℕ
  pub key : Text
  pub var_name : Text

pub record BuiltinFunctionUsage : Type 0 where
  pub uses_substring : Bool
  pub uses_strcmp : Bool
  pub uses_string : Bool

-- An operand is a variable of the local frame, `LF@…`, or stands as it is.
pub data Operand : Type 0 where
  lf word : Text → Operand

-- A line of the output: its operands stand behind the opcode, with a blank in front of each.
pub record Line : Type 0 where
  pub opcode : Text
  pub operands : List Operand

abbrev operands_text : List Operand → Text
operands_text [] = []
operands_text (lf name ∷ operands) = codes " LF@" ++ name ++ operands_text operands
operands_text (word text ∷ operands) = b' ' ∷ (text ++ operands_text operands)

-- What is printed for lines of which the newest stands first.
abbrev pub output_text : List Line → Text
output_text [] = []
output_text (line ∷ lines) =
    output_text lines ++ line.opcode ++ operands_text line.operands ++ b'\n' ∷ []

-- The lists have the newest element first, the lines of the output too.
pub record Generator : Type 0 where
  pub builtin_function_usage : BuiltinFunctionUsage
  pub if_label_count : ℕ
  pub output : List Line
  pub temp_var_map : List TempVarMapEntry
  pub unique_var_counter : ℕ
  pub label_counter : ℕ
  pub declared_vars : List Text
  pub temp_vars : List Text

abbrev pub has_name : List Text → Text → Bool
has_name [] var_name = false
has_name (name ∷ names) var_name = text_eq name var_name || has_name names var_name

unfoldable pub add_temp_var : Text → Generator → Generator
add_temp_var var_name g =
    if has_name g.temp_vars var_name then g else record g { temp_vars = var_name ∷ g.temp_vars }

unfoldable pub reset_temp_vars : Generator → Generator
reset_temp_vars g = record g { temp_vars = [] }

unfoldable pub is_variable_declared : Text → Generator → Bool
is_variable_declared var_name g = has_name g.declared_vars var_name

unfoldable pub add_declared_variable : Text → Generator → Generator
unfolding is_variable_declared
add_declared_variable var_name g =
    if is_variable_declared var_name g
    then g
    else record g { declared_vars = var_name ∷ g.declared_vars }

unfoldable pub reset_temp_var_map : Generator → Generator
reset_temp_var_map g = record g { temp_var_map = [] }

unfoldable pub reset_declared_variables : Generator → Generator
reset_declared_variables g = record g { declared_vars = [] }

-- `"%%%s_%d"` in a buffer of 64 characters
abbrev pub unique_name : (base_name : Text) → (number : ℕ) → Text
unique_name base_name number = take 63 (b'%' ∷ (base_name ++ b'_' ∷ decimal number))

abbrev pub map_name : (node : ℕ) → (key : Option Text) → (var_name : Text) → Generator → Generator
map_name node none var_name g = g
map_name node (some key) var_name g = if node == 0 then g else record g {
  temp_var_map = record { node = node; key = key; var_name = var_name } ∷ g.temp_var_map;
}

unfoldable pub generate_unique_var_name :
    (base_name : Text) → (node : ℕ) → (key : Option Text) → Generator → Text × Generator
unfolding add_temp_var
generate_unique_var_name base_name node key g =
    let var_name = unique_name base_name g.unique_var_counter in
    let counted = record g { unique_var_counter = g.unique_var_counter + 1 } in
    (var_name, map_name node key var_name (add_temp_var var_name counted))

abbrev pub find_entry : List TempVarMapEntry → (node : ℕ) → (key : Text) → Run Text
find_entry [] node key = exit err_internal
find_entry (entry ∷ entries) node key =
    let rest = find_entry entries node key in
    if (entry.node == node) && text_eq entry.key key then ok entry.var_name else rest

unfoldable pub get_temp_var_name_for_node : (node : ℕ) → (key : Text) → Generator → Run Text
get_temp_var_name_for_node node key g = find_entry g.temp_var_map node key

unfoldable pub generate_unique_label : Generator → ℕ × Generator
generate_unique_label g = (g.label_counter, record g { label_counter = g.label_counter + 1 })

-- What stands before the last `c`, and what stands behind it.
abbrev pub split_last : (c : ℕ) → Text → Option (Text × Text)
split_last c [] = none
split_last c (d ∷ text) = elim (split_last c text) [
  | none ↦ if d == c then some ([], text) else none
  | some parts ↦ some (d ∷ parts.0, parts.1)
]

abbrev pub dash : ℕ → ℕ
dash c = if c == b'.' then b'-' else c

unfoldable pub remove_last_prefix : (name : Option Text) → Run (Option Text)
remove_last_prefix none = ok none
remove_last_prefix (some name) =
    if leb 1024 (length name) then exit err_internal else elim (split_last b'.' name) [
      | none ↦ ok (some name)
      | some (prefix, []) ↦ ok (some name)
      | some (prefix, c ∷ rest) ↦ ok (some (map dash (prefix ++ c ∷ rest)))
    ]
