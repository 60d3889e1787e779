-- ===== src/Ifj/Codegen/Emit.antt =====
-- 2/IFJ/codegen.c: the code of operations and of built-in functions. What `%.13a` prints of the number that
-- `atof` reads is the parameter `print_float`. `current_function` is passed on but never read, so it
-- has no argument here.
use vut_projects.Base.{ℕ, Bool, false, ◌&&◌, Option, [], ◌∷◌, ◌++◌, if◌then◌else◌, Text, codes}
use Prim.Native.String.{String}
use vut_projects.Ifj.Run
use vut_projects.Ifj.Run.{ok}
use vut_projects.Ifj.Ast.{
  DataType, int, float, u8, null, bool, Fields, Pointer, nil, to, fields, type_of, same_type,
}
use vut_projects.Ifj.Parser.Types.{is_nullable}
use vut_projects.Ifj.Codegen.{lf, word}
use vut_projects.Ifj.Codegen.Strings.{escape_ifj24_string}
use vut_projects.Ifj.Codegen.Actions.{
  Gen, Step, error_exit, null_pointer, ◌>>=◌, ◌>>◌, done, when, set, is, address_of, renamed,
  temporary, unique_label, emit, lit, label, push, pop,
}

unfoldable pub escape : Text → Gen Text
escape value g = Run.◌>>=◌ (escape_ifj24_string value) (λ escaped. ok (escaped, g))

-- The switch over the type of a literal.
unfoldable pub literal_of : (print_float : Text → Text) → (value : Option Text) → DataType → Step
unfolding escape
literal_of print_float value int =
    set value >>= λ value. emit "PUSHS" (word (codes "int@" ++ value) ∷ [])
literal_of print_float value float =
    set value >>= λ value. emit "PUSHS" (word (codes "float@" ++ print_float value) ∷ [])
literal_of print_float value u8 = set value >>= λ value.
    escape value >>= λ escaped. emit "PUSHS" (word (codes "string@" ++ escaped) ∷ [])
literal_of print_float value null = emit "PUSHS" (lit "nil@nil" ∷ [])
literal_of print_float value bool = set value >>= λ value.
    emit "PUSHS" ((if is value "true" then lit "bool@true" else lit "bool@false") ∷ [])
literal_of print_float value _ = done

unfoldable pub generate_literal : (print_float : Text → Text) → Fields → Step
unfolding literal_of
generate_literal print_float f = literal_of print_float f.value f.data_type

unfoldable pub generate_identifier : Fields → Step
generate_identifier f = set f.name >>= λ name.
    if is name "nil"
    then emit "PUSHS" (lit "nil@nil" ∷ []) >> emit "EQS" [] >> emit "NOTS" []
    else if is_nullable f.data_type
    then (do
      var_name ← renamed f.name
      emit "TYPE" (lf (codes "%tmp_type") ∷ lf var_name ∷ [])
      push (codes "%tmp_type")
      emit "PUSHS" (lit "string@nil" ∷ [])
      emit "EQS" []
      emit "NOTS" [])
    else if is name "true"
    then emit "PUSHS" (lit "bool@true" ∷ [])
    else if is name "false"
    then emit "PUSHS" (lit "bool@false" ∷ [])
    else (renamed f.name >>= push)

abbrev pub is_int : Pointer → Bool
is_int nil = false
is_int (to n) = same_type (type_of n) int

-- The division, which converts its operands where one is not an `int`.
abbrev pub divide : (result l r : Text) → (left_int right_int : Bool) → Step
divide result l r left_int right_int =
    if left_int && right_int
    then emit "IDIV" (lf result ∷ lf l ∷ lf r ∷ [])
    else (when left_int (emit "INT2FLOAT" (lf l ∷ lf l ∷ []))
        >> when right_int (emit "INT2FLOAT" (lf r ∷ lf r ∷ []))
        >> emit "DIV" (lf result ∷ lf l ∷ lf r ∷ []))

-- The instructions of an operator.
unfoldable pub generate_operator : (name result l r : Text) → (left right : Pointer) → Step
generate_operator name result l r left right =
    let operands = lf result ∷ lf l ∷ lf r ∷ [] in
    let negate = emit "NOT" (lf result ∷ lf result ∷ []) in
    if is name "-"
    then emit "SUB" operands
    else if is name "/"
    then divide result l r (is_int left) (is_int right)
    else if is name "+"
    then emit "ADD" operands
    else if is name "*"
    then emit "MUL" operands
    else if is name "<"
    then emit "LT" operands
    else if is name "<="
    then (emit "GT" operands >> negate)
    else if is name ">"
    then emit "GT" operands
    else if is name ">="
    then (emit "LT" operands >> negate)
    else if is name "=="
    then emit "EQ" operands
    else if is name "!="
    then (emit "EQ" operands >> negate)
    else error_exit

-- A binary operation, with the code of its operands.
unfoldable pub generate_binary : Fields → (left right : Pointer) → (in_left in_right : Step) → Step
unfolding generate_operator
generate_binary f left right in_left in_right = do
  in_left
  l ← temporary (address_of left) "temp_var"
  pop l
  in_right
  r ← temporary (address_of right) "temp_var"
  pop r
  result ← temporary f.address "result_var"
  name ← set f.name
  generate_operator name result l r left right
  push result

-- `ifj.write` of an argument that may be null.
abbrev pub write_nullable : (arg : ℕ) → (temp_var_name : Text) → Step
write_nullable arg temp_var_name = do
  temp_type_name ← temporary arg "temp_type"
  label_num ← unique_label
  emit "TYPE" (lf temp_type_name ∷ lf temp_var_name ∷ [])
  emit "JUMPIFEQ" (label "$write_null_" label_num ∷ lf temp_type_name ∷ lit "string@nil" ∷ [])
  emit "WRITE" (lf temp_var_name ∷ [])
  emit "JUMP" (label "$write_end_" label_num ∷ [])
  emit "LABEL" (label "$write_null_" label_num ∷ [])
  emit "WRITE" (lit "string@null" ∷ [])
  emit "LABEL" (label "$write_end_" label_num ∷ [])

abbrev pub generate_write : (arg : Pointer) → (pass : Step) → Step
generate_write arg pass = do
  pass
  temp_var_name ← temporary (address_of arg) "temp_var"
  pop temp_var_name
  elim arg [
    | nil ↦ null_pointer
    | to n ↦
        if is_nullable (type_of n)
        then write_nullable (fields n).address temp_var_name
        else emit "WRITE" (lf temp_var_name ∷ [])
  ]

-- A call with one argument and one instruction.
abbrev pub generate_unary :
    (opcode key : String) → (node : ℕ) → (arg : Pointer) → (pass : Step) → Step
generate_unary opcode key node arg pass = do
  pass
  tmp_var ← temporary (address_of arg) key
  retval_var ← temporary node "retval_var"
  pop tmp_var
  emit opcode (lf retval_var ∷ lf tmp_var ∷ [])
  push retval_var

abbrev pub generate_read : (name : Text) → (node : ℕ) → Step
generate_read name node = do
  retval_var ← temporary node "retval_var"
  let type =
      if is name "ifj.readi32" then "int" else if is name "ifj.readf64" then "float" else "string"
  emit "READ" (lf retval_var ∷ lit type ∷ [])
  push retval_var

abbrev pub generate_concat : (node : ℕ) → (arg1 arg2 : Pointer) → (pass1 pass2 : Step) → Step
generate_concat node arg1 arg2 pass1 pass2 = do
  pass1
  pass2
  tmp_str1_var ← temporary (address_of arg1) "tmp_str1_var"
  tmp_str2_var ← temporary (address_of arg2) "tmp_str2_var"
  retval_var ← temporary node "retval_var"
  pop tmp_str2_var
  pop tmp_str1_var
  emit "CONCAT" (lf retval_var ∷ lf tmp_str1_var ∷ lf tmp_str2_var ∷ [])
  push retval_var

abbrev pub generate_chr : (node : ℕ) → (arg : Pointer) → (pass : Step) → Step
generate_chr node arg pass = do
  pass
  tmp_int_var ← temporary (address_of arg) "tmp_int_var"
  tmp_temp_var ← temporary node "tmp_temp_var"
  retval_var ← temporary node "retval_var"
  pop tmp_int_var
  emit "IDIV" (lf tmp_temp_var ∷ lf tmp_int_var ∷ lit "int@256" ∷ [])
  emit "MUL" (lf tmp_temp_var ∷ lf tmp_temp_var ∷ lit "int@256" ∷ [])
  emit "SUB" (lf tmp_int_var ∷ lf tmp_int_var ∷ lf tmp_temp_var ∷ [])
  emit "INT2CHAR" (lf retval_var ∷ lf tmp_int_var ∷ [])
  push retval_var

-- The counter of the labels moves on at the end, where nothing has used it in between.
abbrev pub generate_ord : (node : ℕ) → (pass1 pass2 : Step) → Step
generate_ord node pass1 pass2 = do
  pass1
  pass2
  str_var ← temporary node "str_var"
  idx_var ← temporary node "idx_var"
  strlen_var ← temporary node "strlen_var"
  tmp_bool_var ← temporary node "tmp_bool_var"
  retval_var ← temporary node "retval_var"
  n ← unique_label
  pop idx_var
  pop str_var
  emit "STRLEN" (lf strlen_var ∷ lf str_var ∷ [])
  emit "LT" (lf tmp_bool_var ∷ lf idx_var ∷ lit "int@0" ∷ [])
  emit "JUMPIFEQ" (label "$ord_error_" n ∷ lf tmp_bool_var ∷ lit "bool@true" ∷ [])
  emit "SUB" (lf strlen_var ∷ lf strlen_var ∷ lit "int@1" ∷ [])
  emit "GT" (lf tmp_bool_var ∷ lf idx_var ∷ lf strlen_var ∷ [])
  emit "JUMPIFEQ" (label "$ord_error_" n ∷ lf tmp_bool_var ∷ lit "bool@true" ∷ [])
  emit "STRI2INT" (lf retval_var ∷ lf str_var ∷ lf idx_var ∷ [])
  push retval_var
  emit "JUMP" (label "$ord_end_" n ∷ [])
  emit "LABEL" (label "$ord_error_" n ∷ [])
  emit "PUSHS" (lit "int@0" ∷ [])
  emit "LABEL" (label "$ord_end_" n ∷ [])
