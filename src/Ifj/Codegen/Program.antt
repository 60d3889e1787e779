-- ===== src/Ifj/Codegen/Program.antt =====
-- 2/IFJ/codegen.c: the code of a function and of the program, and the code of the built-in functions,
-- whose lines are constants.
use vut_projects.Base.{
  ℕ, zero, suc, Bool, true, false, not, ◌||◌, none, some, List, [], ◌∷◌, if◌then◌else◌, Text, codes,
  text_eq,
}
use Prim.Native.String.{String}
use vut_projects.Ifj.Run
use vut_projects.Ifj.Run.{Run, ok, crash}
use vut_projects.Ifj.Ast.{
  node_program, node_function, Fields, Pointer, nil, to, cell, Pointers, end, entry, fields,
  is_node,
}
use vut_projects.Ifj.Codegen.{
  lf, word, reset_temp_var_map, reset_temp_vars, reset_declared_variables, remove_last_prefix,
}
use vut_projects.Ifj.Codegen.Actions.{
  Gen, Step, null_pointer, ◌>>=◌, ◌>>◌, done, when, set, is, renamed, declare, emit, lit, pop,
}
use vut_projects.Ifj.Codegen.Collect.{collect_builtin_function_usage, collect_variables_in_block}
use vut_projects.Ifj.Codegen.Statements.{codegen_generate_block}

abbrev text : String → Step
text line = emit line []

unfoldable pub codegen_generate_substring_function : Step
codegen_generate_substring_function = do
  text "LABEL ifj-substring"
  text "CREATEFRAME"
  text "PUSHFRAME"
  text "DEFVAR LF@str"
  text "DEFVAR LF@start"
  text "DEFVAR LF@end"
  text "DEFVAR LF@length"
  text "DEFVAR LF@retval"
  text "DEFVAR LF@tmp_bool"
  text "DEFVAR LF@tmp_char"
  text "POPS LF@end"
  text "POPS LF@start"
  text "POPS LF@str"
  text "STRLEN LF@length LF@str"
  text "LT LF@tmp_bool LF@start int@0"
  text "JUMPIFEQ $substr_null LF@tmp_bool bool@true"
  text "LT LF@tmp_bool LF@end int@0"
  text "JUMPIFEQ $substr_null LF@tmp_bool bool@true"
  text "GT LF@tmp_bool LF@start LF@end"
  text "JUMPIFEQ $substr_null LF@tmp_bool bool@true"
  text "LT LF@tmp_bool LF@start LF@length"
  text "JUMPIFEQ $check_j LF@tmp_bool bool@true"
  text "JUMP $substr_null"
  text "LABEL $check_j"
  text "GT LF@tmp_bool LF@end LF@length"
  text "JUMPIFEQ $substr_null LF@tmp_bool bool@true"
  text "SUB LF@length LF@end LF@start"
  text "MOVE LF@retval string@"
  text "LABEL $substr_loop"
  text "JUMPIFEQ $substr_end LF@length int@0"
  text "GETCHAR LF@tmp_char LF@str LF@start"
  text "CONCAT LF@retval LF@retval LF@tmp_char"
  text "ADD LF@start LF@start int@1"
  text "SUB LF@length LF@length int@1"
  text "JUMP $substr_loop"
  text "LABEL $substr_end"
  text "PUSHS LF@retval"
  text "POPFRAME"
  text "RETURN"
  text "LABEL $substr_null"
  text "PUSHS nil@nil"
  text "POPFRAME"
  text "RETURN"

unfoldable pub codegen_generate_strcmp_function : Step
codegen_generate_strcmp_function = do
  text "LABEL ifj-strcmp"
  text "CREATEFRAME"
  text "PUSHFRAME"
  text "DEFVAR LF@str1"
  text "DEFVAR LF@str2"
  text "DEFVAR LF@len1"
  text "DEFVAR LF@len2"
  text "DEFVAR LF@i"
  text "DEFVAR LF@char1"
  text "DEFVAR LF@char2"
  text "DEFVAR LF@retval"
  text "DEFVAR LF@tmp_int"
  text "DEFVAR LF@tmp_bool"
  text "POPS LF@str2"
  text "POPS LF@str1"
  text "STRLEN LF@len1 LF@str1"
  text "STRLEN LF@len2 LF@str2"
  text "MOVE LF@i int@0"
  text "LABEL $strcmp_loop"
  text "LT LF@tmp_bool LF@i LF@len1"
  text "JUMPIFEQ $strcmp_end LF@tmp_bool bool@false"
  text "LT LF@tmp_bool LF@i LF@len2"
  text "JUMPIFEQ $strcmp_end LF@tmp_bool bool@false"
  text "GETCHAR LF@char1 LF@str1 LF@i"
  text "GETCHAR LF@char2 LF@str2 LF@i"
  text "GT LF@tmp_bool LF@char1 LF@char2"
  text "JUMPIFEQ $strcmp_greater LF@tmp_bool bool@true"
  text "LT LF@tmp_bool LF@char1 LF@char2"
  text "JUMPIFEQ $strcmp_less LF@tmp_bool bool@true"
  text "ADD LF@i LF@i int@1"
  text "JUMP $strcmp_loop"
  text "LABEL $strcmp_end"
  text "SUB LF@tmp_int LF@len1 LF@len2"
  text "JUMPIFEQ $strcmp_equal LF@tmp_int int@0"
  text "GT LF@tmp_bool LF@len1 LF@len2"
  text "JUMPIFEQ $strcmp_greater LF@tmp_bool bool@true"
  text "JUMP $strcmp_less"
  text "LABEL $strcmp_equal"
  text "MOVE LF@retval int@0"
  text "JUMP $strcmp_finish"
  text "LABEL $strcmp_greater"
  text "MOVE LF@retval int@1"
  text "JUMP $strcmp_finish"
  text "LABEL $strcmp_less"
  text "MOVE LF@retval int@-1"
  text "LABEL $strcmp_finish"
  text "PUSHS LF@retval"
  text "POPFRAME"
  text "RETURN"

unfoldable pub codegen_generate_ifj_string_function : Step
codegen_generate_ifj_string_function = do
  text "LABEL ifj-string"
  text "CREATEFRAME"
  text "PUSHFRAME"
  text "DEFVAR LF@str_literal"
  text "POPS LF@str_literal"
  text "PUSHS LF@str_literal"
  text "POPFRAME"
  text "RETURN"

unfoldable pub codegen_generate_builtin_functions : Step
unfolding codegen_generate_substring_function codegen_generate_strcmp_function
    codegen_generate_ifj_string_function
codegen_generate_builtin_functions g =
    let usage = g.builtin_function_usage in
    (when usage.uses_substring codegen_generate_substring_function
        >> when usage.uses_strcmp codegen_generate_strcmp_function
        >> when usage.uses_string codegen_generate_ifj_string_function)
      g

unfoldable pub is_function_parameter :
    (param_count : ℕ) → (parameters : Pointers) → (var_name : Text) → Run Bool
is_function_parameter zero ps var_name = ok false
is_function_parameter (suc n) end var_name = crash
is_function_parameter (suc n) (entry nil ps) var_name = crash
is_function_parameter (suc n) (entry (to p) ps) var_name =
    let rest = is_function_parameter n ps var_name in
    Run.◌>>=◌ (remove_last_prefix (fields p).name) (λ name. elim name [
      | none ↦ crash
      | some param_name ↦ if text_eq param_name var_name then ok true else rest
    ])

-- The loop that declares the parameters and takes them from the stack.
unfoldable pub parameters_loop : (param_count : ℕ) → (parameters : Pointers) → Step
parameters_loop zero ps = done
parameters_loop (suc n) end = null_pointer
parameters_loop (suc n) (entry nil ps) = null_pointer
parameters_loop (suc n) (entry (to p) ps) = do
  param_name ← renamed (fields p).name
  emit "DEFVAR" (lf param_name ∷ [])
  pop param_name
  declare param_name
  parameters_loop n ps

-- The names of the standard variables, which have two signs `%` in the list of declared variables.
abbrev is_standard : Text → Bool
is_standard name = is name "%%tmp_type" || (is name "%%tmp_var" || is name "%%tmp_bool")

abbrev parameter_test : Fields → Pointers → Text → Gen Bool
parameter_test f parameters name g =
    Run.◌>>=◌ (is_function_parameter f.param_count parameters name) (λ b. ok (b, g))

unfoldable pub declared_loop : Fields → (parameters : Pointers) → List Text → Step
declared_loop f parameters [] = done
declared_loop f parameters (name ∷ names) =
    (if is_standard name
      then done
      else (parameter_test f parameters name >>= λ is_parameter.
          when (not is_parameter) (emit "DEFVAR" (lf name ∷ []))))
    >> declared_loop f parameters names

unfoldable pub temporaries_loop : List Text → Step
temporaries_loop [] = done
temporaries_loop (name ∷ names) = emit "DEFVAR" (lf name ∷ []) >> temporaries_loop names

unfoldable pub reset_all : Step
reset_all g = ok (tt, reset_temp_vars (reset_declared_variables (reset_temp_var_map g)))

abbrev standard : String → String → Step
standard printed declared = emit "DEFVAR" (lf (codes printed) ∷ []) >> declare (codes declared)

-- The two loops over the lists that the collection has left.
unfoldable pub declare_collected : Fields → (parameters : Pointers) → Step
unfolding declared_loop temporaries_loop
declare_collected f parameters g =
    (declared_loop f parameters g.declared_vars >> temporaries_loop g.temp_vars) g

module _ (print_float : Text → Text) where
  unfoldable pub codegen_generate_function :
      Fields → (body : Pointer) → (parameters : Pointers) → Step
  unfolding parameters_loop reset_all declare_collected
  codegen_generate_function f body parameters = do
    reset_all
    name ← set f.name
    emit "LABEL" (word name ∷ [])
    emit "CREATEFRAME" []
    emit "PUSHFRAME" []
    parameters_loop f.param_count parameters
    standard "%tmp_type" "%%tmp_type"
    standard "%tmp_var" "%%tmp_var"
    standard "%tmp_bool" "%%tmp_bool"
    collect_variables_in_block body
    declare_collected f parameters
    codegen_generate_block print_float body
    emit "POPFRAME" []
    emit "RETURN" []

  unfoldable pub functions_loop : Pointer → Step
  unfolding codegen_generate_function
  functions_loop nil = done
  functions_loop (to (cell f left right next condition body ps as')) =
      when (is_node node_function (cell f left right next condition body ps as'))
        (codegen_generate_function f body ps)
      >> functions_loop next

  unfoldable pub codegen_generate_program : (program_node : Pointer) → Step
  unfolding functions_loop codegen_generate_builtin_functions
  codegen_generate_program nil = done
  codegen_generate_program (to (cell f left right next condition body ps as')) =
      when (is_node node_program (cell f left right next condition body ps as')) (do
        collect_builtin_function_usage (to (cell f left right next condition body ps as'))
        emit ".IFJcode24" []
        emit "CALL" (lit "main" ∷ [])
        emit "EXIT" (lit "int@0" ∷ [])
        functions_loop body
        codegen_generate_builtin_functions)
