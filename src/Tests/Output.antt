-- ===== src/Tests/Output.antt =====
-- Tests and instances for the code that the generator of 2/IFJ prints.
use vut_projects.Base.{◌≡◌, refl, ◌++◌, ◌∷◌, [], some, none, false, Text, codes}
use vut_projects.Ifj.Run.{Halts, Run, ok}
use vut_projects.Ifj.Ast.{
  Garbage, Node, Pointer, nil, to, end, entry, all, int, create_literal_node,
  create_identifier_node, create_binary_operation_node, create_return_node, create_block_node,
  create_function_node, create_program_node, create_function_call_node, set_body, set_data_type,
  fields, int_nullable,
}
use vut_projects.Ifj.Codegen.{Generator, output_text}
use vut_projects.Ifj.Codegen.Program.{codegen_generate_program}
use vut_projects.Ifj.Codegen.Statements.{codegen_generate_block}
use vut_projects.Ifj.Codegen.Emit.{generate_identifier}
use vut_projects.Ifj.Codegen.SecondPass.{OnlyPrints, block-OnlyPrints}

abbrev garbage : Garbage
garbage = record {
  data_type = all;
  value = none;
  pointer = nil;
  is_used = false;
  is_constant = false;
}

-- `return x - 1;`
abbrev block : Node
block =
    let x = set_data_type int (create_identifier_node 2 garbage (some (codes "x.1.main"))) in
    let one = create_literal_node 1 garbage int (some (codes "1")) in
    let difference = create_binary_operation_node 3 garbage (codes "-") x one in
    create_block_node 5 garbage (to (create_return_node 4 garbage (to difference))) int

abbrev program : Node
program =
    set_body (to (create_function_node 6 garbage (some (codes "main")) int end 0 (to block)))
      (create_program_node 7 garbage)

abbrev empty : Generator
empty = record {
  builtin_function_usage = record {
    uses_substring = false;
    uses_strcmp = false;
    uses_string = false;
  };
  if_label_count = 0;
  output = [];
  temp_var_map = [];
  unique_var_counter = 0;
  label_counter = 0;
  declared_vars = [];
  temp_vars = [];
}

abbrev no_floats : Text → Text
no_floats value = value

abbrev printed : Run (Unit {0} × Generator) → Text
printed (ok (_, g)) = output_text g.output
printed _ = []

program_printed :
    printed (codegen_generate_program no_floats (to program) empty)
    ≡ codes
        ".IFJcode24\nCALL main\nEXIT int@0\nLABEL main\nCREATEFRAME\nPUSHFRAME\nDEFVAR LF@%tmp_type\nDEFVAR LF@%tmp_var\nDEFVAR LF@%tmp_bool\nDEFVAR LF@x-1main\nDEFVAR LF@%result_2\nDEFVAR LF@%temp_1\nDEFVAR LF@%temp_0\nPUSHS LF@x-1main\nPOPS LF@%temp_0\nPUSHS int@1\nPOPS LF@%temp_1\nSUB LF@%result_2 LF@%temp_0 LF@%temp_1\nPUSHS LF@%result_2\nPOPFRAME\nRETURN\nPOPFRAME\nRETURN\n"
unfolding vut_projects.Ifj.Codegen.add_temp_var vut_projects.Ifj.Codegen.reset_temp_vars
    vut_projects.Ifj.Codegen.is_variable_declared vut_projects.Ifj.Codegen.add_declared_variable
    vut_projects.Ifj.Codegen.reset_temp_var_map vut_projects.Ifj.Codegen.reset_declared_variables
    vut_projects.Ifj.Codegen.generate_unique_var_name
    vut_projects.Ifj.Codegen.get_temp_var_name_for_node
    vut_projects.Ifj.Codegen.generate_unique_label vut_projects.Ifj.Codegen.remove_last_prefix
    vut_projects.Ifj.Codegen.Actions.pure vut_projects.Ifj.Codegen.Actions.error_exit
    vut_projects.Ifj.Codegen.Actions.null_pointer vut_projects.Ifj.Codegen.Actions.◌>>=◌
    vut_projects.Ifj.Codegen.Actions.renamed vut_projects.Ifj.Codegen.Actions.declare
    vut_projects.Ifj.Codegen.Actions.new_temporary vut_projects.Ifj.Codegen.Actions.temporary
    vut_projects.Ifj.Codegen.Actions.unique_label vut_projects.Ifj.Codegen.Actions.emit
    vut_projects.Ifj.Codegen.Collect.use_builtin
    vut_projects.Ifj.Codegen.Collect.collect_builtin_function_usage
    vut_projects.Ifj.Codegen.Collect.collect_variables_in_function_call
    vut_projects.Ifj.Codegen.Collect.collect_variables_in_expression
    vut_projects.Ifj.Codegen.Collect.expression_passes
    vut_projects.Ifj.Codegen.Collect.collect_variables_in_statement
    vut_projects.Ifj.Codegen.Collect.collect_variables_in_block vut_projects.Ifj.Codegen.Emit.escape
    vut_projects.Ifj.Codegen.Emit.literal_of vut_projects.Ifj.Codegen.Emit.generate_literal
    vut_projects.Ifj.Codegen.Emit.generate_identifier
    vut_projects.Ifj.Codegen.Emit.generate_operator vut_projects.Ifj.Codegen.Emit.generate_binary
    vut_projects.Ifj.Codegen.Statements.codegen_generate_function_call
    vut_projects.Ifj.Codegen.Statements.expression_of
    vut_projects.Ifj.Codegen.Statements.codegen_generate_expression
    vut_projects.Ifj.Codegen.Statements.expression_passes
    vut_projects.Ifj.Codegen.Statements.codegen_generate_return
    vut_projects.Ifj.Codegen.Statements.if_label
    vut_projects.Ifj.Codegen.Statements.generate_condition
    vut_projects.Ifj.Codegen.Statements.codegen_generate_if
    vut_projects.Ifj.Codegen.Statements.codegen_generate_while
    vut_projects.Ifj.Codegen.Statements.statement_of
    vut_projects.Ifj.Codegen.Statements.codegen_generate_statement
    vut_projects.Ifj.Codegen.Statements.codegen_generate_block
    vut_projects.Ifj.Codegen.Statements.statements_loop
    vut_projects.Ifj.Codegen.Program.codegen_generate_substring_function
    vut_projects.Ifj.Codegen.Program.codegen_generate_strcmp_function
    vut_projects.Ifj.Codegen.Program.codegen_generate_ifj_string_function
    vut_projects.Ifj.Codegen.Program.codegen_generate_builtin_functions
    vut_projects.Ifj.Codegen.Program.is_function_parameter
    vut_projects.Ifj.Codegen.Program.parameters_loop vut_projects.Ifj.Codegen.Program.declared_loop
    vut_projects.Ifj.Codegen.Program.temporaries_loop vut_projects.Ifj.Codegen.Program.reset_all
    vut_projects.Ifj.Codegen.Program.declare_collected
    vut_projects.Ifj.Codegen.Program.codegen_generate_function
    vut_projects.Ifj.Codegen.Program.functions_loop
    vut_projects.Ifj.Codegen.Program.codegen_generate_program
    vut_projects.Ifj.Codegen.Strings.escape_loop
    vut_projects.Ifj.Codegen.Strings.escape_ifj24_string vut_projects.Base.text_eq
    vut_projects.Ifj.Parser.Types.is_nullable vut_projects.Ifj.Utils.decimal
    vut_projects.Ifj.Utils.digits vut_projects.Ifj.Ast.create_program_node
    vut_projects.Ifj.Ast.create_function_node vut_projects.Ifj.Ast.create_block_node
    vut_projects.Ifj.Ast.create_return_node vut_projects.Ifj.Ast.create_binary_operation_node
    vut_projects.Ifj.Ast.create_identifier_node vut_projects.Ifj.Ast.create_literal_node
program_printed = refl

-- The value of a variable that may be null is not pushed: a test for null is.
nullable_printed :
    printed (
      generate_identifier
        (fields
          (set_data_type int_nullable (create_identifier_node 2 garbage (some (codes "x.1.main")))))
        empty)
    ≡ codes "TYPE LF@%tmp_type LF@x-1main\nPUSHS LF@%tmp_type\nPUSHS string@nil\nEQS\nNOTS\n"
unfolding generate_identifier vut_projects.Ifj.Ast.create_identifier_node
    vut_projects.Ifj.Codegen.Actions.◌>>=◌ vut_projects.Ifj.Codegen.Actions.pure
    vut_projects.Ifj.Codegen.Actions.emit vut_projects.Ifj.Codegen.Actions.renamed
    vut_projects.Ifj.Codegen.remove_last_prefix vut_projects.Ifj.Parser.Types.is_nullable
    vut_projects.Base.text_eq
nullable_printed = refl

block-OnlyPrints_example :
    Halts (codegen_generate_block no_floats (to block) empty) (λ (_, g). OnlyPrints empty g)
block-OnlyPrints_example = block-OnlyPrints no_floats (to block) empty
