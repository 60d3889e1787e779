-- ===== src/Tests/Names.antt =====
-- Tests and instances for the names and the string literals of the generated code.
use vut_projects.Base.{
  ℕ, ◌≡◌, refl, ◌≢◌, false, true, some, [], ◌∷◌, codes, arith, Text, ◌==◌, ◌&&◌, text_eq,
  if◌then◌else◌,
}
use vut_projects.Ifj.Run.{ok}
use vut_projects.Ifj.Utils.{construct_variable_name}
use vut_projects.Ifj.Codegen.{
  Generator, generate_unique_var_name, get_temp_var_name_for_node, has_name, remove_last_prefix,
}
use vut_projects.Ifj.Codegen.Strings.{escape_ifj24_string}
use vut_projects.Ifj.Codegen.Strings.Unescape.{is_operand, unescape, escape-unescape}
use vut_projects.Ifj.Codegen.Temporaries.{NumberedBelow, generate-NumberedBelow}
use vut_projects.Ifj.Codegen.Variables.{variables-injective}

escaped_blank : escape_ifj24_string (codes "a b#") ≡ ok (codes "a\\032b\\035")
unfolding escape_ifj24_string
escaped_blank = refl

escape-unescape_example :
    (output : Text) × (escape_ifj24_string (codes "a b") ≡ ok output)
    × (is_operand output ≡ true)
    × (unescape output ≡ some (codes "a b"))
escape-unescape_example =
    escape-unescape (codes "a b") (omega arith, (omega arith, (omega arith, tt)))

renamed_variable : remove_last_prefix (some (codes "x.1.main")) ≡ ok (some (codes "x-1main"))
unfolding remove_last_prefix
renamed_variable = refl

builtin_name : remove_last_prefix (some (codes "ifj.write")) ≡ ok (some (codes "ifjwrite"))
unfolding remove_last_prefix
builtin_name = refl

variables-injective_example : (codes "x" ≡ codes "x") × ◌≡◌ {A = ℕ} 4 4
unfolding construct_variable_name
variables-injective_example =
    variables-injective (codes "x") (codes "x") (codes "main") 4 4 refl refl refl (omega arith)
      (omega arith) (omega arith) refl

-- Two temporary variables have been made.
abbrev generator : Generator
generator = record {
  builtin_function_usage = record {
    uses_substring = false;
    uses_strcmp = false;
    uses_string = false;
  };
  if_label_count = 0;
  output = [];
  temp_var_map = record { node = 5; key = codes "temp_var"; var_name = codes "%temp_1" } ∷ [];
  unique_var_counter = 2;
  label_counter = 0;
  declared_vars = [];
  temp_vars = codes "%temp_1" ∷ codes "%result_0" ∷ [];
}

generated : generate_unique_var_name (codes "tmp_str1") 9 (some (codes "k")) generator ≡ (
  codes "%tmp_str1_2",
  record generator {
    unique_var_counter = 3;
    temp_vars = codes "%tmp_str1_2" ∷ codes "%temp_1" ∷ codes "%result_0" ∷ [];
    temp_var_map =
        record { node = 9; key = codes "k"; var_name = codes "%tmp_str1_2" }
        ∷ record { node = 5; key = codes "temp_var"; var_name = codes "%temp_1" }
        ∷ [];
  },
)
unfolding generate_unique_var_name vut_projects.Ifj.Utils.decimal text_eq
generated = refl

generator-NumberedBelow : NumberedBelow 2 generator.temp_vars
unfolding vut_projects.Ifj.Utils.decimal
generator-NumberedBelow = (
  codes "temp",
  1,
  refl,
  omega arith,
  omega arith,
  (codes "result", 0, refl, omega arith, omega arith, tt),
)

nine_set : ◌≢◌ {A = ℕ} 9 0
nine_set h = absurd (omega arith)

generate-NumberedBelow_example :
    (name : Text) × (g : Generator) × (generate_unique_var_name
        (codes "temp")
        9
        (some (codes "k"))
        generator
      ≡ (name, g))
    × (has_name generator.temp_vars name ≡ false)
    × (g.temp_vars ≡ name ∷ generator.temp_vars)
    × NumberedBelow g.unique_var_counter g.temp_vars
    × (get_temp_var_name_for_node 9 (codes "k") g ≡ (
        if (9 == 9) && text_eq (codes "k") (codes "k")
        then ok name
        else get_temp_var_name_for_node 9 (codes "k") generator))
generate-NumberedBelow_example =
    generate-NumberedBelow (codes "temp") 9 (codes "k") generator 9 (codes "k")
      generator-NumberedBelow (omega arith) (omega arith) nine_set
