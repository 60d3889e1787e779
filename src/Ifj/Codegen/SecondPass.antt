-- ===== src/Ifj/Codegen/SecondPass.antt =====
-- 2/IFJ/codegen.c: what the second pass over a block leaves as it is.
use vut_projects.Base.{
  ℕ, ◌+◌, ◌≤◌, ◌≡◌, refl, ap, sym, ◌∙◌, Bool, false, ◌||◌, List, [], ◌∷◌, ◌++◌, Text, arith,
  append_assoc,
}
use vut_projects.Ifj.Run.{Halts}
use vut_projects.Ifj.Ast.{Pointer}
use vut_projects.Ifj.Codegen.{Generator, Line}
use vut_projects.Ifj.Codegen.Steps.{IsFrame, is_defvar}
use vut_projects.Ifj.Codegen.Statements.{codegen_generate_block}
use vut_projects.Ifj.Codegen.Passes.{block-Stays}

abbrev pub any_defvar : List Line → Bool
any_defvar [] = false
any_defvar (line ∷ lines) = is_defvar line.opcode || any_defvar lines

any_defvar-append :
    (lines more : List Line)
    → any_defvar lines ≡ false
    → any_defvar more ≡ false
    → any_defvar (lines ++ more) ≡ false
any_defvar-append [] more h h' = h'
any_defvar-append (line ∷ lines) more h h' = ground (arith, any_defvar-append lines more _ h')

-- Lines are added of which none declares a variable, and the numbers of the labels do not go down;
-- the variables are what they were.
pub record OnlyPrints (g h : Generator) : Type 0 where
  pub lines : List Line
  pub printed : h.output ≡ lines ++ g.output
  pub none_declares : any_defvar lines ≡ false
  pub labels : g.label_counter ≤ h.label_counter
  pub if_labels : g.if_label_count ≤ h.if_label_count
  pub declared : h.declared_vars ≡ g.declared_vars
  pub temporaries : h.temp_vars ≡ g.temp_vars
  pub names : h.temp_var_map ≡ g.temp_var_map
  pub counter : h.unique_var_counter ≡ g.unique_var_counter

counted :
    (g : Generator) (labels if_labels : ℕ)
    → g.label_counter ≤ labels
    → g.if_label_count ≤ if_labels
    → OnlyPrints g (record g { label_counter = labels; if_label_count = if_labels })
counted g labels if_labels h h' = record {
  lines = [];
  printed = refl;
  none_declares = refl;
  labels = h;
  if_labels = h';
  declared = refl;
  temporaries = refl;
  names = refl;
  counter = refl;
}

OnlyPrints-IsFrame : IsFrame OnlyPrints
OnlyPrints-IsFrame = record {
  same = λ g. counted g g.label_counter g.if_label_count (omega arith) (omega arith);
  then_ = λ g h k first second. record {
    lines = second.lines ++ first.lines;
    printed =
        second.printed
        ∙ ap (λ t. second.lines ++ t) first.printed
        ∙ sym (append_assoc second.lines first.lines g.output);
    none_declares =
        any_defvar-append second.lines first.lines second.none_declares first.none_declares;
    labels = omega (arith, first.labels, second.labels);
    if_labels = omega (arith, first.if_labels, second.if_labels);
    declared = second.declared ∙ first.declared;
    temporaries = second.temporaries ∙ first.temporaries;
    names = second.names ∙ first.names;
    counter = second.counter ∙ first.counter;
  };
  prints = λ g line plain. record {
    lines = line ∷ [];
    printed = refl;
    none_declares = rw plain refl;
    labels = omega arith;
    if_labels = omega arith;
    declared = refl;
    temporaries = refl;
    names = refl;
    counter = refl;
  };
  numbers = λ g. counted g (g.label_counter + 1) g.if_label_count (omega arith) (omega arith);
  numbers_if = λ g. counted g g.label_counter (g.if_label_count + 1) (omega arith) (omega arith);
}

-- Where the second pass over a block returns it has declared nothing: it adds lines to the output,
-- none of which is a DEFVAR, and numbers to the labels, and the declared variables, the temporary
-- variables and their names are what the first pass has left.
pub block-OnlyPrints :
    (print_float : Text → Text) (block : Pointer) (g : Generator)
    → Halts (codegen_generate_block print_float block g) (λ (_, h). OnlyPrints g h)
block-OnlyPrints print_float block g =
    (block-Stays OnlyPrints-IsFrame print_float block).from_state g
