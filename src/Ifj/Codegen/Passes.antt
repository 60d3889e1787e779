-- ===== src/Ifj/Codegen/Passes.antt =====
-- 2/IFJ/codegen.c: that the second pass stays in any frame of its steps.
use vut_projects.Base.{ℕ, ◌≡◌, refl, Bool, List, [], ◌∷◌, Text, codes, false, Option, some, none}
use Prim.Native.String.{String}
use vut_projects.Ifj.Run.{Halts, Halts-bind, Halts-if, Halts-ok, Halts-crash}
use vut_projects.Ifj.Ast.{
  NodeType, node_variable_declaration, node_assignment, node_binary_operation, node_literal,
  node_identifier, node_if, node_while, node_return, node_function_call, Fields, Pointer, nil, to,
  DataType, cell, Pointers, end, entry, int, float, u8, null, bool,
}
use vut_projects.Ifj.Codegen.{Generator}
use vut_projects.Ifj.Codegen.Strings.{escape_loop, escape_ifj24_string}
use vut_projects.Ifj.Codegen.Actions.{Step}
use vut_projects.Ifj.Codegen.Emit.{
  literal_of, generate_literal, generate_identifier, generate_operator, generate_binary,
  generate_write, generate_unary, generate_read, generate_concat, generate_chr, generate_ord,
  escape, divide, write_nullable,
}
use vut_projects.Ifj.Codegen.Statements.{
  codegen_generate_function_call, take_result, pop_declared, expression_of, statement_of,
  codegen_generate_expression, expression_passes, codegen_generate_return, if_label,
  generate_condition, codegen_generate_if, codegen_generate_while, codegen_generate_statement,
  codegen_generate_block, statements_loop,
}
use vut_projects.Ifj.Codegen.Steps.{
  IsFrame, is_defvar, Stays, AllStay, Stays-pure, Stays-exit, Stays-crash, Stays-bind, Stays-set,
  Stays-emit, Stays-pass, Stays-passes, Stays-reverse, steps,
}

escape_loop-Halts :
    (size : ℕ) (written input : Text) → Halts (escape_loop size written input) (λ _. Unit)
unfolding escape_loop
escape_loop-Halts size written [] = Halts-ok _ written tt
escape_loop-Halts size written (c ∷ input) =
    Halts-bind (λ _. Unit) (λ _. Unit) _ (λ longer. escape_loop size longer input)
      (Halts-if _ _ _ _ (Halts-if _ _ _ _ (Halts-ok _ _ tt) (Halts-crash _))
        (Halts-if _ _ _ _ (Halts-ok _ _ tt) (Halts-crash _)))
      (λ longer _. escape_loop-Halts size longer input)

escape-Halts : (input : Text) → Halts (escape_ifj24_string input) (λ _. Unit)
unfolding escape_ifj24_string
escape-Halts input =
    Halts-bind _ _ _ _ (escape_loop-Halts _ [] input)
      (λ written _. Halts-if _ _ _ _ (Halts-ok _ _ tt) (Halts-crash _))

module _ {R : Generator → Generator → Type 0} (frame : IsFrame R) where
  escape-Stays : (value : Text) → Stays R (escape value)
  unfolding escape
  escape-Stays value = record {
    from_state =
        λ g. Halts-bind _ _ _ _ (escape-Halts value) (λ escaped _. Halts-ok _ _ (frame.same g));
  }

  literal-Stays :
      (print_float : Text → Text) (value : Option Text) (t : DataType)
      → Stays R (literal_of print_float value t)
  unfolding literal_of
  literal-Stays print_float value int =
      Stays-bind frame (Stays-set frame value) (λ text. Stays-emit frame _ _ refl)
  literal-Stays print_float value float =
      Stays-bind frame (Stays-set frame value) (λ text. Stays-emit frame _ _ refl)
  literal-Stays print_float value u8 =
      Stays-bind frame (Stays-set frame value)
        (λ text. Stays-bind frame (escape-Stays text) (λ escaped. Stays-emit frame _ _ refl))
  literal-Stays print_float value null = Stays-emit frame _ _ refl
  literal-Stays print_float value bool =
      Stays-bind frame (Stays-set frame value) (λ text. Stays-emit frame _ _ refl)
  literal-Stays print_float value _ = Stays-pure frame tt

  identifier-Stays : (f : Fields) → Stays R (generate_identifier f)
  unfolding generate_identifier
  identifier-Stays f = search steps depth 16

  divide-Stays : (result l r : Text) (a b : Bool) → Stays R (divide result l r a b)
  divide-Stays result l r a b = search steps depth 16

  operator-Stays :
      (name result l r : Text) (left right : Pointer)
      → Stays R (generate_operator name result l r left right)
  unfolding generate_operator
  operator-Stays name result l r left right = search (steps, divide-Stays) depth 24

  binary-Stays :
      (f : Fields) (left right : Pointer) {in_left in_right : Step}
      → Stays R in_left
      → Stays R in_right
      → Stays R (generate_binary f left right in_left in_right)
  unfolding generate_binary
  binary-Stays f left right h h' = search (steps, operator-Stays) depth 24

  nullable-Stays : (node : ℕ) (name : Text) → Stays R (write_nullable node name)
  nullable-Stays node name = search steps depth 24

  write-Stays : (arg : Pointer) {pass : Step} → Stays R pass → Stays R (generate_write arg pass)
  write-Stays nil h = search steps depth 16
  write-Stays (to n) h = search (steps, nullable-Stays) depth 24

  unary-Stays :
      (opcode key : String) (node : ℕ) (arg : Pointer) {pass : Step}
      → is_defvar (codes opcode) ≡ false
      → Stays R pass
      → Stays R (generate_unary opcode key node arg pass)
  unary-Stays opcode key node arg plain h = search steps depth 16

  read-Stays : (name : Text) (node : ℕ) → Stays R (generate_read name node)
  read-Stays name node = search steps depth 16

  concat-Stays :
      (node : ℕ) (arg1 arg2 : Pointer) {pass1 pass2 : Step}
      → Stays R pass1
      → Stays R pass2
      → Stays R (generate_concat node arg1 arg2 pass1 pass2)
  concat-Stays node arg1 arg2 h h' = search steps depth 24

  chr-Stays :
      (node : ℕ) (arg : Pointer) {pass : Step} → Stays R pass → Stays R (generate_chr node arg pass)
  chr-Stays node arg h = search steps depth 24

  ord-Stays :
      (node : ℕ) {pass1 pass2 : Step}
      → Stays R pass1
      → Stays R pass2
      → Stays R (generate_ord node pass1 pass2)
  ord-Stays node h h' = search steps depth 40

  result-Stays : (left : Pointer) → Stays R (take_result left)
  result-Stays nil = Stays-pure frame tt
  result-Stays (to n) = search steps depth 8

  call-Stays :
      (f : Fields) (left : Pointer) (arguments : Pointers) (passes : List Step)
      → AllStay frame passes
      → Stays R (codegen_generate_function_call f left arguments passes)
  unfolding codegen_generate_function_call
  call-Stays f left arguments passes hs =
      search
        (
          steps, Stays-pass, Stays-passes, Stays-reverse, result-Stays, write-Stays, unary-Stays,
          read-Stays, concat-Stays, chr-Stays, ord-Stays,
        )
        depth 40

  expression_of-Stays :
      (print_float : Text → Text) (t : NodeType) (f : Fields) (left right : Pointer)
      (arguments : Pointers) {in_left in_right : Step} (passes : List Step)
      → Stays R in_left
      → Stays R in_right
      → AllStay frame passes
      → Stays R (expression_of print_float t f left right arguments in_left in_right passes)
  unfolding expression_of generate_literal
  expression_of-Stays print_float node_literal f left right arguments passes h h' hs =
      literal-Stays print_float f.value f.data_type
  expression_of-Stays print_float node_identifier f left right arguments passes h h' hs =
      identifier-Stays f
  expression_of-Stays print_float node_binary_operation f left right arguments passes h h' hs =
      binary-Stays f left right h h'
  expression_of-Stays print_float node_function_call f left right arguments passes h h' hs =
      call-Stays f left arguments passes hs
  expression_of-Stays print_float _ f left right arguments passes h h' hs = Stays-exit frame

  mutual
    unfolding codegen_generate_expression

    pub expression-Stays :
        (print_float : Text → Text) (p : Pointer)
        → Stays R (codegen_generate_expression print_float p)
    expression-Stays print_float nil = Stays-pure frame tt
    expression-Stays print_float (to (cell f left right next condition body ps as')) =
        expression_of-Stays print_float f.type f left right as' _
          (expression-Stays print_float left) (expression-Stays print_float right)
          (passes-Stay print_float as')

    passes-Stay :
        (print_float : Text → Text) (ps : Pointers)
        → AllStay frame (expression_passes print_float ps)
    passes-Stay print_float end = tt
    passes-Stay print_float (entry p ps) =
        (expression-Stays print_float p, passes-Stay print_float ps)

  module _ (print_float : Text → Text) where
    condition-Stays :
        (condition : Pointer) (n : ℕ) → Stays R (generate_condition print_float condition n)
    unfolding generate_condition
    condition-Stays nil n = Stays-crash frame
    condition-Stays (to node) n = search (steps, expression-Stays) depth 24

    if_label-Stays : Stays R (if_label print_float)
    unfolding if_label Halts
    if_label-Stays = record { from_state = λ g. frame.numbers_if g }

    if-Stays :
        (condition left : Pointer) {in_body in_left : Step}
        → Stays R in_body
        → Stays R in_left
        → Stays R (codegen_generate_if print_float condition left in_body in_left)
    unfolding codegen_generate_if
    if-Stays condition nil h h' = search (steps, if_label-Stays, condition-Stays) depth 24
    if-Stays condition (to n) h h' = search (steps, if_label-Stays, condition-Stays) depth 24

    while-Stays :
        (condition : Pointer) {in_body : Step}
        → Stays R in_body
        → Stays R (codegen_generate_while print_float condition in_body)
    unfolding codegen_generate_while
    while-Stays condition h = search (steps, expression-Stays) depth 24

    declared-Stays : (name : Option Text) → Stays R (pop_declared name)
    declared-Stays none = Stays-exit frame
    declared-Stays (some name) = search steps depth 8

    statement-Stays :
        (t : NodeType) (f : Fields) (left condition : Pointer) (arguments : Pointers)
        {in_body in_left : Step}
        → Stays R in_body
        → Stays R in_left
        → Stays R (statement_of print_float t f left condition arguments in_body in_left)
    unfolding statement_of codegen_generate_return
    statement-Stays node_variable_declaration f nil condition arguments h h' = Stays-pure frame tt
    statement-Stays node_variable_declaration f (to n) condition arguments h h' =
        search (steps, expression-Stays, declared-Stays) depth 16
    statement-Stays node_assignment f left condition arguments h h' =
        search (steps, expression-Stays) depth 16
    statement-Stays node_return f left condition arguments h h' =
        search (steps, expression-Stays) depth 16
    statement-Stays node_if f left condition arguments h h' = if-Stays condition left h h'
    statement-Stays node_while f left condition arguments h h' = while-Stays condition h
    statement-Stays node_function_call f left condition arguments h h' =
        call-Stays f left arguments _ (passes-Stay print_float arguments)
    statement-Stays _ f left condition arguments h h' = Stays-exit frame

    mutual
      unfolding codegen_generate_block codegen_generate_statement

      pub block-Stays : (p : Pointer) → Stays R (codegen_generate_block print_float p)
      block-Stays nil = Stays-crash frame
      block-Stays (to (cell f left right next condition body ps as')) = statements-Stay body

      statements-Stay : (p : Pointer) → Stays R (statements_loop print_float p)
      statements-Stay nil = Stays-pure frame tt
      statements-Stay (to (cell f left right next condition body ps as')) =
          Stays-bind frame
            (statement-Stays f.type f left condition as' (block-Stays body) (block-Stays left))
            (λ _. statements-Stay next)
