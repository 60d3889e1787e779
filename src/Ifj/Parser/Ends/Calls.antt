-- ===== src/Ifj/Parser/Ends/Calls.antt =====
-- 2/IFJ/parser.c: calls end and stay in the frame.
use vut_projects.Base.{
  ℕ, zero, suc, ◌≤◌, ◌<◌, refl, true, false, not, Option, none, some, List, [], ◌∷◌, arith, leb,
  if◌then◌else◌, Text, text_eq, codes, ◌==◌,
}
use vut_projects.Ifj.Run.{Halts, err_semantic_undef, err_semantic_params, err_internal}
use vut_projects.Ifj.Ast.{Node, Pointers, end, parameters_of, entry_at}
use vut_projects.Ifj.Symtable.{Symbol}
use vut_projects.Ifj.Symtable.Compile.{BuiltinFunctionInfo, builtin_functions}
use vut_projects.Ifj.Scanner.{token_dot, token_comma, token_left_paren, token_right_paren}
use vut_projects.Ifj.Parser.{Parser, Parse, same_token}
use vut_projects.Ifj.Parser.Scopes.{
  search_loop, search_variable_in_scopes, search_variable_in_outer_scopes, search_below,
  current_scope_id,
}
use vut_projects.Ifj.Parser.Calls.{
  get_builtin_function_index, builtin_at, is_builtin_name, is_builtin_function, declared_type,
  check_arguments_compability, parse_argument, arguments_loop, parse_arguments,
  parse_builtin_function_call, parse_function_call, parse_idendifier,
}
use vut_projects.Ifj.Parser.Logic.{
  Place, Standing, Live, Standing-Standing, IsFrame, Triple, Triple-pure, Triple-return,
  Triple-exit, Triple-crash, Triple-weaken, Triple-bind, Triple-if, Triple-option, Triple-pointer,
  Triple-then, Triple-when, Triple-live, Consumes,
}
use vut_projects.Ifj.Parser.Logic.Actions.{
  Triple-get, Triple-get_any, Triple-expect, Triple-lexeme, Triple-malloc, Triple-search,
}

module _ {R : Parser → Parser → Type 0} (frame : IsFrame R) where
  builtin_at-Keeps :
      {P : Place} (fs : List BuiltinFunctionInfo) (i : Option ℕ)
      → Triple R P (builtin_at fs i) (λ _. P)
  unfolding builtin_at
  builtin_at-Keeps fs none = Triple-crash frame
  builtin_at-Keeps [] (some i) = Triple-crash frame
  builtin_at-Keeps (f ∷ fs) (some zero) = Triple-return frame f
  builtin_at-Keeps (f ∷ fs) (some (suc i)) = builtin_at-Keeps fs (some i)

  declared_type-Keeps :
      {P : Place} (symbol : Symbol) (index : ℕ) (name : Option Text)
      → Triple R P (declared_type symbol index name) (λ _. P)
  unfolding declared_type
  declared_type-Keeps symbol index name =
      Triple-pointer frame symbol.declaration_node
        (Triple-option frame name (Triple-exit frame err_internal) (λ text.
          Triple-option frame (get_builtin_function_index text)
            (Triple-exit frame err_semantic_undef)
            (λ i.
              Triple-bind frame (builtin_at-Keeps builtin_functions (some i))
                (λ f. Triple-return frame _))))
        (λ declaration.
          Triple-pointer frame (entry_at (parameters_of declaration) index) (Triple-crash frame)
            (λ parameter. Triple-return frame _))

  check_arguments-Keeps :
      {P : Place} (symbol : Symbol) (argument : Node) (count : ℕ) (name : Option Text)
      → Triple R P (check_arguments_compability symbol argument count name) (λ _. P)
  unfolding check_arguments_compability
  check_arguments-Keeps symbol argument count name =
      Triple-bind frame (declared_type-Keeps symbol _ name) (λ declared. Triple-return frame _)

  search_loop-Keeps :
      {P : Place} (stack : List ℕ) (variable_name function_name : Text)
      → Triple R P (search_loop stack variable_name function_name) (λ _. P)
  unfolding search_loop
  search_loop-Keeps [] variable_name function_name = Triple-search frame _
  search_loop-Keeps (id ∷ stack) variable_name function_name =
      Triple-bind frame (Triple-search frame _) (λ found.
        Triple-option frame found (search_loop-Keeps stack variable_name function_name)
          (λ symbol. Triple-return frame _))

  pub search_in_scopes-Keeps :
      {P : Place} (variable_name function_name : Text)
      → Triple R P (search_variable_in_scopes variable_name function_name) (λ _. P)
  unfolding search_variable_in_scopes
  search_in_scopes-Keeps variable_name function_name = record {
    from_place = λ p. (search_loop-Keeps p.scope_stack variable_name function_name).from_place p;
  }

  search_below-Keeps :
      {P : Place} (stack : List ℕ) (variable_name function_name : Text)
      → Triple R P (search_below stack variable_name function_name) (λ _. P)
  unfolding search_below
  search_below-Keeps [] variable_name function_name = Triple-return frame none
  search_below-Keeps (id ∷ stack) variable_name function_name =
      search_loop-Keeps stack variable_name function_name

  pub search_outer-Keeps :
      {P : Place} (variable_name function_name : Text)
      → Triple R P (search_variable_in_outer_scopes variable_name function_name) (λ _. P)
  unfolding search_variable_in_outer_scopes
  search_outer-Keeps variable_name function_name = record {
    from_place = λ p. (search_below-Keeps p.scope_stack variable_name function_name).from_place p;
  }

  pub scope_id-Keeps : {P : Place} → Triple R P current_scope_id (λ _. P)
  unfolding Halts current_scope_id
  scope_id-Keeps = record { from_place = λ p at_p. (at_p, frame.same p) }

  pub is_builtin-Place :
      (identifier : Text) (n : ℕ)
      → Triple R (Live n) (is_builtin_function identifier) (λ b. if b then Standing n else Live n)
  unfolding is_builtin_function
  is_builtin-Place identifier n =
      Triple-if frame (not (text_eq identifier (codes "ifj")))
        (Triple-pure frame false (λ s t at_p. at_p))
        (Triple-bind frame (Triple-get frame) (λ _. Triple-expect frame token_dot refl (λ n' e _.
          Triple-bind frame (Triple-lexeme frame) (λ name.
            Triple-if frame (is_builtin_name builtin_functions name)
              (Triple-pure frame true (Standing-Standing (omega arith)))
              (Triple-exit frame err_semantic_undef)))))

  pub parse_idendifier-Place :
      (function_name : Text) (n : ℕ)
      → Triple R (Live n) (parse_idendifier function_name) (λ _. Standing n)
  unfolding parse_idendifier
  parse_idendifier-Place function_name n = Triple-bind frame (Triple-lexeme frame) (λ name.
      Triple-bind frame (search_in_scopes-Keeps name function_name) (λ found.
        Triple-option frame found (Triple-exit frame err_semantic_undef) (λ symbol.
          Triple-bind frame (Triple-malloc frame)
            (λ block. Triple-bind frame (Triple-get frame) (λ _. Triple-return frame _)))))

  module _ {bound fuel : ℕ} {expression : Parse Node} (consumes : Consumes R bound expression)
      (enough : bound ≤ fuel) where
    argument-Consumes :
        (symbol : Symbol) (name : Option Text) (arguments : Pointers) (count : ℕ)
        → Consumes R bound (parse_argument expression symbol name arguments count)
    unfolding parse_argument
    argument-Consumes symbol name arguments count n less =
        Triple-bind frame (consumes n less) (λ argument.
          Triple-bind frame (check_arguments-Keeps symbol argument _ name) (λ invalid.
            Triple-if frame invalid (Triple-exit frame err_semantic_params)
              (Triple-return frame _)))

    arguments_loop-Place :
        (symbol : Symbol) (name : Option Text) (turns param_count : ℕ) (arguments : Pointers)
        (count n : ℕ)
        → n < turns
        → n < bound
        → Triple R
            (Standing n)
            (arguments_loop expression symbol name turns param_count arguments count)
            (λ _. Standing n)
    unfolding arguments_loop
    arguments_loop-Place symbol name zero param_count arguments count n less less' =
        absurd (omega arith)
    arguments_loop-Place symbol name (suc turns) param_count arguments count n less less' =
        Triple-live frame (same_token token_comma) refl
          (λ n' e. Triple-bind frame (Triple-get frame) (λ _.
            Triple-when frame (same_token token_right_paren)
              (Triple-pure frame _ (Standing-Standing (omega arith)))
              (Triple-if frame (leb param_count count) (Triple-exit frame err_semantic_params) (
                Triple-then frame (argument-Consumes symbol name arguments count n' (omega arith))
                  (λ (arguments', count') k lower.
                    Triple-weaken frame
                      (arguments_loop-Place symbol name turns param_count arguments' count' k
                        (omega arith) (omega arith))
                      (λ s t at_p. at_p) (λ a. Standing-Standing (omega arith)))))))
          (Triple-return frame _)

    arguments-Place :
        (symbol : Symbol) (name : Option Text) (param_count n : ℕ)
        → n < bound
        → Triple R
            (Standing n)
            (parse_arguments expression symbol name fuel param_count)
            (λ _. Standing n)
    unfolding parse_arguments
    arguments-Place symbol name param_count n less =
        Triple-then frame (argument-Consumes symbol name end 0 n less)
          (λ (arguments, count) k lower.
            Triple-weaken frame
              (arguments_loop-Place symbol name fuel param_count arguments count k (omega arith)
                (omega arith))
              (λ s t at_p. at_p) (λ a. Standing-Standing (omega arith)))

    pub builtin_call-Place :
        (n : ℕ)
        → n ≤ bound
        → Triple R (Standing n) (parse_builtin_function_call fuel expression) (λ _. Standing n)
    unfolding parse_builtin_function_call
    builtin_call-Place n less = Triple-bind frame (Triple-lexeme frame) (λ name.
        Triple-bind frame (Triple-search frame _) (λ found.
          Triple-option frame found (Triple-exit frame err_semantic_undef) (λ symbol.
            Triple-bind frame (Triple-get_any frame) (λ _.
              Triple-expect frame token_left_paren refl (λ n' e _.
                Triple-bind frame (builtin_at-Keeps builtin_functions _) (λ f.
                  Triple-bind frame {Q = λ _. Standing n'}
                    (Triple-when frame (same_token token_right_paren) (Triple-return frame _)
                      (arguments-Place symbol (some name) f.param_count n' (omega arith)))
                    (λ (arguments, count). Triple-expect frame token_right_paren refl (λ n'' e' _.
                      Triple-bind frame
                        (Triple-if frame (not (count == f.param_count))
                          (Triple-exit frame err_semantic_params) (Triple-malloc frame))
                        (λ block. Triple-pure frame _ (Standing-Standing (omega arith)))))))))))

    pub function_call-Place :
        (symbol : Symbol) (n : ℕ)
        → n ≤ bound
        → Triple R (Live n) (parse_function_call fuel expression symbol) (λ _. Standing n)
    unfolding parse_function_call
    function_call-Place symbol n less = Triple-bind frame (Triple-lexeme frame) (λ name.
        Triple-bind frame (Triple-get frame) (λ _.
          Triple-expect frame token_left_paren refl (λ n' e _.
            Triple-pointer frame symbol.declaration_node (Triple-crash frame) (λ declaration.
              Triple-bind frame {Q = λ _. Standing n'}
                (Triple-when frame (same_token token_right_paren) (Triple-return frame _)
                  (arguments-Place symbol none _ n' (omega arith)))
                (λ (arguments, count). Triple-expect frame token_right_paren refl (λ n'' e' _.
                  Triple-bind frame
                    (Triple-if frame _ (Triple-exit frame err_semantic_params)
                      (Triple-malloc frame))
                    (λ block. Triple-pure frame _ (Standing-Standing (omega arith)))))))))
