-- ===== src/Ifj/Parser/Ends/Functions.antt =====
-- 2/IFJ/parser.c: the parse of the definition of a function ends and stays in the frame.
use vut_projects.Base.{ℕ, zero, suc, ◌<◌, refl, Bool, true, false, not, ◌&&◌, ◌||◌, arith, Text}
use vut_projects.Ifj.Run.{
  Run, Halts, Halts-bind, Halts-if, Halts-ok, Halts-exit, Halts-crash, err_syntax,
  err_semantic_other, err_semantic_params, err_semantic_return,
}
use vut_projects.Ifj.Ast.{
  DataType, Pointer, Pointers, Fields, nil, to, cell, void, same_type, body_of, node_return,
  is_node, node_literal,
}
use vut_projects.Ifj.Scanner.{
  token_pub, token_fn, token_identifier, token_colon, token_comma, token_left_paren,
  token_right_paren,
}
use vut_projects.Ifj.Parser.{Parser, same_token}
use vut_projects.Ifj.Parser.Types.{can_assign_type}
use vut_projects.Ifj.Parser.Returns.{
  has_type, check_return_types_recursive, check_return, check_all_return_types, when_set,
  check_void_returns, check_return_types,
}
use vut_projects.Ifj.Parser.Program.{
  lift, parse_parameter, parameters_loop, parse_parameters, define_function, parse_function_with,
  parse_function,
}
use vut_projects.Ifj.Parser.Ends.Calls.{scope_id-Keeps}
use vut_projects.Ifj.Parser.Ends.Statements.{block-Consumes}
use vut_projects.Ifj.Parser.Ends.Types.{type-Place, return_type-Place}
use vut_projects.Ifj.Parser.Logic.{
  Place, Standing, Standing-Standing, Standing-Before, Before-Before, IsFrame, Triple, Triple-pure,
  Triple-return, Triple-exit, Triple-weaken, Triple-bind, Triple-if, Triple-then, Triple-when,
  Triple-live, Triple-fuel, Consumes,
}
use vut_projects.Ifj.Parser.Logic.Actions.{
  Triple-get, Triple-get_any, Triple-expect, Triple-lexeme, Triple-malloc, Triple-search,
  Triple-insert, Triple-in_scope,
}

recursive-Halts :
    (n : Pointer) (type : DataType) → Halts (check_return_types_recursive n type) (λ _. Unit)
unfolding check_return_types_recursive
recursive-Halts nil type = Halts-ok _ _ tt
recursive-Halts (to (cell f left right next condition body ps as')) type =
    let behind = λ (b : Bool). Halts-if _ b _ _ (Halts-ok _ true tt) (recursive-Halts next type) in
    Halts-if _ _ _ _ (Halts-if _ _ _ _ (Halts-exit _ err_semantic_params) (Halts-ok _ true tt)) (
      Halts-if _ _ _ _
        (Halts-bind _ _ _ _ (recursive-Halts body type)
          (λ b _. Halts-bind _ _ _ _ (recursive-Halts left type) (λ l _. behind _)))
        (Halts-if _ _ _ _ (Halts-bind _ _ _ _ (recursive-Halts body type) (λ b _. behind false)) (
          Halts-bind _ _ _ _ (recursive-Halts body type)
            (λ b _. Halts-bind _ _ _ _ (recursive-Halts left type) (λ l _. behind _)))))

check_return-Halts :
    (f : Fields) (left : Pointer) (type : DataType) → Halts (check_return f left type) (λ _. Unit)
check_return-Halts f nil type = Halts-if _ _ _ _ (Halts-ok _ tt tt) (Halts-crash _)
check_return-Halts f (to value) type = Halts-if _ _ _ _ (Halts-ok _ tt tt) (
    Halts-if _ (not (is_node node_literal value) || not (can_assign_type type f.data_type)) _ _
      (Halts-exit _ err_semantic_params) (Halts-ok _ tt tt))

all-Halts : (n : Pointer) (type : DataType) → Halts (check_all_return_types n type) (λ _. Unit)
unfolding check_all_return_types
all-Halts nil type = Halts-ok _ _ tt
all-Halts (to (cell f left right next condition body ps as')) type =
    Halts-bind _ _ _ _ (check_return-Halts f left type) (λ _ _.
      Halts-bind _ _ _ _ (all-Halts body type) (λ b _.
        Halts-bind _ _ _ _ (all-Halts left type)
          (λ l _. Halts-bind _ _ _ _ (all-Halts next type) (λ n _. Halts-ok _ _ tt))))

when_set-Halts :
    (n : Pointer) (m : Run (Unit {0})) → Halts m (λ _. Unit) → Halts (when_set n m) (λ _. Unit)
when_set-Halts nil m h = Halts-ok _ tt tt
when_set-Halts (to n) m h = h

void-Halts : (n : Pointer) → Halts (check_void_returns n) (λ _. Unit)
unfolding check_void_returns
void-Halts nil = Halts-crash _
void-Halts (to (cell f left right next condition body ps as')) =
    Halts-bind (λ _. Unit) _ _ _
      (Halts-bind (λ _. Unit) _ _ _
        (Halts-bind (λ _. Unit) _ _ _
          (Halts-if _ (has_type node_return f && not (same_type f.data_type void)) _ _
            (Halts-exit _ err_semantic_return) (Halts-ok _ tt tt))
          (λ _ _. when_set-Halts body _ (void-Halts body)))
        (λ _ _. when_set-Halts left _ (void-Halts left)))
      (λ _ _. when_set-Halts next _ (void-Halts next))

pub check_return_types-Halts :
    (n : Pointer) (type : DataType) → Halts (check_return_types n type) (λ _. Unit)
unfolding check_return_types
check_return_types-Halts n type = Halts-if _ (same_type type void) _ _ (void-Halts n) (
    Halts-bind _ _ _ _ (recursive-Halts n type) (λ has_return _.
      Halts-bind _ _ _ _
        (Halts-if _ (not has_return) _ _ (Halts-exit _ err_semantic_return) (all-Halts n type))
        (λ compatible _.
          Halts-if _ (not compatible) _ _ (Halts-exit _ err_semantic_params) (Halts-ok _ tt tt))))

module _ {R : Parser → Parser → Type 0} (frame : IsFrame R) where
  lift-Keeps :
      {A : Type 0} {P : Place} (m : Run A) → Halts m (λ _. Unit) → Triple R P (lift m) (λ _. P)
  unfolding lift
  lift-Keeps m h = record {
    from_place = λ p at_p. Halts-bind _ _ m _ h (λ a _. Halts-ok _ _ (at_p, frame.same p));
  }

  parameter-Consumes :
      (bound : ℕ) (function_name : Text) (is_definition : Bool)
      → Consumes R bound (parse_parameter function_name is_definition)
  unfolding parse_parameter
  parameter-Consumes bound function_name is_definition n less =
      Triple-bind frame {Q = λ _. Standing n}
        (Triple-when frame (same_token token_identifier) (Triple-lexeme frame)
          (Triple-exit frame err_syntax))
        (λ name. Triple-bind frame (scope_id-Keeps frame) (λ scope_id.
          Triple-bind frame (Triple-get_any frame) (λ _.
            Triple-expect frame token_colon refl (λ n' e _.
              Triple-bind frame (type-Place frame n') (λ type.
                Triple-bind frame (Triple-search frame _) (λ found.
                  Triple-bind frame {Q = λ _. Standing n'}
                    (Triple-if frame _ (Triple-exit frame err_semantic_other) (Triple-malloc frame))
                    (λ (address, g).
                      Triple-bind frame {Q = λ _. Standing n'}
                        (Triple-if frame is_definition
                          (Triple-bind frame (Triple-malloc frame)
                            (λ (_, h). Triple-insert frame _ _ refl))
                          (Triple-return frame tt))
                        (λ _. Triple-pure frame _ (Standing-Before (omega arith))))))))))

  parameters_loop-Place :
      (turns : ℕ) (function_name : Text) (is_definition : Bool) (parameters : Pointers)
      (count n : ℕ)
      → n < turns
      → Triple R
          (Standing n)
          (parameters_loop turns function_name is_definition parameters count)
          (λ _. Standing n)
  unfolding parameters_loop
  parameters_loop-Place zero function_name is_definition parameters count n less =
      absurd (omega arith)
  parameters_loop-Place (suc turns) function_name is_definition parameters count n less =
      Triple-live frame (same_token token_comma) refl
        (λ n' e. Triple-bind frame (Triple-get frame) (λ _.
          Triple-then frame
            (parameter-Consumes (suc n') function_name is_definition n' (omega arith))
            (λ p k lower.
              Triple-weaken frame
                (parameters_loop-Place turns function_name is_definition _ _ k (omega arith))
                (λ s t at_p. at_p) (λ a. Standing-Standing (omega arith)))))
        (Triple-return frame _)

  parameters-Place :
      (function_name : Text) (is_definition : Bool) (n : ℕ)
      → Triple R (Standing n) (parse_parameters function_name is_definition) (λ _. Standing n)
  unfolding parse_parameters
  parameters-Place function_name is_definition n =
      Triple-when frame (same_token token_right_paren) (Triple-return frame _) (
        Triple-then frame (parameter-Consumes (suc n) function_name is_definition n (omega arith))
          (λ p k lower.
            Triple-weaken frame
              (Triple-fuel frame _ (λ k' short.
                Triple-weaken frame
                  (parameters_loop-Place (suc k') function_name is_definition _ _ k' (omega arith))
                  (λ s t at_p. at_p) (λ a. Standing-Standing short)))
              (λ s t at_p. at_p) (λ a. Standing-Standing (omega arith))))

  define-Place :
      (function_name : Text) (type : DataType) (parameters : Pointers) (count n : ℕ)
      → Triple R
          (Standing n)
          (define_function function_name type parameters count)
          (λ _. Standing n)
  unfolding define_function
  define-Place function_name type parameters count n =
      Triple-then frame
        (Triple-fuel frame _ (λ k short.
          Triple-weaken frame (block-Consumes frame (suc k) function_name false k (omega arith))
            (λ s t at_p. at_p) (λ a. Before-Before short)))
        (λ body k lower. Triple-bind frame (Triple-malloc frame) (λ (address, g).
          Triple-bind frame (lift-Keeps _ (check_return_types-Halts (body_of body) type))
            (λ _. Triple-pure frame _ (Standing-Standing (omega arith)))))

  pub function-Consumes : (fuel bound : ℕ) → Consumes R bound (parse_function fuel true)
  unfolding parse_function parse_function_with
  function-Consumes fuel bound n less = Triple-expect frame token_pub refl (λ n1 e1 _.
      Triple-expect frame token_fn refl (λ n2 e2 _.
        Triple-bind frame {Q = λ _. Standing n2}
          (Triple-when frame (same_token token_identifier) (Triple-lexeme frame)
            (Triple-exit frame err_syntax))
          (λ function_name. Triple-bind frame (Triple-get_any frame) (λ _.
            Triple-expect frame token_left_paren refl (λ n3 e3 _. Triple-in_scope frame (
              Triple-bind frame (parameters-Place function_name true n3) (λ (parameters, count).
                Triple-expect frame token_right_paren refl (λ n4 e4 _.
                  Triple-bind frame (return_type-Place frame n4) (λ type.
                    Triple-weaken frame (define-Place function_name type parameters count n4)
                      (λ s t at_p. at_p) (λ a. Standing-Before (omega arith)))))))))))
