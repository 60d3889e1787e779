-- ===== src/Ifj/Parser/Ends/Assignments.antt =====
-- 2/IFJ/parser.c: the parse of a statement without a block ends and stays in the frame.
use vut_projects.Base.{
  ℕ, suc, ◌≤◌, ◌≡◌, refl, Bool, true, false, not, ◌&&◌, none, arith, Text, text_eq, codes,
}
use vut_projects.Ifj.Run.{
  err_syntax, err_semantic, err_semantic_undef, err_semantic_params, err_semantic_other,
  err_semantic_type, err_semantic_infer,
}
use vut_projects.Ifj.Ast.{Node, nil, bool, same_type, type_of}
use vut_projects.Ifj.Scanner.{
  TokenType, token_eof, token_return, token_identifier, token_colon, token_assign, token_semicolon,
  token_pipe, token_left_paren, token_right_paren,
}
use vut_projects.Ifj.Parser.{Parser, Parse, same_token}
use vut_projects.Ifj.Parser.Types.{is_nullable}
use vut_projects.Ifj.Parser.Expressions.{is_function}
use vut_projects.Ifj.Parser.Statements.{
  call_statement, assign_underscore, assign_variable, parse_variable_assigning, declare,
  parse_return_statement, parse_pipe, parse_condition,
}
use vut_projects.Ifj.Parser.Ends.Calls.{
  is_builtin-Place, search_in_scopes-Keeps, search_outer-Keeps, scope_id-Keeps, builtin_call-Place,
  function_call-Place,
}
use vut_projects.Ifj.Parser.Ends.Expressions.{convert-Keeps}
use vut_projects.Ifj.Parser.Logic.{
  Standing, Live, Standing-Standing, Standing-Before, IsFrame, Triple, Triple-pure, Triple-return,
  Triple-exit, Triple-bind, Triple-if, Triple-branch, Triple-option, Triple-then, Triple-when,
  Triple-live, Consumes,
}
use vut_projects.Ifj.Parser.Logic.Actions.{
  Triple-get, Triple-get_any, Triple-expect, Triple-lexeme, Triple-malloc, Triple-search,
}
use vut_projects.Ifj.Parser.Ends.Types.{
  or_null-Keeps, underscore-Keeps, declare_variable-Keeps, declared_or_inferred-Keeps,
  expect-Standing, check_and_convert-Keeps, type-Place,
}

module _ {R : Parser → Parser → Type 0} (frame : IsFrame R) where
  module _ {bound fuel : ℕ} {expression : Parse Node} (consumes : Consumes R bound expression)
      (enough : bound ≤ fuel) (function_name : Text) where
    call_statement-Place :
        (n : ℕ)
        → n ≤ bound
        → Triple R (Live n) (call_statement fuel expression function_name) (λ _. Standing n)
    unfolding call_statement
    call_statement-Place n less = Triple-bind frame (Triple-lexeme frame) (λ name.
        Triple-bind frame (Triple-search frame name) (λ found.
          Triple-option frame found (Triple-exit frame err_semantic_undef) (λ symbol.
            Triple-if frame (not (is_function symbol)) (Triple-exit frame err_semantic_undef) (
              Triple-bind frame (function_call-Place frame consumes enough symbol n less) (λ call.
                Triple-if frame _ (Triple-exit frame err_semantic_params) (
                  Triple-expect frame token_semicolon refl
                    (λ n' e _. Triple-pure frame _ (Standing-Standing (omega arith)))))))))

    assign_underscore-Place :
        (n : ℕ)
        → n ≤ bound
        → Triple R (Live n) (assign_underscore fuel expression function_name) (λ _. Standing n)
    unfolding assign_underscore
    assign_underscore-Place n less = Triple-bind frame (Triple-lexeme frame) (λ name.
        Triple-bind frame (Triple-search frame name) (λ found.
          Triple-bind frame (Triple-get frame) (λ _.
            Triple-expect frame token_assign refl (λ n' e _.
              Triple-then frame (consumes n' (omega arith)) (λ value k lower.
                Triple-bind frame (or_null-Keeps frame found) (λ symbol.
                  Triple-bind frame {Q = λ _. Standing k}
                    (Triple-if frame _ (Triple-exit frame err_semantic_type)
                      (Triple-if frame _ (convert-Keeps frame value) (Triple-return frame value)))
                    (λ converted. Triple-expect frame token_semicolon refl (λ k' e' _.
                      Triple-bind frame (Triple-malloc frame)
                        (λ block. Triple-pure frame _ (Standing-Standing (omega arith)))))))))))

    assign_variable-Place :
        (n : ℕ)
        → n ≤ bound
        → Triple R (Live n) (assign_variable fuel expression function_name) (λ _. Standing n)
    unfolding assign_variable
    assign_variable-Place n less = Triple-bind frame (Triple-lexeme frame) (λ variable_name.
        Triple-bind frame (search_in_scopes-Keeps frame variable_name function_name) (λ found.
          Triple-option frame found (Triple-exit frame err_semantic_undef) (λ symbol.
            Triple-bind frame (Triple-get frame) (λ _.
              Triple-expect frame token_assign refl (λ n' e _.
                Triple-then frame (consumes n' (omega arith)) (λ value k lower.
                  Triple-bind frame {Q = λ _. Standing k}
                    (Triple-if frame _ (Triple-exit frame err_semantic_infer) (
                      Triple-if frame _ (check_and_convert-Keeps frame value symbol.data_type)
                        (Triple-return frame value)))
                    (λ converted. Triple-expect frame token_semicolon refl (λ k' e' _.
                      Triple-bind frame (Triple-malloc frame)
                        (λ block. Triple-pure frame _ (Standing-Standing (omega arith)))))))))))

    pub assigning-Place :
        (n : ℕ)
        → n ≤ bound
        → Triple R
            (Live n)
            (parse_variable_assigning fuel expression function_name)
            (λ _. Standing n)
    unfolding parse_variable_assigning
    assigning-Place n less = Triple-bind frame (Triple-lexeme frame) (λ identifier.
        Triple-bind frame (is_builtin-Place frame identifier n) (λ b.
          Triple-bind frame (Triple-lexeme frame) (λ name.
            Triple-bind frame (Triple-search frame name) (λ found.
              Triple-bind frame
                (Triple-option frame found (Triple-return frame false) (λ symbol.
                  Triple-if frame (is_function symbol) (Triple-return frame false)
                    (underscore-Keeps frame symbol)))
                (λ underscore.
                  Triple-branch frame b
                    (Triple-bind frame (builtin_call-Place frame consumes enough n less) (λ call.
                      Triple-expect frame token_semicolon refl
                        (λ n' e _. Triple-pure frame call (Standing-Standing (omega arith)))))
                    (Triple-if frame _ (call_statement-Place n less) (
                      Triple-if frame underscore (assign_underscore-Place n less)
                        (assign_variable-Place n less))))))))

    pub declare-Place :
        (is_var : Bool) (n : ℕ)
        → n ≤ bound
        → Triple R (Live n) (declare fuel expression function_name is_var) (λ _. Standing n)
    unfolding declare
    declare-Place is_var n less = Triple-bind frame (Triple-get frame) (λ _.
        Triple-bind frame {Q = λ _. Standing n}
          (Triple-when frame (same_token token_identifier) (Triple-lexeme frame)
            (Triple-exit frame err_syntax))
          (λ base.
            Triple-bind frame {Q = λ _. Standing n}
              (Triple-if frame (text_eq base (codes "_")) (Triple-exit frame err_semantic)
                (scope_id-Keeps frame))
              (λ scope_id. Triple-bind frame (Triple-get_any frame) (λ _.
                Triple-bind frame {Q = λ _. Standing n}
                  (Triple-when frame (same_token token_colon)
                    (Triple-bind frame (Triple-get_any frame) (λ _. type-Place frame n))
                    (Triple-return frame _))
                  (λ type. Triple-expect frame token_assign refl (λ n' e _.
                    Triple-then frame (consumes n' (omega arith)) (λ initializer k lower.
                      Triple-bind frame (declared_or_inferred-Keeps frame is_var type initializer)
                        (λ data_type. Triple-expect frame token_semicolon refl (λ k' e' _.
                          Triple-bind frame (search_outer-Keeps frame base function_name) (λ outer.
                            Triple-bind frame {Q = λ _. Standing k'}
                              (Triple-option frame outer (Triple-search frame _)
                                (λ symbol. Triple-exit frame err_semantic_other))
                              (λ found.
                                Triple-bind frame {Q = λ _. Standing k'}
                                  (Triple-option frame found (Triple-malloc frame)
                                    (λ symbol. Triple-exit frame err_semantic_other))
                                  (λ (address, g).
                                    Triple-bind frame
                                      (declare_variable-Keeps frame _ function_name data_type _ _)
                                      (λ _.
                                        Triple-pure frame _
                                          (Standing-Standing (omega arith)))))))))))))))

    pub return-Consumes :
        Consumes R (suc bound) (parse_return_statement fuel expression function_name)
    unfolding parse_return_statement
    return-Consumes n less = Triple-expect frame token_return refl (λ n' e _.
        Triple-bind frame {Q = λ _. Standing n'}
          (Triple-when frame (same_token token_semicolon) (Triple-return frame nil) (
            Triple-then frame (consumes n' (omega arith))
              (λ value k lower. Triple-pure frame _ (Standing-Standing (omega arith)))))
          (λ value. Triple-expect frame token_semicolon refl (λ k e' _.
            Triple-bind frame (Triple-malloc frame)
              (λ block. Triple-pure frame _ (Standing-Before (omega arith))))))

    pipe-Place :
        (condition : Node) (n : ℕ)
        → Triple R (Live n) (parse_pipe fuel expression function_name condition) (λ _. Standing n)
    unfolding parse_pipe
    pipe-Place condition n = Triple-bind frame (Triple-get frame) (λ _.
        Triple-bind frame {Q = λ _. Standing n}
          (Triple-when frame (same_token token_identifier) (Triple-lexeme frame)
            (Triple-exit frame err_semantic))
          (λ id. Triple-bind frame (scope_id-Keeps frame) (λ scope_id.
            Triple-bind frame (Triple-search frame id) (λ found.
              Triple-bind frame {Q = λ _. Standing n}
                (Triple-option frame found (Triple-malloc frame)
                  (λ symbol. Triple-exit frame err_semantic_other))
                (λ (address, g).
                  Triple-bind frame (declare_variable-Keeps frame _ function_name _ true _) (λ _.
                    Triple-bind frame (Triple-get_any frame) (λ _.
                      Triple-expect frame token_pipe refl
                        (λ n' e _. Triple-pure frame _ (Standing-Standing (omega arith))))))))))

    pub condition-Consumes :
        (keyword : TokenType)
        → same_token keyword token_eof ≡ false
        → Consumes R (suc bound) (parse_condition fuel expression function_name keyword)
    unfolding parse_condition
    condition-Consumes keyword no_eof n less = Triple-expect frame keyword no_eof (λ n1 e1 _.
        Triple-expect frame token_left_paren refl (λ n2 e2 _.
          Triple-then frame (consumes n2 (omega arith)) (λ condition n3 lower.
            Triple-bind frame {Q = λ _. Standing n3}
              (Triple-if frame
                (not (same_type (type_of condition) bool) && not (is_nullable (type_of condition)))
                (Triple-exit frame err_semantic_type)
                (expect-Standing frame token_right_paren refl n3))
              (λ _.
                Triple-bind frame {Q = λ _. Standing n3}
                  (Triple-live frame (same_token token_pipe) refl
                    (λ k e.
                      Triple-bind frame (pipe-Place condition k)
                        (λ d. Triple-pure frame _ (Standing-Standing (omega arith))))
                    (Triple-return frame none))
                  (λ declaration. Triple-pure frame _ (Standing-Before (omega arith)))))))
