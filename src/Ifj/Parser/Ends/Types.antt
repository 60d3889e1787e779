-- ===== src/Ifj/Parser/Ends/Types.antt =====
-- 2/IFJ/parser.c: the parse of types, and the checks and insertions of a declaration, stay in the frame.
use vut_projects.Base.{
  ℕ, suc, ◌≡◌, refl, Bool, false, not, ◌&&◌, ◌||◌, Option, none, some, arith, if◌then◌else◌, Text,
}
use vut_projects.Ifj.Run.{err_syntax, err_semantic_type, err_semantic_infer}
use vut_projects.Ifj.Ast.{
  DataType, Node, null, int, float, void, u8, unknown, same_type, type_of, is_node, node_literal,
}
use vut_projects.Ifj.Symtable.{Symbol}
use vut_projects.Ifj.Scanner.{
  TokenType, token_eof, token_assign, token_i32, token_f64, token_u8, token_void, token_question,
}
use vut_projects.Ifj.Parser.{Parser, expect_token, same_token}
use vut_projects.Ifj.Parser.Types.{
  can_assign_type, take_type, parse_nullable_type, parse_type, parse_return_type,
}
use vut_projects.Ifj.Parser.Operations.{check_and_convert_expression}
use vut_projects.Ifj.Parser.Statements.{
  is_underscore, or_null, declare_variable, declared_or_inferred,
}
use vut_projects.Ifj.Parser.Ends.Expressions.{convert-Keeps}
use vut_projects.Ifj.Parser.Logic.{
  Place, Standing, Live, Standing-Standing, IsFrame, Triple, Triple-pure, Triple-return,
  Triple-exit, Triple-crash, Triple-weaken, Triple-bind, Triple-if, Triple-option, Triple-when,
  Triple-live,
}
use vut_projects.Ifj.Parser.Logic.Actions.{Triple-get, Triple-get_any, Triple-malloc, Triple-insert}

module _ {R : Parser → Parser → Type 0} (frame : IsFrame R) where
  pub or_null-Keeps : {P : Place} (found : Option Symbol) → Triple R P (or_null found) (λ _. P)
  or_null-Keeps none = Triple-crash frame
  or_null-Keeps (some symbol) = Triple-return frame symbol

  pub underscore-Keeps : {P : Place} (symbol : Symbol) → Triple R P (is_underscore symbol) (λ _. P)
  underscore-Keeps symbol =
      Triple-option frame symbol.name (Triple-crash frame) (λ name. Triple-return frame _)

  pub declare_variable-Keeps :
      {P : Place} (name function_name : Text) (type : DataType) (constant : Bool) (node : Node)
      → Triple R P (declare_variable name function_name type constant node) (λ _. P)
  unfolding declare_variable
  declare_variable-Keeps name function_name type constant node =
      Triple-bind frame (Triple-malloc frame) (λ (_, g). Triple-insert frame name _ refl)

  pub declared_or_inferred-Keeps :
      {P : Place} (is_var : Bool) (type : DataType) (node : Node)
      → Triple R P (declared_or_inferred is_var type node) (λ _. P)
  unfolding declared_or_inferred
  declared_or_inferred-Keeps is_var type node =
      let expr_type = type_of node in
      let infers = same_type type unknown in
      Triple-if frame
        ((not infers && not (same_type expr_type type) && not (can_assign_type type expr_type))
          || (infers && same_type expr_type void))
        (Triple-exit frame err_semantic_type)
        (Triple-if frame (infers && (same_type expr_type unknown || same_type expr_type null))
          (Triple-exit frame err_semantic_infer)
          (Triple-if frame (is_node node_literal node && same_type expr_type u8)
            (Triple-exit frame err_semantic_infer)
            (Triple-if frame (is_var && same_type expr_type unknown)
              (Triple-exit frame err_semantic_type)
              (Triple-return frame (if infers then expr_type else type)))))

  pub expect-Standing :
      (type : TokenType)
      → same_token type token_eof ≡ false
      → (n : ℕ) → Triple R (Standing n) (expect_token type) (λ _. Standing n)
  unfolding expect_token
  expect-Standing type no_eof n =
      Triple-when frame (same_token type) (Triple-get_any frame) (Triple-exit frame err_syntax)

  take_type-Place :
      (type : DataType) (n n' : ℕ)
      → n ≡ suc n'
      → Triple R (Live n') (take_type type) (λ _. Standing n)
  take_type-Place type n n' e =
      Triple-bind frame (Triple-get frame)
        (λ _. Triple-pure frame type (Standing-Standing (omega arith)))

  nullable_type-Place :
      (n n' : ℕ) → n ≡ suc n' → Triple R (Live n') parse_nullable_type (λ _. Standing n)
  unfolding parse_nullable_type
  nullable_type-Place n n' e = Triple-bind frame (Triple-get frame) (λ _.
      Triple-weaken frame
        (Triple-live frame (same_token token_i32) refl (take_type-Place _ n') (
          Triple-live frame (same_token token_f64) refl (take_type-Place _ n') (
            Triple-live frame (same_token token_u8) refl (take_type-Place _ n')
              (Triple-exit frame err_syntax))))
        (λ s t at_p. at_p) (λ a. Standing-Standing (omega arith)))

  pub type-Place : (n : ℕ) → Triple R (Standing n) parse_type (λ _. Standing n)
  unfolding parse_type
  type-Place n = Triple-live frame (same_token token_i32) refl (take_type-Place _ n) (
      Triple-live frame (same_token token_f64) refl (take_type-Place _ n) (
        Triple-live frame (same_token token_u8) refl (take_type-Place _ n) (
          Triple-live frame (same_token token_void) refl (take_type-Place _ n) (
            Triple-live frame (same_token token_assign) refl (take_type-Place _ n) (
              Triple-live frame (same_token token_question) refl (nullable_type-Place n)
                (Triple-exit frame err_syntax))))))

  pub return_type-Place : (n : ℕ) → Triple R (Standing n) parse_return_type (λ _. Standing n)
  unfolding parse_return_type
  return_type-Place n = Triple-live frame (same_token token_i32) refl (take_type-Place _ n) (
      Triple-live frame (same_token token_f64) refl (take_type-Place _ n) (
        Triple-live frame (same_token token_u8) refl (take_type-Place _ n) (
          Triple-live frame (same_token token_void) refl (take_type-Place _ n) (
            Triple-live frame (same_token token_question) refl (nullable_type-Place n)
              (Triple-exit frame err_syntax)))))

  pub check_and_convert-Keeps :
      {P : Place} (node : Node) (type : DataType)
      → Triple R P (check_and_convert_expression node type) (λ _. P)
  unfolding check_and_convert_expression
  check_and_convert-Keeps node type =
      Triple-if frame (not (can_assign_type type (type_of node)))
        (Triple-exit frame err_semantic_type)
        (Triple-if frame (same_type type float && same_type (type_of node) int)
          (convert-Keeps frame node) (Triple-return frame node))
