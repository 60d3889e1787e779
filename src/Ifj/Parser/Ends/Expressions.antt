-- ===== src/Ifj/Parser/Ends/Expressions.antt =====
-- 2/IFJ/parser.c: the parse of an expression ends and stays in the frame.
use vut_projects.Base.{
  ℕ, zero, suc, ◌≤◌, ◌<◌, ◌≡◌, refl, Bool, false, not, ◌&&◌, ◌||◌, arith, if◌then◌else◌, Text,
}
use vut_projects.Ifj.Run.{err_syntax, err_semantic_type}
use vut_projects.Ifj.Ast.{
  DataType, Node, null, int, float, u8, bool, same_type, type_of, set_data_type, is_node,
  node_literal,
}
use vut_projects.Ifj.Parser.Types.{is_nullable}
use vut_projects.Ifj.Scanner.{
  TokenType, token_eof, token_int_literal, token_float_literal, token_string_literal,
  token_identifier, token_left_paren, token_right_paren, token_null,
}
use vut_projects.Ifj.Parser.{Parser, Parse, ◌>>=◌, same_token}
use vut_projects.Ifj.Parser.Operations.{
  base_type, is_boolean, convert_to_float_node, create_typed, convert_if, compare_nodes,
  calculate_nodes, perform_type_checking_and_create_node,
}
use vut_projects.Ifj.Parser.Expressions.{
  is_function, parse_literal, parse_name, parse_primary_expression, operators_loop,
  is_multiplicative, is_additive, is_relational, is_equal_or_not, parse_multiplicative,
  parse_additive, parse_relational, parse_equality, parse_expression,
}
use vut_projects.Ifj.Parser.Ends.Calls.{
  is_builtin-Place, parse_idendifier-Place, builtin_call-Place, function_call-Place,
}
use vut_projects.Ifj.Parser.Logic.{
  Place, Standing, Live, Before, Standing-Standing, Standing-Before, IsFrame, Triple, Triple-pure,
  Triple-return, Triple-exit, Triple-weaken, Triple-bind, Triple-if, Triple-branch, Triple-option,
  Triple-then, Triple-live, Consumes,
}
use vut_projects.Ifj.Parser.Logic.Actions.{
  Triple-get, Triple-expect, Triple-lexeme, Triple-malloc, Triple-search,
}

module _ {R : Parser → Parser → Type 0} (frame : IsFrame R) where
  pub convert-Keeps : {P : Place} (node : Node) → Triple R P (convert_to_float_node node) (λ _. P)
  unfolding convert_to_float_node
  convert-Keeps node =
      Triple-if frame (not (same_type (type_of node) int)) (Triple-exit frame err_semantic_type)
        (Triple-bind frame (Triple-malloc frame) (λ block. Triple-return frame _))

  create_typed-Keeps :
      {P : Place} (op : Text) (left right : Node) (type : DataType)
      → Triple R P (create_typed op left right type) (λ _. P)
  unfolding create_typed
  create_typed-Keeps op left right type =
      Triple-bind frame (Triple-malloc frame) (λ block. Triple-return frame _)

  convert_if-Keeps :
      {P : Place} (test : Bool) (node : Node) (base : DataType)
      → Triple R P (convert_if test node base) (λ _. P)
  unfolding convert_if
  convert_if-Keeps test node base =
      Triple-if frame test (Triple-bind frame (convert-Keeps node) (λ n. Triple-return frame _))
        (Triple-return frame _)

  compare-Keeps :
      {P : Place} (op : Text) (left right : Node)
      → Triple R P (compare_nodes op left right) (λ _. P)
  unfolding compare_nodes
  compare-Keeps op left right =
      Triple-if frame _
        (Triple-if frame _ (create_typed-Keeps op left right bool)
          (Triple-exit frame err_semantic_type))
        (Triple-bind frame (convert_if-Keeps _ left _) (λ l.
          Triple-bind frame (convert_if-Keeps _ right _) (λ r.
            Triple-if frame _ (Triple-exit frame err_semantic_type)
              (create_typed-Keeps op l.0 r.0 bool))))

  calculate-Keeps :
      {P : Place} (op : Text) (left right : Node)
      → Triple R P (calculate_nodes op left right) (λ _. P)
  unfolding calculate_nodes
  calculate-Keeps op left right =
      let lb = base_type (type_of left) in
      let rb = base_type (type_of right) in
      Triple-if frame
        (is_nullable (type_of left)
          || is_nullable (type_of right)
          || same_type (type_of left) null
          || same_type (type_of right) null)
        (Triple-exit frame err_semantic_type)
        (Triple-if frame (same_type lb rb)
          (Triple-if frame (same_type lb int || same_type lb float)
            (create_typed-Keeps op left right (if is_boolean op then bool else lb))
            (Triple-exit frame err_semantic_type))
          (Triple-if frame
            ((same_type lb int && same_type rb float) || (same_type lb float && same_type rb int))
            (Triple-if frame (same_type lb int && is_node node_literal left)
              (Triple-bind frame (convert-Keeps left)
                (λ l. create_typed-Keeps op l right (if is_boolean op then bool else float)))
              (Triple-if frame (same_type rb int && is_node node_literal right)
                (Triple-bind frame (convert-Keeps right)
                  (λ r. create_typed-Keeps op left r (if is_boolean op then bool else float)))
                (Triple-exit frame err_semantic_type)))
            (Triple-exit frame err_semantic_type)))

  pub perform-Keeps :
      {P : Place} (op : Text) (left right : Node)
      → Triple R P (perform_type_checking_and_create_node op left right) (λ _. P)
  unfolding perform_type_checking_and_create_node
  perform-Keeps op left right =
      Triple-if frame _ (Triple-exit frame err_semantic_type)
        (Triple-if frame _ (compare-Keeps op left right) (calculate-Keeps op left right))

  literal-Place :
      (type : DataType) (n : ℕ) → Triple R (Live n) (parse_literal type) (λ _. Standing n)
  unfolding parse_literal
  literal-Place type n = Triple-bind frame (Triple-lexeme frame) (λ value.
      Triple-bind frame (Triple-malloc frame)
        (λ block. Triple-bind frame (Triple-get frame) (λ _. Triple-return frame _)))

  literal-Before :
      (type : DataType) (n n' : ℕ)
      → n ≡ suc n'
      → Triple R (Live n') (parse_literal type) (λ _. Before n)
  literal-Before type n n' e =
      Triple-weaken frame (literal-Place type n') (λ s t at_p. at_p)
        (λ a. Standing-Before (omega arith))

  -- The loop over operators whose operands consume something.
  operators-Place :
      (fuel bound : ℕ) (is_operator : TokenType → Bool) (finish : Node → Node)
      {operand : Parse Node}
      → is_operator token_eof ≡ false
      → Consumes R bound operand
      → (n : ℕ) → n < bound
      → n < fuel
      → (node : Node)
      → Triple R
          (Standing n)
          (operators_loop fuel is_operator finish operand node)
          (λ _. Standing n)
  unfolding operators_loop
  operators-Place zero bound is_operator finish no_eof consumes n less less' node =
      absurd (omega arith)
  operators-Place (suc fuel) bound is_operator finish no_eof consumes n less less' node =
      Triple-live frame is_operator no_eof
        (λ n' e. Triple-bind frame (Triple-lexeme frame) (λ op.
          Triple-bind frame (Triple-get frame) (λ _.
            Triple-then frame (consumes n' (omega arith)) (λ right n'' lower.
              Triple-bind frame (perform-Keeps op node right) (λ joined.
                Triple-weaken frame
                  (operators-Place fuel bound is_operator finish no_eof consumes n'' (omega arith)
                    (omega arith) (finish joined))
                  (λ s t at_p. at_p) (λ a. Standing-Standing (omega arith)))))))
        (Triple-return frame _)

  module _ {bound fuel : ℕ} {expression : Parse Node} (consumes : Consumes R bound expression)
      (enough : bound < fuel) (function_name : Text) where
    name-Place :
        (n : ℕ)
        → n ≤ bound
        → Triple R (Live n) (parse_name fuel expression function_name) (λ _. Standing n)
    unfolding parse_name
    name-Place n less = Triple-bind frame (Triple-lexeme frame) (λ name.
        Triple-bind frame (is_builtin-Place frame name n) (λ b.
          Triple-branch frame b (builtin_call-Place frame consumes (omega arith) n less) (
            Triple-bind frame (Triple-search frame name) (λ found.
              Triple-option frame found (parse_idendifier-Place frame function_name n) (λ symbol.
                Triple-if frame (is_function symbol)
                  (function_call-Place frame consumes (omega arith) symbol n less)
                  (parse_idendifier-Place frame function_name n))))))

    primary-Consumes :
        Consumes R (suc bound) (parse_primary_expression fuel expression function_name)
    unfolding parse_primary_expression
    primary-Consumes n less =
        let literal = λ (type : DataType). literal-Before type n in
        Triple-live frame (same_token token_int_literal) refl (literal int) (
          Triple-live frame (same_token token_float_literal) refl (literal float) (
            Triple-live frame (same_token token_string_literal) refl (literal u8) (
              Triple-live frame (same_token token_identifier) refl
                (λ n' e.
                  Triple-weaken frame (name-Place n' (omega arith)) (λ s t at_p. at_p)
                    (λ a. Standing-Before (omega arith)))
                (Triple-live frame (same_token token_left_paren) refl
                  (λ n' e. Triple-bind frame (Triple-get frame) (λ _.
                    Triple-then frame (consumes n' (omega arith)) (λ inner n'' lower.
                      Triple-expect frame token_right_paren refl
                        (λ k e' _. Triple-pure frame _ (Standing-Before (omega arith))))))
                  (Triple-live frame (same_token token_null) refl (literal null)
                    (Triple-exit frame err_syntax))))))

    level-Consumes :
        (is_operator : TokenType → Bool) (finish : Node → Node) {operand : Parse Node}
        → is_operator token_eof ≡ false
        → Consumes R (suc bound) operand
        → Consumes R (suc bound) (operand >>= operators_loop fuel is_operator finish operand)
    level-Consumes is_operator finish no_eof operand n less =
        Triple-then frame (operand n less) (λ node n' lower.
          Triple-weaken frame
            (operators-Place fuel (suc bound) is_operator finish no_eof operand n' (omega arith)
              (omega arith) node)
            (λ s t at_p. at_p) (λ a. Standing-Before (omega arith)))

    equality-Consumes : Consumes R (suc bound) (parse_equality fuel expression function_name)
    unfolding parse_equality parse_relational parse_additive parse_multiplicative
    equality-Consumes = level-Consumes is_equal_or_not (set_data_type bool) refl (
        level-Consumes is_relational (set_data_type bool) refl (
          level-Consumes is_additive (λ node. node) refl
            (level-Consumes is_multiplicative (λ node. node) refl primary-Consumes)))

  pub expression-Consumes :
      (fuel : ℕ) (function_name : Text) → Consumes R fuel (parse_expression fuel function_name)
  unfolding parse_expression
  expression-Consumes zero function_name n less = absurd (omega arith)
  expression-Consumes (suc fuel) function_name n less =
      equality-Consumes (expression-Consumes fuel function_name) (omega arith) function_name n less
