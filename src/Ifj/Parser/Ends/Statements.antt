-- ===== src/Ifj/Parser/Ends/Statements.antt =====
-- 2/IFJ/parser.c: the parse of a block ends and stays in the frame.
use vut_projects.Base.{
  ℕ, zero, suc, ◌≤◌, ◌<◌, refl, Bool, true, false, ◌||◌, Option, none, some, arith, Text,
}
use vut_projects.Ifj.Run.{err_syntax, err_semantic_type}
use vut_projects.Ifj.Ast.{Node, nil}
use vut_projects.Ifj.Scanner.{
  token_var, token_const, token_if, token_else, token_while, token_return, token_identifier,
  token_left_brace, token_right_brace,
}
use vut_projects.Ifj.Parser.{Parser, Parse, same_token}
use vut_projects.Ifj.Parser.Expressions.{parse_expression}
use vut_projects.Ifj.Parser.Statements.{parse_variable_declaration}
use vut_projects.Ifj.Parser.Blocks.{
  put_declaration, scoped_block, parse_if_statement, parse_while_statement, parse_statement,
  statements_loop, block_rest, parse_block,
}
use vut_projects.Ifj.Parser.Ends.Expressions.{expression-Consumes}
use vut_projects.Ifj.Parser.Logic.{
  Place, Standing, Standing-Standing, Standing-Before, IsFrame, Triple, Triple-pure, Triple-return,
  Triple-exit, Triple-weaken, Triple-bind, Triple-if, Triple-then, Triple-when, Triple-live,
  Consumes,
}
use vut_projects.Ifj.Parser.Logic.Actions.{
  Triple-get, Triple-expect, Triple-malloc, Triple-in_scope,
}
use vut_projects.Ifj.Parser.Ends.Assignments.{
  condition-Consumes, declare-Place, return-Consumes, assigning-Place,
}

module _ {R : Parser → Parser → Type 0} (frame : IsFrame R) where
  module _ {bound fuel : ℕ} {expression : Parse Node} (consumes : Consumes R bound expression)
      (enough : bound ≤ fuel) (function_name : Text) where
    put_declaration-Keeps :
        {P : Place} (condition : Node) (declaration : Option Node) (block : Node)
        → Triple R P
            (put_declaration fuel expression function_name condition declaration block)
            (λ _. P)
    unfolding put_declaration
    put_declaration-Keeps condition none block = Triple-return frame _
    put_declaration-Keeps condition (some declaration) block =
        Triple-bind frame (Triple-malloc frame) (λ _. Triple-return frame _)

    module _ {block : Bool → Parse Node} (blocks : (b : Bool) → Consumes R bound (block b)) where
      scoped-Consumes : Consumes R bound (scoped_block fuel expression function_name block)
      unfolding scoped_block
      scoped-Consumes n less = Triple-in_scope frame (blocks true n less)

      if-Consumes : Consumes R (suc bound) (parse_if_statement fuel expression function_name block)
      unfolding parse_if_statement
      if-Consumes n less =
          Triple-then frame
            (condition-Consumes frame consumes enough function_name token_if refl n less)
            (λ (condition, declaration) n1 l1.
              Triple-then frame (scoped-Consumes n1 (omega arith)) (λ parsed n2 l2.
                Triple-bind frame (put_declaration-Keeps condition declaration parsed)
                  (λ (declared, true_block).
                    Triple-bind frame {Q = λ _. Standing n2}
                      (Triple-live frame (same_token token_else) refl
                        (λ k e. Triple-bind frame (Triple-get frame) (λ _.
                          Triple-then frame (scoped-Consumes k (omega arith))
                            (λ b k' l3. Triple-pure frame _ (Standing-Standing (omega arith)))))
                        (Triple-return frame nil))
                      (λ false_block.
                        Triple-bind frame {Q = λ _. Standing n2}
                          (Triple-if frame _ (Triple-exit frame err_semantic_type)
                            (Triple-malloc frame))
                          (λ (address, g). Triple-pure frame _ (Standing-Before (omega arith)))))))

      while-Consumes :
          Consumes R (suc bound) (parse_while_statement fuel expression function_name block)
      unfolding parse_while_statement
      while-Consumes n less =
          Triple-then frame
            (condition-Consumes frame consumes enough function_name token_while refl n less)
            (λ (condition, declaration) n1 l1.
              Triple-then frame (scoped-Consumes n1 (omega arith)) (λ parsed n2 l2.
                Triple-bind frame (put_declaration-Keeps condition declaration parsed) (λ (_, body).
                  Triple-bind frame (Triple-malloc frame)
                    (λ (address, g). Triple-pure frame _ (Standing-Before (omega arith))))))

      statement-Consumes :
          Consumes R (suc bound) (parse_statement fuel expression function_name block)
      unfolding parse_statement parse_variable_declaration
      statement-Consumes n less =
          Triple-live frame (λ t. same_token token_var t || same_token token_const t) refl
            (λ n' e.
              Triple-weaken frame
                (Triple-when frame (same_token token_var)
                  (declare-Place frame consumes enough function_name true n' (omega arith))
                  (declare-Place frame consumes enough function_name false n' (omega arith)))
                (λ s t at_p. at_p) (λ a. Standing-Before (omega arith)))
            (Triple-when frame (same_token token_if) (if-Consumes n less) (
              Triple-when frame (same_token token_while) (while-Consumes n less) (
                Triple-when frame (same_token token_return)
                  (return-Consumes frame consumes enough function_name n less)
                  (Triple-live frame (same_token token_identifier) refl
                    (λ n' e.
                      Triple-weaken frame
                        (assigning-Place frame consumes enough function_name n' (omega arith))
                        (λ s t at_p. at_p) (λ a. Standing-Before (omega arith)))
                    (Triple-exit frame err_syntax)))))

  statements_loop-Place :
      {bound : ℕ} {statement : Parse Node} (turns : ℕ)
      → Consumes R bound statement
      → (n : ℕ) → n < turns
      → n < bound
      → Triple R (Standing n) (statements_loop turns statement) (λ _. Standing n)
  unfolding statements_loop
  statements_loop-Place zero consumes n less less' = absurd (omega arith)
  statements_loop-Place (suc turns) consumes n less less' =
      Triple-when frame (same_token token_right_brace) (Triple-return frame nil) (
        Triple-then frame (consumes n less') (λ first k lower.
          Triple-bind frame (statements_loop-Place turns consumes k (omega arith) (omega arith))
            (λ rest. Triple-pure frame _ (Standing-Standing (omega arith)))))

  block_rest-Place :
      {bound : ℕ} {statement : Parse Node} (fuel : ℕ)
      → Consumes R bound statement
      → (n : ℕ) → n < fuel
      → n < bound
      → Triple R (Standing n) (block_rest fuel statement) (λ _. Standing n)
  unfolding block_rest
  block_rest-Place fuel consumes n less less' =
      Triple-bind frame (Triple-malloc frame) (λ (address, g).
        Triple-bind frame (statements_loop-Place fuel consumes n less less') (λ statements.
          Triple-expect frame token_right_brace refl
            (λ n' e _. Triple-pure frame _ (Standing-Standing (omega arith)))))

  pub block-Consumes :
      (fuel : ℕ) (function_name : Text) (enter_new_scope : Bool)
      → Consumes R fuel (parse_block fuel function_name enter_new_scope)
  unfolding parse_block
  block-Consumes zero function_name enter_new_scope n less = absurd (omega arith)
  block-Consumes (suc fuel) function_name enter_new_scope n less =
      let expression : Consumes R fuel (parse_expression (suc fuel) function_name) =
        λ k lower. expression-Consumes frame (suc fuel) function_name k (omega arith) in
      let rest = block_rest-Place (suc fuel) (
        statement-Consumes expression (omega arith) function_name
          (block-Consumes fuel function_name)) in
      Triple-expect frame token_left_brace refl (λ n' e _.
        Triple-weaken frame
          (Triple-if frame enter_new_scope
            (Triple-in_scope frame (rest n' (omega (arith, less, e)) (omega (arith, less, e))))
            (rest n' (omega (arith, less, e)) (omega (arith, less, e))))
          (λ s t at_p. at_p) (λ a. Standing-Before (omega (arith, e))))
