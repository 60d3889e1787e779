-- ===== src/Ial/Stack.antt =====
-- The stacks of 2/IAL/2 (stack.h, which the repository does not hold), behind what the iterative
-- functions rely on: last in, first out, and no limit that a traversal meets.
use mathlib.Core.Path.{◌≡◌}
use mathlib.Core.Bool.{Bool, true, false}
use mathlib.Core.List.{List, [], ◌∷◌}

pub record StackOps (A : Type 0) : Type 1 where
  pub Stack : Type 0
  pub init : Stack
  pub push : Stack → A → Stack
  pub pop : Stack → A × Stack
  pub is_empty : Stack → Bool
  pub is_empty-init : is_empty init ≡ true
  pub is_empty-push : (s : Stack) (a : A) → is_empty (push s a) ≡ false
  pub pop-push : (s : Stack) (a : A) → pop (push s a) ≡ (a, s)

module _ {A : Type 0} (ops : StackOps A) where
  -- The stack that holds the list, its first element on top.
  unfoldable pub pushes : List A → ops.Stack
  pushes [] = ops.init
  pushes (x ∷ xs) = ops.push (pushes xs) x

  pub is_empty-nil : ops.is_empty (pushes []) ≡ true
  unfolding pushes
  is_empty-nil = ops.is_empty-init

  pub is_empty-cons : (x : A) (xs : List A) → ops.is_empty (pushes (x ∷ xs)) ≡ false
  unfolding pushes
  is_empty-cons x xs = ops.is_empty-push (pushes xs) x

  pub pop-cons : (x : A) (xs : List A) → ops.pop (pushes (x ∷ xs)) ≡ (x, pushes xs)
  unfolding pushes
  pop-cons x xs = ops.pop-push (pushes xs) x
