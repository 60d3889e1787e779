-- ===== src/Ial/TreeWalk.antt =====
-- 2/IAL/2/btree-iter.c: disposal and traversals with explicit stacks of node pointers. The loops
-- run on fuel, one unit for each node that is popped; the callers give as much as the tree has
-- nodes, and one for the last test. `none` is a `NULL` pointer followed, or a loop out of fuel.
pub mod Spine
pub mod Preorder
pub mod Inorder
pub mod Postorder
pub mod Dispose
use vut_projects.Base.{
  ℕ, zero, suc, ◌+◌, ◌*◌, Bool, true, false, Option, none, some, List, [], ◌∷◌, ◌++◌, if◌then◌else◌,
}
use vut_projects.Ial.Stack.{StackOps}
use vut_projects.Ial.Tree.{Tree, leaf, node, is_node}
use vut_projects.Ial.Tree.Traverse.{Nodes, size}

module _ {V : Type 0} (ops : StackOps (Tree V)) where
  -- `if (child != NULL) stack_bst_push(stack, child);`
  unfoldable pub push_child : Tree V → ops.Stack → ops.Stack
  push_child t s = if is_node t then ops.push s t else s

  -- The list is of the nodes freed so far, the last one first.
  dispose_loop : ℕ → ops.Stack → Nodes V → Option (Nodes V)
  unfolding push_child
  dispose_loop zero s freed = none
  dispose_loop (suc fuel) s freed = elim (ops.is_empty s) [
    | true ↦ some freed
    | false ↦ elim (ops.pop s).0 [
      | leaf ↦ dispose_loop fuel (ops.pop s).1 freed
      | node l c w r ↦
          dispose_loop fuel (push_child r (push_child l (ops.pop s).1)) ((c, w) ∷ freed)
    ]
  ]

  -- What `*tree` is afterwards, and the nodes freed. Without memory for the stack nothing happens.
  unfoldable pub bst_dispose : (allocated : Bool) → Tree V → Option (Tree V × Nodes V)
  unfolding dispose_loop
  bst_dispose allocated leaf = some (leaf, [])
  bst_dispose false (node l c w r) = some (node l c w r, [])
  bst_dispose true (node l c w r) =
      let t = node l c w r in
      elim (dispose_loop (size t + 1) (ops.push ops.init t) []) [
        | none ↦ none
        | some freed ↦ some (leaf, freed)
      ]

  module _ {Items : Type 0} (add : ℕ × V → Items → Items) where
    unfoldable pub bst_leftmost_preorder : Tree V → ops.Stack → Items → ops.Stack × Items
    bst_leftmost_preorder leaf to_visit items = (to_visit, items)
    bst_leftmost_preorder (node l c w r) to_visit items =
        bst_leftmost_preorder l (ops.push to_visit (node l c w r)) (add (c, w) items)

    preorder_loop : ℕ → ops.Stack → Items → Option Items
    unfolding bst_leftmost_preorder
    preorder_loop zero s items = none
    preorder_loop (suc fuel) s items = elim (ops.is_empty s) [
      | true ↦ some items
      | false ↦ elim (ops.pop s).0 [
        | leaf ↦ none
        | node l c w r ↦
            let next =
              (if is_node r
                then bst_leftmost_preorder r (ops.pop s).1 items
                else ((ops.pop s).1, items)) in
            preorder_loop fuel next.0 next.1
      ]
    ]

    unfoldable pub bst_preorder : (allocated : Bool) → Tree V → Items → Option Items
    unfolding preorder_loop
    bst_preorder allocated leaf items = some items
    bst_preorder false (node l c w r) items = some items
    bst_preorder true (node l c w r) items =
        let t = node l c w r in
        let start = bst_leftmost_preorder t ops.init items in
        preorder_loop (size t + 1) start.0 start.1

  unfoldable pub bst_leftmost_inorder : Tree V → ops.Stack → ops.Stack
  bst_leftmost_inorder leaf to_visit = to_visit
  bst_leftmost_inorder (node l c w r) to_visit =
      bst_leftmost_inorder l (ops.push to_visit (node l c w r))

  module _ {Items : Type 0} (add : ℕ × V → Items → Items) where
    inorder_loop : ℕ → ops.Stack → Items → Option Items
    unfolding bst_leftmost_inorder
    inorder_loop zero s items = none
    inorder_loop (suc fuel) s items = elim (ops.is_empty s) [
      | true ↦ some items
      | false ↦ elim (ops.pop s).0 [
        | leaf ↦ none
        | node l c w r ↦
            inorder_loop fuel
              (if is_node r then bst_leftmost_inorder r (ops.pop s).1 else (ops.pop s).1)
              (add (c, w) items)
      ]
    ]

    unfoldable pub bst_inorder : (allocated : Bool) → Tree V → Items → Option Items
    unfolding inorder_loop
    bst_inorder allocated leaf items = some items
    bst_inorder false (node l c w r) items = some items
    bst_inorder true (node l c w r) items =
        let t = node l c w r in inorder_loop (size t + 1) (bst_leftmost_inorder t ops.init) items

module _ {V : Type 0} (ops : StackOps (Tree V)) (flags : StackOps Bool) where
  unfoldable pub bst_leftmost_postorder : Tree V → ops.Stack → flags.Stack → ops.Stack × flags.Stack
  bst_leftmost_postorder leaf to_visit first_visit = (to_visit, first_visit)
  bst_leftmost_postorder (node l c w r) to_visit first_visit =
      bst_leftmost_postorder l (ops.push to_visit (node l c w r)) (flags.push first_visit true)

  module _ {Items : Type 0} (add : ℕ × V → Items → Items) where
    postorder_loop : ℕ → ops.Stack → flags.Stack → Items → Option Items
    unfolding bst_leftmost_postorder
    postorder_loop zero s b items = none
    postorder_loop (suc fuel) s b items = elim (ops.is_empty s) [
      | true ↦ some items
      | false ↦ elim (ops.pop s).0 [
        | leaf ↦ none
        | node l c w r ↦ elim (flags.pop b).0 [
          | true ↦
              let again = ops.push (ops.pop s).1 (node l c w r) in
              let flagged = flags.push (flags.pop b).1 false in
              let next =
                (if is_node r then bst_leftmost_postorder r again flagged else (again, flagged)) in
              postorder_loop fuel next.0 next.1 items
          | false ↦ postorder_loop fuel (ops.pop s).1 (flags.pop b).1 (add (c, w) items)
        ]
      ]
    ]

    -- Each node is popped twice.
    unfoldable pub bst_postorder : (allocated allocated_bool : Bool) → Tree V → Items → Option Items
    unfolding postorder_loop
    bst_postorder allocated allocated_bool leaf items = some items
    bst_postorder false allocated_bool (node l c w r) items = some items
    bst_postorder true false (node l c w r) items = some items
    bst_postorder true true (node l c w r) items =
        let t = node l c w r in
        let start = bst_leftmost_postorder t ops.init flags.init in
        postorder_loop (2 * size t + 1) start.0 start.1 items
