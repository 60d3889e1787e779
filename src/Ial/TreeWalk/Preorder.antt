-- ===== src/Ial/TreeWalk/Preorder.antt =====
-- 2/IAL/2/btree-iter.c: bst_preorder.
use vut_projects.Base.{
  ℕ, zero, suc, ◌+◌, ◌<◌, ◌≡◌, refl, ◌∙◌, ap, Bool, true, false, some, List, [], ◌∷◌, arith,
  if◌then◌else◌,
}
use vut_projects.Ial.Stack.{StackOps, pushes, is_empty-nil, is_empty-cons, pop-cons}
use vut_projects.Ial.Tree
use vut_projects.Ial.Tree.{Tree, leaf, node, is_node}
use vut_projects.Ial.Tree.Traverse.{size}
use vut_projects.Ial.TreeWalk.Spine.{spine, AllNodes, weight, spine-AllNodes, weight-spine}
use vut_projects.Ial.TreeWalk.{bst_leftmost_preorder, preorder_loop, bst_preorder}

module _ {V : Type 0} (ops : StackOps (Tree V)) {Items : Type 0} (add : ℕ × V → Items → Items) where
  -- The items once the left side of the tree is done.
  add_spine : Tree V → Items → Items
  add_spine leaf items = items
  add_spine (node l c w r) items = add_spine l (add (c, w) items)

  -- The items once all that the stack still leads to is done.
  pending : List (Tree V) → Items → Items
  pending [] items = items
  pending (leaf ∷ ts) items = pending ts items
  pending (node l c w r ∷ ts) items = pending ts (Tree.bst_preorder add r items)

  leftmost-eq :
      (t : Tree V) (ts : List (Tree V)) (items : Items)
      → bst_leftmost_preorder ops add t (pushes ops ts) items
        ≡ (pushes ops (spine t ts), add_spine t items)
  unfolding bst_leftmost_preorder spine add_spine pushes
  leftmost-eq leaf ts items = refl
  leftmost-eq (node l c w r) ts items = leftmost-eq l (node l c w r ∷ ts) (add (c, w) items)

  pending-spine :
      (t : Tree V) (ts : List (Tree V)) (items : Items)
      → pending (spine t ts) (add_spine t items) ≡ pending ts (Tree.bst_preorder add t items)
  unfolding spine add_spine pending Tree.bst_preorder
  pending-spine leaf ts items = refl
  pending-spine (node l c w r) ts items = pending-spine l (node l c w r ∷ ts) (add (c, w) items)

  -- The test on the right child spares a call that would do nothing.
  guarded-eq :
      (r : Tree V) (ts : List (Tree V)) (items : Items)
      → (if is_node r
          then bst_leftmost_preorder ops add r (pushes ops ts) items
          else (pushes ops ts, items))
        ≡ (pushes ops (spine r ts), add_spine r items)
  unfolding spine add_spine
  guarded-eq leaf ts items = refl
  guarded-eq (node l c w r) ts items = leftmost-eq (node l c w r) ts items

  preorder_loop-pending :
      (fuel : ℕ) (ts : List (Tree V)) (items : Items)
      → AllNodes ts
      → weight ts < fuel
      → preorder_loop ops add fuel (pushes ops ts) items ≡ some (pending ts items)
  unfolding preorder_loop pending weight
  preorder_loop-pending zero ts items a h = absurd (omega arith)
  preorder_loop-pending (suc fuel) [] items a h = rw (is_empty-nil ops, preorder_loop)
  preorder_loop-pending (suc fuel) (leaf ∷ ts) items a h = cc
  preorder_loop-pending (suc fuel) (node l c w r ∷ ts) items a h =
      rw (is_empty-cons ops _ ts, pop-cons ops _ ts, preorder_loop)
        (rw (pop-cons ops _ ts, guarded-eq r ts items)
          (preorder_loop-pending fuel (spine r ts) (add_spine r items) (spine-AllNodes r ts a.1)
              (omega (arith, weight-spine r ts))
            ∙ ap some (pending-spine r ts items)))

  -- With memory for its stack the iterative preorder traversal ends, follows no null pointer and
  -- adds what the recursive one adds. Without it nothing is added.
  pub preorder-eq_recursive :
      (allocated : Bool) (t : Tree V) (items : Items)
      → bst_preorder ops add allocated t items
        ≡ some (if allocated then Tree.bst_preorder add t items else items)
  unfolding bst_preorder pushes weight pending Tree.bst_preorder
  preorder-eq_recursive true leaf items = refl
  preorder-eq_recursive false leaf items = refl
  preorder-eq_recursive false (node l c w r) items = refl
  preorder-eq_recursive true (node l c w r) items =
      let t = node l c w r in
      rw (leftmost-eq t [] items) (
        preorder_loop-pending (size t + 1) (spine t []) (add_spine t items) (spine-AllNodes t [] tt)
          (omega (arith, weight-spine t []))
        ∙ ap some (pending-spine t [] items))
