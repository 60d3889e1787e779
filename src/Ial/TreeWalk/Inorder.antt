-- ===== src/Ial/TreeWalk/Inorder.antt =====
-- 2/IAL/2/btree-iter.c: bst_inorder.
use vut_projects.Base.{
  ℕ, zero, suc, ◌+◌, ◌<◌, ◌≡◌, refl, ◌∙◌, ap, Bool, true, false, some, List, [], ◌∷◌, arith,
  if◌then◌else◌,
}
use vut_projects.Ial.Stack.{StackOps, pushes, is_empty-nil, is_empty-cons, pop-cons}
use vut_projects.Ial.Tree
use vut_projects.Ial.Tree.{Tree, leaf, node, is_node}
use vut_projects.Ial.Tree.Traverse.{size}
use vut_projects.Ial.TreeWalk.Spine.{spine, AllNodes, weight, spine-AllNodes, weight-spine}
use vut_projects.Ial.TreeWalk.{bst_leftmost_inorder, inorder_loop, bst_inorder}

module _ {V : Type 0} (ops : StackOps (Tree V)) where
  leftmost-eq :
      (t : Tree V) (ts : List (Tree V))
      → bst_leftmost_inorder ops t (pushes ops ts) ≡ pushes ops (spine t ts)
  unfolding bst_leftmost_inorder spine pushes
  leftmost-eq leaf ts = refl
  leftmost-eq (node l c w r) ts = leftmost-eq l (node l c w r ∷ ts)

  guarded-eq :
      (r : Tree V) (ts : List (Tree V))
      → (if is_node r then bst_leftmost_inorder ops r (pushes ops ts) else pushes ops ts)
        ≡ pushes ops (spine r ts)
  unfolding spine
  guarded-eq leaf ts = refl
  guarded-eq (node l c w r) ts = leftmost-eq (node l c w r) ts

  module _ {Items : Type 0} (add : ℕ × V → Items → Items) where
    -- The items once all that the stack still leads to is done.
    pending : List (Tree V) → Items → Items
    pending [] items = items
    pending (leaf ∷ ts) items = pending ts items
    pending (node l c w r ∷ ts) items = pending ts (Tree.bst_inorder add r (add (c, w) items))

    pending-spine :
        (t : Tree V) (ts : List (Tree V)) (items : Items)
        → pending (spine t ts) items ≡ pending ts (Tree.bst_inorder add t items)
    unfolding spine pending Tree.bst_inorder
    pending-spine leaf ts items = refl
    pending-spine (node l c w r) ts items = pending-spine l (node l c w r ∷ ts) items

    inorder_loop-pending :
        (fuel : ℕ) (ts : List (Tree V)) (items : Items)
        → AllNodes ts
        → weight ts < fuel
        → inorder_loop ops add fuel (pushes ops ts) items ≡ some (pending ts items)
    unfolding inorder_loop pending weight
    inorder_loop-pending zero ts items a h = absurd (omega arith)
    inorder_loop-pending (suc fuel) [] items a h = rw (is_empty-nil ops, inorder_loop)
    inorder_loop-pending (suc fuel) (leaf ∷ ts) items a h = cc
    inorder_loop-pending (suc fuel) (node l c w r ∷ ts) items a h =
        rw (is_empty-cons ops _ ts, pop-cons ops _ ts, inorder_loop)
          (rw (pop-cons ops _ ts, guarded-eq r ts)
            (inorder_loop-pending fuel (spine r ts) (add (c, w) items) (spine-AllNodes r ts a.1)
                (omega (arith, weight-spine r ts))
              ∙ ap some (pending-spine r ts (add (c, w) items))))

    -- With memory for its stack the iterative inorder traversal ends, follows no null pointer and
    -- adds what the recursive one adds. Without it nothing is added.
    pub inorder-eq_recursive :
        (allocated : Bool) (t : Tree V) (items : Items)
        → bst_inorder ops add allocated t items
          ≡ some (if allocated then Tree.bst_inorder add t items else items)
    unfolding bst_inorder pushes weight pending Tree.bst_inorder
    inorder-eq_recursive true leaf items = refl
    inorder-eq_recursive false leaf items = refl
    inorder-eq_recursive false (node l c w r) items = refl
    inorder-eq_recursive true (node l c w r) items =
        let t = node l c w r in
        rw (leftmost-eq t []) (
          inorder_loop-pending (size t + 1) (spine t []) items (spine-AllNodes t [] tt)
            (omega (arith, weight-spine t []))
          ∙ ap some (pending-spine t [] items))
