-- ===== src/Ial/TreeWalk/Postorder.antt =====
-- 2/IAL/2/btree-iter.c: bst_postorder, whose second stack says which nodes come for the first time.
use vut_projects.Base.{
  ℕ, zero, suc, ◌+◌, ◌*◌, ◌<◌, ◌≡◌, refl, ◌∙◌, ap, Bool, true, false, some, List, [], ◌∷◌, arith,
  ◌&&◌, if◌then◌else◌,
}
use vut_projects.Ial.Stack.{StackOps, pushes, is_empty-nil, is_empty-cons, pop-cons}
use vut_projects.Ial.Tree
use vut_projects.Ial.Tree.{Tree, leaf, node, is_node}
use vut_projects.Ial.Tree.Traverse.{size}
use vut_projects.Ial.TreeWalk.{bst_leftmost_postorder, postorder_loop, bst_postorder}

-- Both stacks as one: each node with its flag.
abbrev Visits : Type 0 → Type 0
Visits V = List (Tree V × Bool)

module _ {V : Type 0} where
  abbrev nodes_of : Visits V → List (Tree V)
  nodes_of [] = []
  nodes_of ((t, b) ∷ vs) = t ∷ nodes_of vs

  abbrev flags_of : Visits V → List Bool
  flags_of [] = []
  flags_of ((t, b) ∷ vs) = b ∷ flags_of vs

  spine_first : Tree V → Visits V → Visits V
  spine_first leaf vs = vs
  spine_first (node l c w r) vs = spine_first l ((node l c w r, true) ∷ vs)

  abbrev AllNodes : Visits V → Type 0
  AllNodes [] = Unit
  AllNodes ((t, b) ∷ vs) = (is_node t ≡ true) × AllNodes vs

  -- How often the loop will pop.
  pops : Visits V → ℕ
  pops [] = 0
  pops ((leaf, b) ∷ vs) = pops vs + 1
  pops ((node l c w r, true) ∷ vs) = 2 * size r + pops vs + 2
  pops ((node l c w r, false) ∷ vs) = pops vs + 1

  spine_first-AllNodes : (t : Tree V) (vs : Visits V) → AllNodes vs → AllNodes (spine_first t vs)
  unfolding spine_first
  spine_first-AllNodes leaf vs a = a
  spine_first-AllNodes (node l c w r) vs a =
      spine_first-AllNodes l ((node l c w r, true) ∷ vs) (refl, a)

  pops-spine_first : (t : Tree V) (vs : Visits V) → pops (spine_first t vs) ≡ 2 * size t + pops vs
  unfolding spine_first pops size
  pops-spine_first leaf vs = omega arith
  pops-spine_first (node l c w r) vs = omega (arith, pops-spine_first l ((node l c w r, true) ∷ vs))

module _ {V : Type 0} (ops : StackOps (Tree V)) (flags : StackOps Bool) where
  leftmost-eq :
      (t : Tree V) (vs : Visits V)
      → bst_leftmost_postorder ops flags t (pushes ops (nodes_of vs)) (pushes flags (flags_of vs))
        ≡ (pushes ops (nodes_of (spine_first t vs)), pushes flags (flags_of (spine_first t vs)))
  unfolding bst_leftmost_postorder spine_first pushes
  leftmost-eq leaf vs = refl
  leftmost-eq (node l c w r) vs = leftmost-eq l ((node l c w r, true) ∷ vs)

  -- The node comes back on the stack, flagged, and the left side of its right subtree above it.
  revisit-eq :
      (t r : Tree V) (vs : Visits V)
      → (let again = ops.push (pushes ops (nodes_of vs)) t in
          let flagged = flags.push (pushes flags (flags_of vs)) false in
          if is_node r then bst_leftmost_postorder ops flags r again flagged else (again, flagged))
        ≡ (let vs' = spine_first r ((t, false) ∷ vs) in
            (pushes ops (nodes_of vs'), pushes flags (flags_of vs')))
  unfolding spine_first pushes
  revisit-eq t leaf vs = refl
  revisit-eq t (node l c w r) vs = leftmost-eq (node l c w r) ((t, false) ∷ vs)

  module _ {Items : Type 0} (add : ℕ × V → Items → Items) where
    -- The items once all that the stacks still lead to is done.
    pending : Visits V → Items → Items
    pending [] items = items
    pending ((leaf, b) ∷ vs) items = pending vs items
    pending ((node l c w r, true) ∷ vs) items =
        pending vs (add (c, w) (Tree.bst_postorder add r items))
    pending ((node l c w r, false) ∷ vs) items = pending vs (add (c, w) items)

    pending-spine_first :
        (t : Tree V) (vs : Visits V) (items : Items)
        → pending (spine_first t vs) items ≡ pending vs (Tree.bst_postorder add t items)
    unfolding spine_first pending Tree.bst_postorder
    pending-spine_first leaf vs items = refl
    pending-spine_first (node l c w r) vs items =
        pending-spine_first l ((node l c w r, true) ∷ vs) items

    postorder_loop-pending :
        (fuel : ℕ) (vs : Visits V) (items : Items)
        → AllNodes vs
        → pops vs < fuel
        → postorder_loop ops flags add fuel
            (pushes ops (nodes_of vs))
            (pushes flags (flags_of vs))
            items
          ≡ some (pending vs items)
    unfolding postorder_loop pending pops
    postorder_loop-pending zero vs items a h = absurd (omega arith)
    postorder_loop-pending (suc fuel) [] items a h = rw (is_empty-nil ops, postorder_loop)
    postorder_loop-pending (suc fuel) ((leaf, b) ∷ vs) items a h = cc
    postorder_loop-pending (suc fuel) ((node l c w r, true) ∷ vs) items a h =
        let t = node l c w r in
        let vs' = spine_first r ((t, false) ∷ vs) in
        rw
          (
            is_empty-cons ops t (nodes_of vs),
            pop-cons ops t (nodes_of vs),
            pop-cons flags true (flags_of vs),
            postorder_loop,
          )
          (rw (pop-cons ops t (nodes_of vs), pop-cons flags true (flags_of vs), revisit-eq t r vs)
            (postorder_loop-pending fuel vs' items (spine_first-AllNodes r _ (refl, a.1))
                (omega (arith, pops-spine_first r ((t, false) ∷ vs)))
              ∙ ap some (pending-spine_first r ((t, false) ∷ vs) items)))
    postorder_loop-pending (suc fuel) ((node l c w r, false) ∷ vs) items a h =
        let t = node l c w r in
        rw
          (
            is_empty-cons ops t (nodes_of vs),
            pop-cons ops t (nodes_of vs),
            pop-cons flags false (flags_of vs),
            postorder_loop,
          )
          (rw (pop-cons ops t (nodes_of vs), pop-cons flags false (flags_of vs))
            (postorder_loop-pending fuel vs (add (c, w) items) a.1 (omega arith)))

    -- With memory for both stacks the iterative postorder traversal ends, follows no null pointer
    -- and adds what the recursive one adds. Without it nothing is added.
    pub postorder-eq_recursive :
        (allocated allocated_bool : Bool) (t : Tree V) (items : Items)
        → bst_postorder ops flags add allocated allocated_bool t items
          ≡ some (if allocated && allocated_bool then Tree.bst_postorder add t items else items)
    unfolding bst_postorder pushes pops pending Tree.bst_postorder
    postorder-eq_recursive true true leaf items = refl
    postorder-eq_recursive true false leaf items = refl
    postorder-eq_recursive false b leaf items = refl
    postorder-eq_recursive true false (node l c w r) items = refl
    postorder-eq_recursive false b (node l c w r) items = refl
    postorder-eq_recursive true true (node l c w r) items =
        let t = node l c w r in
        rw (leftmost-eq t []) (
          postorder_loop-pending (2 * size t + 1) (spine_first t []) items
            (spine_first-AllNodes t [] tt) (omega (arith, pops-spine_first t []))
          ∙ ap some (pending-spine_first t [] items))
