-- ===== src/Ial/TreeWalk/Dispose.antt =====
-- 2/IAL/2/btree-iter.c: bst_dispose.
use mathlib.Core.List.{append-nil, append_assoc, Perm, perm_middle, perm_append_comm}
use mathlib.Core.List.Perm
use vut_projects.Base.{
  ℕ, zero, suc, ◌+◌, ◌<◌, ◌≡◌, refl, true, false, some, List, [], ◌∷◌, ◌++◌, arith, if◌then◌else◌,
}
use vut_projects.Ial.Stack.{StackOps, pushes, is_empty-nil, is_empty-cons, pop-cons}
use vut_projects.Ial.Tree.{Tree, leaf, node, is_node}
use vut_projects.Ial.Tree.Traverse.{Nodes, size, in_order}
use vut_projects.Ial.TreeWalk.{push_child, dispose_loop, bst_dispose}

module _ {V : Type 0} where
  -- The nodes of the trees on the stack.
  contents : List (Tree V) → Nodes V
  contents [] = []
  contents (t ∷ ts) = in_order t ++ contents ts

  total : List (Tree V) → ℕ
  total [] = 0
  total (t ∷ ts) = size t + total ts

  with_child : Tree V → List (Tree V) → List (Tree V)
  with_child t ts = if is_node t then t ∷ ts else ts

  abbrev AllNodes : List (Tree V) → Type 0
  AllNodes [] = Unit
  AllNodes (t ∷ ts) = (is_node t ≡ true) × AllNodes ts

  with_child_laws :
      (t : Tree V) (ts : List (Tree V))
      → AllNodes ts
      → AllNodes (with_child t ts)
        × (total (with_child t ts) ≡ size t + total ts)
        × (contents (with_child t ts) ≡ in_order t ++ contents ts)
  unfolding with_child total contents size in_order
  with_child_laws leaf ts a = (a, omega arith, refl)
  with_child_laws (node l c w r) ts a = ((refl, a), refl, refl)

  -- The node, then the right subtree, then the left, against the inorder list.
  reorder :
      (l r rest freed : Nodes V) (n : ℕ × V)
      → Perm ((r ++ (l ++ rest)) ++ n ∷ freed) (((l ++ n ∷ r) ++ rest) ++ freed)
  reorder l r rest freed n =
      let swapped : Perm (r ++ (l ++ rest)) ((l ++ r) ++ rest) =
        rw (← append_assoc) (Perm.append_right rest (perm_append_comm r l)) in
      Perm.trans (perm_middle (r ++ (l ++ rest)) freed) (
        Perm.trans (Perm.cons n (Perm.append_right freed swapped))
          (Perm.symm (Perm.append_right freed (Perm.append_right rest (perm_middle l r)))))

  module _ (ops : StackOps (Tree V)) where
    push_child-eq :
        (t : Tree V) (ts : List (Tree V))
        → push_child ops t (pushes ops ts) ≡ pushes ops (with_child t ts)
    unfolding push_child with_child pushes
    push_child-eq leaf ts = refl
    push_child-eq (node l c w r) ts = refl

    dispose_loop-perm :
        (fuel : ℕ) (ts : List (Tree V)) (freed : Nodes V)
        → AllNodes ts
        → total ts < fuel
        → (out : Nodes V) × (dispose_loop ops fuel (pushes ops ts) freed ≡ some out)
          × Perm out (contents ts ++ freed)
    unfolding dispose_loop contents total size in_order
    dispose_loop-perm zero ts freed a h = absurd (omega arith)
    dispose_loop-perm (suc fuel) [] freed a h =
        (freed, rw (is_empty-nil ops, dispose_loop), Perm.refl freed)
    dispose_loop-perm (suc fuel) (leaf ∷ ts) freed a h = cc
    dispose_loop-perm (suc fuel) (node l c w r ∷ ts) freed a h =
        let (al, tl, cl) = with_child_laws l ts a.1 in
        let (ar, tr, cr) = with_child_laws r (with_child l ts) al in
        let (out, run, perm) =
          dispose_loop-perm fuel (with_child r (with_child l ts)) ((c, w) ∷ freed) ar
            (omega arith) in
        (
          out,
          rw (is_empty-cons ops _ ts, pop-cons ops _ ts, dispose_loop)
              (rw (pop-cons ops _ ts, push_child-eq l ts, push_child-eq r (with_child l ts)) run),
          Perm.trans perm
              (rw (cr, cl) (reorder (in_order l) (in_order r) (contents ts) freed (c, w))),
        )

    frees_root :
        (l : Tree V) (c : ℕ) (w : V) (r : Tree V)
        → (freed : Nodes V) × (bst_dispose ops true (node l c w r) ≡ some (leaf, freed))
          × Perm freed (in_order (node l c w r))
    unfolding bst_dispose contents total pushes
    frees_root l c w r =
        let t = node l c w r in
        let (out, run, perm) =
          dispose_loop-perm (size t + 1) (t ∷ []) [] (refl, tt) (omega arith) in
        (out, rw (run, bst_dispose), rw append-nil at (rw append-nil at perm))

    -- With memory for its stack the iterative disposal ends, follows no null pointer, leaves no
    -- tree and frees each node once. Without it the tree stays and nothing is freed.
    pub dispose-frees_all :
        (t : Tree V)
        → ((freed : Nodes V) × (bst_dispose ops true t ≡ some (leaf, freed))
            × Perm freed (in_order t))
          × (bst_dispose ops false t ≡ some (t, []))
    unfolding bst_dispose in_order
    dispose-frees_all leaf = (([], refl, Perm.refl []), refl)
    dispose-frees_all (node l c w r) = (frees_root l c w r, refl)
