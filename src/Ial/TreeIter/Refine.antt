-- ===== src/Ial/TreeIter/Refine.antt =====
-- 2/IAL/2/btree-iter.c against 2/IAL/2/btree-rec.c: search, insertion, and the removal of the
-- rightmost node.
use vut_projects.Base.{ℕ, ◌≡◌, refl, true, false, none, some, List, [], ◌∷◌, arith}
use vut_projects.Ial.Tree
use vut_projects.Ial.Tree.{Tree, leaf, node, is_node}
use vut_projects.Ial.TreeIter.{
  Crumb, went_left, went_right, plug, search_loop, bst_search, insert_loop, bst_insert,
  rightmost_loop, bst_replace_by_rightmost,
}

module _ {V : Type 0} where
  search_leaf : (t : Tree V) (key : ℕ) → is_node t ≡ false → Tree.bst_search t key ≡ none
  unfolding Tree.bst_search
  search_leaf leaf key h = refl
  search_leaf (node l c w r) key h = cc

  insert_leaf :
      (t : Tree V) (key : ℕ) (value : V)
      → is_node t ≡ false
      → Tree.bst_insert true t key value ≡ node leaf key value leaf
  unfolding Tree.bst_insert
  insert_leaf leaf key value h = refl
  insert_leaf (node l c w r) key value h = cc

  search_loop-eq :
      (t : Tree V) (key : ℕ) → is_node t ≡ true → search_loop t key ≡ some (Tree.bst_search t key)
  unfolding search_loop Tree.bst_search
  search_loop-eq leaf key h = cc
  search_loop-eq (node l c w r) key h =
      ground
        (arith, search_loop-eq l key, search_loop-eq r key, search_leaf l key, search_leaf r key)

  -- The iterative search follows no null pointer and finds what the recursive one finds.
  pub search-eq_recursive : (t : Tree V) (key : ℕ) → bst_search t key ≡ some (Tree.bst_search t key)
  unfolding bst_search Tree.bst_search
  search-eq_recursive leaf key = refl
  search-eq_recursive (node l c w r) key = search_loop-eq (node l c w r) key refl

  insert_loop-eq :
      (path : List (Crumb V)) (t : Tree V) (key : ℕ) (value : V)
      → is_node t ≡ true
      → insert_loop path t key value ≡ some (plug path (Tree.bst_insert true t key value))
  unfolding insert_loop Tree.bst_insert plug
  insert_loop-eq path leaf key value h = cc
  insert_loop-eq path (node l c w r) key value h = ground (
    arith,
    insert_loop-eq (went_left c w r ∷ path) l key value,
    insert_loop-eq (went_right l c w ∷ path) r key value,
    insert_leaf l key value,
    insert_leaf r key value,
  )

  -- With a node allocated the iterative insertion follows no null pointer and builds the tree of
  -- the recursive one. With none it leaves the tree alone, also where the key is in it.
  pub insert-eq_recursive :
      (t : Tree V) (key : ℕ) (value : V)
      → (bst_insert true t key value ≡ some (Tree.bst_insert true t key value))
        × (bst_insert false t key value ≡ some t)
  unfolding bst_insert Tree.bst_insert plug
  insert-eq_recursive leaf key value = (refl, refl)
  insert-eq_recursive (node l c w r) key value =
      (insert_loop-eq [] (node l c w r) key value refl, refl)

  rightmost_loop-eq :
      (path : List (Crumb V)) (target : ℕ × V) (t : Tree V)
      → is_node t ≡ true
      → rightmost_loop path t
        ≡ some (
          (Tree.bst_replace_by_rightmost target t).0,
          plug path (Tree.bst_replace_by_rightmost target t).1,
        )
  unfolding rightmost_loop Tree.bst_replace_by_rightmost plug
  rightmost_loop-eq path target leaf h = cc
  rightmost_loop-eq path target (node l c w leaf) h = refl
  rightmost_loop-eq path target (node l c w (node rl rc rw' rr)) h =
      rightmost_loop-eq (went_right l c w ∷ path) target (node rl rc rw' rr) refl

  pub replace_by_rightmost-eq :
      (target : ℕ × V) (t : Tree V)
      → bst_replace_by_rightmost target t ≡ some (Tree.bst_replace_by_rightmost target t)
  unfolding bst_replace_by_rightmost Tree.bst_replace_by_rightmost plug
  replace_by_rightmost-eq target leaf = refl
  replace_by_rightmost-eq target (node l c w r) = rightmost_loop-eq [] target (node l c w r) refl
