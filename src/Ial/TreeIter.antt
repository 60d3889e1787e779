-- ===== src/Ial/TreeIter.antt =====
-- 2/IAL/2/btree-iter.c: the same operations written with loops. A pointer into the tree is the
-- subtree below it with the path that leads to it, whose first crumb is the parent (`r_node`).
-- The loops go down the tree and recur on it; those over a stack run on fuel. `none` is a `NULL`
-- pointer followed, or a loop out of fuel.
pub mod Refine
pub mod Delete
use vut_projects.Base.{
  ℕ, Bool, true, false, not, xor, ◌&&◌, Option, none, some, List, [], ◌∷◌, ltb, ◌==◌, if◌then◌else◌,
  ◌>>=◌,
}
use vut_projects.Ial.Tree.{Tree, leaf, node, is_node}

pub data Crumb (V : Type 0) : Type 0 where
  went_left : ℕ → V → Tree V → Crumb V
  went_right : Tree V → ℕ → V → Crumb V

module _ {V : Type 0} where
  unfoldable pub plug : List (Crumb V) → Tree V → Tree V
  plug [] t = t
  plug (went_left c w r ∷ path) t = plug path (node t c w r)
  plug (went_right l c w ∷ path) t = plug path (node l c w t)

  search_loop : Tree V → ℕ → Option (Option V)
  search_loop leaf key = none
  search_loop (node l c w r) key =
      if key == c
      then some (some w)
      else if ltb key c && is_node l
      then search_loop l key
      else if ltb c key && is_node r
      then search_loop r key
      else some none

  -- The inner `none` is the result `false`.
  unfoldable pub bst_search : Tree V → ℕ → Option (Option V)
  unfolding search_loop
  bst_search leaf key = some none
  bst_search (node l c w r) key = search_loop (node l c w r) key

  insert_loop : List (Crumb V) → Tree V → ℕ → V → Option (Tree V)
  insert_loop path leaf key value = none
  insert_loop path (node l c w r) key value =
      let new = node leaf key value leaf in
      if key == c
      then some (plug path (node l c value r))
      else if ltb key c
      then (if is_node l
          then insert_loop (went_left c w r ∷ path) l key value
          else some (plug path (node new c w r)))
      else (if is_node r
          then insert_loop (went_right l c w ∷ path) r key value
          else some (plug path (node l c w new)))

  unfoldable pub bst_insert : (allocated : Bool) → Tree V → ℕ → V → Option (Tree V)
  unfolding insert_loop
  bst_insert false t key value = some t
  bst_insert true leaf key value = some (node leaf key value leaf)
  bst_insert true (node l c w r) key value = insert_loop [] (node l c w r) key value

  rightmost_loop : List (Crumb V) → Tree V → Option ((ℕ × V) × Tree V)
  rightmost_loop path leaf = none
  rightmost_loop path (node l c w r) =
      if not (is_node r)
      then some ((c, w), plug path l)
      else rightmost_loop (went_right l c w ∷ path) r

  unfoldable pub bst_replace_by_rightmost : ℕ × V → Tree V → Option ((ℕ × V) × Tree V)
  unfolding rightmost_loop
  bst_replace_by_rightmost target leaf = some (target, leaf)
  bst_replace_by_rightmost target (node l c w r) = rightmost_loop [] (node l c w r)

  -- `pointer->key`
  abbrev pub key_of : Tree V → Option ℕ
  key_of leaf = none
  key_of (node l c w r) = some c

  -- `r_node != NULL && r_node->left->key == c_node->key`, with the subtree at `c_node`
  unfoldable pub is_left_child : List (Crumb V) → Tree V → ℕ → Option Bool
  is_left_child [] t c = some false
  is_left_child (went_left pc pw pr ∷ path) t c = do k ← key_of t; some (k == c)
  is_left_child (went_right pl pc pw ∷ path) t c = do k ← key_of pl; some (k == c)

  unfoldable pub is_right_child : List (Crumb V) → Tree V → ℕ → Option Bool
  is_right_child [] t c = some false
  is_right_child (went_left pc pw pr ∷ path) t c = do k ← key_of pr; some (k == c)
  is_right_child (went_right pl pc pw ∷ path) t c = do k ← key_of t; some (k == c)

  -- The tree after `c_node` has been freed and `r_node->left`, `r_node->right` or `*tree` set to
  -- `child`. A write over the other child than `c_node` would leave a dangling pointer: `none`.
  unfoldable pub unlink : List (Crumb V) → (left right : Bool) → Tree V → Option (Tree V)
  unlink path false false child = some child
  unlink (went_left pc pw pr ∷ path) true right child = some (plug path (node child pc pw pr))
  unlink (went_right pl pc pw ∷ path) false true child = some (plug path (node pl pc pw child))
  unlink path left right child = none

  -- The three cases of the number of subtrees, once `is_left_child` and `is_right_child` are known.
  unfoldable pub detach :
      List (Crumb V) → (left right : Bool) → Tree V → ℕ → V → Tree V → Option (Tree V)
  unfolding xor unlink
  detach path left right l c w r =
      if not (is_node l) && not (is_node r)
      then unlink path left right leaf
      else if xor (is_node l) (is_node r)
      then unlink path left right (if is_node l then l else r)
      else (do
        ((c', w'), l') ← bst_replace_by_rightmost (c, w) l
        some (plug path (node l' c' w' r)))

  -- The body of the loop at the node with the key.
  unfoldable pub delete_found : List (Crumb V) → Tree V → ℕ → V → Tree V → Option (Tree V)
  unfolding is_left_child is_right_child detach
  delete_found path l c w r = do
    left ← is_left_child path (node l c w r) c
    right ← is_right_child path (node l c w r) c
    detach path left right l c w r

  delete_loop : List (Crumb V) → Tree V → ℕ → Option (Tree V)
  unfolding delete_found
  delete_loop path leaf key = some (plug path leaf)
  delete_loop path (node l c w r) key =
      if key == c
      then delete_found path l c w r
      else if ltb key c
      then delete_loop (went_left c w r ∷ path) l key
      else delete_loop (went_right l c w ∷ path) r key

  unfoldable pub bst_delete : Tree V → ℕ → Option (Tree V)
  unfolding delete_loop
  bst_delete t key = delete_loop [] t key
