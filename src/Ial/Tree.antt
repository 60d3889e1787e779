-- ===== src/Ial/Tree.antt =====
-- 2/IAL/2/btree-rec.c: the binary search tree, its operations written recursively.
-- A pointer to a node is the tree below it. Keys are compared and nothing else, so a `char` is a
-- number in the order of the type. Whether `malloc` succeeds is the argument `allocated`.
pub mod Order
pub mod Lookup
pub mod Traverse
use vut_projects.Base.{
  ℕ, Bool, true, false, not, xor, ◌&&◌, Option, none, some, List, [], ◌∷◌, ◌++◌, ltb, ◌==◌,
  if◌then◌else◌,
}

pub data Tree (V : Type 0) : Type 0 where
  leaf : Tree V
  node : Tree V → ℕ → V → Tree V → Tree V

module _ {V : Type 0} where
  -- `pointer != NULL`
  abbrev pub is_node : Tree V → Bool
  is_node leaf = false
  is_node (node l c w r) = true

  unfoldable pub bst_init : Tree V
  bst_init = leaf

  -- `none` is the result `false`, which leaves `*value` alone.
  unfoldable pub bst_search : Tree V → ℕ → Option V
  bst_search leaf key = none
  bst_search (node l c w r) key =
      if c == key
      then some w
      else if ltb key c
      then bst_search l key
      else if ltb c key
      then bst_search r key
      else none

  unfoldable pub bst_insert : (allocated : Bool) → Tree V → ℕ → V → Tree V
  bst_insert allocated leaf key value = if allocated then node leaf key value leaf else leaf
  bst_insert allocated (node l c w r) key value =
      if c == key
      then node l c value r
      else if ltb key c
      then node (bst_insert allocated l key value) c w r
      else if ltb c key
      then node l c w (bst_insert allocated r key value)
      else node l c w r

  -- The key and content that `target` is left with, and the subtree without its rightmost node.
  unfoldable pub bst_replace_by_rightmost : ℕ × V → Tree V → (ℕ × V) × Tree V
  bst_replace_by_rightmost target leaf = (target, leaf)
  bst_replace_by_rightmost target (node l c w leaf) = ((c, w), l)
  bst_replace_by_rightmost target (node l c w (node rl rc rw rr)) =
      let (found, rest) = bst_replace_by_rightmost target (node rl rc rw rr) in
      (found, node l c w rest)

  -- What becomes of the node whose key is deleted.
  unfoldable pub delete_root : Tree V → ℕ → V → Tree V → Tree V
  unfolding xor
  delete_root l c w r =
      if not (is_node l) && not (is_node r)
      then leaf
      else if xor (is_node l) (is_node r)
      then (if is_node l then l else r)
      else (let ((c', w'), l') = bst_replace_by_rightmost (c, w) l in node l' c' w' r)

  unfoldable pub bst_delete : Tree V → ℕ → Tree V
  unfolding delete_root
  bst_delete leaf key = leaf
  bst_delete (node l c w r) key =
      if c == key
      then delete_root l c w r
      else if ltb key c && is_node l
      then node (bst_delete l key) c w r
      else if ltb c key && is_node r
      then node l c w (bst_delete r key)
      else node l c w r

  -- What `*tree` is afterwards, and the nodes in the order in which they are freed.
  unfoldable pub bst_dispose : Tree V → Tree V × List (ℕ × V)
  bst_dispose leaf = (leaf, [])
  bst_dispose (node l c w r) = (leaf, (bst_dispose l).1 ++ ((bst_dispose r).1 ++ (c, w) ∷ []))

  -- `add` is `bst_add_node_to_items`, which the sources declare and do not define.
  module _ {Items : Type 0} (add : ℕ × V → Items → Items) where
    unfoldable pub bst_preorder : Tree V → Items → Items
    bst_preorder leaf items = items
    bst_preorder (node l c w r) items = bst_preorder r (bst_preorder l (add (c, w) items))

    unfoldable pub bst_inorder : Tree V → Items → Items
    bst_inorder leaf items = items
    bst_inorder (node l c w r) items = bst_inorder r (add (c, w) (bst_inorder l items))

    unfoldable pub bst_postorder : Tree V → Items → Items
    bst_postorder leaf items = items
    bst_postorder (node l c w r) items = add (c, w) (bst_postorder r (bst_postorder l items))
