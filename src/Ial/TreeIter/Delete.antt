-- ===== src/Ial/TreeIter/Delete.antt =====
-- 2/IAL/2/btree-iter.c: where the iterative deletion follows a null pointer, and that it agrees
-- with the recursive one everywhere else.
use vut_projects.Base.{
  ℕ, ◌<◌, ◌≡◌, refl, subst, Bool, true, false, not, ◌&&◌, ◌||◌, none, some, List, [], ◌∷◌, arith,
  ltb, ◌==◌, inl, inr, lt-eq-gt, if◌then◌else◌,
}
use vut_projects.Ial.Tree
use vut_projects.Ial.Tree.{Tree, leaf, node, is_node, delete_root}
use vut_projects.Ial.Tree.Order.{All, All-imp, IsOrdered}
use vut_projects.Ial.TreeIter.{
  Crumb, went_left, went_right, plug, detach, delete_found, delete_loop, bst_delete,
}
use vut_projects.Ial.TreeIter.Refine.{replace_by_rightmost-eq}

module _ {V : Type 0} where
  -- The root of the tree holds the key.
  abbrev pub has_root : Tree V → ℕ → Bool
  has_root leaf key = false
  has_root (node l c w r) key = key == c

  -- The node with the key, as the search reaches it, has a parent with one child only.
  unfoldable pub is_only_child : Tree V → ℕ → Bool
  is_only_child leaf key = false
  is_only_child (node l c w r) key =
      if key == c
      then false
      else if ltb key c
      then (has_root l key && not (is_node r)) || is_only_child l key
      else (has_root r key && not (is_node l)) || is_only_child r key

  -- Detaching a child puts what the recursive deletion leaves of it in its place.
  detach-left :
      (pc : ℕ) (pw : V) (pr : Tree V) (path : List (Crumb V)) (l : Tree V) (c : ℕ) (w : V)
      (r : Tree V)
      → detach (went_left pc pw pr ∷ path) true false l c w r
        ≡ some (plug path (node (delete_root l c w r) pc pw pr))
  unfolding detach delete_root plug
  detach-left pc pw pr path leaf c w leaf = refl
  detach-left pc pw pr path leaf c w (node rl rc rw' rr) = refl
  detach-left pc pw pr path (node ll lc lw lr) c w leaf = refl
  detach-left pc pw pr path (node ll lc lw lr) c w (node rl rc rw' rr) =
      rw (replace_by_rightmost-eq (c, w) (node ll lc lw lr))

  detach-right :
      (pl : Tree V) (pc : ℕ) (pw : V) (path : List (Crumb V)) (l : Tree V) (c : ℕ) (w : V)
      (r : Tree V)
      → detach (went_right pl pc pw ∷ path) false true l c w r
        ≡ some (plug path (node pl pc pw (delete_root l c w r)))
  unfolding detach delete_root plug
  detach-right pl pc pw path leaf c w leaf = refl
  detach-right pl pc pw path leaf c w (node rl rc rw' rr) = refl
  detach-right pl pc pw path (node ll lc lw lr) c w leaf = refl
  detach-right pl pc pw path (node ll lc lw lr) c w (node rl rc rw' rr) =
      rw (replace_by_rightmost-eq (c, w) (node ll lc lw lr))

  detach-root :
      (l : Tree V) (c : ℕ) (w : V) (r : Tree V)
      → detach [] false false l c w r ≡ some (delete_root l c w r)
  unfolding detach delete_root plug
  detach-root leaf c w leaf = refl
  detach-root leaf c w (node rl rc rw' rr) = refl
  detach-root (node ll lc lw lr) c w leaf = refl
  detach-root (node ll lc lw lr) c w (node rl rc rw' rr) =
      rw (replace_by_rightmost-eq (c, w) (node ll lc lw lr))

  found-left :
      (pc : ℕ) (pw : V) (pr : Tree V) (path : List (Crumb V)) (l : Tree V) (c : ℕ) (w : V)
      (r : Tree V)
      → All (λ k. c < k) pr
      → delete_found (went_left pc pw pr ∷ path) l c w r ≡ (
          if not (is_node pr) then none else some (plug path (node (delete_root l c w r) pc pw pr)))
  unfolding delete_found
  found-left pc pw leaf path l c w r a = ground arith
  found-left pc pw (node pl k kw kr) path l c w r a =
      ground (arith, detach-left pc pw (node pl k kw kr) path l c w r)

  found-right :
      (pl : Tree V) (pc : ℕ) (pw : V) (path : List (Crumb V)) (l : Tree V) (c : ℕ) (w : V)
      (r : Tree V)
      → All (λ k. k < c) pl
      → delete_found (went_right pl pc pw ∷ path) l c w r ≡ (
          if not (is_node pl) then none else some (plug path (node pl pc pw (delete_root l c w r))))
  unfolding delete_found
  found-right leaf pc pw path l c w r a = ground arith
  found-right (node pl k kw kr) pc pw path l c w r a =
      ground (arith, detach-right (node pl k kw kr) pc pw path l c w r)

  -- What the crumb leads away from.
  abbrev sibling : Crumb V → Tree V
  sibling (went_left pc pw pr) = pr
  sibling (went_right pl pc pw) = pl

  -- The key lies on the side that the crumb leads to.
  abbrev Beside : Crumb V → ℕ → Type 0
  Beside (went_left pc pw pr) key = All (λ k. key < k) pr
  Beside (went_right pl pc pw) key = All (λ k. k < key) pl

  found-Beside :
      (crumb : Crumb V) (path : List (Crumb V)) (l : Tree V) (c : ℕ) (w : V) (r : Tree V) (key : ℕ)
      → key ≡ c
      → Beside crumb key
      → delete_found (crumb ∷ path) l c w r ≡ (
          if not (is_node (sibling crumb))
          then none
          else some (plug (crumb ∷ path) (delete_root l c w r)))
  unfolding plug
  found-Beside (went_left pc pw pr) path l c w r key e a =
      found-left pc pw pr path l c w r (subst (λ x. All (λ k. x < k) pr) e a)
  found-Beside (went_right pl pc pw) path l c w r key e a =
      found-right pl pc pw path l c w r (subst (λ x. All (λ k. k < x) pl) e a)

  Beside-left :
      (c : ℕ) (w : V) (r : Tree V) (key : ℕ)
      → key < c
      → All (λ k. c < k) r
      → Beside (went_left c w r) key
  Beside-left c w r key h a = All-imp (λ k b. omega arith) r a

  Beside-right :
      (l : Tree V) (c : ℕ) (w : V) (key : ℕ)
      → c < key
      → All (λ k. k < c) l
      → Beside (went_right l c w) key
  Beside-right l c w key h a = All-imp (λ k b. omega arith) l a

  delete_leaf : (t : Tree V) (key : ℕ) → is_node t ≡ false → Tree.bst_delete t key ≡ t
  unfolding Tree.bst_delete
  delete_leaf leaf key h = refl
  delete_leaf (node l c w r) key h = cc

  module _ (path : List (Crumb V)) (l : Tree V) (c : ℕ) (w : V) (r : Tree V) (key : ℕ) where
    -- One step of each function below a node whose key is greater, smaller, or the one.
    step_lt :
        key < c
        → (delete_loop path (node l c w r) key ≡ delete_loop (went_left c w r ∷ path) l key)
          × (is_only_child (node l c w r) key
              ≡ ((has_root l key && not (is_node r)) || is_only_child l key))
          × (plug path (Tree.bst_delete (node l c w r) key)
              ≡ plug (went_left c w r ∷ path) (Tree.bst_delete l key))
          × (has_root (node l c w r) key ≡ false)
    unfolding delete_loop is_only_child Tree.bst_delete plug
    step_lt h = (ground arith, ground arith, ground (arith, delete_leaf l key), ground arith)

    step_gt :
        c < key
        → (delete_loop path (node l c w r) key ≡ delete_loop (went_right l c w ∷ path) r key)
          × (is_only_child (node l c w r) key
              ≡ ((has_root r key && not (is_node l)) || is_only_child r key))
          × (plug path (Tree.bst_delete (node l c w r) key)
              ≡ plug (went_right l c w ∷ path) (Tree.bst_delete r key))
          × (has_root (node l c w r) key ≡ false)
    unfolding delete_loop is_only_child Tree.bst_delete plug
    step_gt h = (ground arith, ground arith, ground (arith, delete_leaf r key), ground arith)

    step_eq :
        key ≡ c
        → (delete_loop path (node l c w r) key ≡ delete_found path l c w r)
          × (is_only_child (node l c w r) key ≡ false)
          × (Tree.bst_delete (node l c w r) key ≡ delete_root l c w r)
          × (has_root (node l c w r) key ≡ true)
    unfolding delete_loop is_only_child Tree.bst_delete
    step_eq h = (ground arith, ground arith, ground arith, ground arith)

  Beside_leaf :
      (crumb : Crumb V) (path : List (Crumb V)) (key : ℕ)
      → delete_loop (crumb ∷ path) leaf key ≡ (
          if is_only_child leaf key
          then none
          else some (plug (crumb ∷ path) (Tree.bst_delete leaf key)))
  unfolding delete_loop is_only_child Tree.bst_delete
  Beside_leaf crumb path key = refl

  root_leaf :
      (key : ℕ)
      → delete_loop {V = V} [] leaf key
        ≡ (if is_only_child leaf key then none else some (Tree.bst_delete leaf key))
  unfolding delete_loop is_only_child Tree.bst_delete plug
  root_leaf key = refl

  found_root :
      (l : Tree V) (c : ℕ) (w : V) (r : Tree V)
      → delete_found [] l c w r ≡ some (delete_root l c w r)
  unfolding delete_found
  found_root l c w r = detach-root l c w r

  -- What the loop gives below a parent.
  delete_loop-Beside :
      (crumb : Crumb V) (path : List (Crumb V)) (t : Tree V) (key : ℕ)
      → IsOrdered t
      → Beside crumb key
      → delete_loop (crumb ∷ path) t key ≡ (
          if (has_root t key && not (is_node (sibling crumb))) || is_only_child t key
          then none
          else some (plug (crumb ∷ path) (Tree.bst_delete t key)))
  delete_loop-Beside crumb path leaf key s a = Beside_leaf crumb path key
  delete_loop-Beside crumb path (node l c w r) key s a = elim (lt-eq-gt key c) [
    | inl h ↦
        let (loop, child, rest, root) = step_lt (crumb ∷ path) l c w r key h in
        rw (loop, child, root, rest)
          (delete_loop-Beside (went_left c w r) (crumb ∷ path) l key s.2
            (Beside-left c w r key h s.1))
    | inr (inl h) ↦
        let (loop, child, rest, root) = step_eq (crumb ∷ path) l c w r key h in
        rw (loop, child, rest, root, found-Beside crumb path l c w r key h a) (ground arith)
    | inr (inr h) ↦
        let (loop, child, rest, root) = step_gt (crumb ∷ path) l c w r key h in
        rw (loop, child, root, rest)
          (delete_loop-Beside (went_right l c w) (crumb ∷ path) r key s.3
            (Beside-right l c w key h s.0))
  ]

  -- In a search tree the iterative deletion follows a null pointer exactly when the node with the
  -- key has a parent with no other child. Otherwise it gives the tree of the recursive deletion.
  pub delete-eq_recursive :
      (t : Tree V) (key : ℕ)
      → IsOrdered t
      → bst_delete t key ≡ (if is_only_child t key then none else some (Tree.bst_delete t key))
  unfolding bst_delete plug
  delete-eq_recursive leaf key s = root_leaf key
  delete-eq_recursive (node l c w r) key s = elim (lt-eq-gt key c) [
    | inl h ↦
        let (loop, child, rest, root) = step_lt [] l c w r key h in
        let moved : Tree.bst_delete (node l c w r) key ≡ node (Tree.bst_delete l key) c w r =
          rest in
        rw (loop, child, moved)
          (delete_loop-Beside (went_left c w r) [] l key s.2 (Beside-left c w r key h s.1))
    | inr (inl h) ↦
        let (loop, child, rest, root) = step_eq [] l c w r key h in
        rw (loop, child, rest) (found_root l c w r)
    | inr (inr h) ↦
        let (loop, child, rest, root) = step_gt [] l c w r key h in
        let moved : Tree.bst_delete (node l c w r) key ≡ node l c w (Tree.bst_delete r key) =
          rest in
        rw (loop, child, moved)
          (delete_loop-Beside (went_right l c w) [] r key s.3 (Beside-right l c w key h s.0))
  ]
