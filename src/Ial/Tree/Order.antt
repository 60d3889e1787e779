-- ===== src/Ial/Tree/Order.antt =====
-- 2/IAL/2/btree-rec.c: what it is to be a search tree, and that the operations keep it.
use vut_projects.Base.{ℕ, ◌<◌, Bool, true, false, arith}
use vut_projects.Ial.Tree.{
  Tree, leaf, node, bst_insert, bst_replace_by_rightmost, delete_root, bst_delete,
}

module _ {V : Type 0} where
  -- Every key of the tree satisfies `P`.
  abbrev pub All {κ} : (ℕ → Type κ) → Tree V → Type κ
  All P leaf = Unit
  All P (node l c w r) = All P l × P c × All P r

  abbrev pub IsOrdered : Tree V → Type 0
  IsOrdered leaf = Unit
  IsOrdered (node l c w r) = All (λ k. k < c) l × All (λ k. c < k) r × IsOrdered l × IsOrdered r

  pub All-imp {κ} : {P Q : ℕ → Type κ} → ((k : ℕ) → P k → Q k) → (t : Tree V) → All P t → All Q t
  All-imp f leaf a = tt
  All-imp f (node l c w r) (al, ac, ar) = (All-imp f l al, f c ac, All-imp f r ar)

  pub All-replace_by_rightmost {κ} :
      (P : ℕ → Type κ) (target : ℕ × V) (l : Tree V) (c : ℕ) (w : V) (r : Tree V)
      → All P (node l c w r)
      → let out = bst_replace_by_rightmost target (node l c w r) in P out.0.0 × All P out.1
  unfolding bst_replace_by_rightmost
  All-replace_by_rightmost P target l c w leaf a = (a.1, a.0)
  All-replace_by_rightmost P target l c w (node rl rc rw' rr) a =
      let (key, rest) = All-replace_by_rightmost P target rl rc rw' rr a.2 in
      (key, (a.0, a.1, rest))

  -- The key that is moved up is above all that is left.
  pub replace_by_rightmost-IsOrdered :
      (target : ℕ × V) (l : Tree V) (c : ℕ) (w : V) (r : Tree V)
      → IsOrdered (node l c w r)
      → let out = bst_replace_by_rightmost target (node l c w r) in
        All (λ k. k < out.0.0) out.1 × IsOrdered out.1
  unfolding bst_replace_by_rightmost
  replace_by_rightmost-IsOrdered target l c w leaf s = (s.0, s.2)
  replace_by_rightmost-IsOrdered target l c w (node rl rc rw' rr) s =
      let (below, ordered) = replace_by_rightmost-IsOrdered target rl rc rw' rr s.3 in
      let (above, rest) = All-replace_by_rightmost (λ k. c < k) target rl rc rw' rr s.1 in
      ((All-imp (λ k h. omega arith) l s.0, above, below), (s.0, rest, s.2, ordered))

  All-delete_root {κ} :
      (P : ℕ → Type κ) (l : Tree V) (c : ℕ) (w : V) (r : Tree V)
      → All P (node l c w r)
      → All P (delete_root l c w r)
  unfolding delete_root
  All-delete_root P leaf c w leaf a = tt
  All-delete_root P leaf c w (node rl rc rw' rr) a = a.2
  All-delete_root P (node ll lc lw lr) c w leaf a = a.0
  All-delete_root P (node ll lc lw lr) c w (node rl rc rw' rr) a =
      let (key, rest) = All-replace_by_rightmost P (c, w) ll lc lw lr a.0 in (rest, key, a.2)

  delete_root-IsOrdered :
      (l : Tree V) (c : ℕ) (w : V) (r : Tree V)
      → IsOrdered (node l c w r)
      → IsOrdered (delete_root l c w r)
  unfolding delete_root
  delete_root-IsOrdered leaf c w leaf s = tt
  delete_root-IsOrdered leaf c w (node rl rc rw' rr) s = s.3
  delete_root-IsOrdered (node ll lc lw lr) c w leaf s = s.2
  delete_root-IsOrdered (node ll lc lw lr) c w (node rl rc rw' rr) s =
      let (below, ordered) = replace_by_rightmost-IsOrdered (c, w) ll lc lw lr s.2 in
      let (key, _) = All-replace_by_rightmost (λ k. k < c) (c, w) ll lc lw lr s.0 in
      (below, All-imp (λ k h. omega arith) (node rl rc rw' rr) s.1, ordered, s.3)

  All-insert {κ} :
      (P : ℕ → Type κ) (allocated : Bool) (t : Tree V) (key : ℕ) (value : V)
      → P key
      → All P t
      → All P (bst_insert allocated t key value)
  unfolding bst_insert
  All-insert P true leaf key value p a = (tt, p, tt)
  All-insert P false leaf key value p a = tt
  All-insert P allocated (node l c w r) key value p a =
      ground (arith, All-insert P allocated l key value, All-insert P allocated r key value)

  All-delete {κ} : (P : ℕ → Type κ) (t : Tree V) (key : ℕ) → All P t → All P (bst_delete t key)
  unfolding bst_delete
  All-delete P leaf key a = tt
  All-delete P (node l c w r) key a =
      ground (arith, All-delete P l key, All-delete P r key, All-delete_root P l c w r)

  -- A search tree stays one when a key is inserted, whether or not the allocation succeeds.
  pub insert-IsOrdered :
      (allocated : Bool) (t : Tree V) (key : ℕ) (value : V)
      → IsOrdered t
      → IsOrdered (bst_insert allocated t key value)
  unfolding bst_insert
  insert-IsOrdered true leaf key value s = (tt, tt, tt, tt)
  insert-IsOrdered false leaf key value s = tt
  insert-IsOrdered allocated (node l c w r) key value s = ground (
    arith,
    insert-IsOrdered allocated l key value,
    insert-IsOrdered allocated r key value,
    All-insert (λ k. k < c) allocated l key value,
    All-insert (λ k. c < k) allocated r key value,
  )

  -- A search tree stays one when a key is deleted.
  pub delete-IsOrdered : (t : Tree V) (key : ℕ) → IsOrdered t → IsOrdered (bst_delete t key)
  unfolding bst_delete
  delete-IsOrdered leaf key s = tt
  delete-IsOrdered (node l c w r) key s = ground (
    arith,
    delete-IsOrdered l key,
    delete-IsOrdered r key,
    delete_root-IsOrdered l c w r,
    All-delete (λ k. k < c) l key,
    All-delete (λ k. c < k) r key,
  )
