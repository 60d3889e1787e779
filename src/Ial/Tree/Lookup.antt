-- ===== src/Ial/Tree/Lookup.antt =====
-- 2/IAL/2/btree-rec.c: what a search finds after an insertion and after a deletion.
use vut_projects.Base.{
  ℕ, ◌<◌, ◌≤◌, ◌≡◌, refl, Bool, true, false, ◌&&◌, ◌||◌, none, some, arith, ◌==◌, if◌then◌else◌,
  is_some,
}
use vut_projects.Ial.Tree.{
  Tree, leaf, node, bst_search, bst_insert, bst_replace_by_rightmost, delete_root, bst_delete,
}
use vut_projects.Ial.Tree.Order.{
  All, IsOrdered, All-replace_by_rightmost, replace_by_rightmost-IsOrdered,
}

module _ {V : Type 0} where
  -- After an insertion the inserted key reads the new value, if a node could be allocated or the
  -- key was there before, and every other search gives what it gave before. No order is needed.
  pub search-insert :
      (allocated : Bool) (t : Tree V) (key : ℕ) (value : V) (k : ℕ)
      → bst_search (bst_insert allocated t key value) k ≡ (
          if (key == k) && (allocated || is_some (bst_search t key))
          then some value
          else bst_search t k)
  unfolding bst_search bst_insert
  search-insert true leaf key value k = ground arith
  search-insert false leaf key value k = ground arith
  search-insert allocated (node l c w r) key value k =
      ground (arith, search-insert allocated l key value k, search-insert allocated r key value k)

  pub search_beyond : (t : Tree V) (c k : ℕ) → All (λ j. j < c) t → c ≤ k → bst_search t k ≡ none
  unfolding bst_search
  search_beyond leaf c k a h = refl
  search_beyond (node l d w r) c k a h = ground (arith, search_beyond l c k, search_beyond r c k)

  pub search_before : (t : Tree V) (c k : ℕ) → All (λ j. c < j) t → k ≤ c → bst_search t k ≡ none
  unfolding bst_search
  search_before leaf c k a h = refl
  search_before (node l d w r) c k a h = ground (arith, search_before l c k, search_before r c k)

  -- The pair that is moved up together with what is left reads as the tree did.
  pub search-replace_by_rightmost :
      (target : ℕ × V) (l : Tree V) (c : ℕ) (w : V) (r : Tree V) (k : ℕ)
      → IsOrdered (node l c w r)
      → let out = bst_replace_by_rightmost target (node l c w r) in
        bst_search (node l c w r) k ≡ (if out.0.0 == k then some out.0.1 else bst_search out.1 k)
  unfolding bst_search bst_replace_by_rightmost
  search-replace_by_rightmost target l c w leaf k s = ground (arith, search_beyond l c k)
  search-replace_by_rightmost target l c w (node rl rc rw' rr) k s = ground (
    arith,
    search-replace_by_rightmost target rl rc rw' rr k,
    All-replace_by_rightmost (λ j. c < j) target rl rc rw' rr,
  )

  search-delete_root :
      (l : Tree V) (c : ℕ) (w : V) (r : Tree V) (k : ℕ)
      → IsOrdered (node l c w r)
      → bst_search (delete_root l c w r) k ≡ (if c == k then none else bst_search (node l c w r) k)
  unfolding bst_search delete_root
  search-delete_root leaf c w leaf k s = ground arith
  search-delete_root leaf c w (node rl rc rw' rr) k s =
      ground (arith, search_before (node rl rc rw' rr) c k)
  search-delete_root (node ll lc lw lr) c w leaf k s =
      ground (arith, search_beyond (node ll lc lw lr) c k)
  search-delete_root (node ll lc lw lr) c w (node rl rc rw' rr) k s =
      let l = node ll lc lw lr in
      let r = node rl rc rw' rr in
      let out = bst_replace_by_rightmost (c, w) l in
      ground (
        arith,
        search-replace_by_rightmost (c, w) ll lc lw lr k s.2,
        All-replace_by_rightmost (λ j. j < c) (c, w) ll lc lw lr s.0,
        replace_by_rightmost-IsOrdered (c, w) ll lc lw lr s.2,
        search_beyond out.1 out.0.0 k,
        search_beyond l c k,
        search_before r c k,
      )

  -- In a search tree a deleted key is gone, and every other search gives what it gave before.
  pub search-delete :
      (t : Tree V) (key k : ℕ)
      → IsOrdered t
      → bst_search (bst_delete t key) k ≡ (if key == k then none else bst_search t k)
  unfolding bst_search bst_delete
  search-delete leaf key k s = ground arith
  search-delete (node l c w r) key k s = ground (
    arith,
    search-delete l key k,
    search-delete r key k,
    search-delete_root l c w r k,
    search_beyond l c k,
    search_before r c k,
  )
