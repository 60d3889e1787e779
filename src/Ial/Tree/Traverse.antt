-- ===== src/Ial/Tree/Traverse.antt =====
-- 2/IAL/2/btree-rec.c: the traversals and the disposal against the lists of nodes in each order,
-- and a search tree against the association list that its inorder traversal gives.
use mathlib.Core.List.{append-nil, Perm, perm_middle}
use mathlib.Core.List.Perm
use vut_projects.Base.{
  ℕ, ◌+◌, ◌<◌, ◌≡◌, refl, Option, none, some, List, [], ◌∷◌, ◌++◌, arith, ◌==◌, if◌then◌else◌,
  length, length-append, is_some,
}
use vut_projects.Ial.Tree.{
  Tree, leaf, node, bst_search, bst_dispose, bst_preorder, bst_inorder, bst_postorder,
}
use vut_projects.Ial.Tree.Order.{All, IsOrdered}
use vut_projects.Ial.Tree.Lookup.{search_before, search_beyond}

abbrev pub Nodes : Type 0 → Type 0
Nodes V = List (ℕ × V)

module _ {V : Type 0} where
  unfoldable pub pre_order : Tree V → Nodes V
  pre_order leaf = []
  pre_order (node l c w r) = (c, w) ∷ (pre_order l ++ pre_order r)

  unfoldable pub in_order : Tree V → Nodes V
  in_order leaf = []
  in_order (node l c w r) = in_order l ++ (c, w) ∷ in_order r

  unfoldable pub post_order : Tree V → Nodes V
  post_order leaf = []
  post_order (node l c w r) = post_order l ++ (post_order r ++ (c, w) ∷ [])

  -- The number of nodes.
  unfoldable pub size : Tree V → ℕ
  size leaf = 0
  size (node l c w r) = size l + size r + 1

  pub length-in_order : (t : Tree V) → length (in_order t) ≡ size t
  unfolding in_order size
  length-in_order leaf = refl
  length-in_order (node l c w r) = omega (
    arith,
    length-append (in_order l) ((c, w) ∷ in_order r),
    length-in_order l,
    length-in_order r,
  )

  module _ {Items : Type 0} (add : ℕ × V → Items → Items) where
    -- `add` for each node of a list, from the first to the last.
    abbrev pub add_all : Items → Nodes V → Items
    add_all items [] = items
    add_all items (n ∷ ns) = add_all (add n items) ns

    add_all-append :
        (items : Items) (ms ns : Nodes V) → add_all items (ms ++ ns) ≡ add_all (add_all items ms) ns
    add_all-append items [] ns = refl
    add_all-append items (m ∷ ms) ns = add_all-append (add m items) ms ns

    preorder-eq :
        (t : Tree V) (items : Items) → bst_preorder add t items ≡ add_all items (pre_order t)
    unfolding bst_preorder pre_order
    preorder-eq leaf items = refl
    preorder-eq (node l c w r) items = rw (add_all-append, preorder-eq l, preorder-eq r)

    inorder-eq : (t : Tree V) (items : Items) → bst_inorder add t items ≡ add_all items (in_order t)
    unfolding bst_inorder in_order
    inorder-eq leaf items = refl
    inorder-eq (node l c w r) items = rw (add_all-append, inorder-eq l, inorder-eq r)

    postorder-eq :
        (t : Tree V) (items : Items) → bst_postorder add t items ≡ add_all items (post_order t)
    unfolding bst_postorder post_order
    postorder-eq leaf items = refl
    postorder-eq (node l c w r) items = simp (add_all-append, postorder-eq l, postorder-eq r)

  pub pre_order-perm : (t : Tree V) → Perm (pre_order t) (in_order t)
  unfolding pre_order in_order
  pre_order-perm leaf = Perm.refl []
  pre_order-perm (node l c w r) =
      Perm.trans (Perm.cons (c, w) (Perm.append (pre_order-perm l) (pre_order-perm r)))
        (Perm.symm (perm_middle (in_order l) (in_order r)))

  pub post_order-perm : (t : Tree V) → Perm (post_order t) (in_order t)
  unfolding post_order in_order
  post_order-perm leaf = Perm.refl []
  post_order-perm (node l c w r) = Perm.append (post_order-perm l) (
      Perm.trans (perm_middle (post_order r) [])
        (Perm.cons (c, w) (rw append-nil (post_order-perm r))))

  dispose-post_order : (t : Tree V) → (bst_dispose t).1 ≡ post_order t
  unfolding bst_dispose post_order
  dispose-post_order leaf = refl
  dispose-post_order (node l c w r) = rw (dispose-post_order l, dispose-post_order r)

  -- The disposal leaves no tree, and frees the nodes in postorder, so each of them once.
  pub dispose-perm :
      (t : Tree V)
      → ((bst_dispose t).0 ≡ leaf)
        × ((bst_dispose t).1 ≡ post_order t)
        × Perm (bst_dispose t).1 (in_order t)
  unfolding bst_dispose
  dispose-perm leaf =
      (refl, dispose-post_order leaf, rw (dispose-post_order leaf) (post_order-perm leaf))
  dispose-perm (node l c w r) =
      let t = node l c w r in
      (refl, dispose-post_order t, rw (dispose-post_order t) (post_order-perm t))

  -- The three traversals add the same nodes, each as often as it stands in the tree: the
  -- preorder and the postorder list are permutations of the inorder list.
  pub traversals-perm :
      {Items : Type 0} (add : ℕ × V → Items → Items) (t : Tree V) (items : Items)
      → (bst_preorder add t items ≡ add_all add items (pre_order t))
        × (bst_inorder add t items ≡ add_all add items (in_order t))
        × (bst_postorder add t items ≡ add_all add items (post_order t))
        × Perm (pre_order t) (in_order t)
        × Perm (post_order t) (in_order t)
  traversals-perm add t items = (
    preorder-eq add t items,
    inorder-eq add t items,
    postorder-eq add t items,
    pre_order-perm t,
    post_order-perm t,
  )

  -- Every key of the list satisfies `P`.
  abbrev pub AllKeys : (ℕ → Type 0) → Nodes V → Type 0
  AllKeys P [] = Unit
  AllKeys P (n ∷ ns) = P n.0 × AllKeys P ns

  -- The keys rise.
  abbrev pub IsAscending : Nodes V → Type 0
  IsAscending [] = Unit
  IsAscending (n ∷ ns) = AllKeys (λ k. n.0 < k) ns × IsAscending ns

  AllKeys-append :
      (P : ℕ → Type 0) (ms ns : Nodes V) → AllKeys P ms → AllKeys P ns → AllKeys P (ms ++ ns)
  AllKeys-append P [] ns a b = b
  AllKeys-append P (m ∷ ms) ns a b = (a.0, AllKeys-append P ms ns a.1 b)

  AllKeys-imp :
      {P Q : ℕ → Type 0} (ns : Nodes V) → ((k : ℕ) → P k → Q k) → AllKeys P ns → AllKeys Q ns
  AllKeys-imp [] f a = tt
  AllKeys-imp (n ∷ ns) f a = (f n.0 a.0, AllKeys-imp ns f a.1)

  in_order-AllKeys : (P : ℕ → Type 0) (t : Tree V) → All P t → AllKeys P (in_order t)
  unfolding in_order
  in_order-AllKeys P leaf a = tt
  in_order-AllKeys P (node l c w r) a =
      AllKeys-append P (in_order l) _ (in_order-AllKeys P l a.0) (a.1, in_order-AllKeys P r a.2)

  IsAscending-append :
      (c : ℕ) (w : V) (ms ns : Nodes V)
      → IsAscending ms
      → AllKeys (λ k. k < c) ms
      → IsAscending ns
      → AllKeys (λ k. c < k) ns
      → IsAscending (ms ++ (c, w) ∷ ns)
  IsAscending-append c w [] ns sm below sn above = (above, sn)
  IsAscending-append c w (m ∷ ms) ns sm below sn above = (
    AllKeys-append (λ k. m.0 < k) ms _ sm.0 (below.0, AllKeys-imp ns (λ k h. omega arith) above),
    IsAscending-append c w ms ns sm.1 below.1 sn above,
  )

  in_order-IsAscending : (t : Tree V) → IsOrdered t → IsAscending (in_order t)
  unfolding in_order
  in_order-IsAscending leaf s = tt
  in_order-IsAscending (node l c w r) s =
      IsAscending-append c w (in_order l) (in_order r) (in_order-IsAscending l s.2)
        (in_order-AllKeys _ l s.0) (in_order-IsAscending r s.3) (in_order-AllKeys _ r s.1)

  -- The first value under a key.
  unfoldable pub lookup : Nodes V → ℕ → Option V
  lookup [] k = none
  lookup (n ∷ ns) k = if n.0 == k then some n.1 else lookup ns k

  lookup-append :
      (ms ns : Nodes V) (k : ℕ)
      → lookup (ms ++ ns) k ≡ (if is_some (lookup ms k) then lookup ms k else lookup ns k)
  unfolding lookup
  lookup-append [] ns k = refl
  lookup-append (m ∷ ms) ns k = ground (arith, lookup-append ms ns k)

  lookup-in_order : (t : Tree V) (k : ℕ) → IsOrdered t → lookup (in_order t) k ≡ bst_search t k
  unfolding lookup in_order bst_search
  lookup-in_order leaf k s = refl
  lookup-in_order (node l c w r) k s = rw lookup-append (
      ground
        (arith, lookup-in_order l k, lookup-in_order r k, search_beyond l c k, search_before r c k))

  -- The inorder traversal of a search tree adds its nodes with rising keys, and the association
  -- list of those nodes gives for every key what the search gives.
  pub inorder-lookup :
      {Items : Type 0} (add : ℕ × V → Items → Items) (t : Tree V) (items : Items)
      → IsOrdered t
      → (ns : Nodes V) × (bst_inorder add t items ≡ add_all add items ns)
        × IsAscending ns
        × ((k : ℕ) → lookup ns k ≡ bst_search t k)
  inorder-lookup add t items s =
      (in_order t, inorder-eq add t items, in_order-IsAscending t s, λ k. lookup-in_order t k s)
