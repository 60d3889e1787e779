-- ===== src/Ial/TreeWalk/Spine.antt =====
-- 2/IAL/2/btree-iter.c: the nodes down the left side of a tree, which the helpers push.
use vut_projects.Base.{ℕ, ◌+◌, ◌≡◌, refl, List, [], ◌∷◌, arith, true}
use vut_projects.Ial.Tree.{Tree, leaf, node, is_node}
use vut_projects.Ial.Tree.Traverse.{size}

module _ {V : Type 0} where
  unfoldable pub spine : Tree V → List (Tree V) → List (Tree V)
  spine leaf ts = ts
  spine (node l c w r) ts = spine l (node l c w r ∷ ts)

  abbrev pub AllNodes : List (Tree V) → Type 0
  AllNodes [] = Unit
  AllNodes (t ∷ ts) = (is_node t ≡ true) × AllNodes ts

  -- How many nodes a stack of pointers will pop, where the left subtrees are done.
  unfoldable pub weight : List (Tree V) → ℕ
  weight [] = 0
  weight (leaf ∷ ts) = weight ts + 1
  weight (node l c w r ∷ ts) = size r + weight ts + 1

  pub spine-AllNodes : (t : Tree V) (ts : List (Tree V)) → AllNodes ts → AllNodes (spine t ts)
  unfolding spine
  spine-AllNodes leaf ts a = a
  spine-AllNodes (node l c w r) ts a = spine-AllNodes l (node l c w r ∷ ts) (refl, a)

  pub weight-spine : (t : Tree V) (ts : List (Tree V)) → weight (spine t ts) ≡ size t + weight ts
  unfolding spine weight size
  weight-spine leaf ts = omega arith
  weight-spine (node l c w r) ts = omega (arith, weight-spine l (node l c w r ∷ ts))
