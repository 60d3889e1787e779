-- ===== src/Tests/Trees.antt =====
-- Tests and instances for the search trees of 2/IAL/2.
use mathlib.Core.List.{Perm}
use vut_projects.Base.{
  ℕ, ◌≡◌, refl, true, false, none, some, List, [], ◌∷◌, ◌++◌, arith, if◌then◌else◌,
}
use vut_projects.Ial.Stack.{StackOps}
use vut_projects.Ial.Tree
use vut_projects.Ial.Tree.{
  Tree, leaf, node, bst_init, bst_search, bst_insert, bst_delete, bst_inorder, bst_dispose,
}
use vut_projects.Ial.Tree.Order.{IsOrdered, delete-IsOrdered}
use vut_projects.Ial.Tree.Lookup.{search-delete}
use vut_projects.Ial.Tree.Traverse.{Nodes, in_order}
use vut_projects.Ial.TreeIter
use vut_projects.Ial.TreeIter.Delete.{is_only_child, delete-eq_recursive}
use vut_projects.Ial.TreeIter.Refine.{insert-eq_recursive}
use vut_projects.Ial.TreeWalk
use vut_projects.Ial.TreeWalk.Postorder.{postorder-eq_recursive}
use vut_projects.Ial.TreeWalk.Dispose.{dispose-frees_all}

-- 20 with 10 and 30 below it, and 25 below 30.
abbrev sample : Tree ℕ
sample = node (node leaf 10 1 leaf) 20 2 (node (node leaf 25 3 leaf) 30 4 leaf)

sample-IsOrdered : IsOrdered sample
sample-IsOrdered = omega arith

sample_built :
    bst_insert true
      (bst_insert true (bst_insert true (bst_insert true bst_init 20 2) 10 1) 30 4)
      25
      3
    ≡ sample
unfolding bst_insert bst_init
sample_built = refl

delete_root_runs : bst_delete sample 20 ≡ node leaf 10 1 (node (node leaf 25 3 leaf) 30 4 leaf)
unfolding bst_delete Tree.bst_replace_by_rightmost
delete_root_runs = refl

-- 25 is the only child of 30.
delete_only_child_crashes : TreeIter.bst_delete sample 25 ≡ none
unfolding TreeIter.bst_delete
delete_only_child_crashes = refl

abbrev list_stack : {A : Type 0} → A → StackOps A
list_stack {A} d = record {
  Stack = List A;
  init = [];
  push = λ s a. a ∷ s;
  pop = λ s. elim s [ [] ↦ (d, []) | x ∷ xs ↦ (x, xs) ];
  is_empty = λ s. elim s [ [] ↦ true | x ∷ xs ↦ false ];
  is_empty-init = refl;
  is_empty-push = λ s a. refl;
  pop-push = λ s a. refl;
}

abbrev collect : ℕ × ℕ → List (ℕ × ℕ) → List (ℕ × ℕ)
collect n items = items ++ n ∷ []

delete-IsOrdered_example : IsOrdered (bst_delete sample 20)
delete-IsOrdered_example = delete-IsOrdered sample 20 sample-IsOrdered

search-delete_example : bst_search (bst_delete sample 20) 30 ≡ bst_search sample 30
search-delete_example = search-delete sample 20 30 sample-IsOrdered

insert-eq_recursive_example :
    (TreeIter.bst_insert true sample 15 7 ≡ some (bst_insert true sample 15 7))
    × (TreeIter.bst_insert false sample 15 7 ≡ some sample)
insert-eq_recursive_example = insert-eq_recursive sample 15 7

delete-eq_recursive_example :
    TreeIter.bst_delete sample 25
    ≡ (if is_only_child sample 25 then none else some (bst_delete sample 25))
delete-eq_recursive_example = delete-eq_recursive sample 25 sample-IsOrdered

postorder-eq_recursive_example :
    TreeWalk.bst_postorder (list_stack leaf) (list_stack false) collect true true sample []
    ≡ some (Tree.bst_postorder collect sample [])
postorder-eq_recursive_example =
    postorder-eq_recursive (list_stack leaf) (list_stack false) collect true true sample []

dispose-frees_all_example :
    ((freed : Nodes ℕ) × (TreeWalk.bst_dispose (list_stack leaf) true sample ≡ some (leaf, freed))
      × Perm freed (in_order sample))
    × (TreeWalk.bst_dispose (list_stack leaf) false sample ≡ some (sample, []))
dispose-frees_all_example = dispose-frees_all (list_stack leaf) sample
