-- ===== src/Prelude/Plain.antt =====
-- A library of trees that balances nothing, at which the theorems are tried.
use mathlib.Core.Path.{◌≡◌, refl, ap}
use mathlib.Core.List.{List, [], ◌∷◌}
use iovisualization.Prelude.Tree.{Tree, leaf, node, inorder, RbTree, erase_idx}

module _ {A : Type 0} where
  -- a list as a tree that leans right
  abbrev pub chain : List A → Tree A
  chain [] = leaf
  chain (x ∷ xs) = node leaf x (chain xs)

  pub inorder-chain : (xs : List A) → inorder (chain xs) ≡ xs
  inorder-chain [] = refl
  inorder-chain (x ∷ xs) = ap (λ l. x ∷ l) (inorder-chain xs)

  abbrev pub plain : RbTree A
  plain = record {
    insert_color = λ t. t;
    erase = λ t i. chain (erase_idx (inorder t) i);
    inorder-insert_color = λ t. refl;
    inorder-erase = λ t i. inorder-chain (erase_idx (inorder t) i);
  }
