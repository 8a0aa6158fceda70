-- ===== src/Prelude/Tree.antt =====
-- Binary trees as the clients of rbtree.h see them. The kernel's rbtree.c, which links, colours and
-- rotates, is a parameter: `insert_color` may rotate but keeps the order of the nodes, and `erase` takes the node
-- with the given place in that order out and keeps the order of the others.
use Prim.Native.Nat.{ℕ, zero, suc, ◌+◌}
use mathlib.Core.Path.{◌≡◌, refl, ap, ◌∙◌}
use mathlib.Core.List.{List, [], ◌∷◌, ◌++◌}
use native.Mathlib.Omega.{arith}
use iovisualization.Prelude.Lists.{length, length-append}

pub data Tree {ℓ} (A : Type ℓ) : Type ℓ where
  leaf : Tree A
  node : Tree A → A → Tree A → Tree A

module _ {ℓ} {A : Type ℓ} where
  -- the nodes from left to right, as `rb_first` and `rb_next` visit them
  abbrev pub inorder : Tree A → List A
  inorder leaf = []
  inorder (node l x r) = inorder l ++ (x ∷ inorder r)

  abbrev pub size : Tree A → ℕ
  size leaf = 0
  size (node l x r) = size l + 1 + size r

  -- a list without the element at an index
  abbrev pub erase_idx : List A → ℕ → List A
  erase_idx [] i = []
  erase_idx (x ∷ xs) zero = xs
  erase_idx (x ∷ xs) (suc i) = x ∷ erase_idx xs i

  pub length-inorder : (t : Tree A) → length (inorder t) ≡ size t
  length-inorder leaf = refl
  length-inorder (node l x r) =
      length-append (inorder l) (x ∷ inorder r) ∙ omega (arith, length-inorder l, length-inorder r)

  pub erase_idx-append :
      (xs ys : List A) (x : A) → erase_idx (xs ++ (x ∷ ys)) (length xs) ≡ xs ++ ys
  erase_idx-append [] ys x = refl
  erase_idx-append (y ∷ xs) ys x = ap (λ l. y ∷ l) (erase_idx-append xs ys x)

-- rbtree.c, as its clients rely on it
pub record RbTree {ℓ} (A : Type ℓ) : Type ℓ where
  pub insert_color : Tree A → Tree A
  pub erase : Tree A → ℕ → Tree A
  pub inorder-insert_color : (t : Tree A) → inorder (insert_color t) ≡ inorder t
  pub inorder-erase : (t : Tree A) (i : ℕ) → inorder (erase t i) ≡ erase_idx (inorder t) i
