-- ===== src/Prelude/Keyed/Walks.antt =====
-- The walks through a tree against its list of items.
use Prim.Native.Nat.{ℕ, zero, suc, ◌+◌, ◌≤◌, ◌<◌}
use mathlib.Core.Path.{◌≡◌, refl, sym, ap, ◌∙◌}
use mathlib.Core.Option.{Option, none, some}
use mathlib.Core.Logic.{inl, inr}
use mathlib.Core.List.{List, [], ◌∷◌, ◌++◌}
use native.Mathlib.Omega.{arith}
use iovisualization.Prelude.Tests.{ltb, ltb→lt, ◌==◌, if◌then◌else◌, Bool-cases}
use iovisualization.Prelude.Lists.{length, length-append}
use iovisualization.Prelude.Tree.{
  Tree, leaf, node, inorder, RbTree, length-inorder, erase_idx, erase_idx-append,
}
use iovisualization.Prelude.Ordered.{Before, After, Around, IsOrdered-Around}
use iovisualization.Prelude.Keyed.{find_key, link_key, place_key, erase_key, write_key}
use iovisualization.Prelude.Keyed.Items.{
  IsKeyed, get, insert, remove, adjust, get-After, adjust_absent, remove_absent,
}

module _ {A : Type 0} where
  erase_idx-front :
      (xs ys : List A) (i : ℕ) → i < length xs → erase_idx (xs ++ ys) i ≡ erase_idx xs i ++ ys
  erase_idx-front [] ys i h = absurd (omega arith)
  erase_idx-front (x ∷ xs) ys zero h = refl
  erase_idx-front (x ∷ xs) ys (suc i) h = ap (λ l. x ∷ l) (erase_idx-front xs ys i (omega arith))

  erase_idx-behind :
      (xs : List A) (x : A) (ys : List A) (i j : ℕ)
      → j ≡ length xs + suc i
      → erase_idx (xs ++ (x ∷ ys)) j ≡ xs ++ (x ∷ erase_idx ys i)
  erase_idx-behind xs x ys i zero e = absurd (omega arith)
  erase_idx-behind [] x ys i (suc j) e = ap (λ k. x ∷ erase_idx ys k) (omega arith)
  erase_idx-behind (y ∷ xs) x ys i (suc j) e =
      ap (λ l. y ∷ l) (erase_idx-behind xs x ys i j (omega arith))

module _ {A : Type 0} (key : A → ℕ) (x : A) (after : List A) (k : ℕ) where
  get-below :
      (before : List A)
      → k < key x
      → After key key (key x) after
      → get key (before ++ (x ∷ after)) k ≡ get key before k
  unfolding get
  get-below [] lt a = ground (arith, get-After key after (key x) k a)
  get-below (y ∷ before) lt a = ground (arith, get-below before lt a)

  get-from :
      (before : List A)
      → Before key key (key x) before
      → key x ≤ k
      → get key (before ++ (x ∷ after)) k ≡ (if key x == k then some x else get key after k)
  unfolding get
  get-from [] b h = refl
  get-from (y ∷ before) b h = ground (arith, get-from before b.1 h)

  adjust-below :
      (before : List A) (f : A → A)
      → k < key x
      → After key key (key x) after
      → adjust key (before ++ (x ∷ after)) k f ≡ adjust key before k f ++ (x ∷ after)
  unfolding adjust
  adjust-below [] f lt a = ground (arith, adjust_absent key after (key x) k f a)
  adjust-below (y ∷ before) f lt a = ground (arith, adjust-below before f lt a)

  adjust-from :
      (before : List A) (f : A → A)
      → Before key key (key x) before
      → key x ≤ k
      → adjust key (before ++ (x ∷ after)) k f
        ≡ before ++ (if key x == k then f x ∷ after else x ∷ adjust key after k f)
  unfolding adjust
  adjust-from [] f b h = refl
  adjust-from (y ∷ before) f b h = ground (arith, adjust-from before f b.1 h)

  remove-below :
      (before : List A)
      → k < key x
      → After key key (key x) after
      → remove key (before ++ (x ∷ after)) k ≡ remove key before k ++ (x ∷ after)
  unfolding remove
  remove-below [] lt a = ground (arith, remove_absent key after (key x) k a)
  remove-below (y ∷ before) lt a = ground (arith, remove-below before lt a)

  remove-from :
      (before : List A)
      → Before key key (key x) before
      → key x ≤ k
      → remove key (before ++ (x ∷ after)) k
        ≡ before ++ (if key x == k then after else x ∷ remove key after k)
  unfolding remove
  remove-from [] b h = refl
  remove-from (y ∷ before) b h = ground (arith, remove-from before b.1 h)

module _ {A : Type 0} (key : A → ℕ) (x : A) (after : List A) (a : A) where
  insert-below :
      (before : List A)
      → key a < key x
      → insert key (before ++ (x ∷ after)) a ≡ insert key before a ++ (x ∷ after)
  unfolding insert
  insert-below [] lt = ground arith
  insert-below (y ∷ before) lt = ground (arith, insert-below before lt)

  insert-from :
      (before : List A)
      → Before key key (key x) before
      → key x ≤ key a
      → insert key (before ++ (x ∷ after)) a ≡ before ++ (x ∷ insert key after a)
  unfolding insert
  insert-from [] b h = ground arith
  insert-from (y ∷ before) b h = ground (arith, insert-from before b.1 h)

-- what a walk to link an item makes of a list
abbrev pub Linked : {A : Type 0} → (A → ℕ) → List A → A → Option (Tree A) → Type 0
Linked {A} key xs a none = (b : A) × (get key xs (key a) ≡ some b)
Linked key xs a (some t) = (inorder t ≡ insert key xs a) × (get key xs (key a) ≡ none)

module _ {A : Type 0} (key : A → ℕ) where
  pub find_key-get :
      (t : Tree A) (k : ℕ) → IsKeyed key (inorder t) → find_key key t k ≡ get key (inorder t) k
  unfolding find_key get
  find_key-get leaf k v = refl
  find_key-get (node l x r) k v =
      let w = IsOrdered-Around key key (inorder l) x (inorder r) v in
      elim (Bool-cases (ltb k (key x))) [
        | inl lt ↦ rw lt (
            find_key-get l k w.front
            ∙ sym (get-below key x (inorder r) k (inorder l) (ltb→lt _ _ lt) w.above))
        | inr ge ↦
            rw (ge, get-from key x (inorder r) k (inorder l) w.below (ground (arith, ge)))
              (ground (arith, ge, find_key-get r k w.back))
      ]

  module _ (l : Tree A) (x : A) (r : Tree A) (a : A)
      (w : Around key key (inorder l) x (inorder r)) where
    Linked-left :
        (out : Option (Tree A))
        → key a < key x
        → Linked key (inorder l) a out
        → Linked key
            (inorder l ++ (x ∷ inorder r))
            a
            (elim out [ none ↦ none | some l' ↦ some (node l' x r) ])
    Linked-left none lt (b, e) = (b, get-below key x (inorder r) (key a) (inorder l) lt w.above ∙ e)
    Linked-left (some t) lt (e, g) = (
      rw e (sym (insert-below key x (inorder r) a (inorder l) lt)),
      get-below key x (inorder r) (key a) (inorder l) lt w.above ∙ g,
    )

    Linked-right :
        (out : Option (Tree A))
        → key x < key a
        → Linked key (inorder r) a out
        → Linked key
            (inorder l ++ (x ∷ inorder r))
            a
            (elim out [ none ↦ none | some r' ↦ some (node l x r') ])
    Linked-right none lt (b, e) = (
      b,
      get-from key x (inorder r) (key a) (inorder l) w.below (omega arith) ∙ ground (arith, e),
    )
    Linked-right (some t) lt (e, g) = (
      rw e (sym (insert-from key x (inorder r) a (inorder l) w.below (omega arith))),
      get-from key x (inorder r) (key a) (inorder l) w.below (omega arith) ∙ ground (arith, g),
    )

  insert_first : (a : A) → (a ∷ [] ≡ insert key [] a) × (get key [] (key a) ≡ none)
  unfolding insert get
  insert_first a = (refl, refl)

  adjust_empty : (k : ℕ) (f : A → A) → [] ≡ adjust key [] k f
  unfolding adjust
  adjust_empty k f = refl

  remove_empty : (k : ℕ) → [] ≡ remove key [] k
  unfolding remove
  remove_empty k = refl

  get_empty : (k : ℕ) {b : A} → ¬ (get key [] k ≡ some b)
  unfolding get
  get_empty k e = cc

  pub link_key-Linked :
      (t : Tree A) (a : A) → IsKeyed key (inorder t) → Linked key (inorder t) a (link_key key t a)
  unfolding link_key
  link_key-Linked leaf a v = insert_first a
  link_key-Linked (node l x r) a v =
      let w = IsOrdered-Around key key (inorder l) x (inorder r) v in
      elim (Bool-cases (ltb (key a) (key x))) [
        | inl lt ↦
            rw lt (
              Linked-left l x r a w (link_key key l a) (ltb→lt _ _ lt)
                (link_key-Linked l a w.front))
        | inr ge ↦ elim (Bool-cases (ltb (key x) (key a))) [
          | inl gt ↦
              rw (ge, gt)
                (Linked-right l x r a w (link_key key r a) (ltb→lt _ _ gt)
                  (link_key-Linked r a w.back))
          | inr le ↦
              rw (ge, le)
                (
                  x,
                  get-from key x (inorder r) (key a) (inorder l) w.below (ground (arith, ge))
                      ∙ ground (arith, ge, le),
                )
        ]
      ]

  pub inorder-write_key :
      (t : Tree A) (k : ℕ) (f : A → A)
      → IsKeyed key (inorder t)
      → inorder (write_key key t k f) ≡ adjust key (inorder t) k f
  unfolding write_key
  inorder-write_key leaf k f v = adjust_empty k f
  inorder-write_key (node l x r) k f v =
      let w = IsOrdered-Around key key (inorder l) x (inorder r) v in
      elim (Bool-cases (ltb k (key x))) [
        | inl lt ↦
            rw (lt, inorder-write_key l k f w.front)
              (sym (adjust-below key x (inorder r) k (inorder l) f (ltb→lt _ _ lt) w.above))
        | inr ge ↦
            rw (ge, adjust-from key x (inorder r) k (inorder l) f w.below (ground (arith, ge)))
              (elim (Bool-cases (ltb (key x) k)) [
                | inl gt ↦
                    rw (gt, inorder-write_key r k f w.back)
                      (ap (λ xs. inorder l ++ xs) (ground (arith, ge, gt)))
                | inr le ↦ rw le (ap (λ xs. inorder l ++ xs) (ground (arith, ge, le)))
              ])
      ]

  place_key_lem :
      (t : Tree A) (k : ℕ) {b : A}
      → IsKeyed key (inorder t)
      → get key (inorder t) k ≡ some b
      → (place_key key t k < length (inorder t))
        × (erase_idx (inorder t) (place_key key t k) ≡ remove key (inorder t) k)
  unfolding place_key
  place_key_lem leaf k v e = absurd (get_empty k e)
  place_key_lem (node l x r) k {b = b} v e =
      let w = IsOrdered-Around key key (inorder l) x (inorder r) v in
      let n = length-append (inorder l) (x ∷ inorder r) in
      elim (Bool-cases (ltb k (key x))) [
        | inl lt ↦
            let (within, gone) =
              place_key_lem l k w.front
                (sym (get-below key x (inorder r) k (inorder l) (ltb→lt _ _ lt) w.above) ∙ e) in
            rw lt (
              omega (arith, n, within),
              erase_idx-front (inorder l) (x ∷ inorder r) _ within
                  ∙ ap (λ xs. xs ++ (x ∷ inorder r)) gone
                  ∙ sym (remove-below key x (inorder r) k (inorder l) (ltb→lt _ _ lt) w.above),
            )
        | inr ge ↦
            let here =
              sym (get-from key x (inorder r) k (inorder l) w.below (ground (arith, ge))) ∙ e in
            let out = remove-from key x (inorder r) k (inorder l) w.below (ground (arith, ge)) in
            elim (Bool-cases (ltb (key x) k)) [
              | inl gt ↦
                  let (within, gone) =
                    place_key_lem r k {b = b} w.back (ground (arith, gt, here)) in
                  rw (ge, gt)
                    (
                      omega (arith, n, within, length-inorder l),
                      erase_idx-behind (inorder l) x (inorder r) (place_key key r k) _
                            (omega (arith, length-inorder l))
                          ∙ ap (λ xs. inorder l ++ xs) (ground (arith, ge, gt, gone))
                          ∙ sym out,
                    )
              | inr le ↦
                  rw (ge, le)
                    (
                      omega (arith, n, length-inorder l),
                      ap (λ i. erase_idx (inorder l ++ (x ∷ inorder r)) i) (sym (length-inorder l))
                          ∙ erase_idx-append (inorder l) (inorder r) x
                          ∙ ground (arith, ge, le, out),
                    )
            ]
      ]

  pub inorder-erase_key :
      (rb : RbTree A) (t : Tree A) (k : ℕ) {b : A}
      → IsKeyed key (inorder t)
      → get key (inorder t) k ≡ some b
      → inorder (erase_key key rb t k) ≡ remove key (inorder t) k
  unfolding erase_key
  inorder-erase_key rb t k v e = rb.inorder-erase t (place_key key t k) ∙ (place_key_lem t k v e).1
