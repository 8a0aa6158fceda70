-- ===== src/Prelude/Keyed/Items.antt =====
-- Lists of items in strict order of a number, as maps from numbers to items.
use Prim.Native.Nat.{ℕ, ◌≤◌, ◌<◌}
use mathlib.Core.Path.{◌≡◌, refl}
use mathlib.Core.Option.{Option, none, some}
use mathlib.Core.Logic.{inl, inr}
use mathlib.Core.List.{List, [], ◌∷◌}
use native.Mathlib.Omega.{arith}
use iovisualization.Prelude.Tests.{ltb, ltb→lt, ◌==◌, if◌then◌else◌, Bool-cases}
use iovisualization.Prelude.Ordered.{IsOrdered, After, After-mono}

module _ {A : Type 0} (key : A → ℕ) where
  abbrev pub IsKeyed : List A → Type 0
  IsKeyed = IsOrdered key key

  -- the item with a number
  unfoldable pub get : List A → ℕ → Option A
  get [] k = none
  get (x ∷ xs) k = if key x == k then some x else get xs k

  unfoldable pub insert : List A → A → List A
  insert [] a = a ∷ []
  insert (x ∷ xs) a = if ltb (key a) (key x) then a ∷ x ∷ xs else x ∷ insert xs a

  unfoldable pub remove : List A → ℕ → List A
  remove [] k = []
  remove (x ∷ xs) k = if key x == k then xs else x ∷ remove xs k

  unfoldable pub adjust : List A → ℕ → (A → A) → List A
  adjust [] k f = []
  adjust (x ∷ xs) k f = if key x == k then f x ∷ xs else x ∷ adjust xs k f

  pub get-After : (xs : List A) (t k : ℕ) → After key key t xs → k ≤ t → get xs k ≡ none
  unfolding get
  get-After [] t k a h = refl
  get-After (x ∷ xs) t k a h = ground (arith, get-After xs t k a.1 h)

  pub get-some : (xs : List A) (k : ℕ) {a : A} → get xs k ≡ some a → key a ≡ k
  unfolding get
  get-some [] k e = cc
  get-some (x ∷ xs) k {a = b} e = ground (arith, get-some xs k {a = b})

  pub adjust_absent :
      (xs : List A) (t k : ℕ) (f : A → A) → After key key t xs → k ≤ t → adjust xs k f ≡ xs
  unfolding adjust
  adjust_absent [] t k f a h = refl
  adjust_absent (x ∷ xs) t k f a h = ground (arith, adjust_absent xs t k f a.1 h)

  pub remove_absent : (xs : List A) (t k : ℕ) → After key key t xs → k ≤ t → remove xs k ≡ xs
  unfolding remove
  remove_absent [] t k a h = refl
  remove_absent (x ∷ xs) t k a h = ground (arith, remove_absent xs t k a.1 h)

  insert-After :
      (xs : List A) (a : A) (t : ℕ) → After key key t xs → t < key a → After key key t (insert xs a)
  unfolding insert
  insert-After [] a t v h = (h, tt)
  insert-After (x ∷ xs) a t v h = ground (arith, insert-After xs a t v.1 h)

  pub insert-IsKeyed :
      (xs : List A) (a : A) → IsKeyed xs → get xs (key a) ≡ none → IsKeyed (insert xs a)
  unfolding insert get
  insert-IsKeyed [] a v e = (omega arith, tt, tt)
  insert-IsKeyed (x ∷ xs) a v e = elim (Bool-cases (ltb (key a) (key x))) [
    | inl lt ↦
        rw lt (
          omega arith,
          (ltb→lt _ _ lt, After-mono key key xs (omega (arith, ltb→lt _ _ lt)) v.1),
          v,
        )
    | inr ge ↦ rw ge (
      v.0,
      insert-After xs a (key x) v.1 (ground (arith, ge, e)),
      insert-IsKeyed xs a v.2 (ground (arith, e)),
    )
  ]

  pub get-insert :
      (xs : List A) (a : A) (k : ℕ)
      → get xs (key a) ≡ none
      → get (insert xs a) k ≡ (if key a == k then some a else get xs k)
  unfolding get insert
  get-insert [] a k e = refl
  get-insert (x ∷ xs) a k e = ground (arith, get-insert xs a k)

  remove-After :
      (xs : List A) (k t : ℕ) → IsKeyed xs → After key key t xs → After key key t (remove xs k)
  unfolding remove
  remove-After [] k t v a = tt
  remove-After (x ∷ xs) k t v a = ground (arith, remove-After xs k t v.2 a.1)

  pub remove-IsKeyed : (xs : List A) (k : ℕ) → IsKeyed xs → IsKeyed (remove xs k)
  unfolding remove
  remove-IsKeyed [] k v = tt
  remove-IsKeyed (x ∷ xs) k v = elim (Bool-cases (key x == k)) [
    | inl e ↦ rw e v.2
    | inr e ↦ rw e (v.0, remove-After xs k (key x) v.2 v.1, remove-IsKeyed xs k v.2)
  ]

  pub get-remove :
      (xs : List A) (k j : ℕ)
      → IsKeyed xs
      → get (remove xs k) j ≡ (if j == k then none else get xs j)
  unfolding get remove
  get-remove [] k j v = ground arith
  get-remove (x ∷ xs) k j v = ground (arith, get-remove xs k j v.2, get-After xs (key x) k v.1)

  module _ (f : A → A) (same : (a : A) → key (f a) ≡ key a) where
    adjust-After : (xs : List A) (k t : ℕ) → After key key t xs → After key key t (adjust xs k f)
    unfolding adjust
    adjust-After [] k t a = tt
    adjust-After (x ∷ xs) k t a = ground (arith, same x, adjust-After xs k t a.1)

    pub adjust-IsKeyed : (xs : List A) (k : ℕ) → IsKeyed xs → IsKeyed (adjust xs k f)
    unfolding adjust
    adjust-IsKeyed [] k v = tt
    adjust-IsKeyed (x ∷ xs) k v = elim (Bool-cases (key x == k)) [
      | inl e ↦ rw (e, same x) v
      | inr e ↦ rw e (v.0, adjust-After xs k (key x) v.1, adjust-IsKeyed xs k v.2)
    ]

    pub get-adjust :
        (xs : List A) (k j : ℕ)
        → get (adjust xs k f) j ≡ (
            if j == k
            then elim (get xs k) as (λ o. Option A) [ none ↦ none | some a ↦ some (f a) ]
            else get xs j)
    unfolding get adjust
    get-adjust [] k j = ground arith
    get-adjust (x ∷ xs) k j = ground (arith, same x, get-adjust xs k j)
