-- ===== src/Stats/Merge.antt =====
-- Merging two accounts against accounting for all values in one.
use iovisualization.Prelude.{ℕ, ◌^◌, ◌<◌, ◌≡◌, refl, List, [], ◌∷◌, ◌++◌, arith}
use iovisualization.Stats.{MinMax, minmax_init, minmax_account, minmax_merge}

-- the values of a list in turn
unfoldable pub account_all : MinMax → List ℕ → MinMax
account_all mm [] = mm
account_all mm (v ∷ values) = account_all (minmax_account mm v) values

-- Each field fits 64 bits.
pub record IsMinMax (mm : MinMax) : Type 0 where
  pub min_value : mm.min_value < 2 ^ 64
  pub max_value : mm.max_value < 2 ^ 64
  pub sum : mm.sum < 2 ^ 64
  pub sos : mm.sos < 2 ^ 64
  pub num : mm.num < 2 ^ 64

-- all fields agree
pub record SameMinMax (a b : MinMax) : Type 0 where
  pub min_value : a.min_value ≡ b.min_value
  pub max_value : a.max_value ≡ b.max_value
  pub sum : a.sum ≡ b.sum
  pub sos : a.sos ≡ b.sos
  pub num : a.num ≡ b.num

abbrev pub AllBelow64 : List ℕ → Type 0
AllBelow64 [] = Unit {0}
AllBelow64 (v ∷ values) = (v < 2 ^ 64) × AllBelow64 values

account-IsMinMax : (mm : MinMax) (v : ℕ) → IsMinMax mm → v < 2 ^ 64 → IsMinMax (minmax_account mm v)
unfolding minmax_account
account-IsMinMax mm v i h = ground arith

SameMinMax-account :
    (a b : MinMax) (v : ℕ) → SameMinMax a b → SameMinMax (minmax_account a v) (minmax_account b v)
unfolding minmax_account
SameMinMax-account a b v s = ground arith

merge-account :
    (a b : MinMax) (v : ℕ)
    → SameMinMax (minmax_merge a (minmax_account b v)) (minmax_account (minmax_merge a b) v)
unfolding minmax_account minmax_merge
merge-account a b v = ground arith

SameMinMax-account_all :
    (a b : MinMax) (values : List ℕ)
    → SameMinMax a b
    → SameMinMax (account_all a values) (account_all b values)
unfolding account_all
SameMinMax-account_all a b [] s = s
SameMinMax-account_all a b (v ∷ values) s =
    SameMinMax-account_all (minmax_account a v) (minmax_account b v) values
      (SameMinMax-account a b v s)

SameMinMax-trans : {a b c : MinMax} → SameMinMax a b → SameMinMax b c → SameMinMax a c
SameMinMax-trans p q = ground arith

merge-account_all :
    (a b : MinMax) (values : List ℕ)
    → SameMinMax (minmax_merge a (account_all b values)) (account_all (minmax_merge a b) values)
unfolding account_all
merge-account_all a b [] = ground arith
merge-account_all a b (v ∷ values) =
    SameMinMax-trans (merge-account_all a (minmax_account b v) values) (
      SameMinMax-account_all (minmax_merge a (minmax_account b v))
        (minmax_account (minmax_merge a b) v) values (merge-account a b v))

merge-init : (a : MinMax) → IsMinMax a → SameMinMax (minmax_merge a minmax_init) a
unfolding minmax_merge minmax_init
merge-init a v = ground arith

account_all-append :
    (mm : MinMax) (xs ys : List ℕ) → account_all mm (xs ++ ys) ≡ account_all (account_all mm xs) ys
unfolding account_all
account_all-append mm [] ys = refl
account_all-append mm (x ∷ xs) ys = account_all-append (minmax_account mm x) xs ys

account_all-IsMinMax :
    (mm : MinMax) (values : List ℕ)
    → IsMinMax mm
    → AllBelow64 values
    → IsMinMax (account_all mm values)
unfolding account_all
account_all-IsMinMax mm [] i h = i
account_all-IsMinMax mm (v ∷ values) i h =
    account_all-IsMinMax (minmax_account mm v) values (account-IsMinMax mm v i h.0) h.1

init-IsMinMax : IsMinMax minmax_init
unfolding minmax_init
init-IsMinMax = omega arith

-- Merging the accounts of two lists of values, the first of 64-bit values, gives the one
-- account of both.
pub minmax_merge-account_all :
    (xs ys : List ℕ)
    → AllBelow64 xs
    → SameMinMax
        (minmax_merge (account_all minmax_init xs) (account_all minmax_init ys))
        (account_all minmax_init (xs ++ ys))
minmax_merge-account_all xs ys h = rw (account_all-append minmax_init xs ys) (
    SameMinMax-trans (merge-account_all (account_all minmax_init xs) minmax_init ys) (
      SameMinMax-account_all (minmax_merge (account_all minmax_init xs) minmax_init)
        (account_all minmax_init xs) ys
        (merge-init (account_all minmax_init xs)
          (account_all-IsMinMax minmax_init xs init-IsMinMax h))))
