-- ===== src/Blkparse/Sort/Order.antt =====
-- The order of the records, and lists in that order.
use iovisualization.Prelude.{◌≡◌, true, false, List, [], ◌∷◌, ◌++◌, arith}
use iovisualization.Blkparse.Sort.{Tr, goes_left}

-- `x` may stand before `y`
abbrev pub Leq : Tr → Tr → Type 0
Leq x y = goes_left y x ≡ false

pub Leq-trans : (x y z : Tr) → Leq x y → Leq y z → Leq x z
unfolding goes_left
Leq-trans x y z h k = ground (arith, h, k)

pub Leq-left : (t x : Tr) → goes_left t x ≡ true → Leq t x
unfolding goes_left
Leq-left t x h = ground (arith, h)

-- all of a list may stand before `t`, or behind it
abbrev pub AllBefore : Tr → List Tr → Type 0
AllBefore t [] = Unit {0}
AllBefore t (x ∷ xs) = Leq x t × AllBefore t xs

abbrev pub AllBehind : Tr → List Tr → Type 0
AllBehind t [] = Unit {0}
AllBehind t (x ∷ xs) = Leq t x × AllBehind t xs

abbrev pub IsSorted : List Tr → Type 0
IsSorted [] = Unit {0}
IsSorted (x ∷ xs) = AllBehind x xs × IsSorted xs

pub AllBefore-mono : (s t : Tr) (xs : List Tr) → Leq s t → AllBefore s xs → AllBefore t xs
AllBefore-mono s t [] h a = tt
AllBefore-mono s t (x ∷ xs) h a = (Leq-trans x s t a.0 h, AllBefore-mono s t xs h a.1)

pub AllBehind-mono : (s t : Tr) (xs : List Tr) → Leq s t → AllBehind t xs → AllBehind s xs
AllBehind-mono s t [] h a = tt
AllBehind-mono s t (x ∷ xs) h a = (Leq-trans s t x h a.0, AllBehind-mono s t xs h a.1)

pub AllBehind-append :
    (t : Tr) (xs ys : List Tr) → AllBehind t (xs ++ ys) → AllBehind t xs × AllBehind t ys
AllBehind-append t [] ys a = (tt, a)
AllBehind-append t (x ∷ xs) ys a = let (b, c) = AllBehind-append t xs ys a.1 in ((a.0, b), c)

pub append-AllBehind :
    (t : Tr) (xs ys : List Tr) → AllBehind t xs → AllBehind t ys → AllBehind t (xs ++ ys)
append-AllBehind t [] ys a b = b
append-AllBehind t (x ∷ xs) ys a b = (a.0, append-AllBehind t xs ys a.1 b)

-- a sorted list round one of its records
pub record Parts (xs : List Tr) (x : Tr) (ys : List Tr) : Type 0 where
  pub front : IsSorted xs
  pub before : AllBefore x xs
  pub behind : AllBehind x ys
  pub back : IsSorted ys

pub IsSorted-Parts :
    (xs : List Tr) (x : Tr) (ys : List Tr) → IsSorted (xs ++ (x ∷ ys)) → Parts xs x ys
IsSorted-Parts [] x ys s = record { front = tt; before = tt; behind = s.0; back = s.1 }
IsSorted-Parts (y ∷ xs) x ys s =
    let p = IsSorted-Parts xs x ys s.1 in
    let (a, b) = AllBehind-append y xs (x ∷ ys) s.0 in
    record { front = (a, p.front); before = (b.0, p.before); behind = p.behind; back = p.back }

pub Parts-IsSorted :
    (xs : List Tr) (x : Tr) (ys : List Tr)
    → IsSorted xs
    → AllBefore x xs
    → AllBehind x ys
    → IsSorted ys
    → IsSorted (xs ++ (x ∷ ys))
Parts-IsSorted [] x ys f b h k = (h, k)
Parts-IsSorted (y ∷ xs) x ys f b h k = (
  append-AllBehind y xs (x ∷ ys) f.0 (b.0, AllBehind-mono y x ys b.0 h),
  Parts-IsSorted xs x ys f.1 b.1 h k,
)
