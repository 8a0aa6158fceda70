-- ===== src/Btt/Avg/Laws.antt =====
-- What running averages hold.
use iovisualization.Prelude.{
  ℕ, zero, suc, ◌+◌, ◌%◌, ◌^◌, ◌≤◌, ◌<◌, ◌≡◌, sym, ap, ◌∙◌, Bool, true, false, ◌||◌, List, [], ◌∷◌,
  arith, ◌==◌, length, add64, mul64,
}
use iovisualization.Btt.Avg.{AvgInfo, no_avg, avg_update, avg_update_n, avg_unupdate}

-- the account of times, given the last first
unfoldable pub update_all : List ℕ → AvgInfo
update_all [] = no_avg
update_all (t ∷ times) = avg_update (update_all times) t

abbrev pub sum : List ℕ → ℕ
sum [] = 0
sum (t ∷ times) = t + sum times

abbrev pub contains : List ℕ → ℕ → Bool
contains [] x = false
contains (t ∷ times) x = t == x || contains times x

-- each time lies between two bounds
abbrev pub AllWithin : ℕ → ℕ → List ℕ → Type 0
AllWithin lo hi [] = Unit {0}
AllWithin lo hi (t ∷ times) = (lo ≤ t) × (t ≤ hi) × AllWithin lo hi times

abbrev pub AllBelow64 : List ℕ → Type 0
AllBelow64 [] = Unit {0}
AllBelow64 (t ∷ times) = (t < 2 ^ 64) × AllBelow64 times

-- The minimum, the maximum, the sum and the number of a list of times.
pub record Averages (times : List ℕ) (a : AvgInfo) : Type 0 where
  pub least : contains times a.min_time ≡ true
  pub greatest : contains times a.max_time ≡ true
  pub within : AllWithin a.min_time a.max_time times
  pub total : a.total ≡ sum times % 2 ^ 64
  pub n : a.n ≡ length times

AllWithin-widen :
    (lo hi lo' hi' : ℕ) (times : List ℕ)
    → lo' ≤ lo
    → hi ≤ hi'
    → AllWithin lo hi times
    → AllWithin lo' hi' times
AllWithin-widen lo hi lo' hi' [] p q v = tt
AllWithin-widen lo hi lo' hi' (t ∷ times) p q v =
    (omega arith, omega arith, AllWithin-widen lo hi lo' hi' times p q v.2)

AllWithin-le : (lo hi : ℕ) (times : List ℕ) → 0 < length times → AllWithin lo hi times → lo ≤ hi
AllWithin-le lo hi [] pos v = absurd (omega arith)
AllWithin-le lo hi (t ∷ times) pos v = omega arith

update-Averages :
    (times : List ℕ) (a : AvgInfo) (t : ℕ)
    → length times + 1 < 2 ^ 32
    → 0 < length times
    → Averages times a
    → Averages (t ∷ times) (avg_update a t)
unfolding avg_update
update-Averages times a t k pos v = ground (
  arith,
  AllWithin-le a.min_time a.max_time times pos v.within,
  AllWithin-widen a.min_time a.max_time t a.max_time times,
  AllWithin-widen a.min_time a.max_time a.min_time t times,
)

-- An average that was updated with a list of at least one and fewer than 2^32 times, each of 64
-- bits, holds their number, their least and greatest, and their sum modulo 2^64.
pub update_all-Averages :
    (t : ℕ) (times : List ℕ)
    → AllBelow64 (t ∷ times)
    → length times + 1 < 2 ^ 32
    → Averages (t ∷ times) (update_all (t ∷ times))
unfolding update_all avg_update
update_all-Averages t [] b k = ground arith
update_all-Averages t (s ∷ times) b k =
    update-Averages (s ∷ times) (update_all (s ∷ times)) t k (omega arith)
      (update_all-Averages s times b.1 (omega arith))

-- one time, so often
unfoldable pub repeat_update : ℕ → AvgInfo → ℕ → AvgInfo
repeat_update zero a t = a
repeat_update (suc k) a t = repeat_update k (avg_update a t) t

update_once :
    (a : AvgInfo) (t : ℕ)
    → 0 < a.n
    → a.n + 1 < 2 ^ 32
    → a.min_time ≤ t
    → t ≤ a.max_time
    → avg_update a t ≡ record a { total = add64 a.total t; n = a.n + 1 }
unfolding avg_update
update_once a t pos few lo hi = ground arith

-- an average that has seen a time between its bounds
update_seen :
    (k : ℕ) (a : AvgInfo) (t : ℕ)
    → 0 < a.n
    → a.n + k < 2 ^ 32
    → a.min_time ≤ t
    → t ≤ a.max_time
    → a.total < 2 ^ 64
    → repeat_update k a t ≡ record a { total = add64 a.total (mul64 k t); n = a.n + k }
unfolding repeat_update
update_seen zero a t pos few lo hi fits = ground arith
update_seen (suc k) a t pos few lo hi fits =
    let a' : AvgInfo = record a { total = add64 a.total t; n = a.n + 1 } in
    ap (λ (b : AvgInfo). repeat_update k b t) (update_once a t pos (omega arith) lo hi)
    ∙ update_seen k a' t (omega arith) (omega arith) lo hi (omega arith)
    ∙ ground arith

avg_update_n-suc :
    (a : AvgInfo) (t k : ℕ)
    → t < 2 ^ 64
    → a.n + suc k < 2 ^ 32
    → a.min_time ≤ a.max_time
    → let b = avg_update a t in
      (b.min_time ≤ t)
      × (t ≤ b.max_time)
      × (0 < b.n)
      × (b.n ≡ a.n + 1)
      × (b.total < 2 ^ 64)
      × (record b { total = add64 b.total (mul64 k t); n = b.n + k } ≡ avg_update_n a t (suc k))
unfolding avg_update avg_update_n
avg_update_n-suc a t k fits few le = ground arith

-- Updating with a 64-bit time `n` times at once is updating with it `n` times, for a positive
-- `n` and an average whose bounds are in order and whose count does not overflow.
pub avg_update_n-repeat_update :
    (a : AvgInfo) (t k : ℕ)
    → t < 2 ^ 64
    → a.n + suc k < 2 ^ 32
    → a.min_time ≤ a.max_time
    → avg_update_n a t (suc k) ≡ repeat_update (suc k) a t
unfolding repeat_update
avg_update_n-repeat_update a t k fits few le =
    let (lo, hi, pos, count, small, same) = avg_update_n-suc a t k fits few le in
    sym (update_seen k (avg_update a t) t pos (omega arith) lo hi small ∙ same)

-- Taking a 64-bit time back that was just counted restores the sum and the count of an average
-- that is not empty and whose fields fit their types.
pub avg_unupdate-avg_update :
    (a : AvgInfo) (t : ℕ)
    → 0 < a.n
    → a.n < 2 ^ 32
    → a.total < 2 ^ 64
    → t < 2 ^ 64
    → let b = avg_unupdate (avg_update a t) t in (b.total ≡ a.total) × (b.n ≡ a.n)
unfolding avg_update avg_unupdate
avg_unupdate-avg_update a t pos few fits h = ground arith
