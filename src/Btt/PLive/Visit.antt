-- ===== src/Btt/PLive/Visit.antt =====
-- What a visit of the tree adds up.
use iovisualization.Prelude.{
  ℕ, ◌+◌, ◌-◌, ◌%◌, ◌^◌, ◌<◌, ◌≡◌, refl, sym, ap, ◌∙◌, ◌≢◌, List, [], ◌∷◌, ◌++◌, arith, length,
  add64,
}
use iovisualization.Prelude.Tree.{Tree, leaf, node, inorder}
use iovisualization.Btt.PLive.{PLive, GetInfo, get_info, visit_node, p_live_visit}
use iovisualization.Btt.PLive.Intervals.{IsLive}

-- the lengths of the intervals together
unfoldable pub total_live : List PLive → ℕ
total_live [] = 0
total_live (x ∷ xs) = (x.ct - x.dt) + total_live xs

-- the visit of a list of nodes
visit_all : List PLive → GetInfo → GetInfo
visit_all [] gi = gi
visit_all (x ∷ xs) gi = visit_all xs (visit_node x gi)

visit_all-append :
    (xs ys : List PLive) (gi : GetInfo) → visit_all (xs ++ ys) gi ≡ visit_all ys (visit_all xs gi)
unfolding visit_all
visit_all-append [] ys gi = refl
visit_all-append (x ∷ xs) ys gi = visit_all-append xs ys (visit_node x gi)

p_live_visit-visit_all :
    (t : Tree PLive) (gi : GetInfo) → p_live_visit t gi ≡ visit_all (inorder t) gi
unfolding p_live_visit visit_all
p_live_visit-visit_all leaf gi = refl
p_live_visit-visit_all (node l x r) gi =
    p_live_visit-visit_all r (visit_node x (p_live_visit l gi))
    ∙ ap (λ g. visit_all (inorder r) (visit_node x g)) (p_live_visit-visit_all l gi)
    ∙ sym (visit_all-append (inorder l) (x ∷ inorder r) gi)

abbrev pub AllFit : List PLive → Type 0
AllFit [] = Unit {0}
AllFit (x ∷ xs) = (x.ct < 2 ^ 64) × AllFit xs

visit_all-totals :
    (xs : List PLive) (gi : GetInfo)
    → IsLive xs
    → AllFit xs
    → gi.nlives < 2 ^ 64
    → gi.tot_live < 2 ^ 64
    → ((visit_all xs gi).nlives ≡ add64 gi.nlives (length xs))
      × ((visit_all xs gi).tot_live ≡ add64 gi.tot_live (total_live xs))
unfolding visit_all total_live
visit_all-totals [] gi v f n t = omega arith
visit_all-totals (x ∷ xs) gi v f n t =
    omega (arith, visit_all-totals xs (visit_node x gi) v.2 f.1 (omega arith) (omega arith))

visit_all-t_start :
    (xs : List PLive) (gi : GetInfo) → gi.t_start ≡ 0 → (visit_all xs gi).t_start ≡ 0
unfolding visit_all
visit_all-t_start [] gi h = h
visit_all-t_start (x ∷ xs) gi h = visit_all-t_start xs (visit_node x gi) (ground arith)

-- A visit of a tree of intervals in order, whose ends fit 64 bits, counts the intervals and adds
-- up their lengths, both modulo 2^64.
pub p_live_visit-totals :
    (t : Tree PLive)
    → IsLive (inorder t)
    → AllFit (inorder t)
    → ((p_live_visit t get_info).nlives ≡ length (inorder t) % 2 ^ 64)
      × ((p_live_visit t get_info).tot_live ≡ total_live (inorder t) % 2 ^ 64)
p_live_visit-totals t v f =
    rw (p_live_visit-visit_all t get_info)
      (omega (arith, visit_all-totals (inorder t) get_info v f (omega arith) (omega arith)))

-- The time at which the visit of a tree lets the intervals begin is 0, also where the first
-- interval begins later.
pub t_start_never_set :
    (t : Tree PLive) {x : PLive} {rest : List PLive}
    → inorder t ≡ x ∷ rest
    → 0 < x.dt
    → ((p_live_visit t get_info).t_start ≡ 0) × ((p_live_visit t get_info).t_start ≢ x.dt)
t_start_never_set t e h =
    rw (p_live_visit-visit_all t get_info)
      (omega (arith, visit_all-t_start (inorder t) get_info refl))
