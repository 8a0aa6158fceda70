-- ===== src/Blkiomon/Trees.antt =====
-- The tree of devices as a map: seen from the other side, it is a tree in order of the device.
use iovisualization.Prelude.{
  ℕ, ◌≡◌, refl, sym, ap, ◌∙◌, inl, inr, false, Option, none, some, List, [], ◌∷◌, ◌++◌, arith, ltb,
  Bool-cases,
}
use mathlib.Core.Path.{subst}
use iovisualization.Prelude.Tree.{Tree, leaf, node, inorder, RbTree}
use iovisualization.Prelude.Keyed.{find_key, link_key, write_key}
use iovisualization.Prelude.Plain.{plain}
use iovisualization.Prelude.Keyed.Maps.{
  leaf-Maps, Maps-inorder, Maps, put, find_key-Maps, link_key-Maps, write_key-Maps,
}
use iovisualization.Blkiomon.Stat.{BlkiomonStat}
use iovisualization.Blkiomon.{find_dstat, link_dstat, write_dstat}

abbrev pub device_of : BlkiomonStat → ℕ
device_of p = p.device

-- a tree with left and right exchanged
abbrev pub mirror : {A : Type 0} → Tree A → Tree A
mirror leaf = leaf
mirror (node l x r) = node (mirror r) x (mirror l)

mirror_option : Option (Tree BlkiomonStat) → Option (Tree BlkiomonStat)
mirror_option none = none
mirror_option (some t) = some (mirror t)

-- a list in the other order
abbrev reversed : {A : Type 0} → List A → List A
reversed [] = []
reversed (x ∷ xs) = reversed xs ++ (x ∷ [])

append_assoc : {A : Type 0} (xs ys zs : List A) → (xs ++ ys) ++ zs ≡ xs ++ (ys ++ zs)
append_assoc [] ys zs = refl
append_assoc (x ∷ xs) ys zs = ap (λ l. x ∷ l) (append_assoc xs ys zs)

append_none : {A : Type 0} (xs : List A) → xs ++ [] ≡ xs
append_none [] = refl
append_none (x ∷ xs) = ap (λ l. x ∷ l) (append_none xs)

reversed-append : {A : Type 0} (xs ys : List A) → reversed (xs ++ ys) ≡ reversed ys ++ reversed xs
reversed-append [] ys = sym (append_none (reversed ys))
reversed-append (x ∷ xs) ys =
    ap (λ l. l ++ (x ∷ [])) (reversed-append xs ys)
    ∙ append_assoc (reversed ys) (reversed xs) (x ∷ [])

inorder-mirror : {A : Type 0} (t : Tree A) → inorder (mirror t) ≡ reversed (inorder t)
inorder-mirror leaf = refl
inorder-mirror (node l x r) =
    rw (inorder-mirror r, inorder-mirror l)
      (sym (append_assoc (reversed (inorder r)) (x ∷ []) (reversed (inorder l)))
        ∙ sym (reversed-append (inorder l) (x ∷ inorder r)))

find_dstat-find_key :
    (t : Tree BlkiomonStat) (d : ℕ) → find_dstat t d ≡ find_key device_of (mirror t) d
unfolding find_dstat find_key
find_dstat-find_key leaf d = refl
find_dstat-find_key (node l x r) d =
    ground (arith, find_dstat-find_key l d, find_dstat-find_key r d)

mirror_left :
    (o : Option (Tree BlkiomonStat)) (x : BlkiomonStat) (r : Tree BlkiomonStat)
    → mirror_option
        (elim o as (λ q. Option (Tree BlkiomonStat)) [ none ↦ none | some l' ↦ some (node l' x r) ])
      ≡ elim (mirror_option o) as (λ q. Option (Tree BlkiomonStat)) [
        | none ↦ none
        | some l' ↦ some (node (mirror r) x l')
      ]
unfolding mirror_option
mirror_left none x r = refl
mirror_left (some l) x r = refl

mirror_right :
    (o : Option (Tree BlkiomonStat)) (l : Tree BlkiomonStat) (x : BlkiomonStat)
    → mirror_option
        (elim o as (λ q. Option (Tree BlkiomonStat)) [ none ↦ none | some r' ↦ some (node l x r') ])
      ≡ elim (mirror_option o) as (λ q. Option (Tree BlkiomonStat)) [
        | none ↦ none
        | some r' ↦ some (node r' x (mirror l))
      ]
unfolding mirror_option
mirror_right none l x = refl
mirror_right (some r) l x = refl

link_dstat-link_key :
    (t : Tree BlkiomonStat) (p : BlkiomonStat)
    → mirror_option (link_dstat t p) ≡ link_key device_of (mirror t) p
unfolding link_dstat link_key mirror_option
link_dstat-link_key leaf p = refl
link_dstat-link_key (node l x r) p = elim (Bool-cases (ltb x.device p.device)) [
  | inl lt ↦
      let ge : ltb p.device x.device ≡ false = ground (arith, lt) in
      rw (lt, ge) (mirror_left (link_dstat l p) x r ∙ rw (link_dstat-link_key l p) refl)
  | inr ge ↦ elim (Bool-cases (ltb p.device x.device)) [
    | inl gt ↦ rw (ge, gt) (mirror_right (link_dstat r p) l x ∙ rw (link_dstat-link_key r p) refl)
    | inr le ↦ rw (ge, le) refl
  ]
]

write_dstat-write_key :
    (t : Tree BlkiomonStat) (d : ℕ) (f : BlkiomonStat → BlkiomonStat)
    → mirror (write_dstat t d f) ≡ write_key device_of (mirror t) d f
unfolding write_dstat write_key
write_dstat-write_key leaf d f = refl
write_dstat-write_key (node l x r) d f =
    ground (arith, write_dstat-write_key l d f, write_dstat-write_key r d f)

-- The devices in the tree are in order, and `m` gives the statistics of each.
abbrev pub Devices : Tree BlkiomonStat → (ℕ → Option BlkiomonStat) → Type 0
Devices t m = Maps device_of (mirror t) m

pub leaf-Devices : Devices leaf (λ j. none)
leaf-Devices = leaf-Maps device_of

pub find_dstat-Devices :
    (t : Tree BlkiomonStat) (m : ℕ → Option BlkiomonStat) (d : ℕ)
    → Devices t m
    → find_dstat t d ≡ m d
find_dstat-Devices t m d r = find_dstat-find_key t d ∙ find_key-Maps device_of (mirror t) m d r

pub write_dstat-Devices :
    (t : Tree BlkiomonStat) (m : ℕ → Option BlkiomonStat) (d : ℕ) (f : BlkiomonStat → BlkiomonStat)
    {a : BlkiomonStat}
    → Devices t m
    → ((b : BlkiomonStat) → (f b).device ≡ b.device)
    → m d ≡ some a
    → Devices (write_dstat t d f) (put m d (f a))
write_dstat-Devices t m d f {a = a} r same e =
    subst (λ t'. Maps device_of t' (put m d (f a))) (sym (write_dstat-write_key t d f))
      (write_key-Maps device_of (mirror t) m d f r same e)

coloured :
    (rb : RbTree BlkiomonStat) (t : Tree BlkiomonStat)
    → inorder (mirror t) ≡ inorder (mirror (rb.insert_color t))
coloured rb t =
    inorder-mirror t
    ∙ ap reversed (sym (rb.inorder-insert_color t))
    ∙ sym (inorder-mirror (rb.insert_color t))

linked :
    (rb : RbTree BlkiomonStat) (t tm : Tree BlkiomonStat) (m : ℕ → Option BlkiomonStat)
    (p : BlkiomonStat) (out : Option (Tree BlkiomonStat))
    → link_dstat t p ≡ out
    → mirror_option out ≡ some tm
    → Maps device_of tm m
    → (t' : Tree BlkiomonStat) × (link_dstat t p ≡ some t') × Devices (rb.insert_color t') m
unfolding mirror_option
linked rb t tm m p none e h r = cc
linked rb t tm m p (some t') e h r =
    let same : mirror t' ≡ tm = cc in
    (t', e, Maps-inorder device_of (ap inorder (sym same) ∙ coloured rb t') r)

pub link_dstat-Devices :
    (rb : RbTree BlkiomonStat) (t : Tree BlkiomonStat) (m : ℕ → Option BlkiomonStat)
    (p : BlkiomonStat)
    → Devices t m
    → m p.device ≡ none
    → (t' : Tree BlkiomonStat) × (link_dstat t p ≡ some t')
      × Devices (rb.insert_color t') (put m p.device p)
link_dstat-Devices rb t m p r free =
    let (tm, e, r') = link_key-Maps device_of plain (mirror t) m p r free in
    linked rb t tm (put m p.device p) p (link_dstat t p) refl (link_dstat-link_key t p ∙ e) r'
