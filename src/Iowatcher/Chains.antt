-- ===== src/Iowatcher/Chains.antt =====
-- The walks of a chain of I/Os.
use iovisualization.Prelude.{
  ℕ, ◌≡◌, refl, sym, ap, ◌∙◌, inl, inr, Bool, true, false, ◌&&◌, Option, none, some, List, [], ◌∷◌,
  ◌++◌, arith, ◌==◌, if◌then◌else◌, Bool-cases,
}
use iovisualization.Iowatcher.Table.{PendingIo, is_io, in_chain, write_chain, del_chain}

-- no two nodes of the chain are of one I/O
abbrev pub IsChain : List PendingIo → Type 0
IsChain [] = Unit
IsChain (pio ∷ chain) = (in_chain chain pio.sector pio.device ≡ none) × IsChain chain

-- one after the other
abbrev pub first_of : Option PendingIo → Option PendingIo → Option PendingIo
first_of none o = o
first_of (some pio) o = some pio

pub in_chain-append :
    (chain more : List PendingIo) (k d : ℕ)
    → in_chain (chain ++ more) k d ≡ first_of (in_chain chain k d) (in_chain more k d)
unfolding in_chain
in_chain-append [] more k d = refl
in_chain-append (pio ∷ chain) more k d = elim (Bool-cases (is_io k d pio)) [
  | inl e ↦ rw e refl
  | inr e ↦ rw e (in_chain-append chain more k d)
]

-- a change that keeps the I/O
pub record KeepsIo (f : PendingIo → PendingIo) : Type 0 where
  pub sector : (pio : PendingIo) → (f pio).sector ≡ pio.sector
  pub device : (pio : PendingIo) → (f pio).device ≡ pio.device

is_io-KeepsIo :
    (f : PendingIo → PendingIo) (pio : PendingIo) (k d : ℕ)
    → KeepsIo f
    → is_io k d (f pio) ≡ is_io k d pio
unfolding is_io
is_io-KeepsIo f pio k d h = rw (h.sector pio, h.device pio) refl

abbrev pub same_io : ℕ → ℕ → ℕ → ℕ → Bool
same_io k d k' d' = k' == k && d' == d

is_io-same_io :
    (pio : PendingIo) (k d k' d' : ℕ) → is_io k d pio ≡ true → is_io k' d' pio ≡ same_io k d k' d'
unfolding is_io
is_io-same_io pio k d k' d' e = ground (arith, e)

other_io :
    (pio : PendingIo) (k d k' d' : ℕ)
    → is_io k d pio ≡ false
    → same_io k d k' d' ≡ true
    → is_io k' d' pio ≡ false
unfolding is_io
other_io pio k d k' d' e h = ground (arith, e, h)

ends_of :
    (pio : PendingIo) (k d k' d' : ℕ)
    → is_io k d pio ≡ true
    → same_io k d k' d' ≡ true
    → (pio.sector ≡ k') × (pio.device ≡ d')
unfolding is_io
ends_of pio k d k' d' e h = (ground (arith, e, h), ground (arith, e, h))

found_self : (pio : PendingIo) → is_io pio.sector pio.device pio ≡ true
unfolding is_io
found_self pio = ground arith

is_there : {a : PendingIo} → ¬ (some a ≡ none)
is_there e = cc

-- A walk past a node that is not the I/O's, and one that ends at its node.
in_chain-past :
    (pio : PendingIo) (chain : List PendingIo) (k d : ℕ)
    → is_io k d pio ≡ false
    → in_chain (pio ∷ chain) k d ≡ in_chain chain k d
unfolding in_chain
in_chain-past pio chain k d e = rw e refl

in_chain-here :
    (pio : PendingIo) (chain : List PendingIo) (k d : ℕ)
    → is_io k d pio ≡ true
    → in_chain (pio ∷ chain) k d ≡ some pio
unfolding in_chain
in_chain-here pio chain k d e = rw e refl

in_chain-none :
    (pio : PendingIo) (chain : List PendingIo) (k d : ℕ)
    → in_chain (pio ∷ chain) k d ≡ none
    → (is_io k d pio ≡ false) × (in_chain chain k d ≡ none)
in_chain-none pio chain k d e = elim (Bool-cases (is_io k d pio)) [
  | inl f ↦ absurd (is_there (sym (in_chain-here pio chain k d f) ∙ e))
  | inr f ↦ (f, sym (in_chain-past pio chain k d f) ∙ e)
]

abbrev changed : (PendingIo → PendingIo) → Option PendingIo → Option PendingIo
changed f none = none
changed f (some pio) = some (f pio)

pub in_chain-write_chain :
    (chain : List PendingIo) (k d : ℕ) (f : PendingIo → PendingIo) (a : PendingIo) (k' d' : ℕ)
    → KeepsIo f
    → in_chain chain k d ≡ some a
    → in_chain (write_chain chain k d f) k' d'
      ≡ (if same_io k d k' d' then some (f a) else in_chain chain k' d')
unfolding in_chain write_chain
in_chain-write_chain [] k d f a k' d' h e = absurd (is_there (sym e))
in_chain-write_chain (pio ∷ chain) k d f a k' d' h e = elim (Bool-cases (is_io k d pio)) [
  | inl here ↦
      let first : some pio ≡ some a = sym (in_chain-here pio chain k d here) ∙ e in
      let test = is_io-same_io pio k d k' d' here in
      elim (Bool-cases (same_io k d k' d')) [
        | inl same ↦
            rw (here, is_io-KeepsIo f pio k' d' h, test, same) (ap (λ o. changed f o) first)
        | inr apart ↦ rw (here, is_io-KeepsIo f pio k' d' h, test, apart) refl
      ]
  | inr past ↦
      let later =
        in_chain-write_chain chain k d f a k' d' h (sym (in_chain-past pio chain k d past) ∙ e) in
      elim (Bool-cases (same_io k d k' d')) [
        | inl same ↦ rw (past, other_io pio k d k' d' past same) later
        | inr apart ↦ rw (past, later, apart) refl
      ]
]

pub in_chain-del_chain :
    (chain : List PendingIo) (k d k' d' : ℕ)
    → IsChain chain
    → in_chain (del_chain chain k d) k' d'
      ≡ (if same_io k d k' d' then none else in_chain chain k' d')
unfolding in_chain del_chain
in_chain-del_chain [] k d k' d' h = elim (Bool-cases (same_io k d k' d')) [
  | inl e ↦ rw e refl
  | inr e ↦ rw e refl
]
in_chain-del_chain (pio ∷ chain) k d k' d' (fresh, h) = elim (Bool-cases (is_io k d pio)) [
  | inl here ↦
      let test = is_io-same_io pio k d k' d' here in
      elim (Bool-cases (same_io k d k' d')) [
        | inl same ↦
            let (sector, device) = ends_of pio k d k' d' here same in
            rw (here, same)
              (ap (λ x. in_chain chain x d') (sym sector)
                ∙ ap (λ y. in_chain chain pio.sector y) (sym device)
                ∙ fresh)
        | inr apart ↦ rw (here, test, apart) refl
      ]
  | inr past ↦
      let later = in_chain-del_chain chain k d k' d' h in
      elim (Bool-cases (same_io k d k' d')) [
        | inl same ↦ rw (past, other_io pio k d k' d' past same) later
        | inr apart ↦ rw (past, later, apart) refl
      ]
]

-- What is not in the chain is not there after a change of another node either.
still_lacking_written :
    (chain : List PendingIo) (k d : ℕ) (f : PendingIo → PendingIo) (k' d' : ℕ)
    → KeepsIo f
    → in_chain chain k' d' ≡ none
    → in_chain (write_chain chain k d f) k' d' ≡ none
unfolding write_chain
still_lacking_written [] k d f k' d' h e = e
still_lacking_written (pio ∷ chain) k d f k' d' h e =
    let (other, later) = in_chain-none pio chain k' d' e in
    elim (Bool-cases (is_io k d pio)) [
      | inl here ↦
          rw here (in_chain-past (f pio) chain k' d' (is_io-KeepsIo f pio k' d' h ∙ other) ∙ later)
      | inr past ↦ rw past (
          in_chain-past pio (write_chain chain k d f) k' d' other
          ∙ still_lacking_written chain k d f k' d' h later)
    ]

still_lacking :
    (chain : List PendingIo) (k d k' d' : ℕ)
    → in_chain chain k' d' ≡ none
    → in_chain (del_chain chain k d) k' d' ≡ none
unfolding del_chain
still_lacking [] k d k' d' e = e
still_lacking (pio ∷ chain) k d k' d' e =
    let (other, later) = in_chain-none pio chain k' d' e in
    elim (Bool-cases (is_io k d pio)) [
      | inl here ↦ rw here later
      | inr past ↦ rw past (
          in_chain-past pio (del_chain chain k d) k' d' other ∙ still_lacking chain k d k' d' later)
    ]

pub write_chain-IsChain :
    (chain : List PendingIo) (k d : ℕ) (f : PendingIo → PendingIo)
    → KeepsIo f
    → IsChain chain
    → IsChain (write_chain chain k d f)
unfolding write_chain
write_chain-IsChain [] k d f h r = tt
write_chain-IsChain (pio ∷ chain) k d f h (fresh, r) = elim (Bool-cases (is_io k d pio)) [
  | inl here ↦ rw here (rw (h.sector pio, h.device pio) fresh, r)
  | inr past ↦ rw past (
    still_lacking_written chain k d f pio.sector pio.device h fresh,
    write_chain-IsChain chain k d f h r,
  )
]

pub del_chain-IsChain :
    (chain : List PendingIo) (k d : ℕ) → IsChain chain → IsChain (del_chain chain k d)
unfolding del_chain
del_chain-IsChain [] k d r = tt
del_chain-IsChain (pio ∷ chain) k d (fresh, r) = elim (Bool-cases (is_io k d pio)) [
  | inl here ↦ rw here r
  | inr past ↦
      rw past (still_lacking chain k d pio.sector pio.device fresh, del_chain-IsChain chain k d r)
]

is_io_sym :
    (pio x : PendingIo)
    → is_io pio.sector pio.device x ≡ false
    → is_io x.sector x.device pio ≡ false
unfolding is_io
is_io_sym pio x e = ground (arith, e)

in_chain-nil : (k d : ℕ) → in_chain [] k d ≡ none
unfolding in_chain
in_chain-nil k d = refl

pub append-IsChain :
    (chain : List PendingIo) (pio : PendingIo)
    → in_chain chain pio.sector pio.device ≡ none
    → IsChain chain
    → IsChain (chain ++ (pio ∷ []))
append-IsChain [] pio e r = (in_chain-nil pio.sector pio.device, tt)
append-IsChain (x ∷ chain) pio e (fresh, r) =
    let (other, later) = in_chain-none x chain pio.sector pio.device e in
    (
      in_chain-append chain (pio ∷ []) x.sector x.device
          ∙ ap (λ o. first_of o (in_chain (pio ∷ []) x.sector x.device)) fresh
          ∙ in_chain-past pio [] x.sector x.device (is_io_sym pio x other)
          ∙ in_chain-nil x.sector x.device,
      append-IsChain chain pio later r,
    )
