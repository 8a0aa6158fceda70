-- ===== src/Blkparse/CpuMap/Online.antt =====
-- Marking a processor online.
use iovisualization.Prelude.{
  ℕ, ◌+◌, ◌*◌, ◌/◌, ◌≤◌, ◌<◌, ◌≡◌, refl, sym, ap, ◌∙◌, inl, inr, Bool, true, false, ◌&&◌, ◌||◌, not,
  arith, leb, ltb, ◌==◌, if◌then◌else◌, Bool-cases,
}
use iovisualization.Blkparse.CpuMap.{CpuMap, with_bit, grow_map, cpu_mark_online, cpu_is_online}

-- No processor outside the map is online.
pub record IsMap (pdi : CpuMap) : Type 0 where
  pub null : pdi.present ≡ false → (i : ℕ) → pdi.bits i ≡ false
  pub inside : (i : ℕ) → pdi.cpu_map_max ≤ i → pdi.bits i ≡ false

copied :
    (present b : Bool) (m i : ℕ)
    → (present ≡ false → b ≡ false)
    → (m ≤ i → b ≡ false)
    → (if present && ltb i m then b else false) ≡ b
copied false b m i h k = sym (h refl)
copied true b m i h k = ground (arith, k)

grown_bits : (pdi : CpuMap) (cpu i : ℕ) → IsMap pdi → (grow_map pdi cpu).bits i ≡ pdi.bits i
unfolding grow_map
grown_bits pdi cpu i v =
    copied pdi.present (pdi.bits i) pdi.cpu_map_max i (λ e. v.null e i) (v.inside i)

grown_out :
    (present b : Bool) (m cpu i : ℕ)
    → leb m cpu || not present ≡ true
    → (cpu + 64) / 64 * 64 ≤ i
    → (m ≤ i → b ≡ false)
    → (if present && ltb i m then b else false) ≡ false
grown_out false b m cpu i e h k = refl
grown_out true b m cpu i e h k = ground (arith, e, h, k)

apart : ¬ (true ≡ false)
apart e = cc

grow_map-IsMap :
    (pdi : CpuMap) (cpu : ℕ)
    → IsMap pdi
    → leb pdi.cpu_map_max cpu || not pdi.present ≡ true
    → IsMap (grow_map pdi cpu)
      × (cpu < (grow_map pdi cpu).cpu_map_max)
      × ((grow_map pdi cpu).present ≡ true)
unfolding grow_map
grow_map-IsMap pdi cpu v e = (
  record {
    null = λ n. absurd (apart n);
    inside = λ i h. grown_out pdi.present (pdi.bits i) pdi.cpu_map_max cpu i e h (v.inside i);
  },
  omega arith,
  refl,
)

mark_grown :
    (pdi : CpuMap) (cpu : ℕ)
    → leb pdi.cpu_map_max cpu || not pdi.present ≡ true
    → cpu_mark_online pdi cpu
      ≡ record (grow_map pdi cpu) { bits = with_bit (grow_map pdi cpu).bits cpu true }
unfolding cpu_mark_online
mark_grown pdi cpu e = rw e refl

mark_inside :
    (pdi : CpuMap) (cpu : ℕ)
    → leb pdi.cpu_map_max cpu || not pdi.present ≡ false
    → cpu_mark_online pdi cpu ≡ record pdi { bits = with_bit pdi.bits cpu true }
unfolding cpu_mark_online
mark_inside pdi cpu e = rw e refl

with_bit-IsMap :
    (pdi : CpuMap) (cpu : ℕ)
    → IsMap pdi
    → cpu < pdi.cpu_map_max
    → pdi.present ≡ true
    → IsMap (record pdi { bits = with_bit pdi.bits cpu true })
unfolding with_bit
with_bit-IsMap pdi cpu v h p = record {
  null = λ n. absurd (apart (sym p ∙ n));
  inside = λ i k. ground (arith, h, k, v.inside i);
}

with_bit_lem : (bits : ℕ → Bool) (cpu i : ℕ) → with_bit bits cpu true i ≡ (i == cpu || bits i)
unfolding with_bit
with_bit_lem bits cpu i = ground arith

was_present : (present b : Bool) → b || not present ≡ false → present ≡ true
was_present true b e = refl
was_present false false e = absurd (apart e)
was_present false true e = absurd (apart e)

-- With no processor outside the map online: marking a processor, which may grow the map, puts
-- exactly that processor online besides those that were, and none outside the map.
pub cpu_mark_online_lem :
    (pdi : CpuMap) (cpu : ℕ)
    → IsMap pdi
    → ((i : ℕ) → cpu_is_online (cpu_mark_online pdi cpu) i ≡ (i == cpu || cpu_is_online pdi i))
      × IsMap (cpu_mark_online pdi cpu)
cpu_mark_online_lem pdi cpu v = elim (Bool-cases (leb pdi.cpu_map_max cpu || not pdi.present)) [
  | inl e ↦
      let (w, h, p) = grow_map-IsMap pdi cpu v e in
      rw (mark_grown pdi cpu e) (
        λ i.
            with_bit_lem (grow_map pdi cpu).bits cpu i
            ∙ ap (λ b. i == cpu || b) (grown_bits pdi cpu i v),
        with_bit-IsMap (grow_map pdi cpu) cpu w h p,
      )
  | inr e ↦ rw (mark_inside pdi cpu e) (
    λ i. with_bit_lem pdi.bits cpu i,
    with_bit-IsMap pdi cpu v (ground (arith, e))
        (was_present pdi.present (leb pdi.cpu_map_max cpu) e),
  )
]
