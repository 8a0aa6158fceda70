-- ===== src/Blkparse/CpuMap.antt =====
-- server-proto/blkparse.c, lines 305 to 307, 504 to 532 and 2014 to 2050: which processors of a device are online, and
-- whether each of them has a record in the tree. Bit `i % 64` of word `i / 64` is `bits i`; processor numbers are below
-- 2^31 and, where a map is not grown for them, inside it.
pub mod Laws
pub mod Online
pub mod Tests
use iovisualization.Prelude.{
  ℕ, zero, suc, ◌+◌, ◌*◌, ◌/◌, Bool, true, false, ◌&&◌, ◌||◌, not, List, [], ◌∷◌, leb, ltb, ◌==◌,
  if◌then◌else◌,
}
use iovisualization.Prelude.Tree.{Tree, inorder}
use iovisualization.Blkparse.Sort.{Tr}

-- `cpu_map` and `cpu_map_max` of `struct per_dev_info`; `present` is whether `cpu_map` is not NULL
pub record CpuMap : Type 0 where
  pub present : Bool
  pub bits : ℕ → Bool
  pub cpu_map_max : ℕ

-- a word with one bit set or cleared
unfoldable pub with_bit : (ℕ → Bool) → ℕ → Bool → ℕ → Bool
with_bit bits cpu b i = if i == cpu then b else bits i

-- the new map of `cpu_mark_online`, with the old one copied into it
unfoldable pub grow_map : CpuMap → ℕ → CpuMap
grow_map pdi cpu = record {
  present = true;
  bits = λ i. if pdi.present && ltb i pdi.cpu_map_max then pdi.bits i else false;
  cpu_map_max = (cpu + 64) / 64 * 64;
}

unfoldable pub cpu_mark_online : CpuMap → ℕ → CpuMap
cpu_mark_online pdi cpu =
    let map = if leb pdi.cpu_map_max cpu || not pdi.present then grow_map pdi cpu else pdi in
    record map { bits = with_bit map.bits cpu true }

unfoldable pub cpu_mark_offline : CpuMap → ℕ → CpuMap
cpu_mark_offline pdi cpu = record pdi { bits = with_bit pdi.bits cpu false }

abbrev pub cpu_is_online : CpuMap → ℕ → Bool
cpu_is_online pdi cpu = pdi.bits cpu

-- the first loop of `check_cpu_map`, over the records of the tree
unfoldable pub mark_seen : List Tr → (ℕ → Bool) → ℕ → Bool
mark_seen [] cpu_map = cpu_map
mark_seen (t ∷ traces) cpu_map = mark_seen traces (with_bit cpu_map t.bit.cpu true)

-- The last loop, over the bits below a number: is one of the first map not in the second?
unfoldable pub lacking : (ℕ → Bool) → (ℕ → Bool) → ℕ → Bool
lacking online seen zero = false
lacking online seen (suc n) = (online n && not (seen n)) || lacking online seen n

-- The map that `malloc` gives holds `garbage`, and `memset` clears its first word only.
unfoldable pub new_map : (ℕ → Bool) → ℕ → Bool
new_map garbage i = if ltb i 64 then false else garbage i

unfoldable pub check_cpu_map : (ℕ → Bool) → Tree Tr → CpuMap → ℕ
check_cpu_map garbage rb_sort_root pdi =
    let seen = mark_seen (inorder rb_sort_root) (new_map garbage) in
    if lacking pdi.bits seen (pdi.cpu_map_max / 64 * 64) then 1 else 0
