-- ===== src/Pool4/Ranges/Counting.antt =====
-- `taddr_count` of a table, against the number of its transport addresses, over `pool4_add_range`
-- and the loop of `remove_range` (mod/common/db/pool4/db.c).
use Prim.Native.Nat.{Ordering}
use jool.Prelude.{
  ℕ, ◌+◌, ◌-◌, ◌%◌, ◌^◌, ◌≤◌, ◌<◌, ◌≡◌, ◌≢◌, inl, inr, refl, Bool-cases, List, [], ◌∷◌, arith,
}
use jool.Types.{Ipv4Range, Result, ok, err}
use jool.Rbtree.Find.{All}
use jool.Pool4.MaskDomain.{port_range_count}
use jool.Pool4.Ranges.{
  ipv4_range_touches, ipv4_range_fuse, port_range_fuse, compare_range, fix_collisions, fused_count,
  Krealloc, refused, in_place, elsewhere, slip_in, after_entry, put_first, pool4_add_range, Entries,
  add32, sub32,
}
use jool.Pool4.Ranges.Insert.{add_step}

-- The ports are 16-bit words.
abbrev pub HasPorts : Ipv4Range → Type 0
HasPorts r = r.ports.max < 2 ^ 16

-- The number of transport addresses of the ranges.
unfoldable pub total : List Ipv4Range → ℕ
total [] = 0
total (r ∷ ranges) = port_range_count r.ports + total ranges

-- The ranges went from `old` to `new` and the count from `count` to `c`: the two have changed by the
-- same number, as 32-bit words.
abbrev pub Counts : ℕ → ℕ → ℕ → ℕ → Type 0
Counts count c old new = (c + old) % 2 ^ 32 ≡ (count + new) % 2 ^ 32

port_range_count-bound : (r : Ipv4Range) → HasPorts r → port_range_count r.ports ≤ 2 ^ 16
unfolding port_range_count
port_range_count-bound r h = omega (arith, h)

fuse-HasPorts : (r s : Ipv4Range) → HasPorts r → HasPorts s → HasPorts (ipv4_range_fuse r s)
unfolding ipv4_range_fuse port_range_fuse
fuse-HasPorts r s h k = ground arith

-- Numbers: `f` for the fused range of `a` and `b`.
fused_words :
    (count a b f c rest new : ℕ)
    → a ≤ 2 ^ 16
    → b ≤ 2 ^ 16
    → Counts (add32 (sub32 (sub32 count a) b) f) c (f + rest) new
    → Counts count c (a + (b + rest)) new
unfolding add32 sub32
fused_words count a b f c rest new h k e = omega (arith, h, k, e)

fix_collisions-Counts :
    (count : ℕ) (entry : Ipv4Range) (ranges : List Ipv4Range)
    → HasPorts entry
    → All HasPorts ranges
    → Counts count
        (fix_collisions count entry ranges).taddr_count
        (total (entry ∷ ranges))
        (total (fix_collisions count entry ranges).ranges)
unfolding fix_collisions total fused_count
fix_collisions-Counts count entry [] h k = refl
fix_collisions-Counts count entry (next ∷ ranges) h k =
    elim (Bool-cases (ipv4_range_touches entry next)) [
      | inl e ↦ simp (e) (
          fused_words count (port_range_count entry.ports) (port_range_count next.ports)
            (port_range_count (ipv4_range_fuse entry next).ports) _ (total ranges) _
            (port_range_count-bound entry h) (port_range_count-bound next k.0)
            (fix_collisions-Counts (fused_count count entry next) (ipv4_range_fuse entry next)
              ranges (fuse-HasPorts entry next h k.0) k.1))
      | inr e ↦ simp (e) refl
    ]

-- By how many ports `pool4_add_range` enlarges the range that it fuses the new one with, if any.
unfoldable pub gain : List Ipv4Range → Ipv4Range → ℕ
gain [] new = 0
gain (entry ∷ ranges) new = elim (compare_range entry new) [
  | Ordering.eq ↦ port_range_count (ipv4_range_fuse entry new).ports - port_range_count entry.ports
  | Ordering.gt ↦ 0
  | Ordering.lt ↦ gain ranges new
]

-- The table has `gain` transport addresses more than `taddr_count` says, if it was right before.
abbrev pub Short : ℕ → ℕ → ℕ → Result Entries → Type 0
Short count old g (err e) = ⊥
Short count old g (ok r) = (r.taddr_count + (old + g)) % 2 ^ 32 ≡ (count + total r.ranges) % 2 ^ 32

slip_in-Short :
    (k : Krealloc) (count : ℕ) (ranges : List Ipv4Range) (new : Ipv4Range)
    → k ≢ refused
    → Short count (total ranges) 0 (slip_in k count ranges new)
unfolding slip_in add32 total
slip_in-Short refused count ranges new h = absurd (h refl)
slip_in-Short in_place count ranges new h = omega arith
slip_in-Short elsewhere count ranges new h = omega arith

after_entry-Short :
    (count old g : ℕ) (entry : Ipv4Range) (r : Result Entries)
    → Short count old g r
    → Short count (port_range_count entry.ports + old) g (after_entry entry r)
unfolding after_entry put_first total
after_entry-Short count old g entry (err e) h = h
after_entry-Short count old g entry (ok r) h = omega (arith, h)

fuse-grows :
    (r s : Ipv4Range) → port_range_count r.ports ≤ port_range_count (ipv4_range_fuse r s).ports
unfolding ipv4_range_fuse port_range_fuse port_range_count
fuse-grows r s = ground arith

abbrev gain_step : Ordering → Ipv4Range → List Ipv4Range → Ipv4Range → ℕ
gain_step o entry ranges new = elim o [
  | Ordering.eq ↦ port_range_count (ipv4_range_fuse entry new).ports - port_range_count entry.ports
  | Ordering.gt ↦ 0
  | Ordering.lt ↦ gain ranges new
]

add_step-Short :
    (k : Krealloc) (count : ℕ) (entry : Ipv4Range) (ranges : List Ipv4Range) (new : Ipv4Range)
    (o : Ordering)
    → k ≢ refused
    → All HasPorts (entry ∷ ranges)
    → HasPorts new
    → Short count (total ranges) (gain ranges new) (pool4_add_range k count ranges new)
    → Short count
        (total (entry ∷ ranges))
        (gain_step o entry ranges new)
        (add_step o k count entry ranges new)
unfolding total
add_step-Short k count entry ranges new Ordering.lt m h v r =
    after_entry-Short count (total ranges) (gain ranges new) entry
      (pool4_add_range k count ranges new) r
add_step-Short k count entry ranges new Ordering.eq m h v r = omega (
  arith,
  fuse-grows entry new,
  fix_collisions-Counts count (ipv4_range_fuse entry new) ranges (fuse-HasPorts entry new h.0 v)
      h.1,
)
add_step-Short k count entry ranges new Ordering.gt m h v r =
    slip_in-Short k count (entry ∷ ranges) new m

-- With memory, and ports of 16 bits, `pool4_add_range` changes `taddr_count` by `gain` less than
-- the number of the table's transport addresses changes, as 32-bit words: a new range that is
-- slipped in is counted, and so is every later collision, but not the ports that an existing range
-- gains when the new one is fused with it.
pub pool4_add_range-Short :
    (k : Krealloc) (count : ℕ) (ranges : List Ipv4Range) (new : Ipv4Range)
    → k ≢ refused
    → All HasPorts ranges
    → HasPorts new
    → Short count (total ranges) (gain ranges new) (pool4_add_range k count ranges new)
unfolding pool4_add_range gain
pool4_add_range-Short k count [] new m h v = slip_in-Short k count [] new m
pool4_add_range-Short k count (entry ∷ ranges) new m h v =
    add_step-Short k count entry ranges new (compare_range entry new) m h v
      (pool4_add_range-Short k count ranges new m h.1 v)
