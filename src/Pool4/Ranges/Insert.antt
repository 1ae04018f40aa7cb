-- ===== src/Pool4/Ranges/Insert.antt =====
-- The ranges of a table after `pool4_add_range`: what it keeps, and their order
-- (mod/common/db/pool4/db.c).
use Prim.Native.Nat.{Ordering}
use jool.Prelude.{ℕ, ◌+◌, ◌<◌, ◌≡◌, ◌≢◌, ◌||◌, inl, inr, refl, sym, List, [], ◌∷◌, arith}
use jool.Types.{InAddr, Ipv4Range, Result, ok, err, ipv4_addr_cmp}
use jool.Rbtree.Find.{All, All-map}
use jool.Pool4.Ranges.{
  ipv4_range_fuse, port_range_fuse, compare_ports, compare_range, fix_collisions, Krealloc, refused,
  in_place, elsewhere, slip_in, after_entry, put_first, pool4_add_range, Entries,
}
use jool.Pool4.Ranges.Cover.{
  IsValid, holds, covers, CoversBoth, pool4_add_range-covers, ipv4_addr_cmp-eq, compare_range-eq,
  ipv4_range_fuse-IsValid,
}
use jool.Pool4.Ranges.Order.{
  IsApart-IsValid, Before, ipv4_addr_cmp-gt, Before-trans, IsApart, IsFusible, fix_collisions-All,
  gt≢lt, ipv4_range_fuse-len, Before-IsFusible, Ahead, fix_collisions-IsApart,
}

compare_ports-lt :
    (r s : Ipv4Range) → compare_ports r.ports s.ports ≡ Ordering.lt → r.ports.max + 1 < s.ports.min
unfolding compare_ports
compare_ports-lt r s e = ground arith

compare_ports-gt :
    (r s : Ipv4Range) → compare_ports r.ports s.ports ≡ Ordering.gt → s.ports.max + 1 < r.ports.min
unfolding compare_ports
compare_ports-gt r s e = ground arith

-- `compare_range`, by the result on the addresses.
abbrev by_addr : Ordering → Ipv4Range → Ipv4Range → Ordering
by_addr o r s = elim o [
  | Ordering.lt ↦ Ordering.lt
  | Ordering.gt ↦ Ordering.gt
  | Ordering.eq ↦ compare_ports r.ports s.ports
]

by_addr-Before :
    (r s : Ipv4Range) (o : Ordering)
    → ipv4_addr_cmp r.prefix.addr s.prefix.addr ≡ o
    → (by_addr o r s ≡ Ordering.lt → Before r s) × (by_addr o r s ≡ Ordering.gt → Before s r)
by_addr-Before r s Ordering.lt e = ((λ q. inl e), λ q. absurd (gt≢lt (sym q)))
by_addr-Before r s Ordering.gt e =
    ((λ q. absurd (gt≢lt q)), λ q. inl (ipv4_addr_cmp-gt r.prefix.addr s.prefix.addr e))
by_addr-Before r s Ordering.eq e =
    let a = ipv4_addr_cmp-eq r.prefix.addr s.prefix.addr e in
    ((λ q. inr (a, compare_ports-lt r s q)), λ q. inr (sym a, compare_ports-gt r s q))

-- What `compare_range` says of the order.
compare_range-Before :
    (r s : Ipv4Range)
    → (compare_range r s ≡ Ordering.lt → Before r s)
      × (compare_range r s ≡ Ordering.gt → Before s r)
unfolding compare_range
compare_range-Before r s = by_addr-Before r s (ipv4_addr_cmp r.prefix.addr s.prefix.addr) refl

-- What an answer says of its ranges, if it is not an error.
abbrev pub Succeeds : (List Ipv4Range → Type 0) → Result Entries → Type 0
Succeeds P (err e) = ⊥
Succeeds P (ok r) = P r.ranges

slip_in-Succeeds :
    (P : List Ipv4Range → Type 0) (k : Krealloc) (count : ℕ) (ranges : List Ipv4Range)
    (new : Ipv4Range)
    → k ≢ refused
    → P (new ∷ ranges)
    → Succeeds P (slip_in k count ranges new)
unfolding slip_in
slip_in-Succeeds P refused count ranges new h q = absurd (h refl)
slip_in-Succeeds P in_place count ranges new h q = q
slip_in-Succeeds P elsewhere count ranges new h q = q

after_entry-Succeeds :
    (P Q : List Ipv4Range → Type 0) (entry : Ipv4Range) (r : Result Entries)
    → ((ranges : List Ipv4Range) → P ranges → Q (entry ∷ ranges))
    → Succeeds P r
    → Succeeds Q (after_entry entry r)
unfolding after_entry put_first
after_entry-Succeeds P Q entry (err e) f h = absurd h
after_entry-Succeeds P Q entry (ok r) f h = f r.ranges h

-- `pool4_add_range` at an entry, by the result of the comparison.
abbrev pub add_step :
    Ordering → Krealloc → ℕ → Ipv4Range → List Ipv4Range → Ipv4Range → Result Entries
add_step o k count entry ranges new = elim o [
  | Ordering.eq ↦ ok (fix_collisions count (ipv4_range_fuse entry new) ranges)
  | Ordering.gt ↦ slip_in k count (entry ∷ ranges) new
  | Ordering.lt ↦ after_entry entry (pool4_add_range k count ranges new)
]

-- What the table's ranges and the new one have, and fusing keeps, the result's ranges have.
add_step-All :
    (P : Ipv4Range → Type 0) (k : Krealloc) (count : ℕ) (entry : Ipv4Range)
    (ranges : List Ipv4Range) (new : Ipv4Range) (o : Ordering)
    → compare_range entry new ≡ o
    → k ≢ refused
    → IsFusible P
    → All P (entry ∷ ranges)
    → P new
    → Succeeds (All P) (pool4_add_range k count ranges new)
    → Succeeds (All P) (add_step o k count entry ranges new)
add_step-All P k count entry ranges new Ordering.lt e m f h v r =
    after_entry-Succeeds (All P) (All P) entry (pool4_add_range k count ranges new)
      (λ l q. (h.0, q)) r
add_step-All P k count entry ranges new Ordering.eq e m f h v r =
    fix_collisions-All P count (ipv4_range_fuse entry new) ranges f
      (f entry new (compare_range-eq entry new e).0 h.0 v) h.1
add_step-All P k count entry ranges new Ordering.gt e m f h v r =
    slip_in-Succeeds (All P) k count (entry ∷ ranges) new m (v, h)

pub pool4_add_range-All :
    (P : Ipv4Range → Type 0) (k : Krealloc) (count : ℕ) (ranges : List Ipv4Range) (new : Ipv4Range)
    → k ≢ refused
    → IsFusible P
    → All P ranges
    → P new
    → Succeeds (All P) (pool4_add_range k count ranges new)
unfolding pool4_add_range
pool4_add_range-All P k count [] new m f h v = slip_in-Succeeds (All P) k count [] new m (v, tt)
pool4_add_range-All P k count (entry ∷ ranges) new m f h v =
    add_step-All P k count entry ranges new (compare_range entry new) refl m f h v
      (pool4_add_range-All P k count ranges new m f h.1 v)

both :
    (P Q : List Ipv4Range → Type 0) (r : Result Entries)
    → Succeeds P r
    → Succeeds Q r
    → Succeeds (λ l. P l × Q l) r
both P Q (err e) h k = h
both P Q (ok r) h k = (h, k)

-- The fused range is ahead of what is behind the first.
Ahead-fuse_first : (r s t : Ipv4Range) → IsValid r → Before r t → Ahead (ipv4_range_fuse r s) t
unfolding ipv4_range_fuse port_range_fuse
Ahead-fuse_first r s t v (inl h) = inl h
Ahead-fuse_first r s t v (inr (a, h)) = inr (a, ground arith)

add_step-IsApart :
    (k : Krealloc) (count : ℕ) (entry : Ipv4Range) (ranges : List Ipv4Range) (new : Ipv4Range)
    (o : Ordering)
    → compare_range entry new ≡ o
    → k ≢ refused
    → IsApart (entry ∷ ranges)
    → IsValid new
    → new.prefix.len ≡ 32
    → Succeeds IsApart (pool4_add_range k count ranges new)
    → Succeeds IsApart (add_step o k count entry ranges new)
add_step-IsApart k count entry ranges new Ordering.lt e m h v l r =
    after_entry-Succeeds (λ x. All (Before entry) x × IsApart x) IsApart entry
      (pool4_add_range k count ranges new) (λ x q. (h.0, h.1, q.0, q.1))
      (both (All (Before entry)) IsApart (pool4_add_range k count ranges new)
        (pool4_add_range-All (Before entry) k count ranges new m (Before-IsFusible entry) h.2
          ((compare_range-Before entry new).0 e))
        r)
add_step-IsApart k count entry ranges new Ordering.eq e m h v l r =
    fix_collisions-IsApart count (ipv4_range_fuse entry new) ranges
      (ipv4_range_fuse-IsValid entry new h.0) (ipv4_range_fuse-len entry new h.1)
      (All-map (Before entry) (Ahead (ipv4_range_fuse entry new)) ranges
        (λ t. Ahead-fuse_first entry new t h.0) h.2)
      h.3
add_step-IsApart k count entry ranges new Ordering.gt e m h v l r =
    let b = (compare_range-Before entry new).1 e in
    slip_in-Succeeds IsApart k count (entry ∷ ranges) new m (
      v,
      l,
      (b, All-map (Before entry) (Before new) ranges (λ t. Before-trans new entry t h.0 b) h.2),
      h,
    )

-- What an addition has left keeps the order.
pub pool4_add_range-IsApart :
    (k : Krealloc) (count : ℕ) (ranges : List Ipv4Range) (new : Ipv4Range)
    → k ≢ refused
    → IsApart ranges
    → IsValid new
    → new.prefix.len ≡ 32
    → Succeeds IsApart (pool4_add_range k count ranges new)
unfolding pool4_add_range
pool4_add_range-IsApart k count [] new m h v l =
    slip_in-Succeeds IsApart k count [] new m (v, l, tt, tt)
pool4_add_range-IsApart k count (entry ∷ ranges) new m h v l =
    add_step-IsApart k count entry ranges new (compare_range entry new) refl m h v l
      (pool4_add_range-IsApart k count ranges new m h.3 v l)

-- The ranges `l` are in order and apart, and hold exactly what `ranges` and `new` hold.
abbrev pub IsInserted : List Ipv4Range → Ipv4Range → List Ipv4Range → Type 0
IsInserted ranges new l =
    IsApart l
    × ((addr : InAddr) (port : ℕ)
        → covers addr port l ≡ (covers addr port ranges || holds addr port new))

inserted :
    (ranges : List Ipv4Range) (new : Ipv4Range) (r : Result Entries)
    → Succeeds IsApart r
    → ((addr : InAddr) (port : ℕ) → CoversBoth addr port ranges new r)
    → Succeeds (IsInserted ranges new) r
inserted ranges new (err e) h c = h
inserted ranges new (ok r) h c = (h, c)

-- With memory, and a new range of one address that is not empty, `pool4_add_range` succeeds on a
-- table whose ranges are in order and apart. They are so afterwards, no two of one address touching,
-- and hold exactly the transport addresses that they held before and those of the new range: it is in
-- its place, and fused with every range that it touches.
pub pool4_add_range-IsInserted :
    (k : Krealloc) (count : ℕ) (ranges : List Ipv4Range) (new : Ipv4Range)
    → k ≢ refused
    → IsApart ranges
    → IsValid new
    → new.prefix.len ≡ 32
    → Succeeds (IsInserted ranges new) (pool4_add_range k count ranges new)
pool4_add_range-IsInserted k count ranges new m h v l =
    inserted ranges new (pool4_add_range k count ranges new)
      (pool4_add_range-IsApart k count ranges new m h v l)
      (λ addr port.
        pool4_add_range-covers k count ranges new addr port m (IsApart-IsValid ranges h) v)
