-- ===== src/Pool4/Ranges/Cover.antt =====
-- Which transport addresses the ranges of a table hold after `pool4_add_range` and after the loop of
-- `remove_range` (mod/common/db/pool4/db.c).
use Prim.Native.Nat.{Ordering}
use jool.Prelude.{
  ℕ, ◌+◌, ◌≤◌, ◌≡◌, ◌≢◌, inl, inr, refl, sym, ap, ◌∙◌, Bool, Bool-cases, true, ◌&&◌, ◌||◌, List, [],
  ◌∷◌, any, arith,
}
use jool.Types.{InAddr, PortRange, Ipv4Range, Result, ok, err, addr4_equals, ipv4_addr_cmp}
use jool.Rbtree.Find.{All}
use jool.Pool4.MaskDomain.{port_range_contains}
use jool.Pool4.Ranges.{
  port_range_touches, ipv4_range_touches, port_range_fuse, ipv4_range_fuse, compare_ports,
  compare_range, fix_collisions, fused_count, Krealloc, refused, in_place, elsewhere, slip_in,
  after_entry, put_first, pool4_add_range, Entries,
}

-- Not empty.
abbrev pub IsValid : Ipv4Range → Type 0
IsValid r = r.ports.min ≤ r.ports.max

unfoldable pub holds : InAddr → ℕ → Ipv4Range → Bool
unfolding port_range_contains
holds addr port r = addr4_equals r.prefix.addr addr && port_range_contains r.ports port

unfoldable pub covers : InAddr → ℕ → List Ipv4Range → Bool
unfolding holds any
covers addr port ranges = any (holds addr port) ranges

pub ipv4_addr_cmp-eq : (a b : InAddr) → ipv4_addr_cmp a b ≡ Ordering.eq → a ≡ b
unfolding ipv4_addr_cmp
ipv4_addr_cmp-eq a b e = ground arith

pub addr4_equals-eq : (a b : InAddr) → addr4_equals a b ≡ true → a ≡ b
unfolding addr4_equals
addr4_equals-eq a b e = ground arith

port_range_fuse-contains :
    (r s : PortRange) (port : ℕ)
    → r.min ≤ r.max
    → s.min ≤ s.max
    → r.min ≤ s.max + 1
    → s.min ≤ r.max + 1
    → port_range_contains (port_range_fuse r s) port
      ≡ (port_range_contains r port || port_range_contains s port)
unfolding port_range_contains port_range_fuse
port_range_fuse-contains r s port h k a b = ground arith

compare_ports-eq :
    (r s : PortRange) → compare_ports r s ≡ Ordering.eq → (r.min ≤ s.max + 1) × (s.min ≤ r.max + 1)
unfolding compare_ports
compare_ports-eq r s e = ground arith

pub compare_range-eq :
    (r s : Ipv4Range)
    → compare_range r s ≡ Ordering.eq
    → (r.prefix.addr ≡ s.prefix.addr) × (compare_ports r.ports s.ports ≡ Ordering.eq)
unfolding compare_range
compare_range-eq r s e = ground (arith, ipv4_addr_cmp-eq r.prefix.addr s.prefix.addr)

and_or : (b c d : Bool) → (b && (c || d)) ≡ ((b && c) || (b && d))
and_or b c d = ground arith

-- Two ranges of the same address with no gap between them become one that holds what either holds.
ipv4_range_fuse-holds :
    (r s : Ipv4Range) (addr : InAddr) (port : ℕ)
    → IsValid r
    → IsValid s
    → r.prefix.addr ≡ s.prefix.addr
    → r.ports.min ≤ s.ports.max + 1
    → s.ports.min ≤ r.ports.max + 1
    → holds addr port (ipv4_range_fuse r s) ≡ (holds addr port r || holds addr port s)
unfolding holds ipv4_range_fuse
ipv4_range_fuse-holds r s addr port hr hs e a b =
    ap (λ c. addr4_equals r.prefix.addr addr && c)
      (port_range_fuse-contains r.ports s.ports port hr hs a b)
    ∙ and_or (addr4_equals r.prefix.addr addr) (port_range_contains r.ports port)
        (port_range_contains s.ports port)
    ∙ ap
        (λ x.
          (addr4_equals r.prefix.addr addr && port_range_contains r.ports port)
          || (addr4_equals x addr && port_range_contains s.ports port))
        e

pub ipv4_range_fuse-IsValid : (r s : Ipv4Range) → IsValid r → IsValid (ipv4_range_fuse r s)
unfolding ipv4_range_fuse port_range_fuse
ipv4_range_fuse-IsValid r s h = ground arith

pub ipv4_range_touches-true :
    (r s : Ipv4Range)
    → ipv4_range_touches r s ≡ true
    → (r.prefix.addr ≡ s.prefix.addr)
      × (r.ports.min ≤ s.ports.max + 1)
      × (s.ports.min ≤ r.ports.max + 1)
unfolding ipv4_range_touches port_range_touches
ipv4_range_touches-true r s e = ground (arith, addr4_equals-eq r.prefix.addr s.prefix.addr)

or_assoc : (b c d : Bool) → ((b || c) || d) ≡ (b || (c || d))
or_assoc b c d = ground arith

or_last : (b c d : Bool) → ((b || c) || d) ≡ ((b || d) || c)
or_last b c d = ground arith

or_comm : (b c : Bool) → (b || c) ≡ (c || b)
or_comm b c = ground arith

fix_collisions-covers :
    (count : ℕ) (entry : Ipv4Range) (ranges : List Ipv4Range) (addr : InAddr) (port : ℕ)
    → IsValid entry
    → All IsValid ranges
    → covers addr port (fix_collisions count entry ranges).ranges
      ≡ covers addr port (entry ∷ ranges)
unfolding fix_collisions covers any
fix_collisions-covers count entry [] addr port h k = refl
fix_collisions-covers count entry (next ∷ ranges) addr port h k =
    elim (Bool-cases (ipv4_range_touches entry next)) [
      | inl e ↦
          let (t, u, v) = ipv4_range_touches-true entry next e in
          simp (e) (
            fix_collisions-covers (fused_count count entry next) (ipv4_range_fuse entry next) ranges
              addr port (ipv4_range_fuse-IsValid entry next h) k.1)
          ∙ ap (λ b. b || any (holds addr port) ranges)
              (ipv4_range_fuse-holds entry next addr port h k.0 t u v)
          ∙ or_assoc (holds addr port entry) (holds addr port next) (any (holds addr port) ranges)
      | inr e ↦ simp (e) refl
    ]

-- What an answer covers, if it is not an error.
abbrev pub CoversBoth : InAddr → ℕ → List Ipv4Range → Ipv4Range → Result Entries → Type 0
CoversBoth addr port ranges new (err e) = ⊥
CoversBoth addr port ranges new (ok r) =
    covers addr port r.ranges ≡ (covers addr port ranges || holds addr port new)

slip_in-covers :
    (k : Krealloc) (count : ℕ) (ranges : List Ipv4Range) (new : Ipv4Range) (addr : InAddr)
    (port : ℕ)
    → k ≢ refused
    → CoversBoth addr port ranges new (slip_in k count ranges new)
unfolding slip_in covers any
slip_in-covers refused count ranges new addr port h = absurd (h refl)
slip_in-covers in_place count ranges new addr port h =
    or_comm (holds addr port new) (any (holds addr port) ranges)
slip_in-covers elsewhere count ranges new addr port h =
    or_comm (holds addr port new) (any (holds addr port) ranges)

after_entry-covers :
    (entry : Ipv4Range) (ranges : List Ipv4Range) (new : Ipv4Range) (addr : InAddr) (port : ℕ)
    (r : Result Entries)
    → CoversBoth addr port ranges new r
    → CoversBoth addr port (entry ∷ ranges) new (after_entry entry r)
unfolding after_entry put_first covers any
after_entry-covers entry ranges new addr port (err e) h = absurd h
after_entry-covers entry ranges new addr port (ok r) h =
    ap (λ b. holds addr port entry || b) h
    ∙ sym (or_assoc (holds addr port entry) (any (holds addr port) ranges) (holds addr port new))

fused-covers :
    (count : ℕ) (entry : Ipv4Range) (ranges : List Ipv4Range) (new : Ipv4Range) (addr : InAddr)
    (port : ℕ)
    → compare_range entry new ≡ Ordering.eq
    → IsValid entry
    → All IsValid ranges
    → IsValid new
    → CoversBoth addr port
        (entry ∷ ranges)
        new
        (ok (fix_collisions count (ipv4_range_fuse entry new) ranges))
unfolding covers any
fused-covers count entry ranges new addr port e h k v =
    let (a, c) = compare_range-eq entry new e in
    let (u, w) = compare_ports-eq entry.ports new.ports c in
    fix_collisions-covers count (ipv4_range_fuse entry new) ranges addr port
      (ipv4_range_fuse-IsValid entry new h) k
    ∙ ap (λ b. b || any (holds addr port) ranges)
        (ipv4_range_fuse-holds entry new addr port h v a u w)
    ∙ or_last (holds addr port entry) (holds addr port new) (any (holds addr port) ranges)

-- One entry, by the comparison's result.
add_step-covers :
    (k : Krealloc) (count : ℕ) (entry : Ipv4Range) (ranges : List Ipv4Range) (new : Ipv4Range)
    (addr : InAddr) (port : ℕ) (o : Ordering)
    → compare_range entry new ≡ o
    → k ≢ refused
    → All IsValid (entry ∷ ranges)
    → IsValid new
    → CoversBoth addr port ranges new (pool4_add_range k count ranges new)
    → CoversBoth addr port (entry ∷ ranges) new (elim o [
      | Ordering.eq ↦ ok (fix_collisions count (ipv4_range_fuse entry new) ranges)
      | Ordering.gt ↦ slip_in k count (entry ∷ ranges) new
      | Ordering.lt ↦ after_entry entry (pool4_add_range k count ranges new)
    ])
add_step-covers k count entry ranges new addr port Ordering.lt e m h v r =
    after_entry-covers entry ranges new addr port (pool4_add_range k count ranges new) r
add_step-covers k count entry ranges new addr port Ordering.eq e m h v r =
    fused-covers count entry ranges new addr port e h.0 h.1 v
add_step-covers k count entry ranges new addr port Ordering.gt e m h v r =
    slip_in-covers k count (entry ∷ ranges) new addr port m

-- With memory, `pool4_add_range` succeeds, and the ranges then hold exactly the transport addresses
-- that they held before and those of the new range.
pub pool4_add_range-covers :
    (k : Krealloc) (count : ℕ) (ranges : List Ipv4Range) (new : Ipv4Range) (addr : InAddr)
    (port : ℕ)
    → k ≢ refused
    → All IsValid ranges
    → IsValid new
    → CoversBoth addr port ranges new (pool4_add_range k count ranges new)
unfolding pool4_add_range
pool4_add_range-covers k count [] new addr port m h v = slip_in-covers k count [] new addr port m
pool4_add_range-covers k count (entry ∷ ranges) new addr port m h v =
    add_step-covers k count entry ranges new addr port (compare_range entry new) refl m h v
      (pool4_add_range-covers k count ranges new addr port m h.1 v)
