-- ===== src/Pool4/Ranges.antt =====
-- The ranges of a table of pool4 (mod/common/db/pool4/db.c, common/types.c): `pool4_add_range` and
-- the loop of `remove_range`.
--
-- A range has one address: `pool4db_add` splits prefixes. The answers of `krealloc` are parameters.
pub mod Cover
pub mod Counting
pub mod Insert
pub mod Order
pub mod Removed
pub mod RemovedCount
pub mod Searched
use Prim.Native.Nat.{Ordering}
use jool.Prelude.{
  ℕ, zero, suc, ◌+◌, ◌-◌, ◌%◌, ◌^◌, Bool, true, false, ◌&&◌, ◌||◌, ltb, leb, ◌==◌, if◌then◌else◌,
  List, [], ◌∷◌,
}
use jool.Types.{
  Ipv4Prefix, PortRange, Ipv4Range, Result, ok, err, enomem, addr4_equals, ipv4_addr_cmp,
}
use jool.Address.{prefix4_contains}
use jool.Pool4.MaskDomain.{port_range_count}

unfoldable pub port_range_touches : PortRange → PortRange → Bool
port_range_touches r1 r2 = leb r2.min (r1.max + 1) && leb r1.min (r2.max + 1)

unfoldable pub ipv4_range_touches : Ipv4Range → Ipv4Range → Bool
unfolding port_range_touches
ipv4_range_touches r1 r2 =
    addr4_equals r1.prefix.addr r2.prefix.addr
    && (r1.prefix.len == r2.prefix.len && port_range_touches r1.ports r2.ports)

unfoldable pub port_range_fuse : PortRange → PortRange → PortRange
port_range_fuse r1 r2 = record {
  min = if ltb r1.min r2.min then r1.min else r2.min;
  max = if ltb r2.max r1.max then r1.max else r2.max;
}

unfoldable pub ipv4_range_fuse : Ipv4Range → Ipv4Range → Ipv4Range
unfolding port_range_fuse
ipv4_range_fuse r1 r2 = record { prefix = r1.prefix; ports = port_range_fuse r1.ports r2.ports }

-- The part of `compare_range` behind the addresses, whose numbers are `int`s.
unfoldable pub compare_ports : PortRange → PortRange → Ordering
compare_ports r1 r2 =
    if ltb (r1.max + 1) r2.min
    then Ordering.lt
    else if ltb (r2.max + 1) r1.min
    then Ordering.gt
    else Ordering.eq

-- The sign of `compare_range`.
unfoldable pub compare_range : Ipv4Range → Ipv4Range → Ordering
unfolding compare_ports
compare_range r1 r2 = elim (ipv4_addr_cmp r1.prefix.addr r2.prefix.addr) [
  | Ordering.lt ↦ Ordering.lt
  | Ordering.gt ↦ Ordering.gt
  | Ordering.eq ↦ compare_ports r1.ports r2.ports
]

-- `taddr_count` is an unsigned int.
unfoldable pub add32 : ℕ → ℕ → ℕ
add32 a b = (a + b) % 2 ^ 32

-- A port range has less than 2^32 ports.
unfoldable pub sub32 : ℕ → ℕ → ℕ
sub32 a b = (a + (2 ^ 32 - b)) % 2 ^ 32

-- What a change leaves of the table: `taddr_count` and the array. `moved` says that the table is at
-- another place than before.
pub record Entries : Type 0 where
  pub taddr_count : ℕ
  pub ranges : List Ipv4Range
  pub moved : Bool

unfoldable pub put_first : Ipv4Range → Entries → Entries
put_first entry e = record e { ranges = entry ∷ e.ranges }

-- `table->taddr_count` after a round of `fix_collisions`.
unfoldable pub fused_count : ℕ → Ipv4Range → Ipv4Range → ℕ
unfolding add32 sub32 port_range_count ipv4_range_fuse
fused_count count entry next =
    add32 (sub32 (sub32 count (port_range_count entry.ports)) (port_range_count next.ports))
      (port_range_count (ipv4_range_fuse entry next).ports)

-- `entry`, and the ranges behind it.
unfoldable pub fix_collisions : ℕ → Ipv4Range → List Ipv4Range → Entries
unfolding ipv4_range_touches ipv4_range_fuse fused_count
fix_collisions count entry [] = record { taddr_count = count; ranges = entry ∷ []; moved = false }
fix_collisions count entry (next ∷ ranges) =
    let rest = fix_collisions (fused_count count entry next) (ipv4_range_fuse entry next) ranges in
    if ipv4_range_touches entry next
    then rest
    else record { taddr_count = count; ranges = entry ∷ (next ∷ ranges); moved = false }

-- An answer of `krealloc`: NULL, the same memory, or other memory.
pub data Krealloc : Type 0 where
  refused in_place elsewhere : Krealloc

unfoldable pub is_elsewhere : Krealloc → Bool
is_elsewhere elsewhere = true
is_elsewhere _ = false

-- `new` before the ranges that are left.
unfoldable pub slip_in : Krealloc → ℕ → List Ipv4Range → Ipv4Range → Result Entries
unfolding is_elsewhere add32 port_range_count
slip_in refused count ranges new = err enomem
slip_in k count ranges new = ok (record {
  taddr_count = add32 count (port_range_count new.ports);
  ranges = new ∷ ranges;
  moved = is_elsewhere k;
})

unfoldable pub after_entry : Ipv4Range → Result Entries → Result Entries
unfolding put_first
after_entry entry (err e) = err e
after_entry entry (ok e) = ok (put_first entry e)

-- `pool4_add_range`, from some entry on.
unfoldable pub pool4_add_range : Krealloc → ℕ → List Ipv4Range → Ipv4Range → Result Entries
unfolding compare_range ipv4_range_fuse fix_collisions slip_in after_entry
pool4_add_range k count [] new = slip_in k count [] new
pool4_add_range k count (entry ∷ ranges) new =
    let rest = pool4_add_range k count ranges new in
    elim (compare_range entry new) [
      | Ordering.eq ↦ ok (fix_collisions count (ipv4_range_fuse entry new) ranges)
      | Ordering.gt ↦ slip_in k count (entry ∷ ranges) new
      | Ordering.lt ↦ after_entry entry rest
    ]

-- What a round of `remove_range` does to the entry: it stays, goes, gets other ports, or falls into
-- two parts.
pub data Cut : Type 0 where
  kept gone : Cut
  trimmed : ℕ → PortRange → Cut
  holed : ℕ → PortRange → PortRange → Cut

-- The ports that are removed, and those of the entry. A number of ports is taken from the count.
unfoldable pub cut_ports : PortRange → PortRange → Cut
unfolding port_range_count
cut_ports rm ports =
    if leb rm.min ports.min && leb ports.max rm.max
    then gone
    else if ltb ports.min rm.min && ltb rm.max ports.max
    then holed (port_range_count rm) (record { min = ports.min; max = rm.min - 1 })
        (record { min = rm.max + 1; max = ports.max })
    else if ltb rm.max ports.min || ltb ports.max rm.min
    then kept
    else if ltb ports.min rm.min
    then trimmed (ports.max - rm.min + 1) (record { min = ports.min; max = rm.min - 1 })
    else if ltb rm.max ports.max
    then trimmed (rm.max - ports.min + 1) (record { min = rm.max + 1; max = ports.max })
    else kept

unfoldable pub cut_entry : Ipv4Range → Ipv4Range → Cut
unfolding cut_ports
cut_entry rm entry =
    if prefix4_contains rm.prefix entry.prefix.addr then cut_ports rm.ports entry.ports else kept

-- How the loop of `remove_range` ends: behind the last entry; with -ENOMEM; or with a pointer to
-- memory that `krealloc` has freed, from where on nothing is known.
pub data Removal : Type 0 where
  removed out_of_memory dangling : ℕ → List Ipv4Range → Removal

unfoldable pub with_first : Ipv4Range → Removal → Removal
with_first entry (removed count ranges) = removed count (entry ∷ ranges)
with_first entry (out_of_memory count ranges) = out_of_memory count (entry ∷ ranges)
with_first entry (dangling count ranges) = dangling count (entry ∷ ranges)

-- `slip_in` of the right part of a range that gets a hole. `rest` is what the loop makes of it and
-- the entries behind it, in the table where it is.
unfoldable pub punch : Krealloc → ℕ → List Ipv4Range → Ipv4Range → Removal → Removal
unfolding add32 port_range_count with_first
punch refused count ranges right rest = out_of_memory count ranges
punch elsewhere count ranges right rest =
    dangling (add32 count (port_range_count right.ports)) (right ∷ ranges)
punch in_place count ranges right rest = with_first right rest

abbrev pub at : Ipv4Range → PortRange → Ipv4Range
at r ports = record { prefix = r.prefix; ports = ports }

-- The loop of `remove_range`, from some entry on. The answers of `krealloc` are numbered. The right
-- part of a range with a hole is looked at next, and is kept, since it begins behind `rm`
-- (`cut_ports-behind`).
unfoldable pub remove_loop : (ℕ → Krealloc) → ℕ → ℕ → List Ipv4Range → Ipv4Range → Removal
unfolding cut_entry sub32 port_range_count punch with_first add32
remove_loop k n count [] rm = removed count []
remove_loop k n count (entry ∷ ranges) rm = elim (cut_entry rm entry) [
  | kept ↦ with_first entry (remove_loop k n count ranges rm)
  | gone ↦ remove_loop k n (sub32 count (port_range_count entry.ports)) ranges rm
  | trimmed c ports ↦ with_first (at entry ports) (remove_loop k n (sub32 count c) ranges rm)
  | holed c left right ↦ with_first (at entry left) (
      punch (k n) (sub32 count c) ranges (at entry right)
        (remove_loop k (suc n) (add32 (sub32 count c) (port_range_count right)) ranges rm))
]
