-- ===== src/Bib/Static.antt =====
-- What userspace asks of mod/common/db/bib/db.c: lookups, walks, static entries, removals.
use Prim.Native.Nat.{Ordering}
use jool.Prelude.{
  ◌+◌, Bool, true, if◌then◌else◌, List, [], ◌∷◌, Option, none, some, Cursor, whole, find_first,
}
use jool.Types.{
  Ipv4TransportAddr, Ipv6TransportAddr, Ipv4Range, esrch, taddr4_equals, taddr4_compare, Result, ok,
  err, taddr4,
}
use jool.Address.{prefix4_contains}
use jool.Pool4.MaskDomain.{port_range_contains}
use jool.PktQueue.{pktqueue_rm}
use jool.Bib.Table.{BibKey, TabledBib, BibTable, Env}
use jool.Bib.Fate.{has_key}
use jool.Bib.Lookup.{find_bib6, find_bib4, insert_bib}
use jool.Bib.Find.{detach_bib, is_tcp}

-- `bib_find6` and `bib_find4`, with the entry that is found.
to_result : Option (Cursor TabledBib) → Result TabledBib
to_result none = err esrch
to_result (some c) = ok c.here

unfoldable pub bib_lookup6 : BibTable → Ipv6TransportAddr → Result TabledBib
unfolding to_result find_bib6
bib_lookup6 table addr = to_result (find_bib6 table addr)

unfoldable pub bib_lookup4 : BibTable → Ipv4TransportAddr → Result TabledBib
unfolding to_result find_bib4
bib_lookup4 table addr = to_result (find_bib4 table addr)

-- `none` is success; a collision is given with -EEXIST.
pub data StaticResult : Type 0 where
  static_ok : StaticResult
  static_enomem : StaticResult
  static_eexist : TabledBib → StaticResult

pub record StaticAdded : Type 0 where
  pub table : BibTable
  pub result : StaticResult

abbrev make_static : Cursor TabledBib → Cursor TabledBib
make_static c = record c { here = record (c.here) { is_static = true } }

-- The type 1 packets of the new entry's address are forgotten; `pkt_count` is not touched.
unfoldable pub forget_packets : BibTable → Ipv4TransportAddr → BibTable
unfolding pktqueue_rm
forget_packets table src4 =
    if is_tcp table.proto
    then record table { pkt_queue = pktqueue_rm table.pkt_queue src4 }
    else table

unfoldable pub insert_static : BibTable → BibKey → StaticAdded
unfolding forget_packets insert_bib
insert_static table key = record {
  table =
      forget_packets
        (record table {
          bibs = insert_bib (record { key = key; is_static = true }) table.bibs;
          jstat_bib_entries = table.jstat_bib_entries + 1;
        })
        key.src4;
  result = static_ok;
}

unfoldable pub add_static4 : BibTable → BibKey → Option (Cursor TabledBib) → StaticAdded
unfolding insert_static
add_static4 table key none = insert_static table key
add_static4 table key (some c) = record { table = table; result = static_eexist c.here }

unfoldable pub add_static6 : BibTable → BibKey → Option (Cursor TabledBib) → StaticAdded
unfolding add_static4 find_bib4
add_static6 table key none = add_static4 table key (find_bib4 table key.src4)
add_static6 table key (some c) =
    if taddr4_equals key.src4 c.here.key.src4
    then record { table = record table { bibs = whole (make_static c) }; result = static_ok }
    else record { table = table; result = static_eexist c.here }

-- `__bib_add_static`.
unfoldable pub bib_add_static : Env → BibTable → BibKey → StaticAdded
unfolding add_static6 find_bib6
bib_add_static env table key =
    if env.alloc_entry
    then add_static6 table key (find_bib6 table key.src6)
    else record { table = table; result = static_enomem }

pub record Removed : Type 0 where
  pub table : BibTable
  pub result : Result (Unit {0})

unfoldable pub rm_found : BibTable → BibKey → Option (Cursor TabledBib) → Removed
unfolding detach_bib
rm_found table key none = record { table = table; result = err esrch }
rm_found table key (some c) =
    if taddr4_equals key.src4 c.here.key.src4
    then record { table = detach_bib table c; result = ok tt }
    else record { table = table; result = err esrch }

unfoldable pub bib_rm : BibTable → BibKey → Removed
unfolding rm_found find_bib6
bib_rm table key = rm_found table key (find_bib6 table key.src6)

-- `find_starting_point`: the entries from the offset on, with or without the offset itself.
unfoldable pub find_starting_point : Bool → Ipv4TransportAddr → List TabledBib → List TabledBib
unfolding taddr4_compare
find_starting_point include offset [] = []
find_starting_point include offset (x ∷ xs) =
    let rest = find_starting_point include offset xs in
    elim (taddr4_compare x.key.src4 offset) [
      | Ordering.lt ↦ rest
      | Ordering.eq ↦ if include then x ∷ xs else xs
      | Ordering.gt ↦ x ∷ xs
    ]

-- A node of `tree4` is detached.
unfoldable pub detach_at : BibTable → Option (Cursor TabledBib) → BibTable
unfolding detach_bib
detach_at table none = table
detach_at table (some c) = detach_bib table c

unfoldable pub detach_node : BibTable → TabledBib → BibTable
unfolding detach_at find_first
detach_node table bib = detach_at table (find_first (has_key bib.key) table.bibs)

-- The loop of `bib_rm_range`, over the nodes from the starting point on.
unfoldable pub rm_range_loop : Ipv4Range → List TabledBib → BibTable → BibTable
unfolding detach_node prefix4_contains port_range_contains
rm_range_loop range [] table = table
rm_range_loop range (bib ∷ nodes) table =
    let rest =
      rm_range_loop range nodes (
        if port_range_contains range.ports bib.key.src4.l4 then detach_node table bib else table) in
    if prefix4_contains range.prefix bib.key.src4.l3 then rest else table

unfoldable pub bib_rm_range : BibTable → Ipv4Range → BibTable
unfolding rm_range_loop find_starting_point
bib_rm_range table range =
    rm_range_loop range
      (find_starting_point true (taddr4 range.prefix.addr range.ports.min) table.bibs) table

unfoldable pub flush_loop : List TabledBib → BibTable → BibTable
unfolding detach_node
flush_loop [] table = table
flush_loop (bib ∷ nodes) table = flush_loop nodes (detach_node table bib)

unfoldable pub flush_table : BibTable → BibTable
unfolding flush_loop
flush_table table = flush_loop table.bibs table
