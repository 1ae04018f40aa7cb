-- ===== src/OutTuple.antt =====
-- The third step of the translator: the tuple of the outgoing packet
-- (mod/common/steps/compute_outgoing_tuple.c).
pub mod RoundTrip
use jool.Prelude.{ℕ, Bool, if◌then◌else◌, Option, none, some}
use jool.Types.{
  InAddr, In6Addr, Ipv4TransportAddr, Ipv6TransportAddr, Ipv6Prefix, L4Protocol, Tuple, tuple4,
  tuple6, Result, ok, err, einval, taddr4,
}
use jool.Verdict.{
  Outcome, untranslatable, jstat_session_not_found, jstat_untranslatable_dst6,
  jstat_untranslatable_dst4,
}
use jool.Rfc6052.{rfc6052_6to4, rfc6052_4to6}
use jool.Bib.Table.{BibKey, TabledBib, BibTable, Entries, no_entries, bib_entries, session_entries}
use jool.Bib.Find.{is_icmp}
use jool.Bib.Static.{bib_lookup6, bib_lookup4}
use jool.Filtering.{Bib, get_table, Xlator, Packet6, Packet4}

-- `bib_set`, and the two addresses that it announces.
unfoldable pub known : Entries → Option BibKey
known no_entries = none
known (bib_entries key) = some key
known (session_entries s) = some (record { src6 = s.src6; src4 = s.src4 })

unfoldable pub key_of : Result TabledBib → Result BibKey
key_of (ok bib) = ok bib.key
key_of (err e) = err e

-- `bib_find` (mod/common/db/bib/db.c), by the layer-3 protocol of the tuple.
unfoldable pub bib_find6 : Option BibTable → Ipv6TransportAddr → Result BibKey
unfolding key_of bib_lookup6
bib_find6 none addr = err einval
bib_find6 (some table) addr = key_of (bib_lookup6 table addr)

unfoldable pub bib_find4 : Option BibTable → Ipv4TransportAddr → Result BibKey
unfolding key_of bib_lookup4
bib_find4 none addr = err einval
bib_find4 (some table) addr = key_of (bib_lookup4 table addr)

-- `find_bib`: the entries of the second step, or else a search.
unfoldable pub find_bib : Option BibKey → Result BibKey → Result BibKey
find_bib (some key) search = ok key
find_bib none search = search

-- The verdict of a step, with the tuple where it goes on.
pub data OutResult : Type 0 where
  out : Tuple → OutResult
  no_out : Outcome → OutResult

-- An ICMP identifier is the same on both sides.
unfoldable pub out6_to : Packet6 → BibKey → Result InAddr → OutResult
out6_to p key (err e) = no_out (untranslatable jstat_untranslatable_dst6)
out6_to p key (ok addr) =
    out (tuple4 key.src4 (taddr4 addr (if is_icmp p.proto then key.src4.l4 else p.dst.l4)) p.proto)

-- `equal` is the kernel's `ipv6_prefix_equal`: `xlat_addr64` translates an address of pool6 only.
unfoldable pub out6_with :
    (In6Addr → In6Addr → ℕ → Bool) → Xlator → Packet6 → Result BibKey → OutResult
unfolding out6_to rfc6052_6to4
out6_with equal x p (err e) = no_out (untranslatable jstat_session_not_found)
out6_with equal x p (ok key) = out6_to p key (rfc6052_6to4 equal x.pool6 p.dst.l3)

unfoldable pub compute_out_tuple6 :
    (In6Addr → In6Addr → ℕ → Bool) → Xlator → Bib → Packet6 → Entries → OutResult
unfolding out6_with find_bib known bib_find6 get_table
compute_out_tuple6 equal x db p entries =
    out6_with equal x p (find_bib (known entries) (bib_find6 (get_table db p.proto) p.src))

unfoldable pub out4_to : Packet4 → BibKey → Result In6Addr → OutResult
out4_to p key (err e) = no_out (untranslatable jstat_untranslatable_dst4)
out4_to p key (ok addr) = out (
    tuple6 (record { l3 = addr; l4 = if is_icmp p.proto then key.src6.l4 else p.src.l4 }) key.src6
      p.proto)

unfoldable pub out4_with : Xlator → Packet4 → Result BibKey → OutResult
unfolding out4_to rfc6052_4to6
out4_with x p (err e) = no_out (untranslatable jstat_session_not_found)
out4_with x p (ok key) = out4_to p key (rfc6052_4to6 x.pool6 p.src.l3)

unfoldable pub compute_out_tuple4 : Xlator → Bib → Packet4 → Entries → OutResult
unfolding out4_with find_bib known bib_find4 get_table
compute_out_tuple4 x db p entries =
    out4_with x p (find_bib (known entries) (bib_find4 (get_table db p.proto) p.dst))
