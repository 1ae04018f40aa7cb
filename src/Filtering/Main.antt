-- ===== src/Filtering/Main.antt =====
-- `filtering_and_updating` itself (mod/common/steps/filtering_and_updating.c).
-- `ipv6_prefix_equal` belongs to the kernel, and is a parameter.
use jool.Prelude.{ℕ, Bool, not, if◌then◌else◌}
use jool.Types.{In6Addr, L4Protocol, tcp, udp, icmp, other}
use jool.Verdict.{
  continue, drop, untranslatable, jstat_hairpin_loop, jstat_pool6_mismatch, jstat_pool4_mismatch,
  jstat_icmp6_filter, jstat_unknown_l4_proto,
}
use jool.Rfc6052.{prefix6_contains}
use jool.Pool4.Db.{pool4db_contains}
use jool.Filtering.{Bib, Xlator, Packet6, Packet4, Filtered, stop, ipv6_simple, ipv4_simple}
use jool.Filtering.Tcp.{ipv6_tcp, ipv4_tcp}

-- The switch over the layer-4 protocol.
unfoldable pub update6 : Xlator → Bib → Packet6 → L4Protocol → Filtered
unfolding ipv6_simple ipv6_tcp stop
update6 x db p udp = ipv6_simple x db p
update6 x db p tcp = ipv6_tcp x db p
update6 x db p icmp =
    if x.drop_icmp6_info then stop db (drop jstat_icmp6_filter) else ipv6_simple x db p
update6 x db p other = stop db (drop jstat_unknown_l4_proto)

unfoldable pub update4 : Xlator → Bib → Packet4 → L4Protocol → Filtered
unfolding ipv4_simple ipv4_tcp stop
update4 x db p udp = ipv4_simple x db p
update4 x db p tcp = ipv4_tcp x db p
update4 x db p icmp = ipv4_simple x db p
update4 x db p other = stop db (drop jstat_unknown_l4_proto)

module _ (ipv6_prefix_equal : In6Addr → In6Addr → ℕ → Bool) where
  abbrev pub pool6_contains : Xlator → In6Addr → Bool
  pool6_contains x addr = prefix6_contains ipv6_prefix_equal x.pool6 addr

  unfoldable pub filtering_and_updating6 : Xlator → Bib → Packet6 → Filtered
  unfolding update6 stop
  filtering_and_updating6 x db p =
      if pool6_contains x p.saddr
      then stop db (drop jstat_hairpin_loop)
      else if not (pool6_contains x p.daddr)
      then stop db (untranslatable jstat_pool6_mismatch)
      else if p.is_icmp_error
      then stop db continue
      else update6 x db p p.proto

unfoldable pub filtering_and_updating4 : Xlator → Bib → Packet4 → Filtered
unfolding pool4db_contains update4 stop
filtering_and_updating4 x db p =
    if not (pool4db_contains x.is_local x.pool4 p.proto p.dst)
    then stop db (untranslatable jstat_pool4_mismatch)
    else if p.is_icmp_error
    then stop db continue
    else update4 x db p p.proto
