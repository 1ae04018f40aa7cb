-- ===== src/Filtering.antt =====
-- The second step of the translator (mod/common/steps/filtering_and_updating.c): whether a packet is
-- translated, and what becomes of the bindings and the sessions.
pub mod Tcp
pub mod Main
pub mod Frame
use jool.Prelude.{ℕ, ◌+◌, ◌%◌, ◌^◌, Bool, List, Option, none, some}
use jool.Types.{
  InAddr, In6Addr, Ipv4TransportAddr, Ipv6TransportAddr, Ipv6Prefix, L4Protocol, tcp, udp, icmp,
  other, Result, ok, err, Errno, esrch, eperm, taddr4,
}
use jool.Session.{SessionEntry}
use jool.Verdict.{
  Outcome, continue, drop, drop_icmp, untranslatable_icmp, jstat_unknown, jstat_untranslatable_dst6,
  jstat_untranslatable_dst4, jstat_bib6_not_found, jstat_bib4_not_found, jstat_adf,
  icmperr_addr_unreachable, icmperr_filter,
}
use jool.TcpMachine.{TcpFlags}
use jool.Rfc6052.{extract, prefix_len, rfc6052_4to6}
use jool.Pool4.MaskDomain.{MaskDomain}
use jool.Pool4.Db.{Pool4, DomainEnv, DomainFound, domain, no_domain, mask_domain_find}
use jool.Bib.Table.{BibTable, Env, Entries, no_entries, bib_entries, session_entries}
use jool.Bib.Add.{NewConn4, Added, AddResult, added, not_added, undefined, bib_add6, bib_add4}

-- `struct bib`: a table per protocol.
pub record Bib : Type 0 where
  pub tcp_table : BibTable
  pub udp_table : BibTable
  pub icmp_table : BibTable

-- `get_table`, NULL for other protocols.
unfoldable pub get_table : Bib → L4Protocol → Option BibTable
get_table db tcp = some db.tcp_table
get_table db udp = some db.udp_table
get_table db icmp = some db.icmp_table
get_table db other = none

unfoldable pub set_table : Bib → L4Protocol → BibTable → Bib
set_table db tcp t = record db { tcp_table = t }
set_table db udp t = record db { udp_table = t }
set_table db icmp t = record db { icmp_table = t }
set_table db other t = db

-- What the step reads of the instance and of the machine, the packet aside.
pub record Xlator : Type 0 where
  pub enabled : Bool
  pub pool6_set : Bool
  pub pool6 : Ipv6Prefix
  pub drop_icmp6_info : Bool
  pub handle_rst_during_fin_rcv : Bool
  pub pool4 : Pool4
  pub is_local : InAddr → Bool
  pub domain_env : DomainEnv
  pub env : Env

-- A packet: its tuple, told apart by the layer-3 protocol, and what else is read of it. The
-- addresses of the header are those of the tuple, except in ICMP errors.
pub record Packet6 : Type 0 where
  pub src : Ipv6TransportAddr
  pub dst : Ipv6TransportAddr
  pub saddr : In6Addr
  pub daddr : In6Addr
  pub proto : L4Protocol
  pub is_icmp_error : Bool
  pub tcphdr : TcpFlags
  pub mark : ℕ

pub record Packet4 : Type 0 where
  pub src : Ipv4TransportAddr
  pub dst : Ipv4TransportAddr
  pub proto : L4Protocol
  pub is_icmp_error : Bool
  pub tcphdr : TcpFlags
  pub skb : ℕ

-- What the step leaves. `joold` is the session that is handed to `joold_add`, `iterations` what
-- `mask_domain_commit` adds to `next_ephemeral`. The outcome is none after a use of freed memory.
pub record Filtered : Type 0 where
  pub bib : Bib
  pub outcome : Option Outcome
  pub entries : Entries
  pub joold : Option SessionEntry
  pub iterations : ℕ

unfoldable pub stop : Bib → Outcome → Filtered
stop db outcome = record {
  bib = db;
  outcome = some outcome;
  entries = no_entries;
  joold = none;
  iterations = 0;
}

unfoldable pub advertised : Entries → Option SessionEntry
advertised (session_entries s) = some s
advertised _ = none

-- `succeed`.
unfoldable pub succeed : Bib → Entries → ℕ → Filtered
unfolding advertised
succeed db entries iterations = record {
  bib = db;
  outcome = some continue;
  entries = entries;
  joold = advertised entries;
  iterations = iterations;
}

unfoldable pub fail : Bib → Option Outcome → ℕ → Filtered
fail db outcome iterations = record {
  bib = db;
  outcome = outcome;
  entries = no_entries;
  joold = none;
  iterations = iterations;
}

-- `taddr_counter` of the domain that the database has used.
abbrev pub counter_of : Option MaskDomain → ℕ
counter_of none = 0
counter_of (some masks) = masks.taddr_counter

-- `xlat_dst_6to4`.
unfoldable pub xlat_dst_6to4 : Ipv6Prefix → Ipv6TransportAddr → Result InAddr
unfolding extract prefix_len
xlat_dst_6to4 pool6 dst = extract (prefix_len pool6.len) dst.l3

-- The switch over the error of `bib_add6`.
unfoldable pub after_add6 : Bib → ℕ → AddResult → Filtered
unfolding succeed fail
after_add6 db iterations (added entries) = succeed db entries iterations
after_add6 db iterations (not_added e) = fail db (some (drop jstat_bib6_not_found)) iterations
after_add6 db iterations undefined = fail db none iterations

-- `bib_add6`, on the table of the protocol.
unfoldable pub add6_in : Xlator → Bib → Packet6 → InAddr → MaskDomain → Option BibTable → Filtered
unfolding after_add6 bib_add6 set_table stop
add6_in x db p dst4 masks none = stop db (drop jstat_bib6_not_found)
add6_in x db p dst4 masks (some table) =
    let r =
      bib_add6 x.env table masks
        (record { src6 = p.src; dst6 = p.dst; dst4 = taddr4 dst4 p.dst.l4 }) in
    after_add6 (set_table db p.proto r.table) (counter_of r.masks) r.result

unfoldable pub simple6_in : Xlator → Bib → Packet6 → InAddr → DomainFound → Filtered
unfolding add6_in get_table stop
simple6_in x db p dst4 (no_domain outcome) = stop db outcome
simple6_in x db p dst4 (domain masks) = add6_in x db p dst4 masks (get_table db p.proto)

unfoldable pub simple6_to : Xlator → Bib → Packet6 → Result InAddr → Filtered
unfolding simple6_in mask_domain_find stop
simple6_to x db p (err e) = stop db (drop jstat_untranslatable_dst6)
simple6_to x db p (ok dst4) =
    simple6_in x db p dst4 (mask_domain_find x.domain_env x.pool4 x.pool6 p.proto p.mark p.dst)

unfoldable pub ipv6_simple : Xlator → Bib → Packet6 → Filtered
unfolding simple6_to xlat_dst_6to4
ipv6_simple x db p = simple6_to x db p (xlat_dst_6to4 x.pool6 p.dst)

-- The switch over the error of `bib_add4`.
unfoldable pub after_add4 : Bib → AddResult → Filtered
unfolding succeed fail
after_add4 db (added entries) = succeed db entries 0
after_add4 db (not_added esrch) =
    fail db (some (untranslatable_icmp jstat_bib4_not_found icmperr_addr_unreachable)) 0
after_add4 db (not_added eperm) = fail db (some (drop_icmp jstat_adf icmperr_filter)) 0
after_add4 db (not_added _) = fail db (some (drop jstat_unknown)) 0
after_add4 db undefined = fail db none 0

-- What the tuple labels "source" is what the BIB entry labels "destination".
abbrev pub conn4 : Packet4 → In6Addr → NewConn4
conn4 p dst6 = record { src4 = p.dst; dst4 = p.src; dst6 = record { l3 = dst6; l4 = p.src.l4 } }

unfoldable pub add4_in : Xlator → Bib → Packet4 → In6Addr → Option BibTable → Filtered
unfolding after_add4 bib_add4 set_table stop
add4_in x db p dst6 none = stop db (drop jstat_unknown)
add4_in x db p dst6 (some table) =
    let r = bib_add4 x.env table (conn4 p dst6) in
    after_add4 (set_table db p.proto r.table) r.result

unfoldable pub simple4_to : Xlator → Bib → Packet4 → Result In6Addr → Filtered
unfolding add4_in get_table stop
simple4_to x db p (err e) = stop db (drop jstat_untranslatable_dst4)
simple4_to x db p (ok dst6) = add4_in x db p dst6 (get_table db p.proto)

unfoldable pub ipv4_simple : Xlator → Bib → Packet4 → Filtered
unfolding simple4_to rfc6052_4to6
ipv4_simple x db p = simple4_to x db p (rfc6052_4to6 x.pool6 p.src.l3)
