-- ===== src/Filtering/Tcp.antt =====
-- TCP in mod/common/steps/filtering_and_updating.c: `ipv6_tcp` and `ipv4_tcp`.
use jool.Prelude.{ℕ, none, some}
use jool.Types.{InAddr, In6Addr, Verdict, Result, ok, err, tcp, ipv6, ipv4, taddr4}
use jool.Verdict.{Outcome, drop, jstat_untranslatable_dst6, jstat_untranslatable_dst4}
use jool.TcpMachine.{TcpInput, tcp_state_machine}
use jool.Rfc6052.{rfc6052_4to6}
use jool.Pool4.Db.{DomainFound, domain, no_domain, mask_domain_find}
use jool.Bib.Table.{Entries}
use jool.Bib.Tcp.{TcpResult, judged, undefined_tcp, bib_add_tcp6, bib_add_tcp4}
use jool.Filtering.{
  Bib, Xlator, Packet6, Packet4, Filtered, stop, succeed, fail, counter_of, xlat_dst_6to4, conn4,
}

-- The state machine as the packet calls it.
abbrev pub input6 : Xlator → Packet6 → TcpInput
input6 x p = record {
  l3 = ipv6;
  hdr = p.tcphdr;
  handle_rst_during_fin_rcv = x.handle_rst_during_fin_rcv;
}

abbrev pub input4 : Xlator → Packet4 → TcpInput
input4 x p = record {
  l3 = ipv4;
  hdr = p.tcphdr;
  handle_rst_during_fin_rcv = x.handle_rst_during_fin_rcv;
}

-- `(result == VERDICT_CONTINUE) ? succeed(state) : result`.
unfoldable pub succeed_if : Bib → ℕ → Outcome → Entries → Verdict → Filtered
unfolding succeed fail
succeed_if db iterations outcome entries Verdict.continue = succeed db entries iterations
succeed_if db iterations outcome entries _ = record (fail db (some outcome) iterations) {
  entries = entries;
}

unfoldable pub after_tcp : Bib → ℕ → TcpResult → Filtered
unfolding succeed_if fail
after_tcp db iterations (judged outcome entries) =
    succeed_if db iterations outcome entries outcome.verdict
after_tcp db iterations undefined_tcp = fail db none iterations

unfoldable pub tcp6_in : Xlator → Bib → Packet6 → InAddr → DomainFound → Filtered
unfolding after_tcp bib_add_tcp6 tcp_state_machine stop
tcp6_in x db p dst4 (no_domain outcome) = stop db outcome
tcp6_in x db p dst4 (domain masks) =
    let r =
      bib_add_tcp6 x.env (tcp_state_machine (input6 x p)) db.tcp_table masks p.tcphdr.syn
        (record { src6 = p.src; dst6 = p.dst; dst4 = taddr4 dst4 p.dst.l4 }) in
    after_tcp (record db { tcp_table = r.table }) (counter_of r.masks) r.result

unfoldable pub tcp6_to : Xlator → Bib → Packet6 → Result InAddr → Filtered
unfolding tcp6_in mask_domain_find stop
tcp6_to x db p (err e) = stop db (drop jstat_untranslatable_dst6)
tcp6_to x db p (ok dst4) =
    tcp6_in x db p dst4 (mask_domain_find x.domain_env x.pool4 x.pool6 tcp p.mark p.dst)

unfoldable pub ipv6_tcp : Xlator → Bib → Packet6 → Filtered
unfolding tcp6_to xlat_dst_6to4
ipv6_tcp x db p = tcp6_to x db p (xlat_dst_6to4 x.pool6 p.dst)

unfoldable pub tcp4_to : Xlator → Bib → Packet4 → Result In6Addr → Filtered
unfolding after_tcp bib_add_tcp4 tcp_state_machine stop
tcp4_to x db p (err e) = stop db (drop jstat_untranslatable_dst4)
tcp4_to x db p (ok dst6) =
    let r =
      bib_add_tcp4 x.env (tcp_state_machine (input4 x p)) db.tcp_table p.tcphdr.syn (conn4 p dst6)
        p.skb in
    after_tcp (record db { tcp_table = r.table }) 0 r.result

unfoldable pub ipv4_tcp : Xlator → Bib → Packet4 → Filtered
unfolding tcp4_to rfc6052_4to6
ipv4_tcp x db p = tcp4_to x db p (rfc6052_4to6 x.pool6 p.src.l3)
