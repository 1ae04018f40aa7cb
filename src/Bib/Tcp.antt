-- ===== src/Bib/Tcp.antt =====
-- `bib_add_tcp6` and `bib_add_tcp4` of mod/common/db/bib/db.c: the database's half of the TCP state
-- machine, with the packets that are stored on behalf of simultaneous opens.
use jool.Prelude.{ℕ, ◌+◌, Bool, leb, if◌then◌else◌, List, Option, none, some, Cursor}
use jool.Types.{Result, ok, err, eexist, enomem, enospc}
use jool.Verdict.{
  Outcome, continue, drop, drop_icmp, stolen, jstat_unknown, jstat_enomem, jstat_so_exists,
  jstat_syn6_expected, jstat_syn4_expected, jstat_v4_syn, jstat_type1pkt, jstat_type2pkt,
  jstat_so_full, icmperr_port_unreachable,
}
use jool.Session.{v6_init, v4_init, timer_trans, timer_syn4}
use jool.Pool4.MaskDomain.{MaskDomain}
use jool.PktQueue.{PktqueueSession, pktqueue_add}
use jool.Bib.Table.{
  BibKey, TabledSession, BibTable, Env, Entries, no_entries, bib_entries, session_entries, tstose,
}
use jool.Bib.Fate.{FateCb, decide_fate}
use jool.Bib.Find.{NewConn, Found, old_session, old_bib, no_bib, failed, fault, find_bib_session6}
use jool.Bib.Add.{
  new_session, commit_session_add, commit_bib_add, NewConn4, Found4, session4, bib4, nothing4,
  find_bib_session4,
}

-- `undefined_tcp` is the use of freed memory that follows a `fault`.
pub data TcpResult : Type 0 where
  judged : Outcome → Entries → TcpResult
  undefined_tcp : TcpResult

pub record TcpAdded : Type 0 where
  pub table : BibTable
  pub masks : Option MaskDomain
  pub result : TcpResult

-- `tstobs` after a fate; reading a session that the fate has freed is undefined.
unfoldable pub after_fate : Env → BibTable → Option TabledSession → TcpResult
unfolding tstose
after_fate env table none = undefined_tcp
after_fate env table (some session) =
    judged continue (session_entries (tstose env table.proto session))

-- `decide_fate` and the verdict that it leads to.
unfoldable pub judge_session :
    Env → FateCb → BibTable → Option MaskDomain → Cursor TabledSession → TcpAdded
unfolding decide_fate after_fate
judge_session env cb table masks c =
    let d = decide_fate env cb table c none in
    record {
      table = d.table;
      masks = masks;
      result =
          if d.translate
          then after_fate env d.table d.session
          else judged (drop jstat_so_exists) no_entries;
    }

-- `commit_add6` and `commit_add4` in the CLOSED state.
unfoldable pub add_closed : Env → BibTable → Option MaskDomain → TabledSession → Outcome → TcpAdded
unfolding commit_session_add tstose
add_closed env table masks session outcome = record {
  table = commit_session_add table session;
  masks = masks;
  result = judged outcome (session_entries (tstose env table.proto session));
}

abbrev pub leave : BibTable → Option MaskDomain → Outcome → Entries → TcpAdded
leave table masks outcome entries = record {
  table = table;
  masks = masks;
  result = judged outcome entries;
}

unfoldable pub finish_tcp6 :
    Env → FateCb → Bool → NewConn → BibTable → Option MaskDomain → Found → TcpAdded
unfolding judge_session add_closed commit_bib_add
finish_tcp6 env cb syn new table masks (failed e) =
    leave table masks (drop jstat_unknown) no_entries
finish_tcp6 env cb syn new table masks fault = record {
  table = table;
  masks = masks;
  result = undefined_tcp;
}
finish_tcp6 env cb syn new table masks (old_session key c) = judge_session env cb table masks c
finish_tcp6 env cb syn new table masks (old_bib key dst4) =
    if syn
    then add_closed env table masks (new_session env key new.dst6 dst4 v6_init timer_trans none)
        continue
    else leave table masks continue (bib_entries key)
finish_tcp6 env cb syn new table masks (no_bib src4 dst4) =
    let key : BibKey = record { src6 = new.src6; src4 = src4 } in
    if syn
    then add_closed env (commit_bib_add table key) masks
        (new_session env key new.dst6 dst4 v6_init timer_trans none) continue
    else leave table masks (drop jstat_syn6_expected) no_entries

unfoldable pub bib_add_tcp6 : Env → FateCb → BibTable → MaskDomain → Bool → NewConn → TcpAdded
unfolding find_bib_session6 finish_tcp6
bib_add_tcp6 env cb table masks syn new =
    if env.alloc_entry
    then (let s = find_bib_session6 env table (some masks) new new.dst4 in
        finish_tcp6 env cb syn new s.table s.masks s.result)
    else leave table (some masks) (drop jstat_enomem) no_entries

unfoldable pub too_many_pkts : BibTable → TcpAdded
too_many_pkts table = leave table none (drop_icmp jstat_so_full icmperr_port_unreachable) no_entries

-- The switch over the result of `pktqueue_add`.
unfoldable pub after_pktqueue_add : BibTable → Result (List PktqueueSession) → TcpAdded
unfolding too_many_pkts
after_pktqueue_add table (ok queue) =
    leave (record table { pkt_queue = queue; pkt_count = table.pkt_count + 1 }) none
      (stolen jstat_type1pkt) no_entries
after_pktqueue_add table (err eexist) = leave table none (drop jstat_so_exists) no_entries
after_pktqueue_add table (err enospc) = too_many_pkts table
after_pktqueue_add table (err enomem) = leave table none (drop jstat_enomem) no_entries
after_pktqueue_add table (err _) = leave table none (drop jstat_unknown) no_entries

-- No BIB entry: the packet may be half of a simultaneous open (type 1).
unfoldable pub store_type1 : Env → BibTable → NewConn4 → ℕ → TcpAdded
unfolding after_pktqueue_add pktqueue_add
store_type1 env table new skb = after_pktqueue_add table (
    pktqueue_add env.alloc_so table.pkt_queue
      (record {
        dst6 = new.dst6;
        src4 = new.src4;
        dst4 = new.dst4;
        skb = skb;
        update_time = env.jiffies;
      })
      (leb env.max_stored_pkts table.pkt_count))

-- A BIB entry and no session: under address-dependent filtering the packet is stored (type 2).
unfoldable pub store_type2 : Env → BibTable → NewConn4 → ℕ → BibKey → TcpAdded
unfolding too_many_pkts add_closed
store_type2 env table new skb key =
    if leb env.max_stored_pkts table.pkt_count
    then too_many_pkts table
    else add_closed env (record table { pkt_count = table.pkt_count + 1 }) none
        (new_session env key new.dst6 new.dst4 v4_init timer_syn4 (some skb))
        (stolen jstat_type2pkt)

unfoldable pub closed_tcp4 : Env → BibTable → NewConn4 → ℕ → BibKey → TcpAdded
unfolding store_type2 add_closed
closed_tcp4 env table new skb key =
    if env.drop_by_addr
    then store_type2 env table new skb key
    else add_closed env table none (new_session env key new.dst6 new.dst4 v4_init timer_trans none)
        continue

unfoldable pub finish_tcp4 : Env → FateCb → BibTable → Bool → NewConn4 → ℕ → Found4 → TcpAdded
unfolding judge_session closed_tcp4 store_type1
finish_tcp4 env cb table syn new skb (session4 key c) = judge_session env cb table none c
finish_tcp4 env cb table syn new skb (bib4 key) =
    if syn
    then if env.drop_external_tcp
      then leave table none (drop jstat_v4_syn) no_entries
      else closed_tcp4 env table new skb key
    else leave table none continue (bib_entries key)
finish_tcp4 env cb table syn new skb nothing4 =
    if syn
    then if env.drop_external_tcp
      then leave table none (drop jstat_v4_syn) no_entries
      else store_type1 env table new skb
    else leave table none (drop jstat_syn4_expected) no_entries

-- `skb` is the original packet, which may be stored.
unfoldable pub bib_add_tcp4 : Env → FateCb → BibTable → Bool → NewConn4 → ℕ → TcpAdded
unfolding find_bib_session4 finish_tcp4
bib_add_tcp4 env cb table syn new skb =
    if env.alloc_entry
    then finish_tcp4 env cb table syn new skb (find_bib_session4 table new)
    else leave table none (drop jstat_enomem) no_entries
