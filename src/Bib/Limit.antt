-- ===== src/Bib/Limit.antt =====
-- `max_stored_pkts` (maximum-simultaneous-opens): how many packets mod/common/db/bib/db.c stores.
use jool.Prelude.{ℕ, ◌≤◌, Bool, true, false, leb, Option, none, some, Cursor, if_cases, arith}
use jool.Session.{
  SessionEntry, SessionFate, fate_timer_est, fate_timer_trans, fate_rm, fate_preserve, fate_probe,
  fate_drop, fate_timer_slow,
}
use jool.PktQueue.{PktqueueSession, pktqueue_add}
use jool.Bib.Table.{BibKey, TabledBib, TabledSession, BibTable, Env, tstose}
use jool.Bib.Fate.{
  Probes, FateCb, kill_stored_pkt, handle_probe, probe_if_stored, drop_found, drop_empty_bib, rm,
  carry_out, kill_unless, decide_fate,
}
use jool.Bib.Add.{NewConn4, Found4, session4, bib4, nothing4, commit_session_add, find_bib_session4}
use jool.Bib.Tcp.{
  TcpAdded, judge_session, add_closed, too_many_pkts, after_pktqueue_add, store_type1, store_type2,
  closed_tcp4, finish_tcp4, bib_add_tcp4,
}

kill_stored_pkt_le :
    (t : BibTable) (s : TabledSession) → (kill_stored_pkt t s).table.pkt_count ≤ t.pkt_count
unfolding kill_stored_pkt
kill_stored_pkt_le t s = ground arith

kill_unless_le :
    (b : Bool) (t : BibTable) (s : TabledSession)
    → (kill_unless b t s).table.pkt_count ≤ t.pkt_count
unfolding kill_unless
kill_unless_le true t s = omega arith
kill_unless_le false t s = kill_stored_pkt_le t s

drop_found_le :
    (t : BibTable) (key : BibKey) (o : Option (Cursor TabledBib))
    → (drop_found t key o).pkt_count ≤ t.pkt_count
unfolding drop_found
drop_found_le t key none = omega arith
drop_found_le t key (some c) = ground arith

probe_le :
    (env : Env) (t : BibTable) (probes : Probes) (s : TabledSession) (tmp : SessionEntry)
    → (probe_if_stored env t probes s tmp).table.pkt_count ≤ t.pkt_count
unfolding probe_if_stored handle_probe
probe_le env t probes s tmp = ground (arith, kill_stored_pkt_le t s)

carry_out_le :
    (fate : SessionFate) (env : Env) (t : BibTable) (c : Cursor TabledSession) (probes : Probes)
    (tmp : SessionEntry)
    → (carry_out fate env t c probes tmp).table.pkt_count ≤ t.pkt_count
unfolding carry_out rm drop_empty_bib handle_probe
carry_out_le fate_timer_est env t c probes tmp = omega arith
carry_out_le fate_timer_trans env t c probes tmp = omega arith
carry_out_le fate_rm env t c probes tmp =
    omega (arith, drop_found_le _ c.here.bib _, probe_le env t probes c.here tmp)
carry_out_le fate_preserve env t c probes tmp = omega arith
carry_out_le fate_probe env t c probes tmp = kill_stored_pkt_le t c.here
carry_out_le fate_drop env t c probes tmp = omega arith
carry_out_le fate_timer_slow env t c probes tmp = omega arith

decide_fate_le :
    (env : Env) (cb : FateCb) (t : BibTable) (c : Cursor TabledSession) (probes : Probes)
    → (decide_fate env cb t c probes).table.pkt_count ≤ t.pkt_count
unfolding decide_fate
decide_fate_le env cb t c probes =
    let r = cb (tstose env t.proto c.here) in
    let s : TabledSession = record (c.here) { state = r.0.state; update_time = r.0.update_time } in
    let e = kill_unless r.0.has_stored t s in
    omega (
      arith,
      carry_out_le r.1 env e.table (record c { here = e.session }) probes r.0,
      kill_unless_le r.0.has_stored t s,
    )

-- A packet is stored only below the limit.
after_add_le :
    (memory : Bool) (t : BibTable) (node : PktqueueSession) (limit : ℕ)
    → t.pkt_count ≤ limit
    → (after_pktqueue_add t
        (pktqueue_add memory t.pkt_queue node (leb limit t.pkt_count))).table.pkt_count
      ≤ limit
unfolding after_pktqueue_add pktqueue_add too_many_pkts
after_add_le memory t node limit h = ground arith

store_type2_le :
    (env : Env) (t : BibTable) (new : NewConn4) (skb : ℕ) (key : BibKey)
    → t.pkt_count ≤ env.max_stored_pkts
    → (store_type2 env t new skb key).table.pkt_count ≤ env.max_stored_pkts
unfolding store_type2 add_closed commit_session_add too_many_pkts
store_type2_le env t new skb key h = ground arith

closed_tcp4_le :
    (env : Env) (t : BibTable) (new : NewConn4) (skb : ℕ) (key : BibKey)
    → t.pkt_count ≤ env.max_stored_pkts
    → (closed_tcp4 env t new skb key).table.pkt_count ≤ env.max_stored_pkts
unfolding closed_tcp4 add_closed commit_session_add
closed_tcp4_le env t new skb key h =
    if_cases (λ (r : TcpAdded). r.table.pkt_count ≤ env.max_stored_pkts) env.drop_by_addr
      (store_type2_le env t new skb key h) h

finish_tcp4_le :
    (env : Env) (cb : FateCb) (t : BibTable) (syn : Bool) (new : NewConn4) (skb : ℕ) (f : Found4)
    → t.pkt_count ≤ env.max_stored_pkts
    → (finish_tcp4 env cb t syn new skb f).table.pkt_count ≤ env.max_stored_pkts
unfolding finish_tcp4 judge_session store_type1
finish_tcp4_le env cb t syn new skb (session4 key c) h =
    omega (arith, h, decide_fate_le env cb t c none)
finish_tcp4_le env cb t false new skb (bib4 key) h = h
finish_tcp4_le env cb t true new skb (bib4 key) h =
    if_cases (λ (r : TcpAdded). r.table.pkt_count ≤ env.max_stored_pkts) env.drop_external_tcp h
      (closed_tcp4_le env t new skb key h)
finish_tcp4_le env cb t false new skb nothing4 h = h
finish_tcp4_le env cb t true new skb nothing4 h =
    if_cases (λ (r : TcpAdded). r.table.pkt_count ≤ env.max_stored_pkts) env.drop_external_tcp h
      (after_add_le env.alloc_so t _ env.max_stored_pkts h)

-- An IPv4 TCP packet, in every state of its connection, never makes the table count more stored
-- packets than the limit allows, where it counted no more before.
pub bib_add_tcp4_limit :
    (env : Env) (cb : FateCb) (t : BibTable) (syn : Bool) (new : NewConn4) (skb : ℕ)
    → t.pkt_count ≤ env.max_stored_pkts
    → (bib_add_tcp4 env cb t syn new skb).table.pkt_count ≤ env.max_stored_pkts
unfolding bib_add_tcp4
bib_add_tcp4_limit env cb t syn new skb h =
    if_cases (λ (r : TcpAdded). r.table.pkt_count ≤ env.max_stored_pkts) env.alloc_entry
      (finish_tcp4_le env cb t syn new skb (find_bib_session4 t new) h) h
