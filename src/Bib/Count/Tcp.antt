-- ===== src/Bib/Count/Tcp.antt =====
-- The TCP additions and those of joold keep the counters right.
use jool.Prelude.{
  ℕ, ◌+◌, ◌≡◌, refl, ap, Bool, true, false, Option, none, some, Cursor, whole, leb, if_cases, arith,
}
use jool.Session.{SessionEntry}
use jool.Verdict.{Outcome, continue}
use jool.Pool4.MaskDomain.{MaskDomain}
use jool.PktQueue.{PktqueueSession, pktqueue_add}
use jool.Bib.Table.{BibKey, TabledSession, BibTable, Env}
use jool.Bib.Fate.{FateCb, queue_unsorted_session, is_older}
use jool.Bib.Find.{NewConn, Found, old_session, old_bib, no_bib, failed, fault}
use jool.Bib.Add.{
  NewConn4, Found4, session4, bib4, nothing4, Added, commit_bib_add, commit_add, finish_add_session,
  bib_add_session,
}
use jool.Bib.Tcp.{
  TcpAdded, judge_session, add_closed, finish_tcp6, bib_add_tcp6, too_many_pkts, after_pktqueue_add,
  store_type1, store_type2, closed_tcp4, finish_tcp4, bib_add_tcp4,
}
use jool.Bib.Count.{IsCounted, has_pkt, length-snoc}
use jool.Bib.Count.Fate.{stored-insert_behind, decide_fate-IsCounted}
use jool.Bib.Count.Search.{Shows, find_bib_session6-IsSearched}
use jool.Bib.Count.Add.{
  commit_session_add-IsCounted, commit_bib_add-IsCounted, Shows4, find_bib_session4-Shows4,
}

judge_session-IsCounted :
    (env : Env) (cb : FateCb) (t : BibTable) (masks : Option MaskDomain) (c : Cursor TabledSession)
    → t.sessions ≡ whole c
    → IsCounted t
    → IsCounted (judge_session env cb t masks c).table
unfolding judge_session
judge_session-IsCounted env cb t masks c e h = decide_fate-IsCounted env cb t c none e h

add_closed-IsCounted :
    (env : Env) (t : BibTable) (masks : Option MaskDomain) (s : TabledSession) (o : Outcome)
    → s.stored ≡ none
    → IsCounted t
    → IsCounted (add_closed env t masks s o).table
unfolding add_closed
add_closed-IsCounted env t masks s o e h =
    commit_session_add-IsCounted t s t.pkt_count h (omega (arith, ap has_pkt e))

finish_tcp6-IsCounted :
    (env : Env) (cb : FateCb) (syn : Bool) (new : NewConn) (t : BibTable)
    (masks : Option MaskDomain) (f : Found)
    → IsCounted t
    → Shows t f
    → IsCounted (finish_tcp6 env cb syn new t masks f).table
unfolding finish_tcp6
finish_tcp6-IsCounted env cb syn new t masks (failed e) h q = h
finish_tcp6-IsCounted env cb syn new t masks fault h q = h
finish_tcp6-IsCounted env cb syn new t masks (old_session key c) h q =
    judge_session-IsCounted env cb t masks c q h
finish_tcp6-IsCounted env cb true new t masks (old_bib key dst4) h q =
    add_closed-IsCounted env t masks _ continue refl h
finish_tcp6-IsCounted env cb false new t masks (old_bib key dst4) h q = h
finish_tcp6-IsCounted env cb true new t masks (no_bib src4 dst4) h q =
    let key : BibKey = record { src6 = new.src6; src4 = src4 } in
    add_closed-IsCounted env (commit_bib_add t key) masks _ continue refl
      (commit_bib_add-IsCounted t key h)
finish_tcp6-IsCounted env cb false new t masks (no_bib src4 dst4) h q = h

pub bib_add_tcp6-IsCounted :
    (env : Env) (cb : FateCb) (t : BibTable) (masks : MaskDomain) (syn : Bool) (new : NewConn)
    → IsCounted t
    → IsCounted (bib_add_tcp6 env cb t masks syn new).table
unfolding bib_add_tcp6
bib_add_tcp6-IsCounted env cb t masks syn new h =
    let s = find_bib_session6-IsSearched env t (some masks) new new.dst4 h in
    if_cases (λ (r : TcpAdded). IsCounted r.table) env.alloc_entry
      (finish_tcp6-IsCounted env cb syn new _ _ _ s.counted s.shows) h

-- A packet that joins the queue is counted.
after_add-IsCounted :
    (memory : Bool) (t : BibTable) (node : PktqueueSession) (too_many : Bool)
    → IsCounted t
    → IsCounted (after_pktqueue_add t (pktqueue_add memory t.pkt_queue node too_many)).table
unfolding after_pktqueue_add pktqueue_add too_many_pkts
after_add-IsCounted memory t node too_many h = ground (arith, length-snoc t.pkt_queue node)

store_type1-IsCounted :
    (env : Env) (t : BibTable) (new : NewConn4) (skb : ℕ)
    → IsCounted t
    → IsCounted (store_type1 env t new skb).table
unfolding store_type1
store_type1-IsCounted env t new skb h = after_add-IsCounted env.alloc_so t _ _ h

store_type2-IsCounted :
    (env : Env) (t : BibTable) (new : NewConn4) (skb : ℕ) (key : BibKey)
    → IsCounted t
    → IsCounted (store_type2 env t new skb key).table
unfolding store_type2 add_closed too_many_pkts
store_type2-IsCounted env t new skb key h =
    if_cases (λ (r : TcpAdded). IsCounted r.table) (leb env.max_stored_pkts t.pkt_count) h
      (commit_session_add-IsCounted (record t { pkt_count = t.pkt_count + 1 }) _ t.pkt_count h refl)

closed_tcp4-IsCounted :
    (env : Env) (t : BibTable) (new : NewConn4) (skb : ℕ) (key : BibKey)
    → IsCounted t
    → IsCounted (closed_tcp4 env t new skb key).table
unfolding closed_tcp4
closed_tcp4-IsCounted env t new skb key h =
    if_cases (λ (r : TcpAdded). IsCounted r.table) env.drop_by_addr
      (store_type2-IsCounted env t new skb key h)
      (add_closed-IsCounted env t none _ continue refl h)

finish_tcp4-IsCounted :
    (env : Env) (cb : FateCb) (t : BibTable) (syn : Bool) (new : NewConn4) (skb : ℕ) (f : Found4)
    → IsCounted t
    → Shows4 t f
    → IsCounted (finish_tcp4 env cb t syn new skb f).table
unfolding finish_tcp4
finish_tcp4-IsCounted env cb t syn new skb (session4 key c) h q =
    judge_session-IsCounted env cb t none c q h
finish_tcp4-IsCounted env cb t false new skb (bib4 key) h q = h
finish_tcp4-IsCounted env cb t true new skb (bib4 key) h q =
    if_cases (λ (r : TcpAdded). IsCounted r.table) env.drop_external_tcp h
      (closed_tcp4-IsCounted env t new skb key h)
finish_tcp4-IsCounted env cb t false new skb nothing4 h q = h
finish_tcp4-IsCounted env cb t true new skb nothing4 h q =
    if_cases (λ (r : TcpAdded). IsCounted r.table) env.drop_external_tcp h
      (store_type1-IsCounted env t new skb h)

pub bib_add_tcp4-IsCounted :
    (env : Env) (cb : FateCb) (t : BibTable) (syn : Bool) (new : NewConn4) (skb : ℕ)
    → IsCounted t
    → IsCounted (bib_add_tcp4 env cb t syn new skb).table
unfolding bib_add_tcp4
bib_add_tcp4-IsCounted env cb t syn new skb h =
    if_cases (λ (r : TcpAdded). IsCounted r.table) env.alloc_entry
      (finish_tcp4-IsCounted env cb t syn new skb _ h (find_bib_session4-Shows4 t new)) h

commit_add-IsCounted :
    (t : BibTable) (s : TabledSession) → s.stored ≡ none → IsCounted t → IsCounted (commit_add t s)
unfolding commit_add queue_unsorted_session
commit_add-IsCounted t s e h =
    let (pkts, len) = stored-insert_behind (is_older s.expirer s.update_time) s t.sessions in
    record {
      pkts = omega (arith, h.pkts, ap has_pkt e);
      bibs = h.bibs;
      sessions = omega (arith, h.sessions);
    }

finish_add_session-IsCounted :
    (env : Env) (session : SessionEntry) (cb : FateCb) (t : BibTable) (masks : Option MaskDomain)
    (f : Found)
    → IsCounted t
    → Shows t f
    → IsCounted (finish_add_session env session cb t masks f).table
unfolding finish_add_session
finish_add_session-IsCounted env session cb t masks (failed e) h q = h
finish_add_session-IsCounted env session cb t masks fault h q = h
finish_add_session-IsCounted env session cb t masks (old_session key c) h q =
    decide_fate-IsCounted env cb t c none q h
finish_add_session-IsCounted env session cb t masks (old_bib key dst4) h q =
    commit_add-IsCounted t _ refl h
finish_add_session-IsCounted env session cb t masks (no_bib src4 dst4) h q =
    let key : BibKey = record { src6 = session.src6; src4 = src4 } in
    commit_add-IsCounted (commit_bib_add t key) _ refl (commit_bib_add-IsCounted t key h)

pub bib_add_session-IsCounted :
    (env : Env) (t : BibTable) (session : SessionEntry) (cb : FateCb)
    → IsCounted t
    → IsCounted (bib_add_session env t session cb).table
unfolding bib_add_session
bib_add_session-IsCounted env t session cb h =
    let new : NewConn = record { src6 = session.src6; dst6 = session.dst6; dst4 = session.dst4 } in
    let s = find_bib_session6-IsSearched env t none new session.src4 h in
    if_cases (λ (r : Added). IsCounted r.table) env.alloc_entry
      (finish_add_session-IsCounted env session cb _ _ _ s.counted s.shows) h
