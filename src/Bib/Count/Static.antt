-- ===== src/Bib/Count/Static.antt =====
-- What `__bib_add_static` of mod/common/db/bib/db.c does to the counters: the gauges stay right, but
-- the packets that it makes the queue forget stay counted.
use jool.Prelude.{
  ◌+◌, ◌≤◌, ◌<◌, ◌≡◌, refl, sym, ap, subst, ◌∙◌, true, List, [], ◌∷◌, Option, none, some, Cursor,
  whole, any, keep, length, if◌then◌else◌, if_cases, arith,
}
use jool.Types.{Ipv4TransportAddr, tcp, taddr4_equals}
use jool.PktQueue.{PktqueueSession, pktqueue_rm}
use jool.Bib.Table.{BibKey, TabledBib, BibTable, Env}
use jool.Bib.Lookup.{find_bib6, find_bib4}
use jool.Bib.Find.{is_tcp}
use jool.Bib.Static.{
  StaticAdded, static_enomem, forget_packets, insert_static, add_static4, add_static6,
  bib_add_static,
}
use jool.Bib.Count.{IsCounted, stored, length-whole}
use jool.Bib.Count.Search.{length-insert_bib, find_bib6-whole}

-- `u` follows `t`: its counter still counts the queue of `t`, its gauges are right, and its queue
-- is a part of that of `t`.
pub record IsLeaky (t : BibTable) (u : BibTable) : Type 0 where
  pub pkts : u.pkt_count ≡ stored u.sessions + length t.pkt_queue
  pub bibs : u.jstat_bib_entries ≡ length u.bibs
  pub sessions : u.jstat_sessions ≡ length u.sessions
  pub queue : length u.pkt_queue ≤ length t.pkt_queue

IsLeaky-refl : (t : BibTable) → IsCounted t → IsLeaky t t
IsLeaky-refl t h = record {
  pkts = h.pkts;
  bibs = h.bibs;
  sessions = h.sessions;
  queue = omega arith;
}

pktqueue_rm_shorter :
    (queue : List PktqueueSession) (src4 : Ipv4TransportAddr)
    → length (pktqueue_rm queue src4) ≤ length queue
unfolding pktqueue_rm keep
pktqueue_rm_shorter [] src4 = omega arith
pktqueue_rm_shorter (node ∷ queue) src4 = ground (arith, pktqueue_rm_shorter queue src4)

insert_static-IsLeaky :
    (t : BibTable) (key : BibKey) → IsCounted t → IsLeaky t (insert_static t key).table
unfolding insert_static forget_packets
insert_static-IsLeaky t key h =
    let n = length-insert_bib (record { key = key; is_static = true }) t.bibs in
    if_cases (λ u. IsLeaky t u) (is_tcp t.proto)
      (record {
        pkts = h.pkts;
        bibs = omega (arith, h.bibs, n);
        sessions = h.sessions;
        queue = pktqueue_rm_shorter t.pkt_queue key.src4;
      })
      (record {
        pkts = h.pkts;
        bibs = omega (arith, h.bibs, n);
        sessions = h.sessions;
        queue = omega arith;
      })

add_static4-IsLeaky :
    (t : BibTable) (key : BibKey) (o : Option (Cursor TabledBib))
    → IsCounted t
    → IsLeaky t (add_static4 t key o).table
unfolding add_static4
add_static4-IsLeaky t key none h = insert_static-IsLeaky t key h
add_static4-IsLeaky t key (some c) h = IsLeaky-refl t h

add_static6-IsLeaky :
    (t : BibTable) (key : BibKey) (o : Option (Cursor TabledBib))
    → ((c : Cursor TabledBib) → o ≡ some c → t.bibs ≡ whole c)
    → IsCounted t
    → IsLeaky t (add_static6 t key o).table
unfolding add_static6
add_static6-IsLeaky t key none q h = add_static4-IsLeaky t key _ h
add_static6-IsLeaky t key (some c) q h =
    let d = record c { here = record (c.here) { is_static = true } } in
    if_cases (λ (r : StaticAdded). IsLeaky t r.table) (taddr4_equals key.src4 c.here.key.src4)
      (record {
        pkts = h.pkts;
        bibs = omega (arith, h.bibs, ap length (q c refl), length-whole c, length-whole d);
        sessions = h.sessions;
        queue = omega arith;
      })
      (IsLeaky-refl t h)

-- After a static entry is added to a table whose counters are right, on every branch, the gauges
-- are right, and `pkt_count` still counts the whole queue that was there before, of which some
-- packets may have been forgotten.
pub bib_add_static-IsLeaky :
    (env : Env) (t : BibTable) (key : BibKey)
    → IsCounted t
    → IsLeaky t (bib_add_static env t key).table
unfolding bib_add_static
bib_add_static-IsLeaky env t key h =
    if_cases (λ (r : StaticAdded). IsLeaky t r.table) env.alloc_entry
      (add_static6-IsLeaky t key _ (find_bib6-whole t key.src6) h) (IsLeaky-refl t h)

pktqueue_rm_strict :
    (queue : List PktqueueSession) (src4 : Ipv4TransportAddr)
    → any (λ node. taddr4_equals node.src4 src4) queue ≡ true
    → length (pktqueue_rm queue src4) < length queue
unfolding pktqueue_rm keep any
pktqueue_rm_strict [] src4 e = absurd (cc e)
pktqueue_rm_strict (node ∷ queue) src4 e =
    ground (arith, pktqueue_rm_strict queue src4, pktqueue_rm_shorter queue src4)

-- What `key` comes to, where memory is there and nothing collides.
inserts :
    (env : Env) (t : BibTable) (key : BibKey)
    → env.alloc_entry ≡ true
    → find_bib6 t key.src6 ≡ none
    → find_bib4 t key.src4 ≡ none
    → bib_add_static env t key ≡ insert_static t key
unfolding bib_add_static add_static6 add_static4
inserts env t key a e6 e4 =
    ap
      (λ b.
        if b
        then add_static6 t key (find_bib6 t key.src6)
        else record { table = t; result = static_enomem })
      a
    ∙ ap (add_static6 t key) e6
    ∙ ap (add_static4 t key) e4

insert_leak :
    (t : BibTable) (key : BibKey)
    → IsCounted t
    → t.proto ≡ tcp
    → any (λ node. taddr4_equals node.src4 key.src4) t.pkt_queue ≡ true
    → let u = (insert_static t key).table in stored u.sessions + length u.pkt_queue < u.pkt_count
unfolding insert_static forget_packets
insert_leak t key h p e = rw p (omega (arith, h.pkts, pktqueue_rm_strict t.pkt_queue key.src4 e))

-- When a static TCP entry is really inserted into a table whose counters are right, and a packet
-- for its address waits in the queue, `pkt_count` ends greater than the number of packets that
-- the table holds.
pub bib_add_static_leak :
    (env : Env) (t : BibTable) (key : BibKey)
    → IsCounted t
    → t.proto ≡ tcp
    → env.alloc_entry ≡ true
    → find_bib6 t key.src6 ≡ none
    → find_bib4 t key.src4 ≡ none
    → any (λ node. taddr4_equals node.src4 key.src4) t.pkt_queue ≡ true
    → let u = (bib_add_static env t key).table in
      stored u.sessions + length u.pkt_queue < u.pkt_count
bib_add_static_leak env t key h p a e6 e4 e =
    subst
      (λ (r : StaticAdded). stored r.table.sessions + length r.table.pkt_queue < r.table.pkt_count)
      (sym (inserts env t key a e6 e4)) (insert_leak t key h p e)
