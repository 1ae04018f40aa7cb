-- ===== src/Bib/Count/Search.antt =====
-- `find_bib_session6` keeps the counters right: issue #216 and the upgrade of a stored packet
-- included.
use jool.Prelude.{
  suc, ◌-◌, ◌≡◌, refl, ap, false, List, [], ◌∷◌, Option, none, some, Cursor, whole, without,
  find_first, length, Bool-cases, inl, inr, if_cases, if◌then◌else◌, arith,
}
use jool.Types.{Ipv4TransportAddr, Ipv6TransportAddr, Result, ok, err}
use jool.Pool4.MaskDomain.{MaskDomain}
use jool.PktQueue.{PktqueueSession, pktqueue_find, has_dst6, matching}
use jool.Bib.Table.{BibKey, TabledBib, TabledSession, BibTable, Env, belongs}
use jool.Bib.Lookup.{find_bib6, find_bib4, find_session, insert_bib, find_available_mask}
use jool.Bib.Find.{
  stored_pkts, own, detach_bib, Found, old_session, Search, NewConn, Upgrade, no_upgrade, upgraded,
  trainwreck, so_session, commit_so, place_so, place_so4, place_so6, is_tcp, with_session,
  after_upgrade, after_find6, joold_mask, pool_mask, spoiled, upgrade_node, upgrade_found,
  upgrade_pktqueue_session, issue216_needed, new_mask, with_bib, without_bib, after_trainwreck,
  find_bib_session6,
}
use jool.Bib.Count.{
  IsCounted, stored, stored-snoc, stored-keep, length-keep, length-whole, length-snoc,
  find_first-Finds,
}

pub length-insert_bib :
    (bib : TabledBib) (xs : List TabledBib) → length (insert_bib bib xs) ≡ suc (length xs)
unfolding insert_bib
length-insert_bib bib [] = refl
length-insert_bib bib (x ∷ xs) = ground (arith, length-insert_bib bib xs)

stored_lem : (ss : List TabledSession) → stored ss ≡ length (stored_pkts ss)
unfolding stored
stored_lem ss = refl

pub detach_bib-IsCounted :
    (t : BibTable) (c : Cursor TabledBib)
    → t.bibs ≡ whole c
    → IsCounted t
    → IsCounted (detach_bib t c)
unfolding detach_bib
detach_bib-IsCounted t c e h = record {
  pkts = omega (
    arith,
    h.pkts,
    stored-keep (belongs c.here.key) t.sessions,
    stored_lem (own c.here.key t.sessions),
  );
  bibs = omega (arith, h.bibs, ap length e, length-whole c);
  sessions = omega (arith, h.sessions, length-keep (belongs c.here.key) t.sessions);
}

-- What the searches leave: right counters, and a cursor that stands in the table's sessions.
abbrev pub Shows : BibTable → Found → Type 0
Shows t (old_session key c) = t.sessions ≡ whole c
Shows t _ = Unit {0}

abbrev Upgrades : Upgrade → Type 0
Upgrades (no_upgrade t) = IsCounted t
Upgrades (upgraded t key c) = IsCounted t × (t.sessions ≡ whole c)
Upgrades (trainwreck t) = IsCounted t

commit_so-Upgrades :
    (env : Env) (t : BibTable) (key : BibKey) (sos : PktqueueSession)
    → IsCounted t
    → Upgrades (commit_so env t key sos)
unfolding commit_so
commit_so-Upgrades env t key sos h = (
  record {
    pkts = omega (arith, h.pkts, stored-snoc t.sessions (so_session env key sos));
    bibs =
        omega (arith, h.bibs, length-insert_bib (record { key = key; is_static = false }) t.bibs);
    sessions = omega (arith, h.sessions, length-snoc t.sessions (so_session env key sos));
  },
  refl,
)

place_so4-Upgrades :
    (env : Env) (t : BibTable) (key : BibKey) (sos : PktqueueSession)
    (o : Option (Cursor TabledBib))
    → IsCounted t
    → Upgrades (place_so4 env t key sos o)
unfolding place_so4
place_so4-Upgrades env t key sos none h = commit_so-Upgrades env t key sos h
place_so4-Upgrades env t key sos (some c) h = h

place_so6-Upgrades :
    (env : Env) (t : BibTable) (key : BibKey) (sos : PktqueueSession)
    (o : Option (Cursor TabledBib))
    → IsCounted t
    → Upgrades (place_so6 env t key sos o)
unfolding place_so6
place_so6-Upgrades env t key sos none h = place_so4-Upgrades env t key sos _ h
place_so6-Upgrades env t key sos (some c) h = h

upgrade_node-Upgrades :
    (env : Env) (t : BibTable) (masks : Option MaskDomain) (new : NewConn) (sos : PktqueueSession)
    → IsCounted t
    → Upgrades (upgrade_node env t masks new sos)
unfolding upgrade_node place_so
upgrade_node-Upgrades env t none new sos h = h
upgrade_node-Upgrades env t (some masks) new sos h =
    let placed = place_so env t (record { src6 = new.src6; src4 = sos.src4 }) sos in
    if_cases Upgrades env.alloc_so_bib {x = if env.alloc_so_session then placed else trainwreck t}
      {y = no_upgrade t}
      (if_cases Upgrades env.alloc_so_session {x = placed} {y = trainwreck t}
        (place_so6-Upgrades env t (record { src6 = new.src6; src4 = sos.src4 }) sos _ h) h)
      h

upgrade_found-Upgrades :
    (env : Env) (t : BibTable) (masks : Option MaskDomain) (new : NewConn)
    (o : Option (Cursor PktqueueSession))
    → ((c : Cursor PktqueueSession) → o ≡ some c → t.pkt_queue ≡ whole c)
    → IsCounted t
    → Upgrades (upgrade_found env t masks new o)
unfolding upgrade_found
upgrade_found-Upgrades env t masks new none q h = h
upgrade_found-Upgrades env t masks new (some c) q h =
    upgrade_node-Upgrades env (record t { pkt_count = t.pkt_count - 1; pkt_queue = without c })
      masks new c.here
      (record {
        pkts = omega (arith, h.pkts, ap length (q c refl), length-whole c);
        bibs = h.bibs;
        sessions = h.sessions;
      })

-- What `pktqueue_find` shows stands in the queue.
pub pktqueue_find-whole :
    (queue : List PktqueueSession) (addr : Ipv6TransportAddr) (masks : Option MaskDomain)
    (c : Cursor PktqueueSession)
    → pktqueue_find queue addr masks ≡ some c
    → queue ≡ whole c
unfolding pktqueue_find
pktqueue_find-whole queue addr masks c h = of_found (find_first (has_dst6 addr) queue) refl h
  where
    of_found :
        (o : Option (Cursor PktqueueSession))
        → find_first (has_dst6 addr) queue ≡ o
        → matching masks o ≡ some c
        → queue ≡ whole c
    of_found none e q = cc
    of_found (some d) e q = ground (arith, (find_first-Finds (has_dst6 addr) queue d e).list)

upgrade-Upgrades :
    (env : Env) (t : BibTable) (masks : Option MaskDomain) (new : NewConn)
    → IsCounted t
    → Upgrades (upgrade_pktqueue_session env t masks new)
unfolding upgrade_pktqueue_session
upgrade-Upgrades env t masks new h = elim (Bool-cases (is_tcp t.proto)) [
  | inl e ↦
      rw e (
        upgrade_found-Upgrades env t masks new _ (pktqueue_find-whole t.pkt_queue new.dst6 masks) h)
  | inr e ↦ rw e h
]

-- A search leaves a right table, and shows what stands in it.
pub record IsSearched (s : Search) : Type 0 where
  pub counted : IsCounted s.table
  pub shows : Shows s.table s.result

joold_mask-Shows :
    (t : BibTable) (src4 dst4 : Ipv4TransportAddr) (o : Option (Cursor TabledBib))
    → Shows t (joold_mask src4 dst4 o) × Shows t (spoiled (joold_mask src4 dst4 o))
unfolding joold_mask spoiled
joold_mask-Shows t src4 dst4 none = (tt, tt)
joold_mask-Shows t src4 dst4 (some c) = (tt, tt)

pool_mask-Shows :
    (t : BibTable) (dst4 : Ipv4TransportAddr) (r : Result Ipv4TransportAddr)
    → Shows t (pool_mask t dst4 r) × Shows t (spoiled (pool_mask t dst4 r))
unfolding pool_mask spoiled
pool_mask-Shows t dst4 (ok mask) = (tt, tt)
pool_mask-Shows t dst4 (err e) = (tt, tt)

new_mask-IsSearched :
    (t : BibTable) (masks : Option MaskDomain) (new : NewConn) (src4 : Ipv4TransportAddr)
    → IsCounted t
    → IsSearched (new_mask t masks new src4)
      × IsSearched (after_trainwreck (new_mask t masks new src4))
unfolding new_mask after_trainwreck
new_mask-IsSearched t none new src4 h =
    let (a, b) = joold_mask-Shows t src4 new.dst4 (find_bib4 t src4) in
    (record { counted = h; shows = a }, record { counted = h; shows = b })
new_mask-IsSearched t (some masks) new src4 h =
    let (a, b) = pool_mask-Shows t new.dst4 (find_available_mask t masks).1 in
    (record { counted = h; shows = a }, record { counted = h; shows = b })

with_session-IsSearched :
    (t : BibTable) (masks : Option MaskDomain) (key : BibKey) (dst4 : Ipv4TransportAddr)
    (o : Option (Cursor TabledSession))
    → ((c : Cursor TabledSession) → o ≡ some c → t.sessions ≡ whole c)
    → IsCounted t
    → IsSearched (with_session t masks key dst4 o)
unfolding with_session
with_session-IsSearched t masks key dst4 none q h = record { counted = h; shows = tt }
with_session-IsSearched t masks key dst4 (some c) q h = record { counted = h; shows = q c refl }

after_upgrade-IsSearched :
    (masks : Option MaskDomain) (new : NewConn) (src4 : Ipv4TransportAddr) (u : Upgrade)
    → Upgrades u
    → IsSearched (after_upgrade masks new src4 u)
unfolding after_upgrade
after_upgrade-IsSearched masks new src4 (upgraded t key c) h = record { counted = h.0; shows = h.1 }
after_upgrade-IsSearched masks new src4 (trainwreck t) h =
    (new_mask-IsSearched t masks new src4 h).1
after_upgrade-IsSearched masks new src4 (no_upgrade t) h =
    (new_mask-IsSearched t masks new src4 h).0

without_bib-IsSearched :
    (t : BibTable) (masks : Option MaskDomain) (new : NewConn) (src4 : Ipv4TransportAddr)
    (o : Option (Cursor TabledBib))
    → IsCounted t
    → IsSearched (without_bib t masks new src4 o)
unfolding without_bib
without_bib-IsSearched t masks new src4 none h = (new_mask-IsSearched t masks new src4 h).0
without_bib-IsSearched t masks new src4 (some c) h = record { counted = h; shows = tt }

pub find_session-whole :
    (t : BibTable) (key : BibKey) (dst4 : Ipv4TransportAddr) (c : Cursor TabledSession)
    → find_session t key dst4 ≡ some c
    → t.sessions ≡ whole c
unfolding find_session
find_session-whole t key dst4 c h = (find_first-Finds _ t.sessions c h).list

after_find6-IsSearched :
    (env : Env) (t : BibTable) (masks : Option MaskDomain) (new : NewConn)
    (src4 : Ipv4TransportAddr) (o : Option (Cursor TabledBib))
    → ((c : Cursor TabledBib) → o ≡ some c → t.bibs ≡ whole c)
    → IsCounted t
    → IsSearched (after_find6 env t masks new src4 o)
unfolding after_find6 with_bib
after_find6-IsSearched env t masks new src4 none q h =
    after_upgrade-IsSearched masks new src4 _ (upgrade-Upgrades env t masks new h)
after_find6-IsSearched env t masks new src4 (some c) q h =
    elim (Bool-cases (issue216_needed masks c.here.key.src4)) [
      | inl e ↦
          rw e (without_bib-IsSearched _ masks new src4 _ (detach_bib-IsCounted t c (q c refl) h))
      | inr e ↦
          rw e
            (with_session-IsSearched t masks c.here.key _ _ (find_session-whole t c.here.key _) h)
    ]

pub find_bib6-whole :
    (t : BibTable) (addr : Ipv6TransportAddr) (c : Cursor TabledBib)
    → find_bib6 t addr ≡ some c
    → t.bibs ≡ whole c
unfolding find_bib6
find_bib6-whole t addr c h = (find_first-Finds _ t.bibs c h).list

-- The search that starts every IPv6 addition keeps the counters right, and the session that it
-- shows stands in the table.
pub find_bib_session6-IsSearched :
    (env : Env) (t : BibTable) (masks : Option MaskDomain) (new : NewConn)
    (src4 : Ipv4TransportAddr)
    → IsCounted t
    → IsSearched (find_bib_session6 env t masks new src4)
unfolding find_bib_session6
find_bib_session6-IsSearched env t masks new src4 h =
    after_find6-IsSearched env t masks new src4 _ (find_bib6-whole t new.src6) h
