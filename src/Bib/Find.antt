-- ===== src/Bib/Find.antt =====
-- `find_bib_session6` of mod/common/db/bib/db.c and what it calls: the search for a BIB entry and a
-- session on behalf of an IPv6 packet, with simultaneous opens and issue #216.
use jool.Prelude.{
  ℕ, ◌+◌, ◌-◌, Bool, true, false, not, ◌&&◌, if◌then◌else◌, List, [], ◌∷◌, ◌++◌, Option, none, some,
  Cursor, without, keep, length,
}
use jool.Types.{
  Ipv4TransportAddr, Ipv6TransportAddr, L4Protocol, tcp, icmp, Errno, einval, eexist, Result, ok,
  err,
}
use jool.Session.{v4_init, timer_syn4}
use jool.Pool4.MaskDomain.{MaskDomain, mask_domain_matches, mask_domain_is_dynamic}
use jool.PktQueue.{PktqueueSession, pktqueue_find}
use jool.Bib.Table.{BibKey, TabledBib, TabledSession, BibTable, Env, belongs}
use jool.Bib.Lookup.{find_bib6, find_bib4, find_session, insert_bib, find_available_mask}

-- The stored packets of a list of sessions.
unfoldable pub stored_pkts : List TabledSession → List ℕ
stored_pkts [] = []
stored_pkts (s ∷ ss) = elim s.stored [ none ↦ stored_pkts ss | some skb ↦ skb ∷ stored_pkts ss ]

abbrev pub others : BibKey → List TabledSession → List TabledSession
others key sessions = keep (λ s. not (belongs key s)) sessions

abbrev pub own : BibKey → List TabledSession → List TabledSession
own key sessions = keep (λ s. belongs key s) sessions

-- `detach_bib` and `detach_sessions`, and the `release_bib_entry` that follows once the lock is
-- released: each stored packet is answered by an ICMP error.
unfoldable pub detach_bib : BibTable → Cursor TabledBib → BibTable
unfolding stored_pkts keep
detach_bib table c =
    let key = c.here.key in
    let gone = own key table.sessions in
    record table {
      bibs = without c;
      sessions = others key table.sessions;
      pkt_count = table.pkt_count - length (stored_pkts gone);
      jstat_bib_entries = table.jstat_bib_entries - 1;
      jstat_sessions = table.jstat_sessions - length gone;
      icmp_errors = table.icmp_errors ++ stored_pkts gone;
    }

-- `old`, as `find_bib_session6` leaves it, and the mask and `dst4` of a new connection. `fault` is
-- the outcome that the C code leaves undefined: `old->bib` points to memory that has been freed.
pub data Found : Type 0 where
  old_session : BibKey → Cursor TabledSession → Found
  old_bib : BibKey → (dst4 : Ipv4TransportAddr) → Found
  no_bib : (src4 : Ipv4TransportAddr) → (dst4 : Ipv4TransportAddr) → Found
  failed : Errno → Found
  fault : Found

pub record Search : Type 0 where
  pub table : BibTable
  pub masks : Option MaskDomain
  pub result : Found

-- What is known of the new connection (`new`).
pub record NewConn : Type 0 where
  pub src6 : Ipv6TransportAddr
  pub dst6 : Ipv6TransportAddr
  pub dst4 : Ipv4TransportAddr

-- What `upgrade_pktqueue_session` leaves: nothing to upgrade, the upgraded session, or an error after
-- which `old->bib` is a freed entry: its train wreck, or an `alloc_bib_session` that has the BIB entry
-- and not the session.
pub data Upgrade : Type 0 where
  no_upgrade : BibTable → Upgrade
  upgraded : BibTable → BibKey → Cursor TabledSession → Upgrade
  trainwreck : BibTable → Upgrade

-- The session that a stored packet becomes, and its BIB entry.
abbrev pub so_session : Env → BibKey → PktqueueSession → TabledSession
so_session env key sos = record {
  bib = key;
  dst6 = sos.dst6;
  dst4 = sos.dst4;
  state = v4_init;
  update_time = env.jiffies;
  expirer = timer_syn4;
  stored = none;
}

unfoldable pub commit_so : Env → BibTable → BibKey → PktqueueSession → Upgrade
unfolding insert_bib
commit_so env table key sos =
    upgraded
      (record table {
        bibs = insert_bib (record { key = key; is_static = false }) table.bibs;
        sessions = table.sessions ++ (so_session env key sos ∷ []);
        jstat_bib_entries = table.jstat_bib_entries + 1;
        jstat_sessions = table.jstat_sessions + 1;
      })
      key (record { before = table.sessions; here = so_session env key sos; after = [] })

-- The two searches for a slot, each of which must find no collision.
unfoldable pub place_so4 :
    Env → BibTable → BibKey → PktqueueSession → Option (Cursor TabledBib) → Upgrade
unfolding commit_so
place_so4 env table key sos (some c) = trainwreck table
place_so4 env table key sos none = commit_so env table key sos

unfoldable pub place_so6 :
    Env → BibTable → BibKey → PktqueueSession → Option (Cursor TabledBib) → Upgrade
unfolding place_so4 find_bib4
place_so6 env table key sos (some c) = trainwreck table
place_so6 env table key sos none = place_so4 env table key sos (find_bib4 table key.src4)

unfoldable pub place_so : Env → BibTable → BibKey → PktqueueSession → Upgrade
unfolding place_so6 find_bib6
place_so env table key sos = place_so6 env table key sos (find_bib6 table key.src6)

-- From the node that `pktqueue_find` has taken out of the queue. Without masks (joold) it is freed.
unfoldable pub upgrade_node :
    Env → BibTable → Option MaskDomain → NewConn → PktqueueSession → Upgrade
unfolding place_so
upgrade_node env table none new sos = no_upgrade table
upgrade_node env table (some masks) new sos =
    if env.alloc_so_bib
    then if env.alloc_so_session
      then place_so env table (record { src6 = new.src6; src4 = sos.src4 }) sos
      else trainwreck table
    else no_upgrade table

unfoldable pub upgrade_found :
    Env → BibTable → Option MaskDomain → NewConn → Option (Cursor PktqueueSession) → Upgrade
unfolding upgrade_node
upgrade_found env table masks new none = no_upgrade table
upgrade_found env table masks new (some c) =
    upgrade_node env (record table { pkt_count = table.pkt_count - 1; pkt_queue = without c }) masks
      new c.here

abbrev pub is_tcp : L4Protocol → Bool
is_tcp tcp = true
is_tcp _ = false

abbrev pub is_icmp : L4Protocol → Bool
is_icmp icmp = true
is_icmp _ = false

unfoldable pub upgrade_pktqueue_session : Env → BibTable → Option MaskDomain → NewConn → Upgrade
unfolding upgrade_found pktqueue_find
upgrade_pktqueue_session env table masks new =
    if is_tcp table.proto
    then upgrade_found env table masks new (pktqueue_find table.pkt_queue new.dst6 masks)
    else no_upgrade table

unfoldable pub issue216_needed : Option MaskDomain → Ipv4TransportAddr → Bool
issue216_needed none src4 = false
issue216_needed (some masks) src4 =
    mask_domain_is_dynamic masks && not (mask_domain_matches masks src4)

-- `dst4`, with its port patched by that of `src4` in 3-tuples.
abbrev pub patch_dst4 : BibTable → Ipv4TransportAddr → Ipv4TransportAddr → Ipv4TransportAddr
patch_dst4 table dst4 src4 = if is_icmp table.proto then record dst4 { l4 = src4.l4 } else dst4

unfoldable pub joold_mask :
    Ipv4TransportAddr → Ipv4TransportAddr → Option (Cursor TabledBib) → Found
joold_mask src4 dst4 none = no_bib src4 dst4
joold_mask src4 dst4 (some c) = failed eexist

unfoldable pub pool_mask : BibTable → Ipv4TransportAddr → Result Ipv4TransportAddr → Found
pool_mask table dst4 (ok mask) = no_bib mask (patch_dst4 table dst4 mask)
pool_mask table dst4 (err e) = failed e

-- The end of `find_bib_session6`: a mask for a new BIB entry. `src4` is the one that a joold session
-- brings, where there are no masks.
unfoldable pub new_mask : BibTable → Option MaskDomain → NewConn → Ipv4TransportAddr → Search
unfolding find_available_mask find_bib4 joold_mask pool_mask
new_mask table none new src4 = record {
  table = table;
  masks = none;
  result = joold_mask src4 new.dst4 (find_bib4 table src4);
}
new_mask table (some masks) new src4 =
    let r = find_available_mask table masks in
    record { table = table; masks = some r.0; result = pool_mask table new.dst4 r.1 }

-- The BIB entry is there and stays.
unfoldable pub with_session :
    BibTable
    → Option MaskDomain
    → BibKey
    → Ipv4TransportAddr
    → Option (Cursor TabledSession)
    → Search
with_session table masks key dst4 (some s) = record {
  table = table;
  masks = masks;
  result = old_session key s;
}
with_session table masks key dst4 none = record {
  table = table;
  masks = masks;
  result = old_bib key dst4;
}

unfoldable pub with_bib : BibTable → Option MaskDomain → NewConn → BibKey → Search
unfolding with_session find_session
with_bib table masks new key =
    let dst4 = patch_dst4 table new.dst4 key.src4 in
    with_session table masks key dst4 (find_session table key dst4)

-- Issue #216: the BIB entry has been dropped, and is looked up again.
unfoldable pub without_bib :
    BibTable → Option MaskDomain → NewConn → Ipv4TransportAddr → Option (Cursor TabledBib) → Search
unfolding new_mask
without_bib table masks new src4 (some c) = record {
  table = table;
  masks = masks;
  result = failed einval;
}
without_bib table masks new src4 none = new_mask table masks new src4

-- After such an error the C code goes on to look for a mask, with `old->bib` still set.
unfoldable pub spoiled : Found → Found
spoiled (no_bib src4 dst4) = fault
spoiled result = result

unfoldable pub after_trainwreck : Search → Search
unfolding spoiled
after_trainwreck s = record s { result = spoiled s.result }

unfoldable pub after_upgrade : Option MaskDomain → NewConn → Ipv4TransportAddr → Upgrade → Search
unfolding new_mask after_trainwreck
after_upgrade masks new src4 (upgraded t key s) = record {
  table = t;
  masks = masks;
  result = old_session key s;
}
after_upgrade masks new src4 (trainwreck t) = after_trainwreck (new_mask t masks new src4)
after_upgrade masks new src4 (no_upgrade t) = new_mask t masks new src4

unfoldable pub after_find6 :
    Env
    → BibTable
    → Option MaskDomain
    → NewConn
    → Ipv4TransportAddr
    → Option (Cursor TabledBib)
    → Search
unfolding issue216_needed without_bib with_bib after_upgrade upgrade_pktqueue_session detach_bib
    find_bib6
after_find6 env table masks new src4 (some c) =
    if issue216_needed masks c.here.key.src4
    then (let t = detach_bib table c in without_bib t masks new src4 (find_bib6 t new.src6))
    else with_bib table masks new c.here.key
after_find6 env table masks new src4 none =
    after_upgrade masks new src4 (upgrade_pktqueue_session env table masks new)

unfoldable pub find_bib_session6 :
    Env → BibTable → Option MaskDomain → NewConn → Ipv4TransportAddr → Search
unfolding find_bib6 after_find6
find_bib_session6 env table masks new src4 =
    after_find6 env table masks new src4 (find_bib6 table new.src6)
