-- ===== src/Bib/Mask/Added.antt =====
-- No two BIB entries share an IPv4 transport address: the additions for IPv6 packets
-- (`bib_add6` and `bib_add_tcp6` of mod/common/db/bib/db.c) keep `tree4` sorted.
use jool.Prelude.{◌≡◌, refl, false, Option, none, some, Cursor, whole, if◌then◌else◌, if_cases}
use jool.Types.{Ipv4TransportAddr, Result, ok, err}
use jool.Pool4.MaskDomain.{MaskDomain}
use jool.Pool4.MaskDomain.Rotation.{IsDomain}
use jool.PktQueue.{PktqueueSession, pktqueue_find}
use jool.Bib.Table.{BibKey, TabledBib, TabledSession, BibTable, Env}
use jool.Bib.Fate.{handle_fate_timer}
use jool.Bib.Lookup.{find_bib6, find_bib4}
use jool.Bib.Find.{
  NewConn, Search, Found, old_session, old_bib, no_bib, failed, fault, Upgrade, upgraded,
  trainwreck, no_upgrade, is_tcp, commit_so, place_so4, place_so6, place_so, upgrade_node,
  upgrade_found, upgrade_pktqueue_session, issue216_needed, detach_bib, joold_mask, pool_mask,
  new_mask, with_session, with_bib, without_bib, spoiled, after_trainwreck, after_upgrade,
  after_find6, find_bib_session6,
}
use jool.Bib.Add.{
  commit_session_add, commit_bib_add, refresh, add_new, finish_add6, bib_add6, Added,
}
use jool.Bib.Count.Search.{find_bib6-whole}
use jool.Bib.Wreck.{without_node}
use jool.Bib.Mask.Order.{IsSorted}
use jool.Bib.Mask.Search.{find_available_mask_free}
use jool.Bib.Mask.Sorted.{IsSorted-without, insert_bib-IsSorted}

-- A domain that has just been found, if there is one.
abbrev pub IsReady : Option MaskDomain → Type 0
IsReady none = Unit
IsReady (some m) = IsDomain m × (m.taddr_counter ≡ 0)

-- The address of a new entry is free.
abbrev IsFree : BibTable → Found → Type 0
IsFree t (no_bib src4 dst4) = find_bib4 t src4 ≡ none
IsFree t _ = Unit

record IsClean (s : Search) : Type 0 where
  sorted : IsSorted s.table.bibs
  free : IsFree s.table s.result

abbrev UpgradeSorted : Upgrade → Type 0
UpgradeSorted (upgraded t key c) = IsSorted t.bibs
UpgradeSorted (no_upgrade t) = IsSorted t.bibs
UpgradeSorted (trainwreck t) = IsSorted t.bibs

place_so4-Sorted :
    (env : Env) (t : BibTable) (key : BibKey) (sos : PktqueueSession)
    (o : Option (Cursor TabledBib))
    → find_bib4 t key.src4 ≡ o
    → IsSorted t.bibs
    → UpgradeSorted (place_so4 env t key sos o)
unfolding place_so4 commit_so
place_so4-Sorted env t key sos none e s =
    insert_bib-IsSorted t (record { key = key; is_static = false }) e s
place_so4-Sorted env t key sos (some c) e s = s

place_so6-Sorted :
    (env : Env) (t : BibTable) (key : BibKey) (sos : PktqueueSession)
    (o : Option (Cursor TabledBib))
    → IsSorted t.bibs
    → UpgradeSorted (place_so6 env t key sos o)
unfolding place_so6
place_so6-Sorted env t key sos none s = place_so4-Sorted env t key sos _ refl s
place_so6-Sorted env t key sos (some c) s = s

upgrade_found-Sorted :
    (env : Env) (t : BibTable) (masks : Option MaskDomain) (new : NewConn)
    (o : Option (Cursor PktqueueSession))
    → IsSorted t.bibs
    → UpgradeSorted (upgrade_found env t masks new o)
unfolding upgrade_found upgrade_node place_so
upgrade_found-Sorted env t masks new none s = s
upgrade_found-Sorted env t none new (some c) s = s
upgrade_found-Sorted env t (some masks) new (some c) s =
    let key : BibKey = record { src6 = new.src6; src4 = c.here.src4 } in
    let placed = place_so env (without_node t c) key c.here in
    let wreck = trainwreck (without_node t c) in
    if_cases UpgradeSorted env.alloc_so_bib {x = if env.alloc_so_session then placed else wreck}
      {y = no_upgrade (without_node t c)}
      (if_cases UpgradeSorted env.alloc_so_session {x = placed} {y = wreck}
        (place_so6-Sorted env (without_node t c) key c.here _ s) s)
      s

upgrade-Sorted :
    (env : Env) (t : BibTable) (masks : Option MaskDomain) (new : NewConn)
    → IsSorted t.bibs
    → UpgradeSorted (upgrade_pktqueue_session env t masks new)
unfolding upgrade_pktqueue_session
upgrade-Sorted env t masks new s =
    if_cases UpgradeSorted (is_tcp t.proto)
      {x = upgrade_found env t masks new (pktqueue_find t.pkt_queue new.dst6 masks)}
      {y = no_upgrade t} (upgrade_found-Sorted env t masks new _ s) s

joold_mask-IsFree :
    (t : BibTable) (src4 dst4 : Ipv4TransportAddr) (o : Option (Cursor TabledBib))
    → find_bib4 t src4 ≡ o
    → IsFree t (joold_mask src4 dst4 o)
unfolding joold_mask
joold_mask-IsFree t src4 dst4 none e = e
joold_mask-IsFree t src4 dst4 (some c) e = tt

pool_mask-IsFree :
    (t : BibTable) (dst4 : Ipv4TransportAddr) (r : Result Ipv4TransportAddr)
    → ((a : Ipv4TransportAddr) → r ≡ ok a → find_bib4 t a ≡ none)
    → IsFree t (pool_mask t dst4 r)
unfolding pool_mask
pool_mask-IsFree t dst4 (ok mask) q = q mask refl
pool_mask-IsFree t dst4 (err e) q = tt

new_mask-IsClean :
    (t : BibTable) (masks : Option MaskDomain) (new : NewConn) (src4 : Ipv4TransportAddr)
    → IsReady masks
    → IsSorted t.bibs
    → IsClean (new_mask t masks new src4)
unfolding new_mask
new_mask-IsClean t none new src4 r s = record {
  sorted = s;
  free = joold_mask-IsFree t src4 new.dst4 _ refl;
}
new_mask-IsClean t (some m) new src4 (d, z) s = record {
  sorted = s;
  free = pool_mask-IsFree t new.dst4 _ (λ a e. find_available_mask_free t m a s d z e);
}

spoiled-IsClean : (s : Search) → IsClean s → IsClean (after_trainwreck s)
unfolding after_trainwreck
spoiled-IsClean s h = record { sorted = h.sorted; free = spoiled-IsFree s.result h.free }
  where
    spoiled-IsFree : (f : Found) → IsFree s.table f → IsFree s.table (spoiled f)
    spoiled-IsFree (old_session key c) h = tt
    spoiled-IsFree (old_bib key dst4) h = tt
    spoiled-IsFree (no_bib src4 dst4) h = tt
    spoiled-IsFree (failed e) h = tt
    spoiled-IsFree fault h = tt

after_upgrade-IsClean :
    (masks : Option MaskDomain) (new : NewConn) (src4 : Ipv4TransportAddr) (u : Upgrade)
    → IsReady masks
    → UpgradeSorted u
    → IsClean (after_upgrade masks new src4 u)
unfolding after_upgrade
after_upgrade-IsClean masks new src4 (upgraded t key c) r s = record { sorted = s; free = tt }
after_upgrade-IsClean masks new src4 (trainwreck t) r s =
    spoiled-IsClean (new_mask t masks new src4) (new_mask-IsClean t masks new src4 r s)
after_upgrade-IsClean masks new src4 (no_upgrade t) r s = new_mask-IsClean t masks new src4 r s

without_bib-IsClean :
    (t : BibTable) (masks : Option MaskDomain) (new : NewConn) (src4 : Ipv4TransportAddr)
    (o : Option (Cursor TabledBib))
    → IsReady masks
    → IsSorted t.bibs
    → IsClean (without_bib t masks new src4 o)
unfolding without_bib
without_bib-IsClean t masks new src4 none r s = new_mask-IsClean t masks new src4 r s
without_bib-IsClean t masks new src4 (some c) r s = record { sorted = s; free = tt }

with_session-IsClean :
    (t : BibTable) (masks : Option MaskDomain) (key : BibKey) (dst4 : Ipv4TransportAddr)
    (o : Option (Cursor TabledSession))
    → IsSorted t.bibs
    → IsClean (with_session t masks key dst4 o)
unfolding with_session
with_session-IsClean t masks key dst4 none s = record { sorted = s; free = tt }
with_session-IsClean t masks key dst4 (some c) s = record { sorted = s; free = tt }

after_find6-IsClean :
    (env : Env) (t : BibTable) (masks : Option MaskDomain) (new : NewConn)
    (src4 : Ipv4TransportAddr) (o : Option (Cursor TabledBib))
    → ((c : Cursor TabledBib) → o ≡ some c → t.bibs ≡ whole c)
    → IsReady masks
    → IsSorted t.bibs
    → IsClean (after_find6 env t masks new src4 o)
unfolding after_find6 with_bib detach_bib
after_find6-IsClean env t masks new src4 none q r s =
    after_upgrade-IsClean masks new src4 _ r (upgrade-Sorted env t masks new s)
after_find6-IsClean env t masks new src4 (some c) q r s =
    let u = detach_bib t c in
    if_cases IsClean (issue216_needed masks c.here.key.src4)
      (without_bib-IsClean u masks new src4 (find_bib6 u new.src6) r
        (IsSorted-without t.bibs c (q c refl) s))
      (with_session-IsClean t masks c.here.key _ _ s)

find_bib_session6-IsClean :
    (env : Env) (t : BibTable) (masks : Option MaskDomain) (new : NewConn)
    (src4 : Ipv4TransportAddr)
    → IsReady masks
    → IsSorted t.bibs
    → IsClean (find_bib_session6 env t masks new src4)
unfolding find_bib_session6
find_bib_session6-IsClean env t masks new src4 r s =
    after_find6-IsClean env t masks new src4 _ (find_bib6-whole t new.src6) r s

finish_add6-IsSorted :
    (env : Env) (new : NewConn) (t : BibTable) (masks : Option MaskDomain) (f : Found)
    → IsSorted t.bibs
    → IsFree t f
    → IsSorted (finish_add6 env new t masks f).table.bibs
unfolding finish_add6 refresh add_new commit_bib_add commit_session_add handle_fate_timer
finish_add6-IsSorted env new t masks (failed e) s q = s
finish_add6-IsSorted env new t masks fault s q = s
finish_add6-IsSorted env new t masks (old_session key c) s q = s
finish_add6-IsSorted env new t masks (old_bib key dst4) s q = s
finish_add6-IsSorted env new t masks (no_bib src4 dst4) s q =
    let key : BibKey = record { src6 = new.src6; src4 = src4 } in
    insert_bib-IsSorted t (record { key = key; is_static = false }) q s

-- `bib_add6` keeps the IPv4 tree sorted, so that no two BIB entries share an IPv4 transport
-- address, where the domain has just been found and its ranges are not empty.
pub bib_add6-IsSorted :
    (env : Env) (t : BibTable) (masks : MaskDomain) (new : NewConn)
    → IsDomain masks
    → masks.taddr_counter ≡ 0
    → IsSorted t.bibs
    → IsSorted (bib_add6 env t masks new).table.bibs
unfolding bib_add6
bib_add6-IsSorted env t masks new d z s =
    let r = find_bib_session6 env t (some masks) new new.dst4 in
    let c = find_bib_session6-IsClean env t (some masks) new new.dst4 (d, z) s in
    if_cases (λ (a : Added). IsSorted a.table.bibs) env.alloc_entry
      (finish_add6-IsSorted env new r.table r.masks r.result c.sorted c.free) s
