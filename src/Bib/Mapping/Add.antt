-- ===== src/Bib/Mapping/Add.antt =====
-- The mapping that `bib_add6` (mod/common/db/bib/db.c) announces is the one in the table.
use jool.Prelude.{
  ◌≡◌, refl, sym, ap, subst, ◌∙◌, false, Option, none, some, Cursor, find_first, if◌then◌else◌,
  if_cases,
}
use jool.Types.{Ipv4TransportAddr, Ipv6TransportAddr, taddr6_equals, enomem}
use jool.Session.{SessionEntry}
use jool.Pool4.MaskDomain.{MaskDomain}
use jool.PktQueue.{PktqueueSession, pktqueue_find}
use jool.Bib.Table.{BibKey, TabledBib, TabledSession, BibTable, Env, session_entries, tstose}
use jool.Bib.Lookup.{find_bib6}
use jool.Bib.Find.{
  NewConn, Search, Found, old_session, old_bib, no_bib, failed, fault, Upgrade, upgraded,
  trainwreck, no_upgrade, is_tcp, patch_dst4, commit_so, place_so4, place_so6, place_so,
  upgrade_node, upgrade_found, upgrade_pktqueue_session, issue216_needed, detach_bib, with_session,
  with_bib, without_bib, after_trainwreck, after_upgrade, after_find6, find_bib_session6,
}
use jool.Bib.Add.{
  commit_session_add, commit_bib_add, refresh, add_new, finish_add6, bib_add6, AddResult, added,
  not_added, Added,
}
use jool.Bib.Fate.{handle_fate_timer}
use jool.Bib.Wreck.{without_node}
use jool.Bib.Mapping.{
  Maps, insert-Maps, ShowsMap, find_session-bib, with_session-ShowsMap, spoiled-ShowsMap,
  new_mask-ShowsMap,
}

abbrev UpgradeMaps : Ipv6TransportAddr → Upgrade → Type 0
UpgradeMaps a (upgraded t key c) = Maps t a key.src4 × (c.here.bib ≡ key)
UpgradeMaps a (no_upgrade t) = find_bib6 t a ≡ none
UpgradeMaps a (trainwreck t) = find_bib6 t a ≡ none

place_so4-UpgradeMaps :
    (env : Env) (t : BibTable) (key : BibKey) (sos : PktqueueSession)
    (o : Option (Cursor TabledBib))
    → find_bib6 t key.src6 ≡ none
    → UpgradeMaps key.src6 (place_so4 env t key sos o)
unfolding place_so4 commit_so
place_so4-UpgradeMaps env t key sos none h =
    (insert-Maps t _ (record { key = key; is_static = false }) refl h, refl)
place_so4-UpgradeMaps env t key sos (some c) h = h

place_so6-UpgradeMaps :
    (env : Env) (t : BibTable) (key : BibKey) (sos : PktqueueSession)
    (o : Option (Cursor TabledBib))
    → find_bib6 t key.src6 ≡ none
    → UpgradeMaps key.src6 (place_so6 env t key sos o)
unfolding place_so6
place_so6-UpgradeMaps env t key sos none h = place_so4-UpgradeMaps env t key sos _ h
place_so6-UpgradeMaps env t key sos (some c) h = h

find_bib6_frame :
    (t u : BibTable) (a : Ipv6TransportAddr) → u.bibs ≡ t.bibs → find_bib6 u a ≡ find_bib6 t a
unfolding find_bib6
find_bib6_frame t u a e = ap (find_first (λ b. taddr6_equals b.key.src6 a)) e

upgrade_node-UpgradeMaps :
    (env : Env) (t : BibTable) (masks : Option MaskDomain) (new : NewConn) (sos : PktqueueSession)
    → find_bib6 t new.src6 ≡ none
    → UpgradeMaps new.src6 (upgrade_node env t masks new sos)
unfolding upgrade_node place_so
upgrade_node-UpgradeMaps env t none new sos h = h
upgrade_node-UpgradeMaps env t (some masks) new sos h =
    let placed = place_so env t (record { src6 = new.src6; src4 = sos.src4 }) sos in
    if_cases (UpgradeMaps new.src6) env.alloc_so_bib
      {x = if env.alloc_so_session then placed else trainwreck t} {y = no_upgrade t}
      (if_cases (UpgradeMaps new.src6) env.alloc_so_session {x = placed} {y = trainwreck t}
        (place_so6-UpgradeMaps env t (record { src6 = new.src6; src4 = sos.src4 }) sos _ h) h)
      h

upgrade_found-UpgradeMaps :
    (env : Env) (t : BibTable) (masks : Option MaskDomain) (new : NewConn)
    (o : Option (Cursor PktqueueSession))
    → find_bib6 t new.src6 ≡ none
    → UpgradeMaps new.src6 (upgrade_found env t masks new o)
unfolding upgrade_found
upgrade_found-UpgradeMaps env t masks new none h = h
upgrade_found-UpgradeMaps env t masks new (some c) h =
    upgrade_node-UpgradeMaps env (without_node t c) masks new c.here
      (find_bib6_frame t (without_node t c) new.src6 refl ∙ h)

upgrade-UpgradeMaps :
    (env : Env) (t : BibTable) (masks : Option MaskDomain) (new : NewConn)
    → find_bib6 t new.src6 ≡ none
    → UpgradeMaps new.src6 (upgrade_pktqueue_session env t masks new)
unfolding upgrade_pktqueue_session
upgrade-UpgradeMaps env t masks new h =
    if_cases (UpgradeMaps new.src6) (is_tcp t.proto)
      {x = upgrade_found env t masks new (pktqueue_find t.pkt_queue new.dst6 masks)}
      {y = no_upgrade t} (upgrade_found-UpgradeMaps env t masks new _ h) h

abbrev SearchMaps : Ipv6TransportAddr → Search → Type 0
SearchMaps a s = ShowsMap s.table a s.result

after_upgrade-SearchMaps :
    (masks : Option MaskDomain) (new : NewConn) (src4 : Ipv4TransportAddr) (u : Upgrade)
    → UpgradeMaps new.src6 u
    → SearchMaps new.src6 (after_upgrade masks new src4 u)
unfolding after_upgrade after_trainwreck
after_upgrade-SearchMaps masks new src4 (upgraded t key c) h = h
after_upgrade-SearchMaps masks new src4 (trainwreck t) h =
    spoiled-ShowsMap _ new.src6 _ (new_mask-ShowsMap t masks new src4 h)
after_upgrade-SearchMaps masks new src4 (no_upgrade t) h = new_mask-ShowsMap t masks new src4 h

without_bib-SearchMaps :
    (t : BibTable) (masks : Option MaskDomain) (new : NewConn) (src4 : Ipv4TransportAddr)
    (o : Option (Cursor TabledBib))
    → find_bib6 t new.src6 ≡ o
    → SearchMaps new.src6 (without_bib t masks new src4 o)
unfolding without_bib
without_bib-SearchMaps t masks new src4 none h = new_mask-ShowsMap t masks new src4 h
without_bib-SearchMaps t masks new src4 (some c) h = tt

after_find6-SearchMaps :
    (env : Env) (t : BibTable) (masks : Option MaskDomain) (new : NewConn)
    (src4 : Ipv4TransportAddr) (o : Option (Cursor TabledBib))
    → find_bib6 t new.src6 ≡ o
    → SearchMaps new.src6 (after_find6 env t masks new src4 o)
unfolding after_find6 with_bib
after_find6-SearchMaps env t masks new src4 none h =
    after_upgrade-SearchMaps masks new src4 _ (upgrade-UpgradeMaps env t masks new h)
after_find6-SearchMaps env t masks new src4 (some c) h =
    let u = detach_bib t c in
    let key = c.here.key in
    if_cases (SearchMaps new.src6) (issue216_needed masks key.src4)
      {x = without_bib u masks new src4 (find_bib6 u new.src6)} {y = with_bib t masks new key}
      (without_bib-SearchMaps u masks new src4 (find_bib6 u new.src6) refl)
      (with_session-ShowsMap t masks new.src6 key (patch_dst4 t new.dst4 key.src4) _ (c, h, refl)
        (find_session-bib t key (patch_dst4 t new.dst4 key.src4)))

find_bib_session6-SearchMaps :
    (env : Env) (t : BibTable) (masks : Option MaskDomain) (new : NewConn)
    (src4 : Ipv4TransportAddr)
    → SearchMaps new.src6 (find_bib_session6 env t masks new src4)
unfolding find_bib_session6
find_bib_session6-SearchMaps env t masks new src4 =
    after_find6-SearchMaps env t masks new src4 (find_bib6 t new.src6) refl

-- The session that an addition announces has the address that the table maps.
abbrev Announces : Ipv6TransportAddr → BibTable → AddResult → Type 0
Announces a t (added (session_entries s)) = Maps t a s.src4
Announces a t _ = Unit

Maps-frame :
    (t u : BibTable) (a : Ipv6TransportAddr) (b : Ipv4TransportAddr)
    → u.bibs ≡ t.bibs
    → Maps t a b
    → Maps u a b
Maps-frame t u a b e (c, f, g) = (c, find_bib6_frame t u a e ∙ f, g)

finish_add6-Announces :
    (env : Env) (new : NewConn) (t : BibTable) (masks : Option MaskDomain) (f : Found)
    → ShowsMap t new.src6 f
    → let r = finish_add6 env new t masks f in Announces new.src6 r.table r.result
unfolding finish_add6 refresh add_new commit_bib_add commit_session_add handle_fate_timer tstose
finish_add6-Announces env new t masks (failed e) h = tt
finish_add6-Announces env new t masks fault h = tt
finish_add6-Announces env new t masks (old_session key c) (h, q) =
    Maps-frame t _ new.src6 c.here.bib.src4 refl
      (subst (λ (k : BibKey). Maps t new.src6 k.src4) (sym q) h)
finish_add6-Announces env new t masks (old_bib key dst4) h = Maps-frame t _ new.src6 key.src4 refl h
finish_add6-Announces env new t masks (no_bib src4 dst4) h =
    let key : BibKey = record { src6 = new.src6; src4 = src4 } in
    insert-Maps t _ (record { key = key; is_static = false }) refl h

bib_add6-Announces :
    (env : Env) (t : BibTable) (masks : MaskDomain) (new : NewConn)
    → let r = bib_add6 env t masks new in Announces new.src6 r.table r.result
unfolding bib_add6
bib_add6-Announces env t masks new =
    let s = find_bib_session6 env t (some masks) new new.dst4 in
    if_cases (λ (r : Added). Announces new.src6 r.table r.result) env.alloc_entry
      {x = finish_add6 env new s.table s.masks s.result}
      {y = record { table = t; masks = some masks; result = not_added enomem }}
      (finish_add6-Announces env new s.table s.masks s.result
        (find_bib_session6-SearchMaps env t (some masks) new new.dst4))
      (tt {0})

-- Whenever `bib_add6` succeeds, new entries, entries that were there, simultaneous opens and issue
-- #216 included, the table that it leaves maps the packet's source to the IPv4 transport address
-- that the session it returns announces.
pub bib_add6-Maps :
    (env : Env) (t : BibTable) (masks : MaskDomain) (new : NewConn) (s : SessionEntry)
    → (bib_add6 env t masks new).result ≡ added (session_entries s)
    → Maps (bib_add6 env t masks new).table new.src6 s.src4
bib_add6-Maps env t masks new s e =
    subst (Announces new.src6 (bib_add6 env t masks new).table) e
      (bib_add6-Announces env t masks new)

abbrev HasSrc4 : Ipv4TransportAddr → AddResult → Type 0
HasSrc4 a (added (session_entries s)) = s.src4 ≡ a
HasSrc4 a _ = Unit

finish_with-HasSrc4 :
    (env : Env) (t : BibTable) (masks : Option MaskDomain) (new : NewConn) (key : BibKey)
    (dst4 : Ipv4TransportAddr) (o : Option (Cursor TabledSession))
    → ((c : Cursor TabledSession) → o ≡ some c → c.here.bib ≡ key)
    → let s = with_session t masks key dst4 o in
      HasSrc4 key.src4 (finish_add6 env new s.table s.masks s.result).result
unfolding with_session finish_add6 refresh add_new tstose
finish_with-HasSrc4 env t masks new key dst4 none q = refl
finish_with-HasSrc4 env t masks new key dst4 (some c) q = ap (λ (k : BibKey). k.src4) (q c refl)

add_known-HasSrc4 :
    (env : Env) (t : BibTable) (masks : MaskDomain) (new : NewConn) (c : Cursor TabledBib)
    → find_bib6 t new.src6 ≡ some c
    → issue216_needed (some masks) c.here.key.src4 ≡ false
    → HasSrc4 c.here.key.src4 (bib_add6 env t masks new).result
unfolding bib_add6 find_bib_session6 after_find6 with_bib
add_known-HasSrc4 env t masks new c e n =
    let key = c.here.key in
    let o : Option MaskDomain = some masks in
    let u = detach_bib t c in
    let s = find_bib_session6 env t o new new.dst4 in
    let q : s ≡ with_bib t o new key =
      ap (after_find6 env t o new new.dst4) e
      ∙ ap
          (λ b.
            if b then without_bib u o new new.dst4 (find_bib6 u new.src6) else with_bib t o new key)
          n in
    if_cases (λ (r : Added). HasSrc4 key.src4 r.result) env.alloc_entry
      {x = finish_add6 env new s.table s.masks s.result}
      {y = record { table = t; masks = o; result = not_added enomem }}
      (subst
        (λ (s : Search). HasSrc4 key.src4 (finish_add6 env new s.table s.masks s.result).result)
        (sym q)
        (finish_with-HasSrc4 env t o new key (patch_dst4 t new.dst4 key.src4) _
          (find_session-bib t key (patch_dst4 t new.dst4 key.src4))))
      (tt {0})

-- Endpoint-independent mapping: a node whose source is mapped keeps its IPv4 transport address,
-- whatever the destination of its next packet is, unless the domain is dynamic and has lost it.
pub bib_add6_same_src4 :
    (env : Env) (t : BibTable) (masks : MaskDomain) (new : NewConn) (a : Ipv4TransportAddr)
    (s : SessionEntry)
    → Maps t new.src6 a
    → issue216_needed (some masks) a ≡ false
    → (bib_add6 env t masks new).result ≡ added (session_entries s)
    → s.src4 ≡ a
bib_add6_same_src4 env t masks new a s (c, e, q) n r =
    subst (HasSrc4 c.here.key.src4) r
      (add_known-HasSrc4 env t masks new c e (ap (issue216_needed (some masks)) q ∙ n))
    ∙ q
