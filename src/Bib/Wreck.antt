-- ===== src/Bib/Wreck.antt =====
-- The "train wreck" of `upgrade_pktqueue_session` in mod/common/db/bib/db.c: when a simultaneous
-- open is upgraded and its BIB entry collides, or its session cannot be allocated, the entry is freed,
-- and `old->bib` still points to it.
use jool.Prelude.{
  ◌-◌, ◌≡◌, ◌≢◌, refl, ap, ◌∙◌, Bool, true, false, Option, none, some, Cursor, without,
  if◌then◌else◌, if_cases, Bool-cases, inl, inr,
}
use jool.Types.{Ipv4TransportAddr, tcp, Result, ok, err}
use jool.Pool4.MaskDomain.{MaskDomain}
use jool.PktQueue.{PktqueueSession, pktqueue_find}
use jool.Bib.Table.{BibKey, TabledBib, TabledSession, BibTable, Env}
use jool.Bib.Lookup.{find_bib6, find_bib4, find_available_mask}
use jool.Bib.Find.{
  Found, fault, Search, NewConn, Upgrade, upgraded, trainwreck, no_upgrade, is_tcp, place_so4,
  place_so6, place_so, commit_so, upgrade_node, upgrade_found, upgrade_pktqueue_session,
  issue216_needed, new_mask, joold_mask, pool_mask, with_session, with_bib, without_bib, spoiled,
  after_trainwreck, after_upgrade, after_find6, find_bib_session6,
}

-- The table once a node has left its queue.
abbrev pub without_node : BibTable → Cursor PktqueueSession → BibTable
without_node t c = record t { pkt_count = t.pkt_count - 1; pkt_queue = without c }

abbrev so_key : NewConn → Cursor PktqueueSession → BibKey
so_key new c = record { src6 = new.src6; src4 = c.here.src4 }

place_wreck :
    (env : Env) (t : BibTable) (key : BibKey) (sos : PktqueueSession) (b : Cursor TabledBib)
    → find_bib6 t key.src6 ≡ none
    → find_bib4 t key.src4 ≡ some b
    → place_so env t key sos ≡ trainwreck t
unfolding place_so place_so6 place_so4
place_wreck env t key sos b e6 e4 =
    ap (place_so6 env t key sos) e6 ∙ ap (place_so4 env t key sos) e4

find_bib4_frame :
    (t : BibTable) (c : Cursor PktqueueSession) (addr : Ipv4TransportAddr)
    → find_bib4 (without_node t c) addr ≡ find_bib4 t addr
unfolding find_bib4
find_bib4_frame t c addr = refl

find_bib6_frame :
    (t : BibTable) (c : Cursor PktqueueSession) (new : NewConn)
    → find_bib6 (without_node t c) new.src6 ≡ find_bib6 t new.src6
unfolding find_bib6
find_bib6_frame t c new = refl

upgrade_wreck :
    (env : Env) (t : BibTable) (masks : MaskDomain) (new : NewConn) (c : Cursor PktqueueSession)
    → t.proto ≡ tcp
    → env.alloc_so_bib ≡ true
    → find_bib6 t new.src6 ≡ none
    → pktqueue_find t.pkt_queue new.dst6 (some masks) ≡ some c
    → (env.alloc_so_session ≡ true → (b : Cursor TabledBib) × (find_bib4 t c.here.src4 ≡ some b))
    → upgrade_pktqueue_session env t (some masks) new ≡ trainwreck (without_node t c)
unfolding upgrade_pktqueue_session upgrade_found upgrade_node
upgrade_wreck env t masks new c p a e6 q e4 =
    ap
      (λ l.
        if is_tcp l
        then upgrade_found env t (some masks) new (pktqueue_find t.pkt_queue new.dst6 (some masks))
        else no_upgrade t)
      p
    ∙ ap (upgrade_found env t (some masks) new) q
    ∙ ap
        (λ b.
          if b
          then if env.alloc_so_session
            then place_so env (without_node t c) (so_key new c) c.here
            else trainwreck (without_node t c)
          else no_upgrade (without_node t c))
        a
    ∙ elim (Bool-cases env.alloc_so_session) [
      | inl s ↦
          let (b, f) = e4 s in
          rw s (
            place_wreck env (without_node t c) (so_key new c) c.here b
              (find_bib6_frame t c new ∙ e6) (find_bib4_frame t c c.here.src4 ∙ f))
      | inr s ↦ rw s refl
    ]

wreck_mask :
    (t : BibTable) (masks : MaskDomain) (new : NewConn) (src4 mask : Ipv4TransportAddr)
    → (find_available_mask t masks).1 ≡ ok mask
    → (after_trainwreck (new_mask t (some masks) new src4)).result ≡ fault
unfolding after_trainwreck new_mask spoiled pool_mask
wreck_mask t masks new src4 mask e = ap (λ r. spoiled (pool_mask t new.dst4 r)) e

-- The code is left with a pointer to freed memory whenever, in a TCP table, an IPv6 node without a
-- BIB entry sends to a destination for which a stored packet waits, the BIB entry of the simultaneous
-- open can be allocated, and a mask is available, if its session cannot be allocated or some BIB entry
-- has taken the stored packet's address meanwhile.
pub find_bib_session6_fault :
    (env : Env) (t : BibTable) (masks : MaskDomain) (new : NewConn) (src4 mask : Ipv4TransportAddr)
    (c : Cursor PktqueueSession)
    → t.proto ≡ tcp
    → env.alloc_so_bib ≡ true
    → find_bib6 t new.src6 ≡ none
    → pktqueue_find t.pkt_queue new.dst6 (some masks) ≡ some c
    → (env.alloc_so_session ≡ true → (b : Cursor TabledBib) × (find_bib4 t c.here.src4 ≡ some b))
    → (find_available_mask (without_node t c) masks).1 ≡ ok mask
    → (find_bib_session6 env t (some masks) new src4).result ≡ fault
unfolding find_bib_session6 after_find6 after_upgrade
find_bib_session6_fault env t masks new src4 mask c p a e6 q e4 m =
    ap (λ o. (after_find6 env t (some masks) new src4 o).result) e6
    ∙ ap (λ u. (after_upgrade (some masks) new src4 u).result)
        (upgrade_wreck env t masks new c p a e6 q e4)
    ∙ wreck_mask (without_node t c) masks new src4 mask m

-- The other outcomes.
abbrev is_fault : Found → Bool
is_fault fault = true
is_fault _ = false

abbrev is_wreck : Upgrade → Bool
is_wreck (trainwreck t) = true
is_wreck _ = false

new_mask_safe :
    (t : BibTable) (masks : Option MaskDomain) (new : NewConn) (src4 : Ipv4TransportAddr)
    → is_fault (new_mask t masks new src4).result ≡ false
unfolding new_mask joold_mask pool_mask
new_mask_safe t none new src4 = joold (find_bib4 t src4)
  where
    joold : (o : Option (Cursor TabledBib)) → is_fault (joold_mask src4 new.dst4 o) ≡ false
    joold none = refl
    joold (some c) = refl
new_mask_safe t (some masks) new src4 = pool (find_available_mask t masks).1
  where
    pool : (r : Result Ipv4TransportAddr) → is_fault (pool_mask t new.dst4 r) ≡ false
    pool (ok mask) = refl
    pool (err e) = refl

with_session_safe :
    (t : BibTable) (masks : Option MaskDomain) (key : BibKey) (dst4 : Ipv4TransportAddr)
    (o : Option (Cursor TabledSession))
    → is_fault (with_session t masks key dst4 o).result ≡ false
unfolding with_session
with_session_safe t masks key dst4 none = refl
with_session_safe t masks key dst4 (some s) = refl

without_bib_safe :
    (t : BibTable) (masks : Option MaskDomain) (new : NewConn) (src4 : Ipv4TransportAddr)
    (o : Option (Cursor TabledBib))
    → is_fault (without_bib t masks new src4 o).result ≡ false
unfolding without_bib
without_bib_safe t masks new src4 none = new_mask_safe t masks new src4
without_bib_safe t masks new src4 (some c) = refl

after_upgrade_safe :
    (masks : Option MaskDomain) (new : NewConn) (src4 : Ipv4TransportAddr) (u : Upgrade)
    → is_wreck u ≡ false
    → is_fault (after_upgrade masks new src4 u).result ≡ false
unfolding after_upgrade
after_upgrade_safe masks new src4 (upgraded t key s) e = refl
after_upgrade_safe masks new src4 (no_upgrade t) e = new_mask_safe t masks new src4
after_upgrade_safe masks new src4 (trainwreck t) e = absurd (cc e)

place_safe :
    (env : Env) (t : BibTable) (key : BibKey) (sos : PktqueueSession)
    → find_bib6 t key.src6 ≡ none
    → find_bib4 t key.src4 ≡ none
    → is_wreck (place_so env t key sos) ≡ false
unfolding place_so place_so6 place_so4 commit_so
place_safe env t key sos e6 e4 =
    ap (λ o. is_wreck (place_so6 env t key sos o)) e6
    ∙ ap (λ o. is_wreck (place_so4 env t key sos o)) e4

upgrade_found_safe :
    (env : Env) (t : BibTable) (masks : Option MaskDomain) (new : NewConn)
    (o : Option (Cursor PktqueueSession))
    → find_bib6 t new.src6 ≡ none
    → (env.alloc_so_bib ≡ true → env.alloc_so_session ≡ true)
    → ((c : Cursor PktqueueSession) → o ≡ some c → find_bib4 t c.here.src4 ≡ none)
    → is_wreck (upgrade_found env t masks new o) ≡ false
unfolding upgrade_found upgrade_node
upgrade_found_safe env t masks new none e6 a q = refl
upgrade_found_safe env t none new (some c) e6 a q = refl
upgrade_found_safe env t (some masks) new (some c) e6 a q =
    let placed =
      place_safe env (without_node t c) (so_key new c) c.here (find_bib6_frame t c new ∙ e6)
        (find_bib4_frame t c c.here.src4 ∙ q c refl) in
    elim (Bool-cases env.alloc_so_bib) [ inl b ↦ rw (b, a b) placed | inr b ↦ rw b refl ]

after_find6_safe :
    (env : Env) (t : BibTable) (masks : Option MaskDomain) (new : NewConn)
    (src4 : Ipv4TransportAddr) (o : Option (Cursor TabledBib))
    → find_bib6 t new.src6 ≡ o
    → (env.alloc_so_bib ≡ true → env.alloc_so_session ≡ true)
    → ((c : Cursor PktqueueSession)
        → pktqueue_find t.pkt_queue new.dst6 masks ≡ some c
        → find_bib4 t c.here.src4 ≡ none)
    → is_fault (after_find6 env t masks new src4 o).result ≡ false
unfolding after_find6 with_bib upgrade_pktqueue_session
after_find6_safe env t masks new src4 (some c) e a q =
    if_cases (λ (s : Search). is_fault s.result ≡ false) (issue216_needed masks c.here.key.src4)
      (without_bib_safe _ masks new src4 _) (with_session_safe t masks c.here.key _ _)
after_find6_safe env t masks new src4 none e a q = after_upgrade_safe masks new src4 _ (
    if_cases (λ u. is_wreck u ≡ false) (is_tcp t.proto) (upgrade_found_safe env t masks new _ e a q)
      refl)

-- Where no waiting packet that the new connection could answer has lost its address to a BIB
-- entry, and the two allocations of a simultaneous open do not stop between them, the search for an IPv6 packet never ends with the freed entry.
pub find_bib_session6_safe :
    (env : Env) (t : BibTable) (masks : Option MaskDomain) (new : NewConn)
    (src4 : Ipv4TransportAddr)
    → (env.alloc_so_bib ≡ true → env.alloc_so_session ≡ true)
    → ((c : Cursor PktqueueSession)
        → pktqueue_find t.pkt_queue new.dst6 masks ≡ some c
        → find_bib4 t c.here.src4 ≡ none)
    → (find_bib_session6 env t masks new src4).result ≢ fault
unfolding find_bib_session6
find_bib_session6_safe env t masks new src4 a q e =
    absurd (cc (after_find6_safe env t masks new src4 _ refl a q, ap is_fault e))
