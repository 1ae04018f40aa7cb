-- ===== src/Bib/Mapping.antt =====
-- Endpoint-independent mapping (RFC 6146, section 3.5): the IPv4 transport address that
-- mod/common/db/bib/db.c gives an IPv6 one.
pub mod Add
use Prim.Native.Nat.{Ordering}
use jool.Prelude.{
  ◌≡◌, refl, sym, ap, subst, ◌∙◌, inl, inr, Bool, true, false, ◌&&◌, List, [], ◌∷◌, ◌++◌, Option,
  none, some, Cursor, whole, find_first, push_before, if◌then◌else◌, if_cases, Bool-cases, arith,
}
use jool.Types.{
  Ipv4TransportAddr, Ipv6TransportAddr, taddr4_compare, taddr4_equals_iff, taddr6_equals,
  taddr6_equals_iff, Result, ok, err,
}
use jool.Session.{SessionEntry}
use jool.Pool4.MaskDomain.{MaskDomain}
use jool.PktQueue.{PktqueueSession, pktqueue_find}
use jool.Bib.Table.{
  BibKey, TabledBib, TabledSession, BibTable, Env, Entries, session_entries, key_equals, belongs,
  tstose,
}
use jool.Bib.Lookup.{find_bib6, find_bib4, find_session, insert_bib, find_available_mask}
use jool.Bib.Find.{
  NewConn, Search, Found, old_session, old_bib, no_bib, failed, fault, Upgrade, upgraded,
  trainwreck, no_upgrade, is_tcp, patch_dst4, commit_so, place_so4, place_so6, place_so,
  upgrade_node, upgrade_found, upgrade_pktqueue_session, issue216_needed, detach_bib, joold_mask,
  pool_mask, new_mask, with_session, with_bib, without_bib, spoiled, after_trainwreck,
  after_upgrade, after_find6, find_bib_session6,
}
use jool.Bib.Count.{find_first-Finds}

-- The BIB entry of `src6` has `a`.
abbrev pub Maps : BibTable → Ipv6TransportAddr → Ipv4TransportAddr → Type 0
Maps t src6 a = (c : Cursor TabledBib) × (find_bib6 t src6 ≡ some c) × (c.here.key.src4 ≡ a)

module _ (p : TabledBib → Bool) where
  find_here :
      (x : TabledBib) (xs : List TabledBib)
      → p x ≡ true
      → find_first p (x ∷ xs) ≡ some (record { before = []; here = x; after = xs })
  unfolding find_first
  find_here x xs e = ground arith

  find_on :
      (x : TabledBib) (xs : List TabledBib) (o : Option (Cursor TabledBib))
      → p x ≡ false
      → find_first p xs ≡ o
      → find_first p (x ∷ xs) ≡ push_before x o
  unfolding find_first
  find_on x xs o e f = ground arith

  find_none :
      (x : TabledBib) (xs : List TabledBib)
      → find_first p (x ∷ xs) ≡ none
      → (p x ≡ false) × (find_first p xs ≡ none)
  unfolding find_first
  find_none x xs e = (ground arith, ground arith)

  -- An entry that is the only one to pass the test.
  Shown : TabledBib → List TabledBib → Type 0
  Shown bib xs = (c : Cursor TabledBib) × (find_first p xs ≡ some c) × (c.here ≡ bib)

  Shown-here : (bib : TabledBib) (xs : List TabledBib) → p bib ≡ true → Shown bib (bib ∷ xs)
  unfolding Shown
  Shown-here bib xs e = (_, find_here bib xs e, refl)

  Shown-on :
      (bib x : TabledBib) (xs : List TabledBib) → p x ≡ false → Shown bib xs → Shown bib (x ∷ xs)
  unfolding Shown
  Shown-on bib x xs e (c, f, h) = (_, find_on x xs (some c) e f, h)

  insert_step :
      (bib x : TabledBib) (xs : List TabledBib) (o : Ordering)
      → p bib ≡ true
      → p x ≡ false
      → Shown bib (insert_bib bib xs)
      → Shown bib (elim o [ Ordering.lt ↦ x ∷ insert_bib bib xs | _ ↦ bib ∷ (x ∷ xs) ])
  insert_step bib x xs Ordering.lt e f h = Shown-on bib x (insert_bib bib xs) f h
  insert_step bib x xs Ordering.eq e f h = Shown-here bib (x ∷ xs) e
  insert_step bib x xs Ordering.gt e f h = Shown-here bib (x ∷ xs) e

  insert-Shown :
      (bib : TabledBib) (xs : List TabledBib)
      → p bib ≡ true
      → find_first p xs ≡ none
      → Shown bib (insert_bib bib xs)
  unfolding insert_bib
  insert-Shown bib [] e f = Shown-here bib [] e
  insert-Shown bib (x ∷ xs) e f =
      let (g, h) = find_none x xs f in
      insert_step bib x xs (taddr4_compare x.key.src4 bib.key.src4) e g (insert-Shown bib xs e h)

-- A new entry answers for its IPv6 address, which had none.
pub insert-Maps :
    (t u : BibTable) (bib : TabledBib)
    → u.bibs ≡ insert_bib bib t.bibs
    → find_bib6 t bib.key.src6 ≡ none
    → Maps u bib.key.src6 bib.key.src4
unfolding find_bib6 Shown
insert-Maps t u bib e f =
    let p : TabledBib → Bool = λ b. taddr6_equals b.key.src6 bib.key.src6 in
    let (c, g, h) = insert-Shown p bib t.bibs ((taddr6_equals_iff _ _).1 refl) f in
    (c, ap (find_first p) e ∙ g, ap (λ (b : TabledBib). b.key.src4) h)

-- What a search leaves for the connection's address: a mapping, or none yet.
abbrev pub ShowsMap : BibTable → Ipv6TransportAddr → Found → Type 0
ShowsMap t a (old_session key c) = Maps t a key.src4 × (c.here.bib ≡ key)
ShowsMap t a (old_bib key dst4) = Maps t a key.src4
ShowsMap t a (no_bib src4 dst4) = find_bib6 t a ≡ none
ShowsMap t a _ = Unit

pub find_session-bib :
    (t : BibTable) (key : BibKey) (dst4 : Ipv4TransportAddr) (c : Cursor TabledSession)
    → find_session t key dst4 ≡ some c
    → c.here.bib ≡ key
unfolding find_session key_equals
find_session-bib t key dst4 c e = ground (
  arith,
  (find_first-Finds _ t.sessions c e).passes,
  taddr6_equals_iff c.here.bib.src6 key.src6,
  taddr4_equals_iff c.here.bib.src4 key.src4,
)

pub with_session-ShowsMap :
    (t : BibTable) (masks : Option MaskDomain) (a : Ipv6TransportAddr) (key : BibKey)
    (dst4 : Ipv4TransportAddr) (o : Option (Cursor TabledSession))
    → Maps t a key.src4
    → ((c : Cursor TabledSession) → o ≡ some c → c.here.bib ≡ key)
    → let s = with_session t masks key dst4 o in ShowsMap s.table a s.result
unfolding with_session
with_session-ShowsMap t masks a key dst4 none m q = m
with_session-ShowsMap t masks a key dst4 (some c) m q = (m, q c refl)

pub spoiled-ShowsMap :
    (t : BibTable) (a : Ipv6TransportAddr) (f : Found) → ShowsMap t a f → ShowsMap t a (spoiled f)
unfolding spoiled
spoiled-ShowsMap t a (old_session key c) h = h
spoiled-ShowsMap t a (old_bib key dst4) h = h
spoiled-ShowsMap t a (no_bib src4 dst4) h = tt
spoiled-ShowsMap t a (failed e) h = tt
spoiled-ShowsMap t a fault h = tt

joold_mask-ShowsMap :
    (t : BibTable) (a : Ipv6TransportAddr) (src4 dst4 : Ipv4TransportAddr)
    (o : Option (Cursor TabledBib))
    → find_bib6 t a ≡ none
    → ShowsMap t a (joold_mask src4 dst4 o)
unfolding joold_mask
joold_mask-ShowsMap t a src4 dst4 none h = h
joold_mask-ShowsMap t a src4 dst4 (some c) h = tt

pool_mask-ShowsMap :
    (t : BibTable) (a : Ipv6TransportAddr) (dst4 : Ipv4TransportAddr) (r : Result Ipv4TransportAddr)
    → find_bib6 t a ≡ none
    → ShowsMap t a (pool_mask t dst4 r)
unfolding pool_mask
pool_mask-ShowsMap t a dst4 (ok mask) h = h
pool_mask-ShowsMap t a dst4 (err e) h = tt

pub new_mask-ShowsMap :
    (t : BibTable) (masks : Option MaskDomain) (new : NewConn) (src4 : Ipv4TransportAddr)
    → find_bib6 t new.src6 ≡ none
    → let s = new_mask t masks new src4 in ShowsMap s.table new.src6 s.result
unfolding new_mask
new_mask-ShowsMap t none new src4 h = joold_mask-ShowsMap t new.src6 src4 new.dst4 _ h
new_mask-ShowsMap t (some masks) new src4 h = pool_mask-ShowsMap t new.src6 new.dst4 _ h
