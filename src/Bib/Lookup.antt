-- ===== src/Bib/Lookup.antt =====
-- The searches of mod/common/db/bib/db.c, and the choice of a mask.
use Prim.Native.Nat.{Ordering}
use jool.Prelude.{
  ℕ, zero, suc, Bool, ◌&&◌, if◌then◌else◌, List, [], ◌∷◌, Option, none, some, Cursor, find_first,
  any,
}
use jool.Types.{
  Ipv4TransportAddr, Ipv6TransportAddr, Result, ok, err, enoent, addr4_equals, taddr4_equals,
  taddr6_equals, taddr4_compare,
}
use jool.Pool4.MaskDomain.{MaskDomain, Candidate, mask_domain_next}
use jool.Bib.Table.{BibKey, TabledBib, TabledSession, BibTable, belongs}

unfoldable pub find_bib6 : BibTable → Ipv6TransportAddr → Option (Cursor TabledBib)
unfolding find_first
find_bib6 table addr = find_first (λ bib. taddr6_equals bib.key.src6 addr) table.bibs

unfoldable pub find_bib4 : BibTable → Ipv4TransportAddr → Option (Cursor TabledBib)
unfolding find_first
find_bib4 table addr = find_first (λ bib. taddr4_equals bib.key.src4 addr) table.bibs

-- `find_session_slot`, whose search of the BIB entry's tree ends at equal `dst4`.
unfoldable pub find_session : BibTable → BibKey → Ipv4TransportAddr → Option (Cursor TabledSession)
unfolding find_first
find_session table key dst4 =
    find_first (λ session. belongs key session && taddr4_equals session.dst4 dst4) table.sessions

-- `*allow`, where no session is found: whether the BIB entry has a session with that address. The
-- C code looks only at the sessions on the way down: see `find_session_slot` in Rbtree.
unfoldable pub find_session_allow : BibTable → BibKey → Ipv4TransportAddr → Bool
unfolding any
find_session_allow table key dst4 =
    any (λ session. belongs key session && addr4_equals session.dst4.l3 dst4.l3) table.sessions

-- `treeslot_commit` into the two trees.
unfoldable pub insert_bib : TabledBib → List TabledBib → List TabledBib
unfolding taddr4_compare
insert_bib bib [] = bib ∷ []
insert_bib bib (x ∷ xs) = elim (taddr4_compare x.key.src4 bib.key.src4) [
  | Ordering.lt ↦ x ∷ insert_bib bib xs
  | _ ↦ bib ∷ (x ∷ xs)
]

-- `rb_next`, and whether it collides.
unfoldable pub next_collides : List TabledBib → Ipv4TransportAddr → Option TabledBib
next_collides [] addr = none
next_collides (next ∷ _) addr = if taddr4_equals next.key.src4 addr then some next else none

unfoldable pub next_of : Option (Cursor TabledBib) → Ipv4TransportAddr → Option TabledBib
unfolding next_collides
next_of none addr = none
next_of (some c) addr = next_collides c.after addr

-- `try_next`: the collision of `addr`, if any, is the successor of `predecessor`.
unfoldable pub try_next : BibTable → Option TabledBib → Ipv4TransportAddr → Option TabledBib
unfolding next_of find_bib4
try_next table none addr = none
try_next table (some predecessor) addr = next_of (find_bib4 table predecessor.key.src4) addr

abbrev pub found : Option (Cursor TabledBib) → Option TabledBib
found none = none
found (some c) = some c.here

unfoldable pub collision_of : BibTable → Option TabledBib → Candidate → Option TabledBib
unfolding try_next find_bib4
collision_of table previous c =
    if c.consecutive then try_next table previous c.addr else found (find_bib4 table c.addr)

abbrev pub MaskResult : Type 0
MaskResult = MaskDomain × Result Ipv4TransportAddr

-- One round of `find_available_mask`, after the candidate and after its collision; `rest` is the
-- next round.
unfoldable pub after_collision :
    (MaskDomain → Option TabledBib → MaskResult)
    → MaskDomain
    → Candidate
    → Option TabledBib
    → MaskResult
after_collision rest masks c none = (masks, ok c.addr)
after_collision rest masks c (some bib) = rest masks (some bib)

unfoldable pub after_next :
    (MaskDomain → Option TabledBib → MaskResult)
    → BibTable
    → Option TabledBib
    → MaskDomain
    → Result Candidate
    → MaskResult
unfolding collision_of after_collision
after_next rest table collision masks (err error) = (masks, err error)
after_next rest table collision masks (ok c) =
    after_collision rest masks c (collision_of table collision c)

-- The loop of `find_available_mask`, with fuel; `collision` is that of the round before.
unfoldable pub find_mask_loop : ℕ → BibTable → MaskDomain → Option TabledBib → MaskResult
unfolding after_next mask_domain_next
find_mask_loop zero table masks collision = (masks, err enoent)
find_mask_loop (suc fuel) table masks collision =
    let r = mask_domain_next masks in after_next (find_mask_loop fuel table) table collision r.0 r.1

-- A round more than there are candidates ends the loop. `mask_domain_commit` adds the counter of
-- the domain that is returned to `next_ephemeral`.
unfoldable pub find_available_mask : BibTable → MaskDomain → MaskDomain × Result Ipv4TransportAddr
unfolding find_mask_loop
find_available_mask table masks = find_mask_loop (suc masks.taddr_count) table masks none
