-- ===== src/PktQueue.antt =====
-- mod/common/db/bib/pkt_queue.{h,c}: the packets that may be one half of a simultaneous open
-- ("type 1"), waiting for the other half. The tree and the list hold the same nodes; the list is
-- kept, in its order (oldest first), and a search of the tree by `dst6` is a search of the list.
use jool.Prelude.{
  ℕ, suc, ◌+◌, Bool, true, not, ltb, if◌then◌else◌, List, [], ◌∷◌, ◌++◌, Option, none, some, Cursor,
  find_first, any, keep,
}
use jool.Types.{
  Ipv4TransportAddr, Ipv6TransportAddr, Result, ok, err, eexist, enomem, enospc, taddr4_equals,
  taddr6_equals,
}
use jool.Pool4.MaskDomain.{MaskDomain, mask_domain_matches}

-- `struct pktqueue_session`; a packet is known by a number.
pub record PktqueueSession : Type 0 where
  pub dst6 : Ipv6TransportAddr
  pub src4 : Ipv4TransportAddr
  pub dst4 : Ipv4TransportAddr
  pub skb : ℕ
  pub update_time : ℕ

abbrev pub has_dst6 : Ipv6TransportAddr → PktqueueSession → Bool
has_dst6 addr node = taddr6_equals node.dst6 addr

-- `memory` says whether the allocation succeeds.
unfoldable pub pktqueue_add :
    Bool → List PktqueueSession → PktqueueSession → Bool → Result (List PktqueueSession)
unfolding any
pktqueue_add memory queue node too_many =
    if not memory
    then err enomem
    else if any (has_dst6 node.dst6) queue
    then err eexist
    else if too_many
    then err enospc
    else ok (queue ++ (node ∷ []))

unfoldable pub pktqueue_rm : List PktqueueSession → Ipv4TransportAddr → List PktqueueSession
unfolding keep
pktqueue_rm queue src4 = keep (λ node. not (taddr4_equals node.src4 src4)) queue

-- `!masks || mask_domain_matches(masks, src4)`.
abbrev pub may_match : Option MaskDomain → Ipv4TransportAddr → Bool
may_match none src4 = true
may_match (some masks) src4 = mask_domain_matches masks src4

abbrev pub matching :
    Option MaskDomain → Option (Cursor PktqueueSession) → Option (Cursor PktqueueSession)
matching masks none = none
matching masks (some c) = if may_match masks c.here.src4 then some c else none

-- The cursor stands at the node found, which the C code also takes out of the queue.
unfoldable pub pktqueue_find :
    List PktqueueSession → Ipv6TransportAddr → Option MaskDomain → Option (Cursor PktqueueSession)
unfolding find_first
pktqueue_find queue addr masks = matching masks (find_first (has_dst6 addr) queue)

-- The nodes that stay, and the packets whose time is up, the last one first. The walk stops at the
-- first node whose time is not up.
pub record Cleaned : Type 0 where
  pub left : List PktqueueSession
  pub probes : List PktqueueSession
  pub removed : ℕ

unfoldable pub pktqueue_prepare_clean :
    ℕ → ℕ → List PktqueueSession → List PktqueueSession → Cleaned
pktqueue_prepare_clean jiffies timeout [] probes = record {
  left = [];
  probes = probes;
  removed = 0;
}
pktqueue_prepare_clean jiffies timeout (node ∷ queue) probes =
    let rest = pktqueue_prepare_clean jiffies timeout queue (node ∷ probes) in
    if ltb jiffies (node.update_time + timeout)
    then record { left = node ∷ queue; probes = probes; removed = 0 }
    else record rest { removed = suc rest.removed }
