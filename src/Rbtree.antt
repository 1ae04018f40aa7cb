-- ===== src/Rbtree.antt =====
-- mod/common/db/rbtree.h: `rbtree_find`, and `rbtree_find_slot` with `treeslot_commit`. A tree is
-- its shape; colours and rebalancing are the kernel's, and keep the in-order sequence.
pub mod Find
pub mod Put
pub mod Slot
use Prim.Native.Nat.{Ordering}
use jool.Prelude.{Bool, false, ◌||◌, List, [], ◌∷◌, ◌++◌, Option, none, some}
use jool.Types.{Ipv4TransportAddr, addr4_equals, taddr4_compare}
use jool.Bib.Table.{TabledSession}

pub data Tree {ℓ} (A : Type ℓ) : Type ℓ where
  leaf : Tree A
  node : Tree A → A → Tree A → Tree A

module _ {ℓ} {A : Type ℓ} where
  unfoldable pub inorder : Tree A → List A
  inorder leaf = []
  inorder (node l a r) = inorder l ++ (a ∷ inorder r)

  -- `cmp` compares an entry of the tree with the key that is sought.
  unfoldable pub rbtree_find : (A → Ordering) → Tree A → Option A
  rbtree_find cmp leaf = none
  rbtree_find cmp (node l a r) = elim (cmp a) [
    | Ordering.lt ↦ rbtree_find cmp r
    | Ordering.gt ↦ rbtree_find cmp l
    | Ordering.eq ↦ some a
  ]

  -- The slot where the search ends, filled.
  unfoldable pub rbtree_add : (A → Ordering) → A → Tree A → Tree A
  rbtree_add cmp x leaf = node leaf x leaf
  rbtree_add cmp x (node l a r) = elim (cmp a) [
    | Ordering.lt ↦ node l a (rbtree_add cmp x r)
    | Ordering.gt ↦ node (rbtree_add cmp x l) a r
    | Ordering.eq ↦ node l a r
  ]

  -- `rb_replace_node` of the node that the search finds.
  unfoldable pub rbtree_set : (A → Ordering) → A → Tree A → Tree A
  rbtree_set cmp x leaf = leaf
  rbtree_set cmp x (node l a r) = elim (cmp a) [
    | Ordering.lt ↦ node l a (rbtree_set cmp x r)
    | Ordering.gt ↦ node (rbtree_set cmp x l) a r
    | Ordering.eq ↦ node l x r
  ]

-- `find_session_slot` (mod/common/db/bib/db.c) on the tree of a BIB entry: the session, if any, and
-- `*allow`.
unfoldable pub find_session_slot :
    Ipv4TransportAddr → Bool → Tree TabledSession → Option TabledSession × Bool
find_session_slot dst4 allow leaf = (none, allow)
find_session_slot dst4 allow (node l s r) =
    let allowed = allow || addr4_equals s.dst4.l3 dst4.l3 in
    elim (taddr4_compare s.dst4 dst4) [
      | Ordering.lt ↦ find_session_slot dst4 allowed r
      | Ordering.gt ↦ find_session_slot dst4 allowed l
      | Ordering.eq ↦ (some s, allowed)
    ]
