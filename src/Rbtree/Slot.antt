-- ===== src/Rbtree/Slot.antt =====
-- `*allow` of `find_session_slot` (mod/common/db/bib/db.c): the sessions on the way down are enough
-- to know whether any session of the tree is with the address.
use Prim.Native.Nat.{Ordering}
use jool.Prelude.{
  ◌≡◌, refl, sym, ap, ◌∙◌, Bool, true, false, ◌||◌, List, [], ◌∷◌, ◌++◌, none, some, any, arith,
}
use jool.Types.{Ipv4TransportAddr, addr4_equals, taddr4_compare}
use jool.Bib.Table.{TabledSession}
use jool.Rbtree.{Tree, leaf, node, inorder, find_session_slot}
use jool.Rbtree.Find.{All}

abbrev pub is_with : Ipv4TransportAddr → TabledSession → Bool
is_with dst4 s = addr4_equals s.dst4.l3 dst4.l3

-- A search tree by `dst4`.
abbrev pub IsSearchTree : Tree TabledSession → Type 0
IsSearchTree leaf = Unit
IsSearchTree (node l s r) =
    All (λ x. taddr4_compare x.dst4 s.dst4 ≡ Ordering.lt) (inorder l)
    × All (λ x. taddr4_compare s.dst4 x.dst4 ≡ Ordering.lt) (inorder r)
    × IsSearchTree l
    × IsSearchTree r

any-append :
    (p : TabledSession → Bool) (xs ys : List TabledSession)
    → any p (xs ++ ys) ≡ (any p xs || any p ys)
unfolding any
any-append p [] ys = refl
any-append p (x ∷ xs) ys = ground (arith, any-append p xs ys)

-- Sessions before one whose address is too small have other addresses.
below :
    (x s d : Ipv4TransportAddr)
    → taddr4_compare x s ≡ Ordering.lt
    → taddr4_compare s d ≡ Ordering.lt
    → addr4_equals s.l3 d.l3 ≡ false
    → addr4_equals x.l3 d.l3 ≡ false
unfolding taddr4_compare addr4_equals
below x s d h k e = ground arith

above :
    (x s d : Ipv4TransportAddr)
    → taddr4_compare s x ≡ Ordering.lt
    → taddr4_compare s d ≡ Ordering.gt
    → addr4_equals s.l3 d.l3 ≡ false
    → addr4_equals x.l3 d.l3 ≡ false
unfolding taddr4_compare addr4_equals
above x s d h k e = ground arith

none_below :
    (xs : List TabledSession) (s d : Ipv4TransportAddr)
    → All (λ x. taddr4_compare x.dst4 s ≡ Ordering.lt) xs
    → taddr4_compare s d ≡ Ordering.lt
    → addr4_equals s.l3 d.l3 ≡ false
    → any (is_with d) xs ≡ false
unfolding any
none_below [] s d h k e = refl
none_below (x ∷ xs) s d h k e = ground (arith, below x.dst4 s d h.0 k e, none_below xs s d h.1 k e)

none_above :
    (xs : List TabledSession) (s d : Ipv4TransportAddr)
    → All (λ x. taddr4_compare s x.dst4 ≡ Ordering.lt) xs
    → taddr4_compare s d ≡ Ordering.gt
    → addr4_equals s.l3 d.l3 ≡ false
    → any (is_with d) xs ≡ false
unfolding any
none_above [] s d h k e = refl
none_above (x ∷ xs) s d h k e = ground (arith, above x.dst4 s d h.0 k e, none_above xs s d h.1 k e)

-- What is known at a node, whichever way the search goes: `x` stands for the side left out.
either :
    (allow w x y : Bool)
    → ((w ≡ false) → x ≡ false)
    → ((allow || w) || y) ≡ (allow || (x || (w || y)))
either allow true x y h = ground arith
either allow false x y h = ground (arith, h refl)

either_gt :
    (allow w x y : Bool)
    → ((w ≡ false) → x ≡ false)
    → ((allow || w) || y) ≡ (allow || (y || (w || x)))
either_gt allow true x y h = ground arith
either_gt allow false x y h = ground (arith, h refl)

any-node :
    (p : TabledSession → Bool) (l : Tree TabledSession) (s : TabledSession) (r : Tree TabledSession)
    → any p (inorder (node l s r)) ≡ (any p (inorder l) || (p s || any p (inorder r)))
unfolding inorder any
any-node p l s r = any-append p (inorder l) (s ∷ inorder r)

slot_node :
    (d : Ipv4TransportAddr) (allow b : Bool) (l : Tree TabledSession) (s : TabledSession)
    (r : Tree TabledSession) (o : Ordering)
    → taddr4_compare s.dst4 d ≡ o
    → IsSearchTree (node l s r)
    → ((a : Bool) → find_session_slot d a l ≡ (none, b) → b ≡ (a || any (is_with d) (inorder l)))
    → ((a : Bool) → find_session_slot d a r ≡ (none, b) → b ≡ (a || any (is_with d) (inorder r)))
    → (elim o [
      | Ordering.lt ↦ find_session_slot d (allow || is_with d s) r
      | Ordering.gt ↦ find_session_slot d (allow || is_with d s) l
      | Ordering.eq ↦ (some s, allow || is_with d s)
    ])
      ≡ (none, b)
    → b ≡ (allow || any (is_with d) (inorder (node l s r)))
slot_node d allow b l s r Ordering.lt e t hl hr q =
    hr (allow || is_with d s) q
    ∙ either allow (is_with d s) _ _ (none_below (inorder l) s.dst4 d t.0 e)
    ∙ ap (λ x. allow || x) (sym (any-node (is_with d) l s r))
slot_node d allow b l s r Ordering.gt e t hl hr q =
    hl (allow || is_with d s) q
    ∙ either_gt allow (is_with d s) _ _ (none_above (inorder r) s.dst4 d t.1 e)
    ∙ ap (λ x. allow || x) (sym (any-node (is_with d) l s r))
slot_node d allow b l s r Ordering.eq e t hl hr q = absurd (cc q)

-- Where the search of a session tree finds no session, `*allow` says whether any session of the
-- tree, on the way down or not, is with the address of the packet.
pub find_session_slot-any :
    (d : Ipv4TransportAddr) (t : Tree TabledSession) (allow b : Bool)
    → IsSearchTree t
    → find_session_slot d allow t ≡ (none, b)
    → b ≡ (allow || any (is_with d) (inorder t))
unfolding find_session_slot inorder any
find_session_slot-any d leaf allow b t q = ground arith
find_session_slot-any d (node l s r) allow b t q =
    slot_node d allow b l s r (taddr4_compare s.dst4 d) refl t
      (λ a. find_session_slot-any d l a b t.2) (λ a. find_session_slot-any d r a b t.3) q
