-- ===== src/Bib/Mask/Sorted.antt =====
-- `tree4` of mod/common/db/bib/db.c stays sorted, without an address twice, when entries come and go.
use Prim.Native.Nat.{Ordering}
use jool.Prelude.{
  ◌≡◌, ◌≢◌, refl, subst, ◌⊎◌, inl, inr, List, [], ◌∷◌, ◌++◌, none, Cursor, whole, without,
  find_first, arith,
}
use jool.Types.{Ipv4TransportAddr, taddr4_compare, taddr4_equals_iff}
use jool.Bib.Table.{TabledBib, BibTable}
use jool.Bib.Lookup.{find_bib4, insert_bib}
use jool.Bib.Mask.Order.{Before, Before-trans, AllAfter, IsSorted, NoneAt, is_at}

AllAfter-without :
    (a : Ipv4TransportAddr) (xs : List TabledBib) (y : TabledBib) (ys : List TabledBib)
    → AllAfter a (xs ++ (y ∷ ys))
    → AllAfter a (xs ++ ys)
AllAfter-without a [] y ys h = h.1
AllAfter-without a (x ∷ xs) y ys h = (h.0, AllAfter-without a xs y ys h.1)

IsSorted-remove :
    (xs : List TabledBib) (y : TabledBib) (ys : List TabledBib)
    → IsSorted (xs ++ (y ∷ ys))
    → IsSorted (xs ++ ys)
IsSorted-remove [] y ys h = h.1
IsSorted-remove (x ∷ xs) y ys h =
    (AllAfter-without x.key.src4 xs y ys h.0, IsSorted-remove xs y ys h.1)

pub IsSorted-without :
    (bibs : List TabledBib) (c : Cursor TabledBib)
    → bibs ≡ whole c
    → IsSorted bibs
    → IsSorted (without c)
IsSorted-without bibs c e h = IsSorted-remove c.before c.here c.after (subst IsSorted e h)

find-NoneAt :
    (a : Ipv4TransportAddr) (xs : List TabledBib) → find_first (is_at a) xs ≡ none → NoneAt a xs
unfolding find_first
find-NoneAt a [] e = tt
find-NoneAt a (x ∷ xs) e =
    (ground (arith, taddr4_equals_iff x.key.src4 a), find-NoneAt a xs (ground arith))

flip : (a b : Ipv4TransportAddr) → taddr4_compare a b ≡ Ordering.gt → Before b a
unfolding taddr4_compare
flip a b h = ground arith

same : (a b : Ipv4TransportAddr) → taddr4_compare a b ≡ Ordering.eq → a ≡ b
unfolding taddr4_compare
same a b h = ground arith

AllAfter-Before :
    (a b : Ipv4TransportAddr) (xs : List TabledBib) → Before a b → AllAfter b xs → AllAfter a xs
AllAfter-Before a b [] h k = tt
AllAfter-Before a b (x ∷ xs) h k = (Before-trans a b x.key.src4 h k.0, AllAfter-Before a b xs h k.1)

insert_at-IsSorted :
    (bib x : TabledBib) (xs : List TabledBib) (o : Ordering)
    → taddr4_compare x.key.src4 bib.key.src4 ≡ o
    → NoneAt bib.key.src4 (x ∷ xs)
    → IsSorted (x ∷ xs)
    → AllAfter x.key.src4 (insert_bib bib xs) ⊎ (Ordering.lt ≢ o)
    → IsSorted (insert_bib bib xs)
    → IsSorted (elim o [ Ordering.lt ↦ x ∷ insert_bib bib xs | _ ↦ bib ∷ (x ∷ xs) ])
insert_at-IsSorted bib x xs Ordering.lt e n s (inl a) i = (a, i)
insert_at-IsSorted bib x xs Ordering.lt e n s (inr a) i = absurd (a refl)
insert_at-IsSorted bib x xs Ordering.eq e n s a i = absurd (n.0 (same _ _ e))
insert_at-IsSorted bib x xs Ordering.gt e n s a i =
    let b = flip x.key.src4 bib.key.src4 e in
    ((b, AllAfter-Before bib.key.src4 x.key.src4 xs b s.0), s)

insert-AllAfter :
    (a : Ipv4TransportAddr) (bib : TabledBib) (xs : List TabledBib)
    → Before a bib.key.src4
    → AllAfter a xs
    → AllAfter a (insert_bib bib xs)
unfolding insert_bib
insert-AllAfter a bib [] h k = (h, tt)
insert-AllAfter a bib (x ∷ xs) h k =
    place (taddr4_compare x.key.src4 bib.key.src4) (insert-AllAfter a bib xs h k.1)
  where
    place :
        (o : Ordering)
        → AllAfter a (insert_bib bib xs)
        → AllAfter a (elim o [ Ordering.lt ↦ x ∷ insert_bib bib xs | _ ↦ bib ∷ (x ∷ xs) ])
    place Ordering.lt i = (k.0, i)
    place Ordering.eq i = (h, k)
    place Ordering.gt i = (h, k)

insert_bib-IsSorted_list :
    (bib : TabledBib) (xs : List TabledBib)
    → NoneAt bib.key.src4 xs
    → IsSorted xs
    → IsSorted (insert_bib bib xs)
unfolding insert_bib
insert_bib-IsSorted_list bib [] n s = (tt, tt)
insert_bib-IsSorted_list bib (x ∷ xs) n s =
    insert_at-IsSorted bib x xs (taddr4_compare x.key.src4 bib.key.src4) refl n s
      (side (taddr4_compare x.key.src4 bib.key.src4) refl) (insert_bib-IsSorted_list bib xs n.1 s.1)
  where
    side :
        (o : Ordering)
        → taddr4_compare x.key.src4 bib.key.src4 ≡ o
        → AllAfter x.key.src4 (insert_bib bib xs) ⊎ (Ordering.lt ≢ o)
    side Ordering.lt e = inl (insert-AllAfter x.key.src4 bib xs e s.0)
    side Ordering.eq e = inr (λ q. cc q)
    side Ordering.gt e = inr (λ q. cc q)

-- An entry whose address is free.
pub insert_bib-IsSorted :
    (t : BibTable) (bib : TabledBib)
    → find_bib4 t bib.key.src4 ≡ none
    → IsSorted t.bibs
    → IsSorted (insert_bib bib t.bibs)
unfolding find_bib4
insert_bib-IsSorted t bib e s = insert_bib-IsSorted_list bib t.bibs (find-NoneAt _ t.bibs e) s
