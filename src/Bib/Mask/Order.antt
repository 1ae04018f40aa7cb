-- ===== src/Bib/Mask/Order.antt =====
-- The order of `tree4`, and why `try_next` may look at the successor only.
use Prim.Native.Nat.{Ordering}
use jool.Prelude.{
  suc, ◌≡◌, ◌≢◌, refl, sym, subst, ◌∙◌, Bool, List, [], ◌∷◌, ◌++◌, none, find_first, arith,
}
use jool.Types.{Ipv4TransportAddr, taddr4, taddr4_equals, taddr4_equals_iff, taddr4_compare}
use jool.Bib.Table.{TabledBib}
use jool.Bib.Lookup.{next_collides}

abbrev pub Before : Ipv4TransportAddr → Ipv4TransportAddr → Type 0
Before a b = taddr4_compare a b ≡ Ordering.lt

abbrev pub succ : Ipv4TransportAddr → Ipv4TransportAddr
succ a = taddr4 a.l3 (suc a.l4)

pub Before-trans : (a b c : Ipv4TransportAddr) → Before a b → Before b c → Before a c
unfolding taddr4_compare
Before-trans a b c h k = ground arith

pub Before-irrefl : (a b : Ipv4TransportAddr) → Before a b → a ≢ b
unfolding taddr4_compare
Before-irrefl a b h = ground arith

pub Before-succ : (a : Ipv4TransportAddr) → Before a (succ a)
unfolding taddr4_compare
Before-succ a = ground arith

-- Nothing lies between an address and its successor.
pub Before-gap : (a b : Ipv4TransportAddr) → Before a b → b ≢ succ a → Before (succ a) b
unfolding taddr4_compare
Before-gap a b h k = ground arith

abbrev pub AllAfter : Ipv4TransportAddr → List TabledBib → Type 0
AllAfter a [] = Unit
AllAfter a (x ∷ xs) = Before a x.key.src4 × AllAfter a xs

-- The in-order sequence of `tree4`, in which no address occurs twice.
abbrev pub IsSorted : List TabledBib → Type 0
IsSorted [] = Unit
IsSorted (x ∷ xs) = AllAfter x.key.src4 xs × IsSorted xs

abbrev pub NoneAt : Ipv4TransportAddr → List TabledBib → Type 0
NoneAt a [] = Unit
NoneAt a (x ∷ xs) = (x.key.src4 ≢ a) × NoneAt a xs

abbrev pub is_at : Ipv4TransportAddr → TabledBib → Bool
is_at a x = taddr4_equals x.key.src4 a

pub NoneAt-find :
    (a : Ipv4TransportAddr) (xs : List TabledBib) → NoneAt a xs → find_first (is_at a) xs ≡ none
unfolding find_first
NoneAt-find a [] h = refl
NoneAt-find a (x ∷ xs) h = ground (arith, NoneAt-find a xs h.1, h.0, taddr4_equals_iff x.key.src4 a)

AllAfter-at :
    (a : Ipv4TransportAddr) (xs : List TabledBib) (y : TabledBib) (ys : List TabledBib)
    → AllAfter a (xs ++ (y ∷ ys))
    → Before a y.key.src4
AllAfter-at a [] y ys h = h.0
AllAfter-at a (x ∷ xs) y ys h = AllAfter-at a xs y ys h.1

AllAfter-NoneAt :
    (a b : Ipv4TransportAddr) (xs : List TabledBib) → Before a b → AllAfter b xs → NoneAt a xs
AllAfter-NoneAt a b [] h k = tt
AllAfter-NoneAt a b (x ∷ xs) h k = (
  λ e. Before-irrefl a x.key.src4 (Before-trans a b x.key.src4 h k.0) (sym e),
  AllAfter-NoneAt a b xs h k.1,
)

-- `try_next` on the entries behind that of `p`.
after-NoneAt :
    (p : Ipv4TransportAddr) (xs : List TabledBib)
    → AllAfter p xs
    → IsSorted xs
    → next_collides xs (succ p) ≡ none
    → NoneAt (succ p) xs
unfolding next_collides
after-NoneAt p [] h s e = tt
after-NoneAt p (x ∷ xs) h s e =
    let differs : x.key.src4 ≢ succ p = ground (arith, e, taddr4_equals_iff x.key.src4 (succ p)) in
    (differs, AllAfter-NoneAt (succ p) x.key.src4 xs (Before-gap p x.key.src4 h.0 differs) s.0)

-- In a sorted table, an address is free as soon as its entry does not follow that of the address
-- before it.
pub succ-NoneAt :
    (p : Ipv4TransportAddr) (before : List TabledBib) (here : TabledBib) (after : List TabledBib)
    → IsSorted (before ++ (here ∷ after))
    → here.key.src4 ≡ p
    → next_collides after (succ p) ≡ none
    → NoneAt (succ p) (before ++ (here ∷ after))
succ-NoneAt p [] here after s e n = (
  λ q. Before-irrefl p (succ p) (Before-succ p) (sym e ∙ q),
  after-NoneAt p after (subst (λ a. AllAfter a after) e s.0) s.1 n,
)
succ-NoneAt p (x ∷ xs) here after s e n = (
  λ q.
      Before-irrefl x.key.src4 (succ p)
        (Before-trans x.key.src4 p (succ p)
          (subst (λ a. Before x.key.src4 a) e (AllAfter-at x.key.src4 xs here after s.0))
          (Before-succ p))
        q,
  succ-NoneAt p xs here after s.1 e n,
)
