-- ===== src/Pool4/Ranges/Searched.antt =====
-- `find_port_range` on the ranges that additions leave (mod/common/db/pool4/db.c).
use Prim.Native.Nat.{Ordering}
use jool.Prelude.{
  ℕ, zero, suc, ◌<◌, ◌≡◌, refl, sym, ap, subst, ◌∙◌, ◌≢◌, inl, inr, Bool, Bool-cases, true, false,
  ◌&&◌, ◌||◌, List, [], ◌∷◌, any, Option-cases, none, some, get_elem?, arith,
}
use jool.Types.{InAddr, Ipv4Range, Result, ok, err, addr4_equals, addr4_equals_iff}
use jool.Rbtree.Find.{All}
use jool.Pool4.MaskDomain.{port_range_contains}
use jool.Pool4.Db.{find_port_range, is_found}
use jool.Pool4.Db.PortSearch.{IsOrdered, find_port_range_iff}
use jool.Pool4.Ranges.{Krealloc, refused, Entries, ipv4_range_fuse, pool4_add_range}
use jool.Pool4.Ranges.Insert.{Succeeds, pool4_add_range-All, pool4_add_range-IsApart}
use jool.Pool4.Ranges.Cover.{CoversBoth, pool4_add_range-covers, IsValid, holds, covers}
use jool.Pool4.Ranges.Order.{IsApart-IsValid, IsFusible, IsApart, Before, ipv4_addr_cmp_self}

abbrev pub HasAddr : InAddr → Ipv4Range → Type 0
HasAddr addr r = r.prefix.addr ≡ addr

some_inj : (x y : Ipv4Range) → some x ≡ some y → x ≡ y
some_inj x y e = cc e

none≢some : (r : Ipv4Range) → none ≢ some r
none≢some r e = cc e

lt≢eq : Ordering.lt ≢ Ordering.eq
lt≢eq e = cc e

later : (a c d : Bool) → c ≡ false → ((a && c) || d) ≡ true → d ≡ true
later a c d e h = ground arith

here : (a c d : Bool) → a ≡ true → c ≡ true → ((a && c) || d) ≡ true
here a c d e h = ground arith

there : (b d : Bool) → d ≡ true → (b || d) ≡ true
there b d e = ground arith

All-get :
    (P : Ipv4Range → Type 0) (ranges : List Ipv4Range) (i : ℕ) (r : Ipv4Range)
    → All P ranges
    → get_elem? ranges i ≡ some r
    → P r
All-get P [] i r h e = absurd (cc e)
All-get P (x ∷ ranges) zero r h e = subst P (some_inj x r e) h.0
All-get P (x ∷ ranges) (suc i) r h e = All-get P ranges i r h.1 e

same_addr :
    (addr : InAddr) (r s : Ipv4Range)
    → HasAddr addr r
    → HasAddr addr s
    → Before r s
    → r.ports.max < s.ports.min
same_addr addr r s h k (inl e) =
    absurd (lt≢eq (sym e ∙ ipv4_addr_cmp_self r.prefix.addr s.prefix.addr (h ∙ sym k)))
same_addr addr r s h k (inr (e, q)) = omega (arith, q)

IsApart-apart :
    (addr : InAddr) (ranges : List Ipv4Range) (i j : ℕ) (r s : Ipv4Range)
    → All (HasAddr addr) ranges
    → IsApart ranges
    → i < j
    → get_elem? ranges i ≡ some r
    → get_elem? ranges j ≡ some s
    → r.ports.max < s.ports.min
IsApart-apart addr [] i j r s h a l e f = absurd (cc e)
IsApart-apart addr (x ∷ ranges) i zero r s h a l e f = absurd (omega (arith, l))
IsApart-apart addr (x ∷ ranges) zero (suc j) r s h a l e f =
    subst (λ y. y.ports.max < s.ports.min) (some_inj x r e)
      (same_addr addr x s h.0 (All-get (HasAddr addr) ranges j s h.1 f)
        (All-get (Before x) ranges j s a.2 f))
IsApart-apart addr (x ∷ ranges) (suc i) (suc j) r s h a l e f =
    IsApart-apart addr ranges i j r s h.1 a.3 (omega (arith, l)) e f

IsApart-IsOrdered :
    (addr : InAddr) (ranges : List Ipv4Range)
    → All (HasAddr addr) ranges
    → IsApart ranges
    → IsOrdered ranges
IsApart-IsOrdered addr ranges h a = record {
  valid = λ i r e. All-get IsValid ranges i r (IsApart-IsValid ranges a) e;
  apart = λ i j r s l e f. IsApart-apart addr ranges i j r s h a l e f;
}

-- A range that holds the transport address, by its place.
covers-true :
    (addr : InAddr) (port : ℕ) (ranges : List Ipv4Range)
    → covers addr port ranges ≡ true
    → (r : Ipv4Range) × (port_range_contains r.ports port ≡ true)
      × ((i : ℕ) × (get_elem? ranges i ≡ some r))
unfolding covers any holds
covers-true addr port [] e = absurd (cc e)
covers-true addr port (x ∷ ranges) e = elim (Bool-cases (port_range_contains x.ports port)) [
  | inl c ↦ (x, c, (0, refl))
  | inr c ↦
      let (r, q, (i, f)) = covers-true addr port ranges (
        later (addr4_equals x.prefix.addr addr) (port_range_contains x.ports port)
          (any (holds addr port) ranges) c e) in
      (r, q, (suc i, f))
]

place-covers :
    (addr : InAddr) (port : ℕ) (ranges : List Ipv4Range) (i : ℕ) (r : Ipv4Range)
    → All (HasAddr addr) ranges
    → port_range_contains r.ports port ≡ true
    → get_elem? ranges i ≡ some r
    → covers addr port ranges ≡ true
unfolding covers any holds
place-covers addr port [] i r h c e = absurd (cc e)
place-covers addr port (x ∷ ranges) zero r h c e =
    here (addr4_equals x.prefix.addr addr) (port_range_contains x.ports port)
      (any (holds addr port) ranges) ((addr4_equals_iff x.prefix.addr addr).1 h.0)
      (subst (λ y. port_range_contains y.ports port ≡ true) (sym (some_inj x r e)) c)
place-covers addr port (x ∷ ranges) (suc i) r h c e =
    there (holds addr port x) (any (holds addr port) ranges)
      (place-covers addr port ranges i r h.1 c e)

-- In a table whose ranges are apart and all of one address, the binary search finds a range for a
-- port exactly when the table holds the address with that port.
pub find_port_range-covers :
    (addr : InAddr) (ranges : List Ipv4Range) (port : ℕ)
    → All (HasAddr addr) ranges
    → IsApart ranges
    → is_found (find_port_range ranges port) ≡ covers addr port ranges
find_port_range-covers addr ranges port h a =
    let o = IsApart-IsOrdered addr ranges h a in
    elim (Option-cases (find_port_range ranges port)) [
      | inl e ↦ elim (Bool-cases (covers addr port ranges)) [
        | inl c ↦
            let (r, q, p) = covers-true addr port ranges c in
            absurd (none≢some r (sym e ∙ (find_port_range_iff ranges port r o).1 (q, p)))
        | inr c ↦ subst (λ x. is_found x ≡ covers addr port ranges) (sym e) (sym c)
      ]
      | inr (r, e) ↦
          let (q, (i, p)) = (find_port_range_iff ranges port r o).0 e in
          subst (λ x. is_found x ≡ covers addr port ranges) (sym e)
            (sym (place-covers addr port ranges i r h q p))
    ]

HasAddr-IsFusible : (addr : InAddr) → IsFusible (HasAddr addr)
unfolding ipv4_range_fuse
HasAddr-IsFusible addr r s e h k = h

-- What the search finds after an addition, if that is not an error.
abbrev pub FindsBoth : ℕ → List Ipv4Range → Ipv4Range → Result Entries → Type 0
FindsBoth port ranges new (err e) = ⊥
FindsBoth port ranges new (ok r) =
    is_found (find_port_range r.ranges port)
    ≡ (is_found (find_port_range ranges port) || port_range_contains new.ports port)

new_holds :
    (new : Ipv4Range) (port : ℕ)
    → holds new.prefix.addr port new ≡ port_range_contains new.ports port
unfolding holds
new_holds new port = simp ((addr4_equals_iff new.prefix.addr new.prefix.addr).1 refl) refl

added-FindsBoth :
    (ranges : List Ipv4Range) (new : Ipv4Range) (port : ℕ) (r : Result Entries)
    → All (HasAddr new.prefix.addr) ranges
    → IsApart ranges
    → CoversBoth new.prefix.addr port ranges new r
    → Succeeds IsApart r
    → Succeeds (All (HasAddr new.prefix.addr)) r
    → FindsBoth port ranges new r
added-FindsBoth ranges new port (err e) h a c b k = c
added-FindsBoth ranges new port (ok r) h a c b k =
    let addr = new.prefix.addr in
    find_port_range-covers addr r.ranges port k b
    ∙ c
    ∙ ap (λ x. x || holds addr port new) (sym (find_port_range-covers addr ranges port h a))
    ∙ ap (λ x. is_found (find_port_range ranges port) || x) (new_holds new port)

-- In the tree by addresses, where the ranges of a table are apart and of one address: after a range
-- of that address that is not empty has been added, with memory, the binary search of
-- `pool4db_contains` finds a port exactly when it found it before or the new range contains it.
pub pool4_add_range-FindsBoth :
    (k : Krealloc) (count : ℕ) (ranges : List Ipv4Range) (new : Ipv4Range) (port : ℕ)
    → k ≢ refused
    → All (HasAddr new.prefix.addr) ranges
    → IsApart ranges
    → IsValid new
    → new.prefix.len ≡ 32
    → FindsBoth port ranges new (pool4_add_range k count ranges new)
pool4_add_range-FindsBoth k count ranges new port m h a v l =
    added-FindsBoth ranges new port (pool4_add_range k count ranges new) h a
      (pool4_add_range-covers k count ranges new new.prefix.addr port m (IsApart-IsValid ranges a)
        v)
      (pool4_add_range-IsApart k count ranges new m a v l)
      (pool4_add_range-All (HasAddr new.prefix.addr) k count ranges new m
        (HasAddr-IsFusible new.prefix.addr) h refl)
