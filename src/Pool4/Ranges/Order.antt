-- ===== src/Pool4/Ranges/Order.antt =====
-- The order of the ranges of a table after `pool4_add_range` (mod/common/db/pool4/db.c).
use Prim.Native.Nat.{Ordering}
use jool.Prelude.{
  ℕ, ◌+◌, ◌≤◌, ◌<◌, ◌≡◌, ◌≢◌, ◌⊎◌, inl, inr, sym, subst, ◌∙◌, Bool-cases, false, List, [], ◌∷◌,
  arith,
}
use jool.Types.{InAddr, Ipv4Range, addr4_equals_iff, ipv4_addr_cmp}
use jool.Rbtree.Find.{All, All-map}
use jool.Pool4.Ranges.{
  ipv4_range_touches, port_range_touches, ipv4_range_fuse, port_range_fuse, fix_collisions,
  fused_count,
}
use jool.Pool4.Ranges.Cover.{IsValid, ipv4_range_touches-true, ipv4_range_fuse-IsValid}

-- `r` ends before `s` begins, with a gap between them if they have the same address.
abbrev pub Before : Ipv4Range → Ipv4Range → Type 0
Before r s =
    (ipv4_addr_cmp r.prefix.addr s.prefix.addr ≡ Ordering.lt)
    ⊎ ((r.prefix.addr ≡ s.prefix.addr) × (r.ports.max + 1 < s.ports.min))

ipv4_addr_cmp_trans :
    (a b c : InAddr)
    → ipv4_addr_cmp a b ≡ Ordering.lt
    → ipv4_addr_cmp b c ≡ Ordering.lt
    → ipv4_addr_cmp a c ≡ Ordering.lt
unfolding ipv4_addr_cmp
ipv4_addr_cmp_trans a b c h k = ground arith

pub ipv4_addr_cmp-gt :
    (a b : InAddr) → ipv4_addr_cmp a b ≡ Ordering.gt → ipv4_addr_cmp b a ≡ Ordering.lt
unfolding ipv4_addr_cmp
ipv4_addr_cmp-gt a b h = ground arith

pub ipv4_addr_cmp_self : (a b : InAddr) → a ≡ b → ipv4_addr_cmp a b ≡ Ordering.eq
unfolding ipv4_addr_cmp
ipv4_addr_cmp_self a b h = ground arith

pub Before-trans : (r s t : Ipv4Range) → IsValid s → Before r s → Before s t → Before r t
Before-trans r s t v (inl h) (inl k) =
    inl (ipv4_addr_cmp_trans r.prefix.addr s.prefix.addr t.prefix.addr h k)
Before-trans r s t v (inl h) (inr (e, k)) =
    inl (subst (λ a. ipv4_addr_cmp r.prefix.addr a ≡ Ordering.lt) e h)
Before-trans r s t v (inr (e, h)) (inl k) =
    inl (subst (λ a. ipv4_addr_cmp a t.prefix.addr ≡ Ordering.lt) (sym e) k)
Before-trans r s t v (inr (e, h)) (inr (f, k)) = inr (e ∙ f, omega (arith, v, h, k))

-- In order and apart; no range is empty, and each has one address.
abbrev pub IsApart : List Ipv4Range → Type 0
IsApart [] = Unit
IsApart (r ∷ ranges) = IsValid r × (r.prefix.len ≡ 32) × All (Before r) ranges × IsApart ranges

-- A property of two ranges of one address that is one of the fused range.
abbrev pub IsFusible : (Ipv4Range → Type 0) → Type 0
IsFusible P =
    (r s : Ipv4Range) → r.prefix.addr ≡ s.prefix.addr → P r → P s → P (ipv4_range_fuse r s)

pub fix_collisions-All :
    (P : Ipv4Range → Type 0) (count : ℕ) (entry : Ipv4Range) (ranges : List Ipv4Range)
    → IsFusible P
    → P entry
    → All P ranges
    → All P (fix_collisions count entry ranges).ranges
unfolding fix_collisions
fix_collisions-All P count entry [] f h k = (h, tt)
fix_collisions-All P count entry (next ∷ ranges) f h k =
    elim (Bool-cases (ipv4_range_touches entry next)) [
      | inl e ↦
          let (t, u, v) = ipv4_range_touches-true entry next e in
          simp (e) (
            fix_collisions-All P (fused_count count entry next) (ipv4_range_fuse entry next) ranges
              f (f entry next t h k.0) k.1)
      | inr e ↦ simp (e) (h, k)
    ]

lt≢eq : Ordering.lt ≢ Ordering.eq
lt≢eq e = cc e

pub gt≢lt : Ordering.gt ≢ Ordering.lt
gt≢lt e = cc e

pub ipv4_range_fuse-len :
    (r s : Ipv4Range) → r.prefix.len ≡ 32 → (ipv4_range_fuse r s).prefix.len ≡ 32
unfolding ipv4_range_fuse
ipv4_range_fuse-len r s e = e

pub Before-IsFusible : (r : Ipv4Range) → IsFusible (Before r)
unfolding ipv4_range_fuse port_range_fuse
Before-IsFusible r s t e (inl h) k = inl h
Before-IsFusible r s t e (inr (a, h)) (inl k) =
    absurd (lt≢eq (sym k ∙ ipv4_addr_cmp_self r.prefix.addr t.prefix.addr (a ∙ e)))
Before-IsFusible r s t e (inr (a, h)) (inr (b, k)) = inr (a, ground (arith, h, k))

-- `r` does not begin behind `s`.
abbrev pub Ahead : Ipv4Range → Ipv4Range → Type 0
Ahead r s =
    (ipv4_addr_cmp r.prefix.addr s.prefix.addr ≡ Ordering.lt)
    ⊎ ((r.prefix.addr ≡ s.prefix.addr) × (r.ports.min ≤ s.ports.min))

-- The fused range is ahead of what is behind the second.
Ahead-fuse :
    (r s t : Ipv4Range)
    → r.prefix.addr ≡ s.prefix.addr
    → IsValid s
    → Before s t
    → Ahead (ipv4_range_fuse r s) t
unfolding ipv4_range_fuse port_range_fuse
Ahead-fuse r s t e v (inl h) =
    inl (subst (λ a. ipv4_addr_cmp a t.prefix.addr ≡ Ordering.lt) (sym e) h)
Ahead-fuse r s t e v (inr (a, h)) = inr (e ∙ a, ground arith)

-- A range that does not touch the next one, and is ahead of it, ends before it.
apart-Before :
    (r s : Ipv4Range)
    → ipv4_range_touches r s ≡ false
    → IsValid s
    → r.prefix.len ≡ 32
    → s.prefix.len ≡ 32
    → Ahead r s
    → Before r s
unfolding ipv4_range_touches port_range_touches
apart-Before r s e v h k (inl a) = inl a
apart-Before r s e v h k (inr (a, b)) =
    inr (a, ground (arith, (addr4_equals_iff r.prefix.addr s.prefix.addr).1 a, e, v, h, k, b))

pub fix_collisions-IsApart :
    (count : ℕ) (entry : Ipv4Range) (ranges : List Ipv4Range)
    → IsValid entry
    → entry.prefix.len ≡ 32
    → All (Ahead entry) ranges
    → IsApart ranges
    → IsApart (fix_collisions count entry ranges).ranges
unfolding fix_collisions
fix_collisions-IsApart count entry [] v l a h = (v, l, tt, tt)
fix_collisions-IsApart count entry (next ∷ ranges) v l a h =
    elim (Bool-cases (ipv4_range_touches entry next)) [
      | inl e ↦
          let (t, u, w) = ipv4_range_touches-true entry next e in
          simp (e) (
            fix_collisions-IsApart (fused_count count entry next) (ipv4_range_fuse entry next)
              ranges (ipv4_range_fuse-IsValid entry next v) (ipv4_range_fuse-len entry next l)
              (All-map (Before next) (Ahead (ipv4_range_fuse entry next)) ranges
                (λ x. Ahead-fuse entry next x t h.0) h.2)
              h.3)
      | inr e ↦
          let b = apart-Before entry next e h.0 l h.1 a.0 in
          simp (e) (
            v,
            l,
            (
              b,
              All-map (Before next) (Before entry) ranges (λ x. Before-trans entry next x h.0 b)
                  h.2,
            ),
            h,
          )
    ]

pub IsApart-IsValid : (ranges : List Ipv4Range) → IsApart ranges → All IsValid ranges
IsApart-IsValid [] a = tt
IsApart-IsValid (x ∷ ranges) a = (a.0, IsApart-IsValid ranges a.3)
