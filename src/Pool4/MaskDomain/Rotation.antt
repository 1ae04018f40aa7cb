-- ===== src/Pool4/MaskDomain/Rotation.antt =====
-- The iteration of a mask domain visits its candidates in cyclic order.
use jool.Prelude.{
  ℕ, zero, suc, ◌+◌, ◌-◌, ◌≤◌, ◌≡◌, refl, ◌∙◌, inl, inr, ltb, ltb→lt, Bool-cases, List, [], ◌∷◌,
  ◌++◌, arith,
}
use mathlib.Core.List.{append_assoc, append-nil}
use jool.Types.{InAddr, Ipv4TransportAddr, taddr4, Ipv4Range, ok}
use jool.Pool4.MaskDomain.{MaskDomain, Candidate, advance, advance_to, step_port}

-- The transport addresses of `n` ports from `lo` on.
abbrev pub taddrs_from : InAddr → ℕ → ℕ → List Ipv4TransportAddr
taddrs_from a lo zero = []
taddrs_from a lo (suc n) = taddr4 a lo ∷ taddrs_from a (lo + 1) n

abbrev pub range_taddrs : Ipv4Range → List Ipv4TransportAddr
range_taddrs r = taddrs_from r.prefix.addr r.ports.min (r.ports.max + 1 - r.ports.min)

-- The transport addresses that a list of ranges holds.
abbrev pub all_taddrs : List Ipv4Range → List Ipv4TransportAddr
all_taddrs [] = []
all_taddrs (r ∷ rs) = range_taddrs r ++ all_taddrs rs

-- The candidates in the order in which the iteration will meet them.
abbrev pub rotation : MaskDomain → List Ipv4TransportAddr
rotation m =
    taddrs_from m.ranges.here.prefix.addr m.next_port (m.ranges.here.ports.max + 1 - m.next_port)
    ++ (all_taddrs m.ranges.after
        ++ (all_taddrs m.ranges.before
            ++ taddrs_from m.ranges.here.prefix.addr m.ranges.here.ports.min
                (m.next_port - m.ranges.here.ports.min)))

abbrev pub AllOrdered : List Ipv4Range → Type 0
AllOrdered [] = Unit
AllOrdered (r ∷ rs) = (r.ports.min ≤ r.ports.max) × AllOrdered rs

-- The ranges are not empty, and the port stands in the current one or just behind it.
pub record IsDomain (m : MaskDomain) : Type 0 where
  pub before : AllOrdered m.ranges.before
  pub here : m.ranges.here.ports.min ≤ m.ranges.here.ports.max
  pub after : AllOrdered m.ranges.after
  pub low : m.ranges.here.ports.min ≤ m.next_port
  pub high : m.next_port ≤ m.ranges.here.ports.max + 1

taddrs_from-snoc :
    (a : InAddr) (lo n : ℕ)
    → taddrs_from a lo (suc n) ≡ taddrs_from a lo n ++ (taddr4 a (lo + n) ∷ [])
taddrs_from-snoc a lo zero = ground arith
taddrs_from-snoc a lo (suc n) = ground (arith, taddrs_from-snoc a (lo + 1) n)

pub all_taddrs-append :
    (xs ys : List Ipv4Range) → all_taddrs (xs ++ ys) ≡ all_taddrs xs ++ all_taddrs ys
all_taddrs-append [] ys = refl
all_taddrs-append (x ∷ xs) ys = simp (all_taddrs-append xs ys, append_assoc)

pub AllOrdered-append :
    (xs ys : List Ipv4Range) → AllOrdered xs → AllOrdered ys → AllOrdered (xs ++ ys)
AllOrdered-append [] ys h k = k
AllOrdered-append (x ∷ xs) ys h k = (h.0, AllOrdered-append xs ys h.1 k)

-- The cycle behind the current range starts with the range that `advance` goes to.
advance-cycle :
    (after before : List Ipv4Range) (here : Ipv4Range)
    → let c = advance_to after before here in
      all_taddrs after ++ (all_taddrs before ++ range_taddrs here)
      ≡ range_taddrs c.here ++ (all_taddrs c.after ++ all_taddrs c.before)
unfolding advance_to
advance-cycle [] [] here = simp append-nil
advance-cycle [] (x ∷ xs) here = simp (all_taddrs-append, append_assoc, append-nil)
advance-cycle (x ∷ xs) before here = simp (all_taddrs-append, append_assoc, append-nil)

-- Where the port lies within the current range, the rotation starts with it.
rotation_in_range :
    (m : MaskDomain)
    → IsDomain m
    → m.next_port ≤ m.ranges.here.ports.max
    → let a = taddr4 m.ranges.here.prefix.addr m.next_port in
      (rest : List Ipv4TransportAddr) × (rotation m ≡ a ∷ rest)
      × (rotation (record m { next_port = m.next_port + 1 }) ≡ rest ++ (a ∷ []))
rotation_in_range m d h = (
  taddrs_from l3 (m.next_port + 1) (hi - m.next_port)
      ++ (all_taddrs m.ranges.after
          ++ (all_taddrs m.ranges.before ++ taddrs_from l3 lo (m.next_port - lo))),
  rw first,
  rw (second, third) (rw last (simp append_assoc)),
)
  where
    l3 : InAddr
    l3 = m.ranges.here.prefix.addr

    lo : ℕ
    lo = m.ranges.here.ports.min

    hi : ℕ
    hi = m.ranges.here.ports.max

    low : lo ≤ m.next_port
    low = d.low

    first : hi + 1 - m.next_port ≡ suc (hi - m.next_port)
    first = omega arith

    second : hi + 1 - (m.next_port + 1) ≡ hi - m.next_port
    second = omega arith

    third : m.next_port + 1 - lo ≡ suc (m.next_port - lo)
    third = omega arith

    last :
        taddrs_from l3 lo (suc (m.next_port - lo))
        ≡ taddrs_from l3 lo (m.next_port - lo) ++ (taddr4 l3 m.next_port ∷ [])
    last = ground (arith, taddrs_from-snoc l3 lo (m.next_port - lo))

-- The domain at the start of the next range.
abbrev turned : MaskDomain → MaskDomain
turned m = let c = advance m.ranges in record m { ranges = c; next_port = c.here.ports.min }

advance_to-AllOrdered :
    (after before : List Ipv4Range) (here : Ipv4Range)
    → AllOrdered after
    → AllOrdered before
    → here.ports.min ≤ here.ports.max
    → let c = advance_to after before here in
      AllOrdered c.before × (c.here.ports.min ≤ c.here.ports.max) × AllOrdered c.after
unfolding advance_to
advance_to-AllOrdered [] [] here a b h = ground arith
advance_to-AllOrdered [] (x ∷ xs) here a b h =
    (tt, b.0, AllOrdered-append xs (here ∷ []) b.1 (h, tt))
advance_to-AllOrdered (x ∷ xs) before here a b h =
    (AllOrdered-append before (here ∷ []) b (h, tt), a.0, a.1)

turned-IsDomain : (m : MaskDomain) → IsDomain m → IsDomain (turned m)
unfolding advance
turned-IsDomain m d = record {
  before = ordered.0;
  here = ordered.1;
  after = ordered.2;
  low = omega arith;
  high = omega (arith, ordered.1);
}
  where
    ordered :
        let c = advance_to m.ranges.after m.ranges.before m.ranges.here in
        AllOrdered c.before × (c.here.ports.min ≤ c.here.ports.max) × AllOrdered c.after
    ordered =
        advance_to-AllOrdered m.ranges.after m.ranges.before m.ranges.here d.after d.before d.here

self_sub : (n : ℕ) → n - n ≡ 0
self_sub n = omega arith

rotation-turned :
    (m : MaskDomain) → m.next_port ≡ m.ranges.here.ports.max + 1 → rotation m ≡ rotation (turned m)
unfolding advance
rotation-turned m e =
    rw (e, self_sub)
      (rw (advance-cycle m.ranges.after m.ranges.before m.ranges.here, self_sub) (simp append-nil))

-- One more candidate: it heads the rotation, and moves to its end.
pub record Emits (m m' : MaskDomain) (a : Ipv4TransportAddr) : Type 0 where
  pub rest : List Ipv4TransportAddr
  pub first : rotation m ≡ a ∷ rest
  pub last : rotation m' ≡ rest ++ (a ∷ [])
  pub valid : IsDomain m'
  pub same : m' ≡ record m { ranges = m'.ranges; next_port = m'.next_port }

Emits-in_range :
    (m : MaskDomain)
    → IsDomain m
    → m.next_port ≤ m.ranges.here.ports.max
    → Emits m
        (record m { next_port = m.next_port + 1 })
        (taddr4 m.ranges.here.prefix.addr m.next_port)
Emits-in_range m d h =
    let (rest, first, last) = rotation_in_range m d h in
    record {
      rest = rest;
      first = first;
      last = last;
      valid = record {
        before = d.before;
        here = d.here;
        after = d.after;
        low = omega (arith, d.low);
        high = omega arith;
      };
      same = refl;
    }

-- `step_port` gives the candidate that heads the rotation.
pub step_port-Emits :
    (m : MaskDomain)
    → IsDomain m
    → (c : Candidate) × ((step_port m).1 ≡ ok c) × Emits m (step_port m).0 c.addr
unfolding step_port
step_port-Emits m d = elim (Bool-cases (ltb m.ranges.here.ports.max m.next_port)) [
  | inl over ↦
      let v = turned-IsDomain m d in
      let e = Emits-in_range (turned m) v v.here in
      rw over (
        _,
        refl,
        record {
          rest = e.rest;
          first = rotation-turned m (omega (arith, d.high, ltb→lt _ _ over)) ∙ e.first;
          last = e.last;
          valid = e.valid;
          same = refl;
        },
      )
  | inr within ↦ rw within (_, refl, Emits-in_range m d (ground arith))
]
